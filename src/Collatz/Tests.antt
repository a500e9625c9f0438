-- ===== src/Collatz/Tests.antt =====
-- Runs of the collatz library and instances of its theorems.
use systemy_operacyjne_agh.Prelude.{◌≡◌, refl, true, false, some}
use systemy_operacyjne_agh.Prelude.Int.{pos, negsuc}
use systemy_operacyjne_agh.Collatz.Step.{collatz_conjecture}
use systemy_operacyjne_agh.Collatz.Client.{Line, Client, client_main, dynamic_main}
use systemy_operacyjne_agh.Collatz.Search.{
  returned, overflow, test_collatz_convergence, search, Correct, test_collatz_convergence-Correct,
}

six_takes_eight : test_collatz_convergence (pos 6) (pos 10) ≡ returned (pos 8)
unfolding test_collatz_convergence search collatz_conjecture
six_takes_eight = refl

six_within_three : test_collatz_convergence (pos 6) (pos 3) ≡ returned (negsuc 0)
unfolding test_collatz_convergence search collatz_conjecture
six_within_three = refl

large_overflows : test_collatz_convergence (pos 2147483647) (pos 3) ≡ overflow
unfolding test_collatz_convergence search collatz_conjecture
large_overflows = refl

test_collatz_convergence-Correct_example :
    Correct (pos 6) 10 (test_collatz_convergence (pos 6) (pos 10))
test_collatz_convergence-Correct_example = test_collatz_convergence-Correct (pos 6) (pos 10)

six_is_printed : client_main (some (pos 6)) (some (pos 10)) ≡ Client.printed (Line.result (pos 8))
unfolding client_main test_collatz_convergence search collatz_conjecture
six_is_printed = refl

six_fails : client_main (some (pos 6)) (some (pos 3)) ≡ Client.printed Line.result_failed
unfolding client_main test_collatz_convergence search collatz_conjecture
six_fails = refl

no_library : dynamic_main false true (some (pos 6)) (some (pos 3)) ≡ Client.returned_error
unfolding dynamic_main
no_library = refl

-- ===== src/Collatz/Client.antt =====
-- `main` of cw2/collatzlib/client.c.
use systemy_operacyjne_agh.Prelude.{
  ℕ, zero, suc, ◌<◌, ◌≤◌, ◌≡◌, ◌≢◌, Bool, not, ◌||◌, Option, none, some, if◌then◌else◌, arith,
}
use mathlib.Core.Path.{subst}
use systemy_operacyjne_agh.Prelude.Int.{ℤ, pos, negsuc, eqb_ℤ}
use systemy_operacyjne_agh.Collatz.Search.{
  Outcome, test_collatz_convergence, iterate, Correct, test_collatz_convergence-Correct,
}

-- "result: faild", or the number.
pub data Line : Type 0 where
  result_failed : Line
  result : ℤ → Line

-- `main` has printed a result, has returned -1, has used a number that was never read, or has met a
-- signed overflow.
pub data Client : Type 0 where
  printed : Line → Client
  returned_error : Client
  unset : Client
  overflown : Client
  running : Client

-- `if(result == -1)`
abbrev pub show_result : Outcome → Client
show_result (Outcome.returned x) =
    if eqb_ℤ x (negsuc 0) then Client.printed Line.result_failed else Client.printed (Line.result x)
show_result Outcome.overflow = Client.overflown
show_result Outcome.running = Client.running

-- What the two calls of `scanf` read. Linked with the library; `dynamic_main` loads it first.
unfoldable pub client_main : Option ℤ → Option ℤ → Client
client_main none max_iter = Client.unset
client_main (some input) none = Client.unset
client_main (some input) (some max_iter) = show_result (test_collatz_convergence input max_iter)

-- With DYNAMIC: whether `dlopen` and `dlsym` succeed.
unfoldable pub dynamic_main : Bool → Bool → Option ℤ → Option ℤ → Client
dynamic_main dlopen dlsym input max_iter =
    if not dlopen || not dlsym then Client.returned_error else client_main input max_iter

converges :
    (x : ℤ) (k : ℕ)
    → show_result (Outcome.returned x) ≡ Client.printed (Line.result (pos k))
    → x ≡ pos k
converges (pos j) k e = ground arith
converges (negsuc zero) k e = ground arith
converges (negsuc (suc j)) k e = ground arith

shown_number :
    (input : ℤ) (max k : ℕ) (o : Outcome)
    → show_result o ≡ Client.printed (Line.result (pos k))
    → Correct input max o
    → (k ≤ max)
      × (iterate k input ≡ some (pos 1))
      × ((j : ℕ) → j < k → iterate j input ≢ some (pos 1))
shown_number input max k (Outcome.returned x) e h =
    subst (λ y. Correct input max (Outcome.returned y)) (converges x k e) h
shown_number input max k Outcome.overflow e h = ground arith
shown_number input max k Outcome.running e h = absurd h

-- A number that the client prints is the number of steps after which 1 is reached for the first time,
-- and is not above the bound that was entered.
pub client_main-iterate :
    (input : ℤ) (max k : ℕ)
    → client_main (some input) (some (pos max)) ≡ Client.printed (Line.result (pos k))
    → (k ≤ max)
      × (iterate k input ≡ some (pos 1))
      × ((j : ℕ) → j < k → iterate j input ≢ some (pos 1))
unfolding client_main
client_main-iterate input max k e =
    shown_number input max k (test_collatz_convergence input (pos max)) e
      (test_collatz_convergence-Correct input (pos max))

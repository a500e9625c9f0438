-- ===== src/Integrals/Tests.antt =====
-- Runs of the numeric integration, on whole numbers, and instances of its theorems.
use systemy_operacyjne_agh.Prelude.{
  ℕ, zero, suc, ◌+◌, ◌-◌, ◌*◌, ◌/◌, ◌<◌, ◌≤◌, ◌≡◌, ◌⊎◌, refl, true, none, some, ltb, arith,
}
use native.Mathlib.Decide.{ℕ_discrete}
use systemy_operacyjne_agh.Integrals.Floats.{Floats, intergral_loop, intergral, piece}
use systemy_operacyjne_agh.Integrals.Sum.{advance, IsLast, rectangles, add_up, intergral_lem}
use systemy_operacyjne_agh.Integrals.Processes.{
  Child, Parent, Processes, IsGone, Step, Run, sequential,
}
use systemy_operacyjne_agh.Integrals.Parallel.{parallel-sequential}
use systemy_operacyjne_agh.Integrals.Progress.{HasEnded, PiecesReturn, every_run_ends}

-- Whole numbers, with the division rounded down.
abbrev whole : Floats
whole = record {
  Float = ℕ;
  of_int = λ n. n;
  ratio = λ n. 1 / n;
  plus = λ a b. a + b;
  minus = λ a b. a - b;
  times = λ a b. a * b;
  over = λ a b. a / b;
  below = ltb;
}

from_0_to_3 : intergral whole 5 0 3 1 ≡ some 6
unfolding intergral intergral_loop
from_0_to_3 = refl

intergral_lem_example :
    ((k : ℕ) × (k < 5)
      × IsLast whole k 0 3 1
      × (intergral whole 5 0 3 1 ≡ some (add_up whole 0 (rectangles whole k 0 3 1))))
    ⊎ (((j : ℕ) → j < 5 → ltb (advance whole (suc j) 0 1) 3 ≡ true)
        × (intergral whole 5 0 3 1 ≡ none))
intergral_lem_example = intergral_lem whole 5 0 3 1

one_piece : PiecesReturn whole 1 1
unfolding piece intergral intergral_loop
one_piece zero lt = (1, 4, refl)
one_piece (suc k) lt = absurd (omega arith)

piece_0 : piece whole 1 1 0 1 ≡ some 4
unfolding piece intergral intergral_loop
piece_0 = refl

only_child : (child : ℕ → Child ℕ) → IsGone (child 0) → (k : ℕ) → k < 1 → IsGone (child k)
only_child child gone zero lt = gone
only_child child gone (suc k) lt = absurd (omega arith)

-- One child: it writes 4 and ends, and the parent adds that to 0.
whole_run : (s : Processes ℕ) × Run whole 1 1 8 s × (s.parent ≡ Parent.finished 4)
unfolding ℕ_discrete
whole_run = (
  _,
  Run.then
      (Run.then
        (Run.then
          (Run.then
            (Run.then
              (Run.then
                (Run.then (Run.then Run.begin (Step.forks refl (omega arith)))
                  (Step.all_forked refl (omega arith)))
                (Step.writes 0 1 (omega arith) refl piece_0))
              (Step.exits 0 (omega arith) refl))
            (Step.wait_one 0 (omega arith) refl refl))
          (Step.wait_fails refl (only_child _ tt)))
        (Step.reads refl (omega arith) refl))
      (Step.ends refl (omega arith)),
  refl,
)

parallel-sequential_example : (fuel : ℕ) × (sequential whole 1 1 1 fuel ≡ some 4)
parallel-sequential_example =
    parallel-sequential whole 1 1 8 (whole_run.0) 4 (whole_run.1) (whole_run.2)

every_run_ends_example :
    (8 ≤ 5 * 1 + 3)
    × (HasEnded whole 1 1 (whole_run.0) ⊎ ((t : Processes ℕ) × Step whole 1 1 (whole_run.0) t))
every_run_ends_example = every_run_ends whole 1 1 8 (whole_run.0) one_piece (whole_run.1)

-- ===== src/Fork/Tests.antt =====
-- Runs of the programs of cw4 and cw5/zadanie1 and instances of their theorems.
use systemy_operacyjne_agh.Prelude.{
  ℕ, zero, suc, ◌<◌, ◌≡◌, ◌⊎◌, ◌↔◌, refl, true, false, some, none, List, [], ◌∷◌, ◌++◌, arith,
}
use native.Mathlib.Decide.{ℕ_discrete}
use systemy_operacyjne_agh.Fork.Descendants.{
  Child, Parent, Line, Family, family_start, IsGone, Step, Reach,
}
use systemy_operacyjne_agh.Fork.Waits.{total_last}
use systemy_operacyjne_agh.Fork.Places.{lines_of}
use systemy_operacyjne_agh.Fork.Ends.{Finishes, reach-Finishes}
use systemy_operacyjne_agh.Fork.Exec.{
  Ending, LooksGood, child, child_ending, exec_main, exec_main_lem, Line as ExecLine,
}
use systemy_operacyjne_agh.Fork.Killed.{begins}
use systemy_operacyjne_agh.Fork.Disposition.{
  Disposition, Run, signal_main, mask_word, handler_word, Line as SignalLine,
}

only_child : (child : ℕ → Child) → IsGone (child 0) → (k : ℕ) → k < 1 → IsGone (child k)
only_child child gone zero lt = gone
only_child child gone (suc k) lt = absurd (omega arith)

-- One child, which prints and ends while the parent waits.
family_run : (s : Family) × Reach 1 s × (s.parent ≡ Parent.finished)
unfolding ℕ_discrete
family_run = (
  _,
  Reach.then
      (Reach.then
        (Reach.then
          (Reach.then
            (Reach.then (Reach.then Reach.begin (Step.forks refl (omega arith)))
              (Step.all_forked refl (omega arith)))
            (Step.prints 0 refl))
          (Step.exits 0 refl))
        (Step.wait_one 0 refl refl))
      (Step.wait_fails refl (only_child _ tt)),
  refl,
)

total_last_example :
    (lines : List Line) × (family_run.0.output ≡ lines ++ Line.total 1 ∷ [])
    × ((k : ℕ)
        → k < 1
        → ((family_run.0.child k ≡ Child.reaped) × (lines_of k lines ≡ 1))
          ⊎ ((family_run.0.child k ≡ Child.not_forked) × (lines_of k lines ≡ 0)))
total_last_example = total_last 1 (family_run.0) (family_run.1) (family_run.2)

reach-Finishes_example : Finishes 3 family_start
reach-Finishes_example = reach-Finishes 3 family_start Reach.begin

-- `ls` ends well, `execl` fails, and `ls` is killed by signal 9.
returns :
    ((exec_main true (some ([], Ending.exits 0))).1 ≡ 0)
    × ((exec_main true none).1 ≡ 1)
    × ((exec_main true (some ([], Ending.killed 9))).1 ≡ 0)
unfolding exec_main child
returns = (refl, refl, refl)

exec_main_lem_example :
    (((exec_main true (some ([], Ending.exits 2))).1 ≡ 0)
      ↔ LooksGood (child_ending (some ([], Ending.exits 2))))
    × ((more : List ExecLine) × ((exec_main true (some ([], Ending.exits 2))).0
          ≡ ExecLine.child_process ∷ ExecLine.child_pids ∷ ExecLine.child_values 1 1 ∷ more
            ++ ExecLine.parent_values 0 0 ∷ []))
exec_main_lem_example = exec_main_lem (some ([], Ending.exits 2))

masked :
    signal_main mask_word (begins Disposition.default false)
    ≡ Run.alive (record {
      disposition = Disposition.default;
      blocks = true;
      pending = true;
      output = SignalLine.blocked ∷ [];
    })
unfolding signal_main
masked = refl

handled :
    signal_main handler_word (begins Disposition.default true)
    ≡ Run.alive (record {
      disposition = Disposition.handler;
      blocks = false;
      pending = false;
      output = SignalLine.received ∷ SignalLine.not_blocked ∷ [];
    })
unfolding signal_main
handled = refl

-- ===== src/Fork/Descendants.antt =====
-- cw4/zad1/descendant.c: the parent forks, waits for all and prints; each child prints and ends. On a
-- terminal, where each line is written at once.
use systemy_operacyjne_agh.Prelude.{ℕ, suc, ◌<◌, ◌≤◌, ◌≡◌, List, [], ◌∷◌, ◌++◌}
use systemy_operacyjne_agh.Prelude.Family.{update}

pub data Child : Type 0 where
  unborn : Child
  not_forked : Child  -- `fork` returned -1
  running : Child  -- before `printf`
  printed : Child  -- before `exit`
  exited : Child
  reaped : Child  -- `wait` has returned it

pub data Parent : Type 0 where
  forking : (i : ℕ) → Parent
  waiting : Parent
  finished : Parent

-- "PPID: …, PID: …" of the child `k`, or "Descendants number: …".
pub data Line : Type 0 where
  descendant : (k : ℕ) → Line
  total : (descendants_number : ℕ) → Line

pub record Family : Type 0 where
  pub parent : Parent
  pub child : ℕ → Child
  pub output : List Line

abbrev pub family_start : Family
family_start = record { parent = Parent.forking 0; child = λ k. Child.unborn; output = [] }

-- `wait` has nothing to wait for.
abbrev pub IsGone : Child → Type 0
IsGone Child.unborn = ⊥
IsGone Child.not_forked = Unit {0}
IsGone Child.running = ⊥
IsGone Child.printed = ⊥
IsGone Child.exited = ⊥
IsGone Child.reaped = Unit {0}

-- A step of the parent or of a child; `n` is `descendantsNumber`.
pub data Step (n : ℕ) (s : Family) : Family → Type 0 where
  forks :
      {i : ℕ}
      → s.parent ≡ Parent.forking i
      → i < n
      → Step n s
          (record s { parent = Parent.forking (suc i); child = update s.child i Child.running })
  fork_fails :
      {i : ℕ}
      → s.parent ≡ Parent.forking i
      → i < n
      → Step n s
          (record s { parent = Parent.forking (suc i); child = update s.child i Child.not_forked })
  all_forked :
      {i : ℕ}
      → s.parent ≡ Parent.forking i
      → n ≤ i
      → Step n s (record s { parent = Parent.waiting })
  prints :
      (k : ℕ)
      → s.child k ≡ Child.running
      → Step n s (record s {
        child = update s.child k Child.printed;
        output = s.output ++ Line.descendant k ∷ [];
      })
  exits :
      (k : ℕ)
      → s.child k ≡ Child.printed
      → Step n s (record s { child = update s.child k Child.exited })
  wait_one :
      (k : ℕ)
      → s.parent ≡ Parent.waiting
      → s.child k ≡ Child.exited
      → Step n s (record s { child = update s.child k Child.reaped })
  wait_fails :
      s.parent ≡ Parent.waiting
      → ((k : ℕ) → k < n → IsGone (s.child k))
      → Step n s (record s { parent = Parent.finished; output = s.output ++ Line.total n ∷ [] })

pub data Reach (n : ℕ) : Family → Type 0 where
  begin : Reach n family_start
  then : {s t : Family} → Reach n s → Step n s t → Reach n t

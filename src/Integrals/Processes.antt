-- ===== src/Integrals/Processes.antt =====
-- `main` of cw6/zadanie1/integrals.c with the processes that it forks, one call at a time, and the
-- same sum in one process.
use systemy_operacyjne_agh.Prelude.{ℕ, zero, suc, ◌<◌, ◌≤◌, ◌≡◌, Option, none, some}
use systemy_operacyjne_agh.Prelude.Family.{update}
use systemy_operacyjne_agh.Integrals.Floats.{Floats, piece}

-- A child, with what it wrote into its pipe.
pub data Child (Float : Type 0) : Type 0 where
  unborn : Child Float
  not_forked : Child Float  -- `fork` failed: the pipe has no writer
  working : Child Float  -- in `intergral`
  wrote : Float → Child Float  -- before `exit`
  exited : Float → Child Float
  reaped : Float → Child Float  -- `wait` has returned it

-- The parent: in the loop that forks, in the loop that waits, in the loop that reads, with `res`, or
-- after it; `unset` when `temp` is added though `read` brought nothing.
pub data Parent (Float : Type 0) : Type 0 where
  forking : (i : ℕ) → Parent Float
  waiting : Parent Float
  reading : (i : ℕ) (res : Float) → Parent Float
  finished : (res : Float) → Parent Float
  unset : Parent Float

pub record Processes (Float : Type 0) : Type 0 where
  pub parent : Parent Float
  pub child : ℕ → Child Float

abbrev pub processes_start : {Float : Type 0} → Processes Float
processes_start = record { parent = Parent.forking 0; child = λ k. Child.unborn }

-- Nothing is left for `wait`.
abbrev pub IsGone : {Float : Type 0} → Child Float → Type 0
IsGone Child.unborn = ⊥
IsGone Child.not_forked = Unit {0}
IsGone Child.working = ⊥
IsGone (Child.wrote value) = ⊥
IsGone (Child.exited value) = ⊥
IsGone (Child.reaped value) = Unit {0}

module _ (floats : Floats) (n : ℕ) (step : floats.Float) where
  open floats use {Float, of_int, plus}

  -- A step of the parent or of a child.
  pub data Step (s : Processes Float) : Processes Float → Type 0 where
    forks :
        {i : ℕ}
        → s.parent ≡ Parent.forking i
        → i < n
        → Step s
            (record { parent = Parent.forking (suc i); child = update s.child i Child.working })
    fork_fails :
        {i : ℕ}
        → s.parent ≡ Parent.forking i
        → i < n
        → Step s
            (record { parent = Parent.forking (suc i); child = update s.child i Child.not_forked })
    all_forked :
        {i : ℕ}
        → s.parent ≡ Parent.forking i
        → n ≤ i
        → Step s (record s { parent = Parent.waiting })
    writes :
        (k fuel : ℕ) {value : Float}
        → k < n
        → s.child k ≡ Child.working
        → piece floats n step k fuel ≡ some value
        → Step s (record s { child = update s.child k (Child.wrote value) })
    exits :
        (k : ℕ) {value : Float}
        → k < n
        → s.child k ≡ Child.wrote value
        → Step s (record s { child = update s.child k (Child.exited value) })
    wait_one :
        (k : ℕ) {value : Float}
        → k < n
        → s.parent ≡ Parent.waiting
        → s.child k ≡ Child.exited value
        → Step s (record s { child = update s.child k (Child.reaped value) })
    wait_fails :
        s.parent ≡ Parent.waiting
        → ((k : ℕ) → k < n → IsGone (s.child k))
        → Step s (record s { parent = Parent.reading 0 (of_int 0) })
    reads :
        {i : ℕ} {res value : Float}
        → s.parent ≡ Parent.reading i res
        → i < n
        → s.child i ≡ Child.reaped value
        → Step s (record s { parent = Parent.reading (suc i) (plus res value) })
    reads_nothing :
        {i : ℕ} {res : Float}
        → s.parent ≡ Parent.reading i res
        → i < n
        → s.child i ≡ Child.not_forked
        → Step s (record s { parent = Parent.unset })
    ends :
        {i : ℕ} {res : Float}
        → s.parent ≡ Parent.reading i res
        → n ≤ i
        → Step s (record s { parent = Parent.finished res })

  -- What can be reached in so many steps.
  pub data Run : ℕ → Processes Float → Type 0 where
    begin : Run 0 processes_start
    then : {m : ℕ} {s t : Processes Float} → Run m s → Step s t → Run (suc m) t

  -- The sum of the first pieces, one after the other, in one process.
  unfoldable pub sequential : ℕ → ℕ → Option Float
  sequential zero fuel = some (of_int 0)
  sequential (suc i) fuel = elim (sequential i fuel) [
    | none ↦ none
    | some res ↦ elim (piece floats n step i fuel) [
      | none ↦ none
      | some value ↦ some (plus res value)
    ]
  ]

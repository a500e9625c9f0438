-- ===== src/Integrals/Parallel.antt =====
-- What `main` of cw6/zadanie1/integrals.c prints, whatever the order of its processes.
use systemy_operacyjne_agh.Prelude.{
  ℕ, zero, suc, ◌+◌, ◌≤◌, ◌≡◌, refl, ◌∙◌, some, inl, inr, Option-cases, arith,
}
use systemy_operacyjne_agh.Prelude.Family.{update, update_self, update_other}
use native.Mathlib.Decide.{ℕ_discrete}
use mathlib.Core.Path.{subst, sym}
use systemy_operacyjne_agh.Integrals.Floats.{Floats, piece, intergral}
use systemy_operacyjne_agh.Integrals.Sum.{intergral_loop_more}
use systemy_operacyjne_agh.Integrals.Processes.{Child, Parent, Processes, Step, Run, sequential}

module _ (floats : Floats) (n : ℕ) (step : floats.Float) where
  open floats use {Float, of_int, plus}

  piece_more :
      (i fuel k : ℕ) (value : Float)
      → piece floats n step i fuel ≡ some value
      → fuel ≤ k
      → piece floats n step i k ≡ some value
  unfolding piece intergral
  piece_more i fuel k value e le = intergral_loop_more floats fuel k _ _ step (of_int 0) value e le

  sequential-suc :
      (i fuel : ℕ) (res value : Float)
      → sequential floats n step i fuel ≡ some res
      → piece floats n step i fuel ≡ some value
      → sequential floats n step (suc i) fuel ≡ some (plus res value)
  unfolding sequential
  sequential-suc i fuel res value e f = rw (e, f) refl

  sequential_more :
      (i fuel k : ℕ) (res : Float)
      → sequential floats n step i fuel ≡ some res
      → fuel ≤ k
      → sequential floats n step i k ≡ some res
  unfolding sequential
  sequential_more zero fuel k res e le = e
  sequential_more (suc i) fuel k res e le = elim (Option-cases (sequential floats n step i fuel)) [
    | inl nothing ↦ let absent = rw nothing at e in absurd (ground arith)
    | inr (before, eb) ↦ elim (Option-cases (piece floats n step i fuel)) [
      | inl nothing ↦ let absent = rw (eb, nothing) at e in absurd (ground arith)
      | inr (value, ev) ↦
          let sum = rw (eb, ev) at e in
          sequential-suc i k before value (sequential_more i fuel k before eb le)
            (piece_more i fuel k value ev le)
          ∙ sum
    ]
  ]

  -- What a child holds is its piece.
  abbrev HoldsPiece : ℕ → Child Float → Type 0
  HoldsPiece k Child.unborn = Unit {0}
  HoldsPiece k Child.not_forked = Unit {0}
  HoldsPiece k Child.working = Unit {0}
  HoldsPiece k (Child.wrote value) = (fuel : ℕ) × (piece floats n step k fuel ≡ some value)
  HoldsPiece k (Child.exited value) = (fuel : ℕ) × (piece floats n step k fuel ≡ some value)
  HoldsPiece k (Child.reaped value) = (fuel : ℕ) × (piece floats n step k fuel ≡ some value)

  -- What the parent has added is the sum of the pieces before.
  abbrev HoldsSum : Parent Float → Type 0
  HoldsSum (Parent.forking i) = Unit {0}
  HoldsSum Parent.waiting = Unit {0}
  HoldsSum (Parent.reading i res) =
      (i ≤ n) × ((fuel : ℕ) × (sequential floats n step i fuel ≡ some res))
  HoldsSum (Parent.finished res) = (fuel : ℕ) × (sequential floats n step n fuel ≡ some res)
  HoldsSum Parent.unset = Unit {0}

  abbrev Sums : Processes Float → Type 0
  Sums s = HoldsSum s.parent × ((k : ℕ) → HoldsPiece k (s.child k))

  child_moves :
      (child : ℕ → Child Float) (i : ℕ) (c : Child Float)
      → ((k : ℕ) → HoldsPiece k (child k))
      → HoldsPiece i c
      → (k : ℕ) → HoldsPiece k (update child i c k)
  child_moves child i c all one k = elim (ℕ_discrete i k) [
    | yes e ↦
        subst (λ j. HoldsPiece j (update child i c j)) e
          (subst (HoldsPiece i) (sym (update_self child i c)) one)
    | no e ↦ subst (HoldsPiece k) (sym (update_other child i k c e)) (all k)
  ]

  Sums-step : {s t : Processes Float} → Sums s → Step floats n step s t → Sums t
  unfolding sequential
  Sums-step (sum, pieces) (Step.forks at lt) = (tt, child_moves _ _ Child.working pieces tt)
  Sums-step (sum, pieces) (Step.fork_fails at lt) = (tt, child_moves _ _ Child.not_forked pieces tt)
  Sums-step (sum, pieces) (Step.all_forked at le) = (tt, pieces)
  Sums-step {s = s} (sum, pieces) (Step.writes k fuel {value = value} lt at e) =
      (sum, child_moves s.child k (Child.wrote value) pieces (fuel, e))
  Sums-step {s = s} (sum, pieces) (Step.exits k {value = value} lt at) =
      (sum, child_moves s.child k (Child.exited value) pieces (subst (HoldsPiece k) at (pieces k)))
  Sums-step {s = s} (sum, pieces) (Step.wait_one k {value = value} lt waits at) =
      (sum, child_moves s.child k (Child.reaped value) pieces (subst (HoldsPiece k) at (pieces k)))
  Sums-step (sum, pieces) (Step.wait_fails at gone) = ((omega arith, (0, refl)), pieces)
  Sums-step {s = s} (sum, pieces) (Step.reads {i = i} {res = res} {value = value} at lt got) =
      let (le, (fuel, e)) = subst HoldsSum at sum in
      let (fuel', f) = subst (HoldsPiece i) got (pieces i) in
      (
        (
          omega arith,
          (
            fuel + fuel',
            sequential-suc i (fuel + fuel') res value
                (sequential_more i fuel (fuel + fuel') res e (omega arith))
                (piece_more i fuel' (fuel + fuel') value f (omega arith)),
          ),
        ),
        pieces,
      )
  Sums-step (sum, pieces) (Step.reads_nothing at lt got) = (tt, pieces)
  Sums-step (sum, pieces) (Step.ends {i = i} {res = res} at le) =
      let (le', (fuel, e)) = subst HoldsSum at sum in
      let last : i ≡ n = omega arith in
      ((fuel, subst (λ j. sequential floats n step j fuel ≡ some res) last e), pieces)

  Sums-run : {m : ℕ} {s : Processes Float} → Run floats n step m s → Sums s
  Sums-run Run.begin = (tt, λ k. tt)
  Sums-run (Run.then run move) = Sums-step (Sums-run run) move

  -- Whatever the order of the processes, a result that the parent ends with is the one of the same
  -- pieces computed and added one after the other in one process, rounding included.
  pub parallel-sequential :
      (m : ℕ) (s : Processes Float) (res : Float)
      → Run floats n step m s
      → s.parent ≡ Parent.finished res
      → (fuel : ℕ) × (sequential floats n step n fuel ≡ some res)
  parallel-sequential m s res run e = subst HoldsSum e ((Sums-run run).0)

-- ===== src/Integrals/Ends.antt =====
-- That `main` of cw6/zadanie1/integrals.c ends.
use systemy_operacyjne_agh.Prelude.{
  ℕ, zero, suc, ◌+◌, ◌-◌, ◌<◌, ◌≤◌, ◌≡◌, ◌≢◌, ◌⊎◌, refl, ap, inl, inr, arith, dec_lt,
}
use systemy_operacyjne_agh.Prelude.Family.{update, total, total-update}
use mathlib.Core.Path.{subst}
use systemy_operacyjne_agh.Integrals.Floats.{Floats}
use systemy_operacyjne_agh.Integrals.Processes.{Child, Parent, Processes, IsGone, Step}

-- How many steps a child has left, with the one that forks it.
abbrev pub child_left : {Float : Type 0} → Child Float → ℕ
child_left Child.unborn = 4
child_left Child.not_forked = 0
child_left Child.working = 3
child_left (Child.wrote value) = 2
child_left (Child.exited value) = 1
child_left (Child.reaped value) = 0

module _ (floats : Floats) (n : ℕ) (step : floats.Float) where
  open floats use {Float, of_int, plus}

  abbrev pub parent_left : Parent Float → ℕ
  parent_left (Parent.forking i) = n + 3
  parent_left Parent.waiting = n + 2
  parent_left (Parent.reading i res) = n - i + 1
  parent_left (Parent.finished res) = 0
  parent_left Parent.unset = 0

  -- How many steps are left at most.
  abbrev pub left : Processes Float → ℕ
  left s = parent_left s.parent + total child_left n s.child

  -- Where the children may stand while the parent is at some place.
  abbrev pub Placed : Parent Float → (ℕ → Child Float) → Type 0
  Placed (Parent.forking i) child =
      (i ≤ n)
      × ((k : ℕ) → i ≤ k → child k ≡ Child.unborn)
      × ((k : ℕ) → k < i → child k ≢ Child.unborn)
  Placed Parent.waiting child = (k : ℕ) → k < n → child k ≢ Child.unborn
  Placed (Parent.reading i res) child = (k : ℕ) → k < n → IsGone (child k)
  Placed (Parent.finished res) child = (k : ℕ) → k < n → IsGone (child k)
  Placed Parent.unset child = (k : ℕ) → k < n → IsGone (child k)

  -- A child that moves on has fewer steps left.
  child_drops :
      (child : ℕ → Child Float) (k : ℕ) (c c' : Child Float)
      → k < n
      → child k ≡ c
      → child_left c' < child_left c
      → total child_left n (update child k c') < total child_left n child
  child_drops child k c c' lt at drops =
      let same : child_left (child k) ≡ child_left c = ap child_left at in
      omega (arith, total-update child_left n child k c' lt)

  pub step_drops :
      {s t : Processes Float} → Placed s.parent s.child → Step floats n step s t → left t < left s
  step_drops {s = s} placed (Step.forks {i = i} at lt) =
      let (le, unborn, born) = subst (λ p. Placed p s.child) at placed in
      let parent : parent_left s.parent ≡ n + 3 = ap parent_left at in
      let children =
        child_drops s.child i Child.unborn Child.working lt (unborn i (omega arith))
          (omega arith) in
      omega arith
  step_drops {s = s} placed (Step.fork_fails {i = i} at lt) =
      let (le, unborn, born) = subst (λ p. Placed p s.child) at placed in
      let parent : parent_left s.parent ≡ n + 3 = ap parent_left at in
      let children =
        child_drops s.child i Child.unborn Child.not_forked lt (unborn i (omega arith))
          (omega arith) in
      omega arith
  step_drops {s = s} placed (Step.all_forked at le) =
      let parent : parent_left s.parent ≡ n + 3 = ap parent_left at in omega arith
  step_drops {s = s} placed (Step.writes k fuel {value = value} lt at e) =
      let children = child_drops s.child k Child.working (Child.wrote value) lt at (omega arith) in
      omega arith
  step_drops {s = s} placed (Step.exits k {value = value} lt at) =
      let children =
        child_drops s.child k (Child.wrote value) (Child.exited value) lt at (omega arith) in
      omega arith
  step_drops {s = s} placed (Step.wait_one k {value = value} lt waits at) =
      let children =
        child_drops s.child k (Child.exited value) (Child.reaped value) lt at (omega arith) in
      omega arith
  step_drops {s = s} placed (Step.wait_fails at gone) =
      let parent : parent_left s.parent ≡ n + 2 = ap parent_left at in omega arith
  step_drops {s = s} placed (Step.reads {i = i} {res = res} at lt got) =
      let parent : parent_left s.parent ≡ n - i + 1 = ap parent_left at in omega arith
  step_drops {s = s} placed (Step.reads_nothing {i = i} {res = res} at lt got) =
      let parent : parent_left s.parent ≡ n - i + 1 = ap parent_left at in omega arith
  step_drops {s = s} placed (Step.ends {i = i} {res = res} at le) =
      let parent : parent_left s.parent ≡ n - i + 1 = ap parent_left at in omega arith

  -- A child that is not gone, in its place.
  abbrev pub IsBusy : Child Float → Type 0
  IsBusy c =
      (c ≡ Child.working)
      ⊎ (((value : Float) × (c ≡ Child.wrote value)) ⊎ ((value : Float) × (c ≡ Child.exited value)))

  not_unborn_lem : (c : Child Float) → c ≢ Child.unborn → IsGone c ⊎ IsBusy c
  not_unborn_lem Child.unborn born = absurd (born refl)
  not_unborn_lem Child.not_forked born = inl tt
  not_unborn_lem Child.working born = inr (inl refl)
  not_unborn_lem (Child.wrote value) born = inr (inr (inl (value, refl)))
  not_unborn_lem (Child.exited value) born = inr (inr (inr (value, refl)))
  not_unborn_lem (Child.reaped value) born = inl tt

  pub search_children :
      (child : ℕ → Child Float) (m : ℕ)
      → ((k : ℕ) → k < m → child k ≢ Child.unborn)
      → ((k : ℕ) → k < m → IsGone (child k)) ⊎ ((k : ℕ) × (k < m) × IsBusy (child k))
  search_children child zero born = inl (λ k lt. absurd (omega arith))
  search_children child (suc m) born = elim (not_unborn_lem (child m) (born m (omega arith))) [
    | inr busy ↦ inr (m, omega arith, busy)
    | inl gone ↦ elim (search_children child m (λ k lt. born k (omega arith))) [
      | inr (k, lt, busy) ↦ inr (k, omega arith, busy)
      | inl all ↦ inl (λ k lt. elim (dec_lt k m) [
        | yes below ↦ all k below
        | no last ↦ subst (λ j. IsGone (child j)) (omega arith) gone
      ])
    ]
  ]

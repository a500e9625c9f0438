-- ===== src/Fork/Ends.antt =====
-- That the parent of cw4/zad1/descendant.c ends.
use systemy_operacyjne_agh.Prelude.{
  ℕ, zero, suc, ◌+◌, ◌<◌, ◌≤◌, ◌≡◌, ◌≢◌, ◌⊎◌, refl, sym, ap, ◌∙◌, List, inl, inr, arith, dec_lt,
}
use systemy_operacyjne_agh.Prelude.Family.{update, total, total-update}
use mathlib.Core.Path.{subst}
use systemy_operacyjne_agh.Fork.Descendants.{Child, Parent, Line, Family, IsGone, Step, Reach}
use systemy_operacyjne_agh.Fork.Waits.{Inv, Inv-step, Inv-reach}
use systemy_operacyjne_agh.Fork.Places.{Placed}

-- How many steps are left at most, with the one that forks a child.
abbrev child_left : Child → ℕ
child_left Child.unborn = 4
child_left Child.not_forked = 0
child_left Child.running = 3
child_left Child.printed = 2
child_left Child.exited = 1
child_left Child.reaped = 0

abbrev parent_left : Parent → ℕ
parent_left (Parent.forking i) = 2
parent_left Parent.waiting = 1
parent_left Parent.finished = 0

abbrev left : ℕ → Family → ℕ
left n s = parent_left s.parent + total child_left n s.child

child_drops :
    (n : ℕ) (child : ℕ → Child) (k : ℕ) (c c' : Child)
    → k < n
    → child k ≡ c
    → child_left c' < child_left c
    → total child_left n (update child k c') < total child_left n child
child_drops n child k c c' lt at drops =
    let same : child_left (child k) ≡ child_left c = ap child_left at in
    omega (arith, total-update child_left n child k c' lt)

-- A child that has been forked is one of the first `n`.
born_lt :
    (n : ℕ) (p : Parent) (child : ℕ → Child) (output : List Line) (k : ℕ)
    → Placed n p child output
    → child k ≢ Child.unborn
    → k < n
born_lt n p child output k placed born = elim (dec_lt k n) [
  | yes lt ↦ lt
  | no beyond ↦ absurd (born (unborn p placed (omega arith)))
]
  where
    unborn : (p : Parent) → Placed n p child output → n ≤ k → child k ≡ Child.unborn
    unborn (Parent.forking i) (le, h, old) beyond = h k (omega arith)
    unborn Parent.waiting (h, old) beyond = h k beyond
    unborn Parent.finished (h, gone, last) beyond = h k beyond

moving_drops :
    (n : ℕ) (s : Family) (k : ℕ) (c c' : Child)
    → Inv n s
    → s.child k ≡ c
    → c ≢ Child.unborn
    → child_left c' < child_left c
    → total child_left n (update s.child k c') < total child_left n s.child
moving_drops n s k c c' inv at born drops =
    child_drops n s.child k c c'
      (born_lt n s.parent s.child s.output k inv.placed (λ e. born (sym at ∙ e))) at drops

step_drops : {n : ℕ} {s t : Family} → Inv n s → Step n s t → left n t < left n s
step_drops {n} {s} inv (Step.forks {i = i} at lt) =
    let placed = subst (λ p. Placed n p s.child s.output) at inv.placed in
    let parent : parent_left s.parent ≡ 2 = ap parent_left at in
    omega (
      arith,
      child_drops n s.child i Child.unborn Child.running lt (placed.1 i (omega arith))
          (omega arith),
    )
step_drops {n} {s} inv (Step.fork_fails {i = i} at lt) =
    let placed = subst (λ p. Placed n p s.child s.output) at inv.placed in
    let parent : parent_left s.parent ≡ 2 = ap parent_left at in
    omega (
      arith,
      child_drops n s.child i Child.unborn Child.not_forked lt (placed.1 i (omega arith))
          (omega arith),
    )
step_drops {n} {s} inv (Step.all_forked at le) =
    let parent : parent_left s.parent ≡ 2 = ap parent_left at in omega arith
step_drops {n} {s} inv (Step.prints k at) =
    omega (
      arith,
      moving_drops n s k Child.running Child.printed inv at (λ e. ground arith) (omega arith),
    )
step_drops {n} {s} inv (Step.exits k at) =
    omega (
      arith,
      moving_drops n s k Child.printed Child.exited inv at (λ e. ground arith) (omega arith),
    )
step_drops {n} {s} inv (Step.wait_one k waits at) =
    omega
      (arith, moving_drops n s k Child.exited Child.reaped inv at (λ e. ground arith) (omega arith))
step_drops {n} {s} inv (Step.wait_fails at gone) =
    let parent : parent_left s.parent ≡ 1 = ap parent_left at in omega arith

-- The parent has ended, or some process can take a step, and whichever step is taken, this holds
-- again, and so on in every run until the parent has ended.
pub data Finishes (n : ℕ) : Family → Type 0 where
  ended : {s : Family} → s.parent ≡ Parent.finished → Finishes n s
  goes_on : {s t : Family} → Step n s t → ((u : Family) → Step n s u → Finishes n u) → Finishes n s

-- A child that is not gone, in its place.
abbrev IsBusy : Child → Type 0
IsBusy c = (c ≡ Child.running) ⊎ ((c ≡ Child.printed) ⊎ (c ≡ Child.exited))

born_lem : (c : Child) → c ≢ Child.unborn → IsGone c ⊎ IsBusy c
born_lem Child.unborn born = absurd (born refl)
born_lem Child.not_forked born = inl tt
born_lem Child.running born = inr (inl refl)
born_lem Child.printed born = inr (inr (inl refl))
born_lem Child.exited born = inr (inr (inr refl))
born_lem Child.reaped born = inl tt

search_children :
    (child : ℕ → Child) (m : ℕ)
    → ((k : ℕ) → k < m → child k ≢ Child.unborn)
    → ((k : ℕ) → k < m → IsGone (child k)) ⊎ ((k : ℕ) × IsBusy (child k))
search_children child zero born = inl (λ k lt. absurd (omega arith))
search_children child (suc m) born = elim (born_lem (child m) (born m (omega arith))) [
  | inr busy ↦ inr (m, busy)
  | inl gone ↦ elim (search_children child m (λ k lt. born k (omega arith))) [
    | inr found ↦ inr found
    | inl all ↦ inl (λ k lt. elim (dec_lt k m) [
      | yes below ↦ all k below
      | no last ↦ subst (λ j. IsGone (child j)) (omega arith) gone
    ])
  ]
]

can_move :
    (n : ℕ) (s : Family) (p : Parent)
    → s.parent ≡ p
    → Placed n p s.child s.output
    → (s.parent ≡ Parent.finished) ⊎ ((t : Family) × Step n s t)
can_move n s (Parent.forking i) at placed = elim (dec_lt i n) [
  | yes lt ↦ inr (_, Step.forks at lt)
  | no le ↦ inr (_, Step.all_forked at (omega arith))
]
can_move n s Parent.waiting at (unborn, born) = elim (search_children s.child n born) [
  | inl gone ↦ inr (_, Step.wait_fails at gone)
  | inr (k, inl busy) ↦ inr (_, Step.prints k busy)
  | inr (k, inr (inl busy)) ↦ inr (_, Step.exits k busy)
  | inr (k, inr (inr busy)) ↦ inr (_, Step.wait_one k at busy)
]
can_move n s Parent.finished at placed = inl at

ends_within : (n fuel : ℕ) (s : Family) → Inv n s → left n s ≤ fuel → Finishes n s
ends_within n zero s inv le = elim (can_move n s s.parent refl inv.placed) [
  | inl done ↦ Finishes.ended done
  | inr (t, move) ↦ absurd (omega (arith, step_drops inv move))
]
ends_within n (suc fuel) s inv le = elim (can_move n s s.parent refl inv.placed) [
  | inl done ↦ Finishes.ended done
  | inr (t, move) ↦
      Finishes.goes_on move
        (λ u move'. ends_within n fuel u (Inv-step inv move') (omega (arith, step_drops inv move')))
]

-- From every state that can be reached, in every order of the processes, the parent comes to its end.
pub reach-Finishes : (n : ℕ) (s : Family) → Reach n s → Finishes n s
reach-Finishes n s run = ends_within n (left n s) s (Inv-reach run) (omega arith)

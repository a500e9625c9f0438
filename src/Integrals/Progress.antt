-- ===== src/Integrals/Progress.antt =====
-- That `main` of cw6/zadanie1/integrals.c is never stuck.
use systemy_operacyjne_agh.Prelude.{
  ℕ, zero, suc, ◌+◌, ◌*◌, ◌<◌, ◌≤◌, ◌≡◌, ◌≢◌, ◌⊎◌, refl, ◌∙◌, some, inl, inr, arith, dec_lt,
}
use systemy_operacyjne_agh.Prelude.Family.{update, update_self, update_other, total}
use native.Mathlib.Decide.{ℕ_discrete}
use mathlib.Core.Path.{subst, sym}
use systemy_operacyjne_agh.Integrals.Floats.{Floats, piece}
use systemy_operacyjne_agh.Integrals.Processes.{
  Child, Parent, Processes, processes_start, IsGone, Step, Run,
}
use systemy_operacyjne_agh.Integrals.Ends.{
  child_left, left, Placed, step_drops, IsBusy, search_children,
}

module _ (floats : Floats) (n : ℕ) (step : floats.Float) where
  open floats use {Float, of_int, plus}

  -- After a move of child `i`, what holds of the old and the new place of each holds of all.
  moved :
      (P : ℕ → Child Float → Type 0) (child : ℕ → Child Float) (i : ℕ) (c : Child Float)
      → P i c
      → (k : ℕ) → (i ≢ k → P k (child k))
      → P k (update child i c k)
  moved P child i c here k other = elim (ℕ_discrete i k) [
    | yes e ↦
        subst (λ j. P j (update child i c j)) e (subst (P i) (sym (update_self child i c)) here)
    | no e ↦ subst (P k) (sym (update_other child i k c e)) (other e)
  ]

  Placed-fork :
      (child : ℕ → Child Float) (i : ℕ) (c : Child Float)
      → i < n
      → Placed floats n step (Parent.forking i) child
      → c ≢ Child.unborn
      → Placed floats n step (Parent.forking (suc i)) (update child i c)
  Placed-fork child i c lt (le, unborn, born) new = (
    omega arith,
    λ k after.
        subst (λ d. d ≡ Child.unborn) (sym (update_other child i k c (omega arith)))
          (unborn k (omega arith)),
    λ k before. moved (λ j d. d ≢ Child.unborn) child i c new k (λ other. born k (omega arith)),
  )

  Placed-child :
      (p : Parent Float) (child : ℕ → Child Float) (i : ℕ) (c c' : Child Float)
      → i < n
      → child i ≡ c
      → (IsGone c → ⊥)
      → c ≢ Child.unborn
      → c' ≢ Child.unborn
      → Placed floats n step p child
      → Placed floats n step p (update child i c')
  Placed-child (Parent.forking j) child i c c' lt at busy old new (le, unborn, born) = (
    le,
    λ k after. elim (ℕ_discrete i k) [
      | yes e ↦ absurd (old (sym at ∙ unborn i (omega arith)))
      | no e ↦ subst (λ d. d ≡ Child.unborn) (sym (update_other child i k c' e)) (unborn k after)
    ],
    λ k before. moved (λ j d. d ≢ Child.unborn) child i c' new k (λ other. born k before),
  )
  Placed-child Parent.waiting child i c c' lt at busy old new born =
      λ k inside. moved (λ j d. d ≢ Child.unborn) child i c' new k (λ other. born k inside)
  Placed-child (Parent.reading j res) child i c c' lt at busy old new gone =
      absurd (busy (subst IsGone at (gone i lt)))
  Placed-child (Parent.finished res) child i c c' lt at busy old new gone =
      absurd (busy (subst IsGone at (gone i lt)))
  Placed-child Parent.unset child i c c' lt at busy old new gone =
      absurd (busy (subst IsGone at (gone i lt)))

  Placed-step :
      {s t : Processes Float}
      → Placed floats n step s.parent s.child
      → Step floats n step s t
      → Placed floats n step t.parent t.child
  Placed-step {s = s} placed (Step.forks {i = i} at lt) =
      Placed-fork s.child i Child.working lt (subst (λ p. Placed floats n step p s.child) at placed)
        (λ e. ground arith)
  Placed-step {s = s} placed (Step.fork_fails {i = i} at lt) =
      Placed-fork s.child i Child.not_forked lt
        (subst (λ p. Placed floats n step p s.child) at placed) (λ e. ground arith)
  Placed-step {s = s} placed (Step.all_forked at le) =
      let (le', unborn, born) = subst (λ p. Placed floats n step p s.child) at placed in
      λ k inside. born k (omega arith)
  Placed-step {s = s} placed (Step.writes k fuel {value = value} lt at e) =
      Placed-child s.parent s.child k Child.working (Child.wrote value) lt at (λ gone. gone)
        (λ e. ground arith) (λ e. ground arith) placed
  Placed-step {s = s} placed (Step.exits k {value = value} lt at) =
      Placed-child s.parent s.child k (Child.wrote value) (Child.exited value) lt at (λ gone. gone)
        (λ e. ground arith) (λ e. ground arith) placed
  Placed-step {s = s} placed (Step.wait_one k {value = value} lt waits at) =
      Placed-child s.parent s.child k (Child.exited value) (Child.reaped value) lt at (λ gone. gone)
        (λ e. ground arith) (λ e. ground arith) placed
  Placed-step placed (Step.wait_fails at gone) = gone
  Placed-step {s = s} placed (Step.reads at lt got) =
      subst (λ p. Placed floats n step p s.child) at placed
  Placed-step {s = s} placed (Step.reads_nothing at lt got) =
      subst (λ p. Placed floats n step p s.child) at placed
  Placed-step {s = s} placed (Step.ends at le) =
      subst (λ p. Placed floats n step p s.child) at placed

  Placed-run :
      {m : ℕ} {s : Processes Float} → Run floats n step m s → Placed floats n step s.parent s.child
  Placed-run Run.begin = (omega arith, (λ k after. refl), (λ k before. absurd (omega arith)))
  Placed-run (Run.then run move) = Placed-step (Placed-run run) move

  total_start : (k : ℕ) → total child_left k ((processes_start {Float = Float}).child) ≡ 4 * k
  unfolding total
  total_start zero = refl
  total_start (suc k) = omega (arith, total_start k)

  steps_bounded :
      {m : ℕ} {s : Processes Float} → Run floats n step m s → m + left floats n step s ≤ 5 * n + 3
  steps_bounded Run.begin = omega (arith, total_start n)
  steps_bounded (Run.then run move) =
      omega (arith, steps_bounded run, step_drops floats n step (Placed-run run) move)

  -- The parent is at its end, with a result or after a failed fork.
  abbrev pub HasEnded : Processes Float → Type 0
  HasEnded s = ((res : Float) × (s.parent ≡ Parent.finished res)) ⊎ (s.parent ≡ Parent.unset)

  -- With enough fuel each piece is computed.
  abbrev pub PiecesReturn : Type 0
  PiecesReturn =
      (k : ℕ) → k < n → (fuel : ℕ) × (value : Float) × (piece floats n step k fuel ≡ some value)

  busy_moves :
      (s : Processes Float) (k : ℕ)
      → PiecesReturn
      → k < n
      → s.parent ≡ Parent.waiting
      → IsBusy floats n step (s.child k)
      → (t : Processes Float) × Step floats n step s t
  busy_moves s k returns lt waits (inl at) =
      let (fuel, value, e) = returns k lt in (_, Step.writes k fuel lt at e)
  busy_moves s k returns lt waits (inr (inl (value, at))) = (_, Step.exits k lt at)
  busy_moves s k returns lt waits (inr (inr (value, at))) = (_, Step.wait_one k lt waits at)

  read_moves :
      (s : Processes Float) (i : ℕ) (res : Float) (c : Child Float)
      → s.parent ≡ Parent.reading i res
      → i < n
      → s.child i ≡ c
      → IsGone c
      → (t : Processes Float) × Step floats n step s t
  read_moves s i res Child.unborn at lt got gone = absurd gone
  read_moves s i res Child.not_forked at lt got gone = (_, Step.reads_nothing at lt got)
  read_moves s i res Child.working at lt got gone = absurd gone
  read_moves s i res (Child.wrote value) at lt got gone = absurd gone
  read_moves s i res (Child.exited value) at lt got gone = absurd gone
  read_moves s i res (Child.reaped value) at lt got gone = (_, Step.reads at lt got)

  can_move :
      (s : Processes Float) (p : Parent Float)
      → PiecesReturn
      → s.parent ≡ p
      → Placed floats n step p s.child
      → HasEnded s ⊎ ((t : Processes Float) × Step floats n step s t)
  can_move s (Parent.forking i) returns at placed = elim (dec_lt i n) [
    | yes lt ↦ inr (_, Step.forks at lt)
    | no le ↦ inr (_, Step.all_forked at (omega arith))
  ]
  can_move s Parent.waiting returns at born = elim (search_children floats n step s.child n born) [
    | inl gone ↦ inr (_, Step.wait_fails at gone)
    | inr (k, lt, busy) ↦ inr (busy_moves s k returns lt at busy)
  ]
  can_move s (Parent.reading i res) returns at gone = elim (dec_lt i n) [
    | yes lt ↦ inr (read_moves s i res (s.child i) at lt refl (gone i lt))
    | no le ↦ inr (_, Step.ends at (omega arith))
  ]
  can_move s (Parent.finished res) returns at gone = inl (inl (res, at))
  can_move s Parent.unset returns at gone = inl (inr at)

  -- If each of the `n` pieces is computed with enough fuel, then every run has at most 5n + 3 steps,
  -- and as long as the parent is not at its end, some process can take one.
  pub every_run_ends :
      (m : ℕ) (s : Processes Float)
      → PiecesReturn
      → Run floats n step m s
      → (m ≤ 5 * n + 3) × (HasEnded s ⊎ ((t : Processes Float) × Step floats n step s t))
  every_run_ends m s returns run =
      (omega (arith, steps_bounded run), can_move s s.parent returns refl (Placed-run run))

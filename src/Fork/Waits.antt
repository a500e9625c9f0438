-- ===== src/Fork/Waits.antt =====
-- What the family of cw4/zad1/descendant.c has printed when the parent ends.
use systemy_operacyjne_agh.Prelude.{
  ℕ, suc, ◌+◌, ◌<◌, ◌≡◌, ◌≢◌, ◌⊎◌, refl, sym, ap, ◌∙◌, List, [], ◌∷◌, ◌++◌, inl, inr, arith,
  append-nil, ==-refl, ≢→==,
}
use systemy_operacyjne_agh.Prelude.Family.{update, update_self, update_other}
use native.Mathlib.Decide.{ℕ_discrete}
use mathlib.Core.Path.{subst}
use systemy_operacyjne_agh.Fork.Descendants.{Child, Parent, Line, Family, IsGone, Step, Reach}
use systemy_operacyjne_agh.Fork.Places.{
  lines_of, has_printed, lines_of-append, Placed, Counted, Placed-child, Counted-child,
}

pub record Inv (n : ℕ) (s : Family) : Type 0 where
  pub placed : Placed n s.parent s.child s.output
  pub counted : Counted s.child s.output

silent :
    (child : ℕ → Child) (output : List Line) (i : ℕ) (c c' : Child)
    → child i ≡ c
    → has_printed c ≡ has_printed c'
    → Counted child output
    → Counted (update child i c') output
silent child output i c c' at same counted =
    subst (Counted (update child i c')) (append-nil output) (
      Counted-child child output [] i c' counted (omega (arith, ap has_printed at, same))
        (λ k other. refl))

forked :
    (n i : ℕ) (child : ℕ → Child) (output : List Line) (c : Child)
    → i < n
    → c ≢ Child.unborn
    → Placed n (Parent.forking i) child output
    → Placed n (Parent.forking (suc i)) (update child i c) output
forked n i child output c lt new (le, unborn, old) = (
  omega arith,
  (λ k after. update_other child i k c (omega arith) ∙ unborn k (omega arith)),
  (λ k before e. elim (ℕ_discrete i k) [
    | yes same ↦ new (sym (update_self child i c) ∙ ap (update child i c) same ∙ e)
    | no other ↦ old k (omega arith) (sym (update_other child i k c other) ∙ e)
  ]),
)

pub Inv-step : {n : ℕ} {s t : Family} → Inv n s → Step n s t → Inv n t
Inv-step {n} {s} inv (Step.forks {i = i} at lt) =
    let placed = subst (λ p. Placed n p s.child s.output) at inv.placed in
    record {
      placed = forked n i s.child s.output Child.running lt (λ e. ground arith) placed;
      counted =
          silent s.child s.output i Child.unborn Child.running (placed.1 i (omega arith)) refl
            inv.counted;
    }
Inv-step {n} {s} inv (Step.fork_fails {i = i} at lt) =
    let placed = subst (λ p. Placed n p s.child s.output) at inv.placed in
    record {
      placed = forked n i s.child s.output Child.not_forked lt (λ e. ground arith) placed;
      counted =
          silent s.child s.output i Child.unborn Child.not_forked (placed.1 i (omega arith)) refl
            inv.counted;
    }
Inv-step {n} {s} inv (Step.all_forked at le) =
    let (le', unborn, old) = subst (λ p. Placed n p s.child s.output) at inv.placed in
    record {
      placed = ((λ k after. unborn k (omega arith)), (λ k before. old k (omega arith)));
      counted = inv.counted;
    }
Inv-step {n} {s} inv (Step.prints k at) = record {
  placed =
      Placed-child n s.parent s.child s.output (s.output ++ Line.descendant k ∷ []) k Child.running
        Child.printed at (λ e. ground arith) (λ e. ground arith) (λ gone. gone) inv.placed;
  counted =
      Counted-child s.child s.output (Line.descendant k ∷ []) k Child.printed inv.counted
        (rw (==-refl k) (omega (arith, ap has_printed at))) (λ j other. rw (≢→== k j other) refl);
}
Inv-step {n} {s} inv (Step.exits k at) = record {
  placed =
      Placed-child n s.parent s.child s.output s.output k Child.printed Child.exited at
        (λ e. ground arith) (λ e. ground arith) (λ gone. gone) inv.placed;
  counted = silent s.child s.output k Child.printed Child.exited at refl inv.counted;
}
Inv-step {n} {s} inv (Step.wait_one k waits at) = record {
  placed =
      Placed-child n s.parent s.child s.output s.output k Child.exited Child.reaped at
        (λ e. ground arith) (λ e. ground arith) (λ gone. gone) inv.placed;
  counted = silent s.child s.output k Child.exited Child.reaped at refl inv.counted;
}
Inv-step {n} {s} inv (Step.wait_fails at gone) = record {
  placed = ((subst (λ p. Placed n p s.child s.output) at inv.placed).0, gone, (s.output, refl));
  counted = λ k. omega (arith, lines_of-append k s.output (Line.total n ∷ []), inv.counted k);
}

pub Inv-reach : {n : ℕ} {s : Family} → Reach n s → Inv n s
Inv-reach Reach.begin = record {
  placed = (omega arith, (λ k after. refl), (λ k before. absurd (omega arith)));
  counted = λ k. refl;
}
Inv-reach (Reach.then run move) = Inv-step (Inv-reach run) move

-- Whatever the order of the processes, once the parent has ended, its line with the number is the last
-- of the output, every child that was forked has been waited for, and has printed one line before it,
-- and a child that was not forked none.
pub total_last :
    (n : ℕ) (s : Family)
    → Reach n s
    → s.parent ≡ Parent.finished
    → (lines : List Line) × (s.output ≡ lines ++ Line.total n ∷ [])
      × ((k : ℕ)
          → k < n
          → ((s.child k ≡ Child.reaped) × (lines_of k lines ≡ 1))
            ⊎ ((s.child k ≡ Child.not_forked) × (lines_of k lines ≡ 0)))
total_last n s run ended =
    let inv = Inv-reach run in
    let (unborn, gone, (lines, last)) =
      subst (λ p. Placed n p s.child s.output) ended (inv.placed) in
    (
      lines,
      last,
      λ k lt.
          each lines (s.child k) k refl (gone k lt)
            (ap (lines_of k) last ∙ lines_of-append k lines (Line.total n ∷ [])) (inv.counted k),
    )
  where
    each :
        (lines : List Line) (c : Child) (k : ℕ)
        → s.child k ≡ c
        → IsGone c
        → lines_of k s.output ≡ lines_of k lines + 0
        → lines_of k s.output ≡ has_printed (s.child k)
        → ((s.child k ≡ Child.reaped) × (lines_of k lines ≡ 1))
          ⊎ ((s.child k ≡ Child.not_forked) × (lines_of k lines ≡ 0))
    each lines Child.unborn k at g split count = absurd g
    each lines Child.not_forked k at g split count = inr (at, omega (arith, ap has_printed at))
    each lines Child.running k at g split count = absurd g
    each lines Child.printed k at g split count = absurd g
    each lines Child.exited k at g split count = absurd g
    each lines Child.reaped k at g split count = inl (at, omega (arith, ap has_printed at))

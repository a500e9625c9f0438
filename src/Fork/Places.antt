-- ===== src/Fork/Places.antt =====
-- Where the children of cw4/zad1/descendant.c stand, and what they have printed.
use systemy_operacyjne_agh.Prelude.{
  ℕ, suc, ◌+◌, ◌<◌, ◌≤◌, ◌≡◌, ◌≢◌, sym, ap, ◌∙◌, List, [], ◌∷◌, ◌++◌, arith, dec_lt, ◌==◌,
  if◌then◌else◌,
}
use systemy_operacyjne_agh.Prelude.Family.{update, update_self, update_other}
use native.Mathlib.Decide.{ℕ_discrete}
use mathlib.Core.Path.{subst}
use systemy_operacyjne_agh.Fork.Descendants.{Child, Parent, Line, IsGone}

-- How often the line of child `k` stands in some output.
abbrev pub lines_of : ℕ → List Line → ℕ
lines_of k [] = 0
lines_of k (Line.descendant j ∷ output) =
    let rest = lines_of k output in if j == k then suc rest else rest
lines_of k (Line.total n ∷ output) = lines_of k output

-- How often a child has printed.
abbrev pub has_printed : Child → ℕ
has_printed Child.unborn = 0
has_printed Child.not_forked = 0
has_printed Child.running = 0
has_printed Child.printed = 1
has_printed Child.exited = 1
has_printed Child.reaped = 1

pub lines_of-append : (k : ℕ) (l m : List Line) → lines_of k (l ++ m) ≡ lines_of k l + lines_of k m
lines_of-append k [] m = omega arith
lines_of-append k (Line.descendant j ∷ l) m = ground (arith, lines_of-append k l m)
lines_of-append k (Line.total n ∷ l) m = lines_of-append k l m

-- Where the children stand while the parent is at some place, and that its line is the last.
abbrev pub Placed : ℕ → Parent → (ℕ → Child) → List Line → Type 0
Placed n (Parent.forking i) child output =
    (i ≤ n)
    × ((k : ℕ) → i ≤ k → child k ≡ Child.unborn)
    × ((k : ℕ) → k < i → child k ≢ Child.unborn)
Placed n Parent.waiting child output =
    ((k : ℕ) → n ≤ k → child k ≡ Child.unborn) × ((k : ℕ) → k < n → child k ≢ Child.unborn)
Placed n Parent.finished child output =
    ((k : ℕ) → n ≤ k → child k ≡ Child.unborn)
    × ((k : ℕ) → k < n → IsGone (child k))
    × ((lines : List Line) × (output ≡ lines ++ Line.total n ∷ []))

abbrev pub Counted : (ℕ → Child) → List Line → Type 0
Counted child output = (k : ℕ) → lines_of k output ≡ has_printed (child k)

-- A child that is neither unborn nor gone moves on.
pub Placed-child :
    (n : ℕ) (p : Parent) (child : ℕ → Child) (output output' : List Line) (i : ℕ) (c c' : Child)
    → child i ≡ c
    → c ≢ Child.unborn
    → c' ≢ Child.unborn
    → (IsGone c → ⊥)
    → Placed n p child output
    → Placed n p (update child i c') output'
Placed-child n p child output output' i c c' at born born' busy placed = go p placed
  where
    stays : (k : ℕ) → child k ≡ Child.unborn → update child i c' k ≡ Child.unborn
    stays k unborn = elim (ℕ_discrete i k) [
      | yes e ↦ absurd (born (sym at ∙ ap child e ∙ unborn))
      | no e ↦ update_other child i k c' e ∙ unborn
    ]

    keeps : (k : ℕ) → child k ≢ Child.unborn → update child i c' k ≢ Child.unborn
    keeps k old e = elim (ℕ_discrete i k) [
      | yes same ↦ born' (sym (update_self child i c') ∙ ap (update child i c') same ∙ e)
      | no other ↦ old (sym (update_other child i k c' other) ∙ e)
    ]

    go : (p : Parent) → Placed n p child output → Placed n p (update child i c') output'
    go (Parent.forking j) (le, unborn, old) =
        (le, (λ k after. stays k (unborn k after)), (λ k before. keeps k (old k before)))
    go Parent.waiting (unborn, old) =
        ((λ k after. stays k (unborn k after)), (λ k before. keeps k (old k before)))
    go Parent.finished (unborn, gone, last) = elim (dec_lt i n) [
      | yes below ↦ absurd (busy (subst IsGone at (gone i below)))
      | no beyond ↦ absurd (born (sym at ∙ unborn i (omega arith)))
    ]

-- A child that prints has one line more, the others as many as before.
pub Counted-child :
    (child : ℕ → Child) (output more : List Line) (i : ℕ) (c : Child)
    → Counted child output
    → lines_of i more + has_printed (child i) ≡ has_printed c
    → ((k : ℕ) → i ≢ k → lines_of k more ≡ 0)
    → Counted (update child i c) (output ++ more)
Counted-child child output more i c counted one others k = elim (ℕ_discrete i k) [
  | yes e ↦
      subst (λ j. lines_of j (output ++ more) ≡ has_printed (update child i c j)) e
        (omega
          (arith, lines_of-append i output more, counted i, ap has_printed (update_self child i c)))
  | no e ↦ omega (
    arith,
    lines_of-append k output more,
    counted k,
    others k e,
    ap has_printed (update_other child i k c e),
  )
]

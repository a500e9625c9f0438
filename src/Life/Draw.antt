-- ===== src/Life/Draw.antt =====
-- `draw_grid` of cw9/grid.c, as what it draws, in order, and the screen after it.
use systemy_operacyjne_agh.Prelude.{
  ℕ, zero, suc, ◌+◌, ◌*◌, ◌<◌, ◌≤◌, ◌≡◌, ◌≢◌, ◌⊎◌, refl, sym, ap, ◌∙◌, Bool-cases, Bool, true,
  false, ◌&&◌, Option, none, some, List, [], ◌∷◌, ◌++◌, arith, get_or, ◌==◌, if◌then◌else◌, inl,
  inr, ==-refl, ≢→==, dec_lt,
}
use mathlib.Core.Path.{subst}
use systemy_operacyjne_agh.Life.Grid.{grid_width, grid_height, is_set}

-- `mvprintw` of a block or a space at a row and a column.
pub record Mark : Type 0 where
  pub row : ℕ
  pub column : ℕ
  pub block : Bool

-- The loop over `j` in row `i`, and the loop over `i`, with `n` rounds left.
unfoldable pub draw_row : List ℕ → ℕ → ℕ → ℕ → List Mark
draw_row grid i zero j = []
draw_row grid i (suc n) j =
    let rest = draw_row grid i n (j + 1) in
    if is_set (get_or grid (i * grid_width + j) 0)
    then record { row = i; column = j * 2; block = true }
      ∷ record { row = i; column = j * 2 + 1; block = false }
      ∷ rest
    else record { row = i; column = j * 2; block = false }
      ∷ record { row = i; column = j * 2 + 1; block = false }
      ∷ rest

unfoldable pub draw_rows : List ℕ → ℕ → ℕ → List Mark
draw_rows grid zero i = []
draw_rows grid (suc n) i = draw_row grid i grid_width 0 ++ draw_rows grid n (i + 1)

unfoldable pub draw_grid : List ℕ → List Mark
draw_grid grid = draw_rows grid grid_height 0

-- The last mark at a place.
abbrev or_else : Option Bool → Option Bool → Option Bool
or_else (some b) o = some b
or_else none o = o

abbrev pub shown : List Mark → ℕ → ℕ → Option Bool
shown [] r c = none
shown (m ∷ marks) r c =
    or_else (shown marks r c) (if (m.row == r) && (m.column == c) then some m.block else none)

or_else-none : (o : Option Bool) → or_else o none ≡ o
or_else-none none = refl
or_else-none (some b) = refl

shown-append :
    (l m : List Mark) (r c : ℕ) → shown (l ++ m) r c ≡ or_else (shown m r c) (shown l r c)
shown-append [] m r c = sym (or_else-none (shown m r c))
shown-append (x ∷ l) m r c =
    ap (λ o. or_else o here) (shown-append l m r c) ∙ assoc (shown m r c) (shown l r c) here
  where
    here : Option Bool
    here = if (x.row == r) && (x.column == c) then some x.block else none

    assoc : (a b d : Option Bool) → or_else (or_else a b) d ≡ or_else a (or_else b d)
    assoc none b d = refl
    assoc (some a) b d = refl

abbrev mark : ℕ → ℕ → Bool → Mark
mark r c b = record { row = r; column = c; block = b }

-- The two marks of a cell.
draw_row-suc :
    (grid : List ℕ) (i n j : ℕ)
    → draw_row grid i (suc n) j
      ≡ mark i (j * 2) (is_set (get_or grid (i * grid_width + j) 0))
        ∷ mark i (j * 2 + 1) false
        ∷ draw_row grid i n (j + 1)
unfolding draw_row
draw_row-suc grid i n j = elim (Bool-cases (is_set (get_or grid (i * grid_width + j) 0))) [
  | inl alive ↦ rw alive refl
  | inr dead ↦ rw dead refl
]

elsewhere :
    (m : Mark) (r c : ℕ)
    → (m.row ≢ r) ⊎ (m.column ≢ c)
    → (if (m.row == r) && (m.column == c) then some m.block else none) ≡ none
elsewhere m r c (inl other) = rw (≢→== m.row r other) refl
elsewhere m r c (inr other) = rw (≢→== m.column c other) (ground arith)

row_elsewhere :
    (grid : List ℕ) (i n j r c : ℕ) → (i ≢ r) ⊎ (c < j * 2) → shown (draw_row grid i n j) r c ≡ none
unfolding draw_row
row_elsewhere grid i zero j r c out = refl
row_elsewhere grid i (suc n) j r c out =
    ap (λ l. shown l r c) (draw_row-suc grid i n j)
    ∙ rw
        (
          row_elsewhere grid i n (j + 1) r c (later out),
          elsewhere (mark i (j * 2 + 1) false) r c (apart (j * 2 + 1) (omega arith) out),
          elsewhere (mark i (j * 2) (is_set (get_or grid (i * grid_width + j) 0))) r c
              (apart (j * 2) (omega arith) out),
        )
        refl
  where
    later : (i ≢ r) ⊎ (c < j * 2) → (i ≢ r) ⊎ (c < (j + 1) * 2)
    later (inl other) = inl other
    later (inr before) = inr (omega arith)

    apart : (d : ℕ) → j * 2 ≤ d → (i ≢ r) ⊎ (c < j * 2) → (i ≢ r) ⊎ (d ≢ c)
    apart d le (inl other) = inl other
    apart d le (inr before) = inr (λ e. absurd (omega arith))

-- What a row shows in the columns of a cell.
abbrev ShowsCell : List ℕ → List Mark → ℕ → ℕ → Type 0
ShowsCell grid marks r k =
    (shown marks r (k * 2) ≡ some (is_set (get_or grid (r * grid_width + k) 0)))
    × (shown marks r (k * 2 + 1) ≡ some false)

here : (r c : ℕ) (b : Bool) → (if (r == r) && (c == c) then some b else none) ≡ some b
here r c b = rw (==-refl r, ==-refl c) refl

row_shows :
    (grid : List ℕ) (i n j k : ℕ) → j ≤ k → k < j + n → ShowsCell grid (draw_row grid i n j) i k
unfolding draw_row
row_shows grid i zero j k le lt = absurd (omega arith)
row_shows grid i (suc n) j k le lt = elim (dec_lt j k) [
  | yes after ↦
      let (block, space) = row_shows grid i n (j + 1) k (omega arith) (omega arith) in
      (
        ap (λ l. shown l i (k * 2)) (draw_row-suc grid i n j) ∙ rw block refl,
        ap (λ l. shown l i (k * 2 + 1)) (draw_row-suc grid i n j) ∙ rw space refl,
      )
  | no first ↦
      let same : j ≡ k = omega arith in
      subst (ShowsCell grid (draw_row grid i (suc n) j) i) same (
        ap (λ l. shown l i (j * 2)) (draw_row-suc grid i n j)
            ∙ rw
                (
                  row_elsewhere grid i n (j + 1) i (j * 2) (inr (omega arith)),
                  elsewhere (mark i (j * 2 + 1) false) i (j * 2) (inr (λ e. absurd (omega arith))),
                  here i (j * 2) (is_set (get_or grid (i * grid_width + j) 0)),
                )
                refl,
        ap (λ l. shown l i (j * 2 + 1)) (draw_row-suc grid i n j)
            ∙ rw
                (
                  row_elsewhere grid i n (j + 1) i (j * 2 + 1) (inr (omega arith)),
                  here i (j * 2 + 1) false,
                )
                refl,
      )
]

rows_elsewhere : (grid : List ℕ) (n i r c : ℕ) → r < i → shown (draw_rows grid n i) r c ≡ none
unfolding draw_rows
rows_elsewhere grid zero i r c before = refl
rows_elsewhere grid (suc n) i r c before =
    shown-append (draw_row grid i grid_width 0) (draw_rows grid n (i + 1)) r c
    ∙ rw (rows_elsewhere grid n (i + 1) r c (omega arith))
        (row_elsewhere grid i grid_width 0 r c (inl (λ e. absurd (omega arith))))

rows_show :
    (grid : List ℕ) (n i r k : ℕ)
    → i ≤ r
    → r < i + n
    → k < 30
    → ShowsCell grid (draw_rows grid n i) r k
unfolding draw_rows
rows_show grid zero i r k le lt in_row = absurd (omega arith)
rows_show grid (suc n) i r k le lt in_row = elim (dec_lt i r) [
  | yes after ↦
      let (block, space) = rows_show grid n (i + 1) r k (omega arith) (omega arith) in_row in
      (
        shown-append (draw_row grid i grid_width 0) (draw_rows grid n (i + 1)) r (k * 2)
            ∙ rw block refl,
        shown-append (draw_row grid i grid_width 0) (draw_rows grid n (i + 1)) r (k * 2 + 1)
            ∙ rw space refl,
      )
  | no first ↦
      let same : i ≡ r = omega arith in
      let (block, space) = row_shows grid i grid_width 0 k (omega arith) (omega arith) in
      subst (λ q. ShowsCell grid (draw_rows grid (suc n) i) q k) same
        (
          shown-append (draw_row grid i grid_width 0) (draw_rows grid n (i + 1)) i (k * 2)
              ∙ rw (rows_elsewhere grid n (i + 1) i (k * 2) (omega arith)) block,
          shown-append (draw_row grid i grid_width 0) (draw_rows grid n (i + 1)) i (k * 2 + 1)
              ∙ rw (rows_elsewhere grid n (i + 1) i (k * 2 + 1) (omega arith)) space,
        )
]

-- After `draw_grid` each cell is shown in its row, in two columns: a block if it lives, else a space,
-- and a space after it.
pub draw_grid-shown :
    (grid : List ℕ) (r k : ℕ)
    → r < grid_height
    → k < grid_width
    → (shown (draw_grid grid) r (k * 2) ≡ some (is_set (get_or grid (r * grid_width + k) 0)))
      × (shown (draw_grid grid) r (k * 2 + 1) ≡ some false)
unfolding draw_grid
draw_grid-shown grid r k hr hk = rows_show grid grid_height 0 r k (omega arith) (omega arith) hk

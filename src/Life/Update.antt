-- ===== src/Life/Update.antt =====
-- `update_grid` of cw9/grid.c, cell by cell.
use systemy_operacyjne_agh.Prelude.{
  ℕ, zero, suc, ◌+◌, ◌*◌, ◌/◌, ◌%◌, ◌≤◌, ◌<◌, ◌≡◌, refl, ap, ap₂, ◌∙◌, ◌⊎◌, List, arith, length,
  get_or, set, length-set, get_or-set_self, get_or-set_ne, dec_lt, ℕ_discrete,
}
use systemy_operacyjne_agh.Life.Grid.{
  grid_width, grid_height, cells, to_char, is_alive, update_row, update_rows, update_grid,
}

-- The cell at index `k` in the next generation.
abbrev pub next_cell : List ℕ → ℕ → ℕ
next_cell src k = to_char (is_alive (k / grid_width) (k % grid_width) src)

length-update_row :
    (src : List ℕ) (i n j : ℕ) (dst : List ℕ) → length (update_row src i n j dst) ≡ length dst
unfolding update_row
length-update_row src i zero j dst = refl
length-update_row src i (suc n) j dst =
    length-update_row src i n (j + 1) _ ∙ length-set dst (i * grid_width + j) _

-- Outside its columns the row loop changes nothing.
update_row_outside :
    (src : List ℕ) (i n j : ℕ) (dst : List ℕ) (k : ℕ)
    → (k < i * 30 + j) ⊎ (i * 30 + (j + n) ≤ k)
    → get_or (update_row src i n j dst) k 0 ≡ get_or dst k 0
unfolding update_row
update_row_outside src i zero j dst k h = refl
update_row_outside src i (suc n) j dst k h =
    update_row_outside src i n (j + 1) _ k (omega arith)
    ∙ get_or-set_ne dst (i * 30 + j) k _ 0 (omega arith)

-- Inside them it writes the next generation.
update_row_inside :
    (src : List ℕ) (i n j : ℕ) (dst : List ℕ) (k : ℕ)
    → i * 30 + j ≤ k
    → k < i * 30 + (j + n)
    → j + n ≤ 30
    → k < length dst
    → get_or (update_row src i n j dst) k 0 ≡ next_cell src k
unfolding update_row
update_row_inside src i zero j dst k h l b s = absurd (omega arith)
update_row_inside src i (suc n) j dst k h l b s = elim (ℕ_discrete (i * 30 + j) k) [
  | yes e ↦
      update_row_outside src i n (j + 1) _ k (omega arith)
      ∙ ap (λ m. get_or (set dst m (to_char (is_alive i j src))) k 0) e
      ∙ get_or-set_self dst k _ 0 s
      ∙ ap₂ (λ r c. to_char (is_alive r c src)) (omega arith) (omega arith)
  | no e ↦
      update_row_inside src i n (j + 1) _ k (omega arith) (omega arith) (omega arith)
        (omega (arith, length-set dst (i * 30 + j) (to_char (is_alive i j src))))
]

length-update_rows :
    (src : List ℕ) (n i : ℕ) (dst : List ℕ) → length (update_rows src n i dst) ≡ length dst
unfolding update_rows
length-update_rows src zero i dst = refl
length-update_rows src (suc n) i dst =
    length-update_rows src n (i + 1) _ ∙ length-update_row src i grid_width 0 dst

update_rows_outside :
    (src : List ℕ) (n i : ℕ) (dst : List ℕ) (k : ℕ)
    → k < i * 30
    → get_or (update_rows src n i dst) k 0 ≡ get_or dst k 0
unfolding update_rows
update_rows_outside src zero i dst k h = refl
update_rows_outside src (suc n) i dst k h =
    update_rows_outside src n (i + 1) _ k (omega arith)
    ∙ update_row_outside src i grid_width 0 dst k (omega arith)

update_rows_inside :
    (src : List ℕ) (n i : ℕ) (dst : List ℕ) (k : ℕ)
    → i * 30 ≤ k
    → k < (i + n) * 30
    → k < length dst
    → get_or (update_rows src n i dst) k 0 ≡ next_cell src k
unfolding update_rows
update_rows_inside src zero i dst k h l s = absurd (omega arith)
update_rows_inside src (suc n) i dst k h l s = elim (dec_lt k (i * 30 + 30)) [
  | yes here ↦
      update_rows_outside src n (i + 1) _ k (omega arith)
      ∙ update_row_inside src i grid_width 0 dst k (omega arith) (omega arith) (omega arith) s
  | no later ↦
      update_rows_inside src n (i + 1) _ k (omega arith) (omega arith)
        (omega (arith, length-update_row src i grid_width 0 dst))
]

-- `update_grid` keeps the size of the target, and each of its 900 cells becomes what `is_alive`
-- says of its row and column in the source.
pub update_grid_lem :
    (src dst : List ℕ) (k : ℕ)
    → length dst ≡ cells
    → k < cells
    → (length (update_grid src dst) ≡ cells) × (get_or (update_grid src dst) k 0 ≡ next_cell src k)
unfolding update_grid
update_grid_lem src dst k size h = (
  length-update_rows src grid_height 0 dst ∙ size,
  update_rows_inside src grid_height 0 dst k (omega arith) (omega arith) (omega arith),
)

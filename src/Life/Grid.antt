-- ===== src/Life/Grid.antt =====
-- cw9/grid.c. A grid is its 900 chars, row by row; a char other than 0 is a living cell. Rows and
-- columns are never negative where the program calls these functions.
use systemy_operacyjne_agh.Prelude.{
  ℕ, zero, suc, ◌+◌, ◌*◌, ◌%◌, Bool, true, false, not, ◌&&◌, ◌||◌, List, [], ◌∷◌, ◌==◌,
  if◌then◌else◌, get_or, set,
}
use mathlib.Core.List.{foldl}
use systemy_operacyjne_agh.Prelude.Int.{ℤ, pos, negsuc, pos_part, ◌+ℤ◌, ltb_ℤ, eqb_ℤ}

abbrev pub grid_width : ℕ
grid_width = 30

abbrev pub grid_height : ℕ
grid_height = 30

abbrev pub cells : ℕ
cells = grid_width * grid_height

-- A char as a C condition.
abbrev pub is_set : ℕ → Bool
is_set c = not (c == 0)

-- `bool` stored in a char.
abbrev pub to_char : Bool → ℕ
to_char true = 1
to_char false = 0

-- `create_grid`: what `malloc` hands out holds any 900 chars, `junk`.
abbrev pub create_grid : (ℕ → ℕ) → ℕ → ℕ → List ℕ
create_grid junk zero i = []
create_grid junk (suc n) i = junk i ∷ create_grid junk n (i + 1)

-- `init_grid` from index `i` on; `rand k` is the k-th `rand()`.
unfoldable pub init_cells : (ℕ → ℕ) → ℕ → ℕ → List ℕ → List ℕ
init_cells rand zero i grid = grid
init_cells rand (suc n) i grid = init_cells rand n (i + 1) (set grid i (to_char (rand i % 2 == 0)))

unfoldable pub init_grid : (ℕ → ℕ) → List ℕ → List ℕ
unfolding init_cells
init_grid rand grid = init_cells rand cells 0 grid

-- The body of the inner loop of `is_alive`.
unfoldable pub count_cell : ℕ → ℕ → List ℕ → ℤ → ℕ → ℤ → ℕ
count_cell row col grid i count j =
    let r = pos row +ℤ i in
    let c = pos col +ℤ j in
    if eqb_ℤ i (pos 0) && eqb_ℤ j (pos 0)
    then count
    else if ltb_ℤ r (pos 0)
        || not (ltb_ℤ r (pos grid_height))
        || ltb_ℤ c (pos 0)
        || not (ltb_ℤ c (pos grid_width))
    then count
    else if is_set (get_or grid (grid_width * pos_part r + pos_part c) 0)
    then count + 1
    else count

-- The values of `i` and of `j` in the loops from -1 to 1.
abbrev pub offsets : List ℤ
offsets = negsuc 0 ∷ pos 0 ∷ pos 1 ∷ []

-- The loop over `j`, and the loop over `i`.
unfoldable pub count_row : ℕ → ℕ → List ℕ → ℕ → ℤ → ℕ
count_row row col grid count i = foldl (count_cell row col grid i) count offsets

unfoldable pub count_alive : ℕ → ℕ → List ℕ → ℕ
count_alive row col grid = foldl (count_row row col grid) 0 offsets

unfoldable pub is_alive : ℕ → ℕ → List ℕ → Bool
is_alive row col grid =
    let count = count_alive row col grid in
    if is_set (get_or grid (row * grid_width + col) 0)
    then (if count == 2 || count == 3 then true else false)
    else (if count == 3 then true else false)

-- `update_grid`: the loop over `j` in row `i`, then the loop over `i`; `n` rounds are left.
unfoldable pub update_row : List ℕ → ℕ → ℕ → ℕ → List ℕ → List ℕ
update_row src i zero j dst = dst
update_row src i (suc n) j dst =
    update_row src i n (j + 1) (set dst (i * grid_width + j) (to_char (is_alive i j src)))

unfoldable pub update_rows : List ℕ → ℕ → ℕ → List ℕ → List ℕ
update_rows src zero i dst = dst
update_rows src (suc n) i dst = update_rows src n (i + 1) (update_row src i grid_width 0 dst)

unfoldable pub update_grid : List ℕ → List ℕ → List ℕ
update_grid src dst = update_rows src grid_height 0 dst

-- ===== src/Life/Rule.antt =====
-- `is_alive` of cw9/grid.c against Conway's rule on a grid with a dead border.
use systemy_operacyjne_agh.Prelude.{
  ℕ, ◌+◌, ◌-◌, ◌*◌, ◌≡◌, refl, ◌&&◌, ◌||◌, List, leb, ◌==◌, if◌then◌else◌, get_or, arith,
}
use systemy_operacyjne_agh.Prelude.Int.{pos, negsuc}
use systemy_operacyjne_agh.Life.Grid.{
  grid_width, is_set, count_cell, count_row, count_alive, is_alive,
}

-- 1 for a living cell, in coordinates from 1 to 30; the border around them is dead.
abbrev pub cell : List ℕ → ℕ → ℕ → ℕ
cell g r c =
    if leb 1 r
      && leb r 30
      && leb 1 c
      && leb c 30
      && is_set (get_or g (grid_width * (r - 1) + (c - 1)) 0)
    then 1
    else 0

-- The living cells among the eight around row `row`, column `col` (counted from 0).
abbrev pub neighbours : List ℕ → ℕ → ℕ → ℕ
neighbours g row col =
    cell g row col
    + cell g row (col + 1)
    + cell g row (col + 2)
    + cell g (row + 1) col
    + cell g (row + 1) (col + 2)
    + cell g (row + 2) col
    + cell g (row + 2) (col + 1)
    + cell g (row + 2) (col + 2)

-- What each round of the two loops adds.
module _ (g : List ℕ) (row col n : ℕ) where
  above_left : count_cell row col g (negsuc 0) n (negsuc 0) ≡ n + cell g row col
  unfolding count_cell
  above_left = ground arith

  above : count_cell row col g (negsuc 0) n (pos 0) ≡ n + cell g row (col + 1)
  unfolding count_cell
  above = ground arith

  above_right : count_cell row col g (negsuc 0) n (pos 1) ≡ n + cell g row (col + 2)
  unfolding count_cell
  above_right = ground arith

  left : count_cell row col g (pos 0) n (negsuc 0) ≡ n + cell g (row + 1) col
  unfolding count_cell
  left = ground arith

  right : count_cell row col g (pos 0) n (pos 1) ≡ n + cell g (row + 1) (col + 2)
  unfolding count_cell
  right = ground arith

  below_left : count_cell row col g (pos 1) n (negsuc 0) ≡ n + cell g (row + 2) col
  unfolding count_cell
  below_left = ground arith

  below : count_cell row col g (pos 1) n (pos 0) ≡ n + cell g (row + 2) (col + 1)
  unfolding count_cell
  below = ground arith

  below_right : count_cell row col g (pos 1) n (pos 1) ≡ n + cell g (row + 2) (col + 2)
  unfolding count_cell
  below_right = ground arith

  centre : count_cell row col g (pos 0) n (pos 0) ≡ n
  unfolding count_cell
  centre = refl

count_alive-eq-neighbours :
    (g : List ℕ) (row col : ℕ) → count_alive row col g ≡ neighbours g row col
unfolding count_alive count_row
count_alive-eq-neighbours g row col =
    rw (above_left, above, above_right, left, centre, right, below_left, below, below_right)
      (omega arith)

-- A cell lives on with two or three living neighbours, and a dead cell comes to life with three.
pub is_alive-conway :
    (g : List ℕ) (row col : ℕ)
    → is_alive row col g ≡ (
        if is_set (get_or g (row * 30 + col) 0)
        then (neighbours g row col == 2 || neighbours g row col == 3)
        else neighbours g row col == 3)
unfolding is_alive
is_alive-conway g row col = rw count_alive-eq-neighbours (ground arith)

-- ===== src/Life/Tests.antt =====
-- A blinker under cw9/grid.c, and the threads of cw9/life.c on small schedules.
use systemy_operacyjne_agh.Prelude.{
  ℕ, ◌*◌, ◌<◌, ◌≡◌, refl, true, false, some, List, arith, length, get_or, set, replicate,
  length-replicate, ltb, if◌then◌else◌, ◌==◌, ◌||◌,
}
use systemy_operacyjne_agh.Life.Grid.{
  cells, is_set, is_alive, count_alive, count_row, count_cell, update_grid,
}
use systemy_operacyjne_agh.Life.Rule.{neighbours, is_alive-conway}
use systemy_operacyjne_agh.Life.Update.{next_cell}
use systemy_operacyjne_agh.Life.Threads.{
  cells_per_thread, start_index, updating, paused, Board, Works, here,
}
use systemy_operacyjne_agh.Life.Draw.{shown, draw_grid, draw_grid-shown}
use systemy_operacyjne_agh.Life.Ends.{generation_ends, Finishes, generation-Finishes}
use systemy_operacyjne_agh.Life.Generation.{generation, threads-eq-update_grid}

abbrev dead : List ℕ
dead = replicate cells 0

-- Three living cells in row 1.
abbrev blinker : List ℕ
blinker = set (set (set dead 31 1) 32 1) 33 1

turns :
    (is_alive 0 2 blinker ≡ true) × (is_alive 1 1 blinker ≡ false) × (is_alive 1 2 blinker ≡ true)
unfolding is_alive count_alive count_row count_cell
turns = (refl, refl, refl)

-- Seven threads, each at the start of its share of 128 cells.
abbrev seven : Board
seven = record { foreground = blinker; background = dead; thread = λ k. updating (start_index 7 k) }

abbrev nine : Board
nine = record seven { thread = λ k. updating (start_index 9 k) }

abbrev dead-size : length dead ≡ cells
dead-size = length-replicate {A = ℕ} cells 0

abbrev Quiet : ℕ → Board → Type 0
Quiet n s = (t : Board) × Works n s t × ((k : ℕ) → k < n → t.thread k ≡ paused)

abbrev seven_done : Quiet 7 seven
seven_done = generation_ends {n = 7} {s = seven} (λ k h. refl)

abbrev nine_done : Quiet 9 nine
nine_done = generation_ends {n = 9} {s = nine} (λ k h. refl)

generation-Finishes_example : Finishes 7 seven seven
generation-Finishes_example = generation-Finishes {n = 7} {s = seven} dead-size (λ k h. refl) here

generation_example :
    (seven_done.0.foreground ≡ blinker)
    × (get_or seven_done.0.background 2 0
        ≡ (if ltb 2 (7 * cells_per_thread 7) then next_cell blinker 2 else get_or dead 2 0))
generation_example = generation {s = seven} dead-size (λ k h. refl) seven_done.1 seven_done.2 2

threads-eq-update_grid_example : nine_done.0.background ≡ update_grid blinker dead
threads-eq-update_grid_example =
    threads-eq-update_grid {n = 9} {s = nine} refl dead-size (λ k h. refl) nine_done.1 nine_done.2

is_alive-conway_example : is_alive 1 2 blinker ≡ (
    if is_set (get_or blinker 32 0)
    then (neighbours blinker 1 2 == 2 || neighbours blinker 1 2 == 3)
    else neighbours blinker 1 2 == 3)
is_alive-conway_example = is_alive-conway blinker 1 2

draw_grid-shown_example :
    (shown (draw_grid blinker) 1 4 ≡ some (is_set (get_or blinker 32 0)))
    × (shown (draw_grid blinker) 1 5 ≡ some false)
draw_grid-shown_example = draw_grid-shown blinker 1 2 (omega arith) (omega arith)

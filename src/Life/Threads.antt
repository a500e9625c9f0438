-- ===== src/Life/Threads.antt =====
-- The threads of cw9/life.c: each updates its share of the cells, then pauses until `main` signals
-- it. `main` signals them all, sleeps, and swaps the two grids.
use systemy_operacyjne_agh.Prelude.{ℕ, ◌+◌, ◌*◌, ◌/◌, ◌%◌, ◌≤◌, ◌<◌, ◌≡◌, List, set}
use systemy_operacyjne_agh.Prelude.Family.{update}
use systemy_operacyjne_agh.Life.Grid.{cells, to_char, is_alive}

-- `(int)ceil(30 * 30 / n)`: the division is one of integers, so `ceil` has nothing to round.
abbrev pub cells_per_thread : ℕ → ℕ
cells_per_thread n = cells / n

-- `thread_arg`, without the pointers to the two grids, which all threads share.
abbrev pub start_index : ℕ → ℕ → ℕ
start_index n i = i * cells_per_thread n

abbrev pub end_index : ℕ → ℕ → ℕ
end_index n i = (i + 1) * cells_per_thread n

-- Where a thread stands in `update`.
pub data ThreadPc : Type 0 where
  updating : (i : ℕ) → ThreadPc  -- at the test of the `for` loop
  paused : ThreadPc  -- in `pause`

-- The two grids that the variables of `main` point to, and the threads.
pub record Board : Type 0 where
  pub foreground : List ℕ
  pub background : List ℕ
  pub thread : ℕ → ThreadPc

-- The body of the `for` loop of `update`.
unfoldable pub write_cell : ℕ → List ℕ → List ℕ → List ℕ
write_cell i foreground background =
    let row = i / 30 in let col = i % 30 in set background i (to_char (is_alive row col foreground))

-- A step of one of the `n` threads.
pub data Work (n : ℕ) (s : Board) : Board → Type 0 where
  write :
      (k : ℕ) {i : ℕ}
      → k < n
      → s.thread k ≡ ThreadPc.updating i
      → i < end_index n k
      → Work n s (record s {
        background = write_cell i s.foreground s.background;
        thread = update s.thread k (ThreadPc.updating (i + 1));
      })
  rest :
      (k : ℕ) {i : ℕ}
      → k < n
      → s.thread k ≡ ThreadPc.updating i
      → end_index n k ≤ i
      → Work n s (record s { thread = update s.thread k ThreadPc.paused })

-- A step of a thread or of `main`. A signal that finds its thread at work only runs the empty
-- handler. The swap is the one after `usleep`; nothing orders it after the threads' work.
pub data Step (n : ℕ) (s : Board) : Board → Type 0 where
  work : {t : Board} → Work n s t → Step n s t
  signal :
      (k : ℕ)
      → k < n
      → s.thread k ≡ ThreadPc.paused
      → Step n s (record s { thread = update s.thread k (ThreadPc.updating (start_index n k)) })
  swap : Step n s (record s { foreground = s.background; background = s.foreground })

-- The threads work, and `main` sleeps.
pub data Works (n : ℕ) (s : Board) : Board → Type 0 where
  here : Works n s s
  next : {t u : Board} → Works n s t → Work n t u → Works n s u

pub data Reach (n : ℕ) (s : Board) : Board → Type 0 where
  here : Reach n s s
  next : {t u : Board} → Reach n s t → Step n t u → Reach n s u

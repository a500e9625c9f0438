-- ===== src/Life/Ends.antt =====
-- That the threads of cw9/life.c come to the end of their shares, in every order and in one order
-- that is written out.
use systemy_operacyjne_agh.Prelude.{
  ℕ, zero, suc, ◌+◌, ◌≤◌, ◌<◌, ◌≡◌, ◌≢◌, ◌∙◌, arith, dec_lt, ℕ_discrete, ◌-◌, ◌*◌, ◌⊎◌, inl, inr,
  refl, sym, ap, length, get_or, ltb, if◌then◌else◌,
}
use systemy_operacyjne_agh.Prelude.Family.{update, update_self, update_other, total, total-update}
use systemy_operacyjne_agh.Life.Grid.{cells}
use systemy_operacyjne_agh.Life.Update.{next_cell}
use systemy_operacyjne_agh.Life.Generation.{shares-le, end_index-le, generation}
use systemy_operacyjne_agh.Life.Threads.{
  cells_per_thread, start_index, end_index, ThreadPc, updating, paused, Board, Work, write, rest,
  Works, here, next, write_cell,
}

Works-trans : {n : ℕ} {s t u : Board} → Works n s t → Works n t u → Works n s u
Works-trans w here = w
Works-trans w (next v step) = next (Works-trans w v) step

-- Thread `k` pauses, and the others stand where they stood.
record Finished (n k : ℕ) (s : Board) : Type 0 where
  board : Board
  works : Works n s board
  rests : board.thread k ≡ paused
  others : (j : ℕ) → k ≢ j → board.thread j ≡ s.thread j

-- `d` cells of the share are left.
finish_thread :
    (n k d i : ℕ) (s : Board)
    → k < n
    → s.thread k ≡ updating i
    → i + d ≡ end_index n k
    → Finished n k s
finish_thread n k zero i s lt at e = record {
  board = record s { thread = update s.thread k paused };
  works = next here (rest k lt at (omega arith));
  rests = update_self s.thread k paused;
  others = λ j h. update_other s.thread k j paused h;
}
finish_thread n k (suc d) i s lt at e =
    let t : Board = record s {
      background = write_cell i s.foreground s.background;
      thread = update s.thread k (updating (i + 1));
    } in
    let done =
      finish_thread n k d (i + 1) t lt (update_self s.thread k (updating (i + 1))) (omega arith) in
    record {
      board = done.board;
      works = Works-trans (next here (write k lt at (omega arith))) (done.works);
      rests = done.rests;
      others = λ j h. done.others j h ∙ update_other s.thread k j (updating (i + 1)) h;
    }

-- The threads below `m` pause, and the others are at the start of their shares.
record FinishedBelow (n m : ℕ) (s : Board) : Type 0 where
  board : Board
  works : Works n s board
  rest_below : (k : ℕ) → k < m → board.thread k ≡ paused
  start_above : (k : ℕ) → m ≤ k → k < n → board.thread k ≡ updating (start_index n k)

finish_below :
    (n m : ℕ) (s : Board)
    → m ≤ n
    → ((k : ℕ) → k < n → s.thread k ≡ updating (start_index n k))
    → FinishedBelow n m s
finish_below n zero s le started = record {
  board = s;
  works = here;
  rest_below = λ k h. absurd (omega arith);
  start_above = λ k h lt. started k lt;
}
finish_below n (suc m) s le started =
    let before = finish_below n m s (omega arith) started in
    let last =
      finish_thread n m (cells_per_thread n) (start_index n m) (before.board) (omega arith)
        (before.start_above m (omega arith) (omega arith)) (grind arith) in
    record {
      board = last.board;
      works = Works-trans (before.works) (last.works);
      rest_below = λ k h. elim (ℕ_discrete m k) [
        | yes e ↦ ground (arith, last.rests)
        | no e ↦ last.others k e ∙ before.rest_below k (omega arith)
      ];
      start_above = λ k h lt. last.others k (omega arith) ∙ before.start_above k (omega arith) lt;
    }

-- From a board with every thread at the start of its share, the threads can work until all pause.
pub generation_ends :
    {n : ℕ} {s : Board}
    → ((k : ℕ) → k < n → s.thread k ≡ updating (start_index n k))
    → (t : Board) × Works n s t × ((k : ℕ) → k < n → t.thread k ≡ paused)
generation_ends {n} {s} started =
    let all = finish_below n n s (omega arith) started in (all.board, all.works, all.rest_below)

-- A thread at work has a step.
worker_steps : (n k i : ℕ) (s : Board) → k < n → s.thread k ≡ updating i → (t : Board) × Work n s t
worker_steps n k i s lt at = elim (dec_lt i (end_index n k)) [
  | yes room ↦ (_, write k lt at room)
  | no over ↦ (_, rest k lt at (omega arith))
]

-- How many steps a thread has left at most.
abbrev left : ThreadPc → ℕ
left (updating i) = (cells - i) + 1
left paused = 0

thread_drops :
    (n k : ℕ) (thread : ℕ → ThreadPc) (pc pc' : ThreadPc)
    → k < n
    → thread k ≡ pc
    → left pc' < left pc
    → total left n (update thread k pc') < total left n thread
thread_drops n k thread pc pc' lt at drops =
    let same : left (thread k) ≡ left pc = ap left at in
    omega (arith, total-update left n thread k pc' lt)

work_drops : {n : ℕ} {s t : Board} → Work n s t → total left n t.thread < total left n s.thread
work_drops {n} {s} (write k {i} lt at room) =
    thread_drops n k s.thread (updating i) (updating (i + 1)) lt at
      (omega (arith, end_index-le n k lt, shares-le n))
work_drops {n} {s} (rest k {i} lt at over) =
    thread_drops n k s.thread (updating i) paused lt at (omega arith)

pc_cases : (pc : ThreadPc) → (pc ≡ paused) ⊎ ((i : ℕ) × (pc ≡ updating i))
pc_cases (updating i) = inr (i, refl)
pc_cases paused = inl refl

-- Of the first `m` threads all pause, or one is at work.
search_threads :
    (thread : ℕ → ThreadPc) (m : ℕ)
    → ((k : ℕ) → k < m → thread k ≡ paused)
      ⊎ ((k : ℕ) × (i : ℕ) × (k < m) × (thread k ≡ updating i))
search_threads thread zero = inl (λ k lt. absurd (omega arith))
search_threads thread (suc m) = elim (pc_cases (thread m)) [
  | inr (i, at) ↦ inr (m, i, omega arith, at)
  | inl rests ↦ elim (search_threads thread m) [
    | inr (k, i, lt, at) ↦ inr (k, i, omega arith, at)
    | inl all ↦ inl (λ k lt. elim (ℕ_discrete m k) [
      | yes e ↦ ap thread (sym e) ∙ rests
      | no e ↦ all k (omega arith)
    ])
  ]
]

-- All `n` threads pause, the foreground is as at `first`, and the background holds the next
-- generation of it in the cells of the shares, and beyond them what it held at `first`.
pub record HasNext (n : ℕ) (first t : Board) : Type 0 where
  pub paused_all : (k : ℕ) → k < n → t.thread k ≡ paused
  pub foreground : t.foreground ≡ first.foreground
  pub background :
      (c : ℕ)
      → get_or t.background c 0 ≡ (
          if ltb c (n * cells_per_thread n)
          then next_cell first.foreground c
          else get_or first.background c 0)

-- The next generation is there, or some thread can take a step, and whichever step is taken, this
-- holds again, and so on in every run until the next generation is there.
pub data Finishes (n : ℕ) (first : Board) : Board → Type 0 where
  ended : {t : Board} → HasNext n first t → Finishes n first t
  goes_on :
      {t u : Board}
      → Work n t u
      → ((v : Board) → Work n t v → Finishes n first v)
      → Finishes n first t

has_next :
    (n : ℕ) (s t : Board)
    → length s.background ≡ cells
    → ((k : ℕ) → k < n → s.thread k ≡ updating (start_index n k))
    → Works n s t
    → ((k : ℕ) → k < n → t.thread k ≡ paused)
    → HasNext n s t
has_next n s t size started works all = record {
  paused_all = all;
  foreground = (generation size started works all 0).0;
  background = λ c. (generation size started works all c).1;
}

ends_within :
    (n fuel : ℕ) (s t : Board)
    → length s.background ≡ cells
    → ((k : ℕ) → k < n → s.thread k ≡ updating (start_index n k))
    → Works n s t
    → total left n t.thread ≤ fuel
    → Finishes n s t
ends_within n zero s t size started works le = elim (search_threads t.thread n) [
  | inl all ↦ Finishes.ended (has_next n s t size started works all)
  | inr (k, i, lt, at) ↦
      let (u, step) = worker_steps n k i t lt at in absurd (omega (arith, work_drops step))
]
ends_within n (suc fuel) s t size started works le = elim (search_threads t.thread n) [
  | inl all ↦ Finishes.ended (has_next n s t size started works all)
  | inr (k, i, lt, at) ↦
      let (u, step) = worker_steps n k i t lt at in
      Finishes.goes_on step (λ v step'.
        ends_within n fuel s v size started (next works step') (omega (arith, work_drops step')))
]

-- If the background has 900 cells and every thread starts at its share, then from each board that
-- the threads come to, in every order of their steps, they come to an end: until all pause some
-- thread can step, no run goes on for ever, and when all pause the foreground is as at the start,
-- and the background holds the next generation of it in all cells of the shares, the others as they
-- were.
pub generation-Finishes :
    {n : ℕ} {s t : Board}
    → length s.background ≡ cells
    → ((k : ℕ) → k < n → s.thread k ≡ updating (start_index n k))
    → Works n s t
    → Finishes n s t
generation-Finishes {n} {s} {t} size started works =
    ends_within n (total left n t.thread) s t size started works (omega arith)

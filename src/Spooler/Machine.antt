-- ===== src/Spooler/Machine.antt =====
-- The shared buffer of cw8/buffer.h, and what cw8/client.c and cw8/printers.c do with it, one
-- shared access at a time. `n` clients and `m` printers interleave in any order.
use systemy_operacyjne_agh.Prelude.{
  ℕ, ◌+◌, ◌-◌, ◌%◌, ◌<◌, ◌≡◌, some, List, [], ◌∷◌, ◌++◌, get_or, set, length, replicate,
}
use systemy_operacyjne_agh.Prelude.Family.{update}
use systemy_operacyjne_agh.Spooler.Text.{strcpy, string, make_task, print_chars}

abbrev pub buffer_size : ℕ
buffer_size = 10

-- `Buffer`. `in` is a reserved word here: the indices are `in_index` and `out_index`.
pub record Buffer : Type 0 where
  pub tasks : List (List ℕ)
  pub in_index : ℕ
  pub out_index : ℕ
  pub empty : ℕ
  pub full : ℕ
  pub used : ℕ

-- The buffer with three records of the run, which no step reads: the strings copied into the ring,
-- the strings copied out of it, and what the printers have printed.
pub record Memory : Type 0 where
  pub buffer : Buffer
  pub open buffer use *
  pub sent : List (List ℕ)
  pub taken : List (List ℕ)
  pub printed : List (List ℕ)

-- Where a client stands in its loop.
pub data ClientPc : Type 0 where
  idle : ClientPc  -- before `sem_wait(empty)`
  reserved : ClientPc  -- before `sem_wait(used)`
  entered : ClientPc  -- before the letters are drawn
  filled : (task : List ℕ) → ClientPc  -- before `strcpy`
  copied : ClientPc  -- before `in` moves on
  advanced : ClientPc  -- before `sem_post(used)`
  unlocked : ClientPc  -- before `sem_post(full)`

-- Where a printer stands in its loop.
pub data PrinterPc : Type 0 where
  idle : PrinterPc  -- before `sem_wait(full)`
  reserved : PrinterPc  -- before `sem_wait(used)`
  entered : PrinterPc  -- before `strcpy`
  copied : (task : List ℕ) → PrinterPc  -- before `out` moves on
  advanced : (task : List ℕ) → PrinterPc  -- before `sem_post(used)`
  unlocked : (task : List ℕ) → PrinterPc  -- before `sem_post(empty)`
  printing : (task : List ℕ) → PrinterPc  -- before the loop that prints

-- One step of a client. `rand` is what the calls of `rand()` return in this round. A `sem_wait`
-- has a step only at a positive value, a `strcpy` only where it stays inside its arrays.
pub data ClientMove (s : Memory) : ClientPc → Memory → ClientPc → Type 0 where
  wait_empty :
      0 < s.empty
      → ClientMove s ClientPc.idle
          (record s { buffer = record (s.buffer) { empty = s.empty - 1 } })
          ClientPc.reserved
  wait_used :
      0 < s.used
      → ClientMove s ClientPc.reserved
          (record s { buffer = record (s.buffer) { used = s.used - 1 } })
          ClientPc.entered
  fill : (rand : ℕ → ℕ) → ClientMove s ClientPc.entered s (ClientPc.filled (make_task rand 0))
  put :
      {task row : List ℕ}
      → strcpy (get_or s.tasks s.in_index []) task ≡ some row
      → ClientMove s
          (ClientPc.filled task)
          (record s {
            buffer = record (s.buffer) { tasks = set s.tasks s.in_index row };
            sent = s.sent ++ (string task ∷ []);
          })
          ClientPc.copied
  advance :
      ClientMove s ClientPc.copied
        (record s { buffer = record (s.buffer) { in_index = (s.in_index + 1) % buffer_size } })
        ClientPc.advanced
  post_used :
      ClientMove s ClientPc.advanced
        (record s { buffer = record (s.buffer) { used = s.used + 1 } })
        ClientPc.unlocked
  post_full :
      ClientMove s ClientPc.unlocked
        (record s { buffer = record (s.buffer) { full = s.full + 1 } })
        ClientPc.idle

-- One step of a printer. `junk` is what its array `task` holds before the copy.
pub data PrinterMove (s : Memory) : PrinterPc → Memory → PrinterPc → Type 0 where
  wait_full :
      0 < s.full
      → PrinterMove s PrinterPc.idle
          (record s { buffer = record (s.buffer) { full = s.full - 1 } })
          PrinterPc.reserved
  wait_used :
      0 < s.used
      → PrinterMove s PrinterPc.reserved
          (record s { buffer = record (s.buffer) { used = s.used - 1 } })
          PrinterPc.entered
  take_task :
      (junk : List ℕ) {task : List ℕ}
      → length junk ≡ 11
      → strcpy junk (get_or s.tasks s.out_index []) ≡ some task
      → PrinterMove s PrinterPc.entered
          (record s { taken = s.taken ++ (string (get_or s.tasks s.out_index []) ∷ []) })
          (PrinterPc.copied task)
  advance :
      {task : List ℕ}
      → PrinterMove s
          (PrinterPc.copied task)
          (record s { buffer = record (s.buffer) { out_index = (s.out_index + 1) % buffer_size } })
          (PrinterPc.advanced task)
  post_used :
      {task : List ℕ}
      → PrinterMove s
          (PrinterPc.advanced task)
          (record s { buffer = record (s.buffer) { used = s.used + 1 } })
          (PrinterPc.unlocked task)
  post_empty :
      {task : List ℕ}
      → PrinterMove s
          (PrinterPc.unlocked task)
          (record s { buffer = record (s.buffer) { empty = s.empty + 1 } })
          (PrinterPc.printing task)
  print :
      {task : List ℕ}
      → PrinterMove s
          (PrinterPc.printing task)
          (record s { printed = s.printed ++ (print_chars 11 task ∷ []) })
          PrinterPc.idle

-- An index from `n` (or `m`) on names no process: it is never picked.
pub record System : Type 0 where
  pub memory : Memory
  pub client : ℕ → ClientPc
  pub printer : ℕ → PrinterPc

pub data Step (n m : ℕ) (s : System) : System → Type 0 where
  client_step :
      (i : ℕ) {t : Memory} {p : ClientPc}
      → i < n
      → ClientMove s.memory (s.client i) t p
      → Step n m s (record s { memory = t; client = update s.client i p })
  printer_step :
      (i : ℕ) {t : Memory} {p : PrinterPc}
      → i < m
      → PrinterMove s.memory (s.printer i) t p
      → Step n m s (record s { memory = t; printer = update s.printer i p })

-- The buffer as `main` of printers.c sets it up: the memory of a new segment is zero.
abbrev pub init_buffer : Buffer
init_buffer = record {
  tasks = replicate buffer_size (replicate 11 0);
  in_index = 0;
  out_index = 0;
  empty = buffer_size;
  full = 0;
  used = 1;
}

abbrev pub init : System
init = record {
  memory = record { buffer = init_buffer; sent = []; taken = []; printed = [] };
  client = λ _. ClientPc.idle;
  printer = λ _. PrinterPc.idle;
}

pub data Reach (n m : ℕ) : System → Type 0 where
  start : Reach n m init
  later : {s t : System} → Reach n m s → Step n m s t → Reach n m t

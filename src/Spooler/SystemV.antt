-- ===== src/Spooler/SystemV.antt =====
-- The spooler of cw8/clientv.c and cw8/printersv.c: the same buffer under an array of System V
-- semaphores, of which 0 is "empty", 1 "full" and 2 "used".
use systemy_operacyjne_agh.Prelude.{
  ℕ, suc, ◌+◌, ◌-◌, ◌%◌, ◌<◌, ◌≡◌, Option, none, some, List, [], ◌∷◌, ◌++◌, get_or, set, take,
  length, leb, if◌then◌else◌,
}
use systemy_operacyjne_agh.Prelude.Int.{ℤ, pos, negsuc}
use systemy_operacyjne_agh.Prelude.Family.{update}
use systemy_operacyjne_agh.Spooler.Text.{strcpy, string, make_task}
use systemy_operacyjne_agh.Spooler.Machine.{Buffer, buffer_size, init_buffer, ClientPc, PrinterPc}

-- `sem_op`: the array after it; `none` while the process has to wait.
abbrev pub sem_op : List ℕ → ℕ → ℤ → Option (List ℕ)
sem_op semaphores sem_num (pos op) =
    some (set semaphores sem_num (get_or semaphores sem_num 0 + op))
sem_op semaphores sem_num (negsuc op) =
    if leb (suc op) (get_or semaphores sem_num 0)
    then some (set semaphores sem_num (get_or semaphores sem_num 0 - suc op))
    else none

-- The segment, whose own semaphores nobody uses, the array, and the records of the run.
pub record MemoryV : Type 0 where
  pub buffer : Buffer
  pub semaphores : List ℕ
  pub sent : List (List ℕ)
  pub taken : List (List ℕ)
  pub printed : List (List ℕ)

-- One step of a client. The places in the loop are those of client.c.
pub data ClientMoveV (s : MemoryV) : ClientPc → MemoryV → ClientPc → Type 0 where
  wait_empty :
      {v : List ℕ}
      → sem_op s.semaphores 0 (negsuc 0) ≡ some v
      → ClientMoveV s ClientPc.idle (record s { semaphores = v }) ClientPc.reserved
  wait_used :
      {v : List ℕ}
      → sem_op s.semaphores 2 (negsuc 0) ≡ some v
      → ClientMoveV s ClientPc.reserved (record s { semaphores = v }) ClientPc.entered
  fill : (rand : ℕ → ℕ) → ClientMoveV s ClientPc.entered s (ClientPc.filled (make_task rand 0))
  put :
      {task row : List ℕ}
      → strcpy (get_or s.buffer.tasks s.buffer.in_index []) task ≡ some row
      → ClientMoveV s
          (ClientPc.filled task)
          (record s {
            buffer = record (s.buffer) { tasks = set s.buffer.tasks s.buffer.in_index row };
            sent = s.sent ++ (string task ∷ []);
          })
          ClientPc.copied
  advance :
      ClientMoveV s ClientPc.copied
        (record s {
          buffer = record (s.buffer) { in_index = (s.buffer.in_index + 1) % buffer_size };
        })
        ClientPc.advanced
  post_used :
      {v : List ℕ}
      → sem_op s.semaphores 2 (pos 1) ≡ some v
      → ClientMoveV s ClientPc.advanced (record s { semaphores = v }) ClientPc.unlocked
  post_full :
      {v : List ℕ}
      → sem_op s.semaphores 1 (pos 1) ≡ some v
      → ClientMoveV s ClientPc.unlocked (record s { semaphores = v }) ClientPc.idle

-- One step of a printer, which prints ten characters whatever they are.
pub data PrinterMoveV (s : MemoryV) : PrinterPc → MemoryV → PrinterPc → Type 0 where
  wait_full :
      {v : List ℕ}
      → sem_op s.semaphores 1 (negsuc 0) ≡ some v
      → PrinterMoveV s PrinterPc.idle (record s { semaphores = v }) PrinterPc.reserved
  wait_used :
      {v : List ℕ}
      → sem_op s.semaphores 2 (negsuc 0) ≡ some v
      → PrinterMoveV s PrinterPc.reserved (record s { semaphores = v }) PrinterPc.entered
  take_task :
      (junk : List ℕ) {task : List ℕ}
      → length junk ≡ 11
      → strcpy junk (get_or s.buffer.tasks s.buffer.out_index []) ≡ some task
      → PrinterMoveV s PrinterPc.entered
          (record s {
            taken = s.taken ++ (string (get_or s.buffer.tasks s.buffer.out_index []) ∷ []);
          })
          (PrinterPc.copied task)
  advance :
      {task : List ℕ}
      → PrinterMoveV s
          (PrinterPc.copied task)
          (record s {
            buffer = record (s.buffer) { out_index = (s.buffer.out_index + 1) % buffer_size };
          })
          (PrinterPc.advanced task)
  post_used :
      {task v : List ℕ}
      → sem_op s.semaphores 2 (pos 1) ≡ some v
      → PrinterMoveV s
          (PrinterPc.advanced task)
          (record s { semaphores = v })
          (PrinterPc.unlocked task)
  post_empty :
      {task v : List ℕ}
      → sem_op s.semaphores 0 (pos 1) ≡ some v
      → PrinterMoveV s
          (PrinterPc.unlocked task)
          (record s { semaphores = v })
          (PrinterPc.printing task)
  print :
      {task : List ℕ}
      → PrinterMoveV s
          (PrinterPc.printing task)
          (record s { printed = s.printed ++ (take 10 task ∷ []) })
          PrinterPc.idle

pub record SystemV : Type 0 where
  pub memory : MemoryV
  pub client : ℕ → ClientPc
  pub printer : ℕ → PrinterPc

pub data StepV (n m : ℕ) (s : SystemV) : SystemV → Type 0 where
  client_step :
      (i : ℕ) {t : MemoryV} {p : ClientPc}
      → i < n
      → ClientMoveV s.memory (s.client i) t p
      → StepV n m s (record s { memory = t; client = update s.client i p })
  printer_step :
      (i : ℕ) {t : MemoryV} {p : PrinterPc}
      → i < m
      → PrinterMoveV s.memory (s.printer i) t p
      → StepV n m s (record s { memory = t; printer = update s.printer i p })

-- After the `semctl` calls of printersv.c.
abbrev pub init_v : SystemV
init_v = record {
  memory = record {
    buffer = init_buffer;
    semaphores = buffer_size ∷ 0 ∷ 1 ∷ [];
    sent = [];
    taken = [];
    printed = [];
  };
  client = λ _. ClientPc.idle;
  printer = λ _. PrinterPc.idle;
}

pub data ReachV (n m : ℕ) : SystemV → Type 0 where
  start : ReachV n m init_v
  later : {s t : SystemV} → ReachV n m s → StepV n m s t → ReachV n m t

-- ===== src/Spooler/Setup.antt =====
-- How `main` of cw8/printers.c and of cw8/client.c begins: the shared segment, the semaphores, the
-- children. The calls answer whether they succeed.
use systemy_operacyjne_agh.Prelude.{
  ℕ, zero, suc, Bool, true, false, not, ◌||◌, replicate, if◌then◌else◌,
}
use systemy_operacyjne_agh.Spooler.Machine.{Buffer, buffer_size}

-- The memory of a new segment.
abbrev pub zero_buffer : Buffer
zero_buffer = record {
  tasks = replicate buffer_size (replicate 11 0);
  in_index = 0;
  out_index = 0;
  empty = 0;
  full = 0;
  used = 0;
}

pub record Answers : Type 0 where
  pub shm_open : Bool
  pub ftruncate : Bool
  pub mmap : Bool
  pub sem_init : ℕ → Bool
  pub fork : ℕ → Bool

-- `main` goes on with the buffer, or has exited with an error and left it like this.
pub data Prepared : Type 0 where
  prepared : Buffer → Prepared
  failed : Buffer → Prepared

-- `shm_open` with `O_CREAT` opens the segment that is there, `b`, which is `zero_buffer` if it is new.
abbrev pub attach : Answers → Buffer → Prepared
attach answers b =
    if not answers.shm_open || not answers.ftruncate || not answers.mmap
    then Prepared.failed b
    else Prepared.prepared b

-- The three calls of `sem_init`, each only if the one before it succeeds, and the two indices. On a
-- semaphore in use, which POSIX leaves open, `sem_init` is taken to set the value as on a new one.
unfoldable pub init_semaphores : Answers → Buffer → Prepared
init_semaphores answers b =
    let b0 : Buffer = record b { empty = buffer_size } in
    let b1 : Buffer = record b0 { full = 0 } in
    let b2 : Buffer = record b1 { used = 1 } in
    if not (answers.sem_init 0)
    then Prepared.failed b
    else (if not (answers.sem_init 1)
        then Prepared.failed b0
        else (if not (answers.sem_init 2)
            then Prepared.failed b1
            else Prepared.prepared (record b2 { in_index = 0; out_index = 0 })))

-- The `for` loop that forks, with `left` rounds left: how many children there are at its end, and
-- whether no call failed.
unfoldable pub fork_children : (ℕ → Bool) → ℕ → ℕ → ℕ × Bool
fork_children fork zero i = (i, true)
fork_children fork (suc left) i =
    let rest : ℕ × Bool = fork_children fork left (suc i) in if fork i then rest else (i, false)

-- `main` waits for its children, or has exited with an error; the children run on in either case.
pub data Started : Type 0 where
  waiting : (children : ℕ) → Buffer → Started
  exited : (children : ℕ) → Buffer → Started

abbrev pub start_children : ℕ → (ℕ → Bool) → Prepared → Started
start_children number fork (Prepared.failed b) = Started.exited 0 b
start_children number fork (Prepared.prepared b) =
    let (children, all) = fork_children fork number 0 in
    if all then Started.waiting children b else Started.exited children b

abbrev pub and_init : Answers → Prepared → Prepared
and_init answers (Prepared.failed b) = Prepared.failed b
and_init answers (Prepared.prepared b) = init_semaphores answers b

-- `main` of printers.c, with M = 3, and of client.c, with N = 5, up to the loop that waits; since no
-- child ends, that loop is where they stay.
unfoldable pub printers_main : Answers → Buffer → Started
printers_main answers b = start_children 3 answers.fork (and_init answers (attach answers b))

unfoldable pub client_main : Answers → Buffer → Started
client_main answers b = start_children 5 answers.fork (attach answers b)

-- ===== src/Spooler/SetupV.antt =====
-- How `main` of cw8/printersv.c and of cw8/clientv.c begins: the segment, the array of semaphores, the
-- children.
use systemy_operacyjne_agh.Prelude.{ℕ, Bool, not, ◌||◌, List, set, if◌then◌else◌}
use systemy_operacyjne_agh.Spooler.Machine.{Buffer, buffer_size}
use systemy_operacyjne_agh.Spooler.Setup.{fork_children}

-- Whether the calls succeed; a `semctl` that fails changes nothing, and its result is not tested.
pub record AnswersV : Type 0 where
  pub shmget : Bool
  pub shmat : Bool
  pub semget : Bool
  pub semctl : ℕ → Bool
  pub fork : ℕ → Bool

-- The segment and the array of semaphores, which outlive the processes.
pub record Shared : Type 0 where
  pub buffer : Buffer
  pub semaphores : List ℕ

-- `main` waits for its children, or has exited with an error; the children run on in either case.
pub data StartedV : Type 0 where
  waiting : (children : ℕ) → Shared → StartedV
  exited : (children : ℕ) → Shared → StartedV

-- `semctl(semid, sem_num, SETVAL, value)`
abbrev pub set_value : AnswersV → ℕ → ℕ → List ℕ → List ℕ
set_value answers sem_num value semaphores =
    if answers.semctl sem_num then set semaphores sem_num value else semaphores

abbrev pub start_children_v : ℕ → AnswersV → Shared → StartedV
start_children_v number answers shared =
    let (children, all) = fork_children answers.fork number 0 in
    if all then StartedV.waiting children shared else StartedV.exited children shared

-- `main` of printersv.c, with M = 3, and of clientv.c, with N = 5, up to the loop that waits.
unfoldable pub printersv_main : AnswersV → Shared → StartedV
printersv_main answers shared =
    let shared' : Shared = record {
      buffer = record (shared.buffer) { in_index = 0; out_index = 0 };
      semaphores =
          set_value answers 2 1
            (set_value answers 1 0 (set_value answers 0 buffer_size shared.semaphores));
    } in
    if not answers.shmget || not answers.shmat || not answers.semget
    then StartedV.exited 0 shared
    else start_children_v 3 answers shared'

unfoldable pub clientv_main : AnswersV → Shared → StartedV
clientv_main answers shared =
    if not answers.shmget || not answers.shmat || not answers.semget
    then StartedV.exited 0 shared
    else start_children_v 5 answers shared

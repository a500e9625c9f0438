-- ===== src/Spooler/Tests.antt =====
-- Runs of the spooler, and its theorems at states that it reaches.
use systemy_operacyjne_agh.Spooler.SystemV.{SystemV, init_v, ClientMoveV, StepV, ReachV}
use systemy_operacyjne_agh.Spooler.Simulation.{system_v, ReachV-Reach}
use systemy_operacyjne_agh.Prelude.{
  ℕ, ℕ_discrete, ◌+◌, ◌≤◌, ◌≡◌, refl, true, ◌≢◌, List, [], ◌∷◌, ◌++◌, arith, replicate, length,
  ◌==◌,
}
use systemy_operacyjne_agh.Prelude.Family.{update, total}
use systemy_operacyjne_agh.Spooler.Text.{strcpy, string, make_task, print_chars}
use systemy_operacyjne_agh.Spooler.Machine.{
  Memory, ClientPc, PrinterPc, System, Step, client_step, printer_step, Reach, start, later,
  ClientMove, PrinterMove, buffer_size,
}
use systemy_operacyjne_agh.Spooler.Invariant.Defs.{clients, printers, contents}
use systemy_operacyjne_agh.Spooler.Jobs.{count, carries, jobs_conserved}
use systemy_operacyjne_agh.Spooler.Safety.{fifo, Process, critical, mutual_exclusion}
use systemy_operacyjne_agh.Spooler.Setup.{
  Started, printers_main, zero_buffer, init_semaphores, fork_children,
}
use systemy_operacyjne_agh.Spooler.Restart.{willing, restarted, restart_breaks_exclusion}
use systemy_operacyjne_agh.Spooler.SetupV.{StartedV, printersv_main}
use systemy_operacyjne_agh.Spooler.Progress.{no_deadlock}

abbrev aaaa : List ℕ
aaaa = replicate 10 b'a'

-- With one client and one printer, each moves in turn.
by_client :
    {s : System} {t : Memory} {q : ClientPc}
    → Reach 1 1 s
    → ClientMove s.memory (s.client 0) t q
    → Reach 1 1 (record s { memory = t; client = update s.client 0 q })
by_client r mv = later r (client_step 0 (omega arith) mv)

by_printer :
    {s : System} {t : Memory} {q : PrinterPc}
    → Reach 1 1 s
    → PrinterMove s.memory (s.printer 0) t q
    → Reach 1 1 (record s { memory = t; printer = update s.printer 0 q })
by_printer r mv = later r (printer_step 0 (omega arith) mv)

record Run : Type 0 where
  last : System
  reach : Reach 1 1 last

-- The client has put `aaaaaaaaaa` into the ring and still holds the lock.
abbrev put_one : Run
unfolding strcpy make_task string ℕ_discrete
put_one =
    let r1 = by_client start (ClientMove.wait_empty (omega arith)) in
    let r2 = by_client r1 (ClientMove.wait_used (omega arith)) in
    let r3 = by_client r2 (ClientMove.fill (λ _. 0)) in
    record { last = _; reach = by_client r3 (ClientMove.put refl) }

-- The client has gone back to its start, and the printer has copied the job.
abbrev take_one : Run
unfolding strcpy make_task string ℕ_discrete
take_one =
    let r1 = by_client (put_one.reach) ClientMove.advance in
    let r2 = by_client r1 ClientMove.post_used in
    let r3 = by_client r2 ClientMove.post_full in
    let r4 = by_printer r3 (PrinterMove.wait_full (omega arith)) in
    let r5 = by_printer r4 (PrinterMove.wait_used (omega arith)) in
    record { last = _; reach = by_printer r5 (PrinterMove.take_task (replicate 11 b'z') refl refl) }

-- The printer has printed it.
abbrev print_one : Run
unfolding strcpy make_task string ℕ_discrete
print_one =
    let r1 = by_printer (take_one.reach) PrinterMove.advance in
    let r2 = by_printer r1 PrinterMove.post_used in
    let r3 = by_printer r2 PrinterMove.post_empty in
    record { last = _; reach = by_printer r3 PrinterMove.print }

printed_one :
    (print_one.last.memory.printed ≡ aaaa ∷ [])
    × (print_one.last.memory.in_index ≡ 1)
    × (print_one.last.memory.out_index ≡ 1)
    × (print_one.last.memory.empty ≡ 10)
unfolding strcpy make_task string ℕ_discrete print_chars
printed_one = (refl, refl, refl, refl)

fifo_example :
    let left =
      contents put_one.last.memory
        (clients 1 put_one.last.client)
        (printers 1 put_one.last.printer) in
    (put_one.last.memory.sent ≡ put_one.last.memory.taken ++ left) × (length left ≤ buffer_size)
fifo_example = fifo (put_one.reach)

jobs_conserved_example :
    count aaaa take_one.last.memory.sent
    ≡ count aaaa take_one.last.memory.printed
      + count aaaa (
          contents take_one.last.memory
            (clients 1 take_one.last.client)
            (printers 1 take_one.last.printer))
      + total (carries aaaa) 1 take_one.last.printer
jobs_conserved_example = jobs_conserved (take_one.reach) aaaa

mutual_exclusion_example : Process.client 0 ≡ Process.client 0
unfolding strcpy make_task string ℕ_discrete
mutual_exclusion_example =
    mutual_exclusion (put_one.reach) (Process.client 0) (Process.client 0) (omega arith)
      (omega arith) refl refl

no_deadlock_example : (t : System) × Step 1 1 take_one.last t
no_deadlock_example = no_deadlock (omega arith) (omega arith) (take_one.reach)

-- The System V spooler after the first client has decremented semaphore 0.
abbrev one_waits : SystemV
one_waits = record {
  memory = record (init_v.memory) { semaphores = 9 ∷ 0 ∷ 1 ∷ [] };
  client = update (init_v.client) 0 ClientPc.reserved;
  printer = init_v.printer;
}

one_waits-ReachV : ReachV 1 1 one_waits
one_waits-ReachV =
    ReachV.later ReachV.start (StepV.client_step 0 (omega arith) (ClientMoveV.wait_empty refl))

ReachV-Reach_example : (s : System) × Reach 1 1 s × (one_waits ≡ system_v s)
ReachV-Reach_example = ReachV-Reach one_waits-ReachV

-- The second `sem_init` fails, or the second `fork`.
second_fails :
    (printers_main (record willing { sem_init = λ k. k == 0 }) zero_buffer
      ≡ Started.exited 0 (record zero_buffer { empty = 10 }))
    × (printers_main (record willing { fork = λ i. i == 0 }) zero_buffer
        ≡ Started.exited 1 (record zero_buffer { empty = 10; used = 1 }))
unfolding printers_main init_semaphores fork_children
second_fails = (refl, refl)

-- The segment and the array are new.
array_is_set :
    printersv_main
      (record { shmget = true; shmat = true; semget = true; semctl = λ k. true; fork = λ i. true })
      (record { buffer = zero_buffer; semaphores = 0 ∷ 0 ∷ 0 ∷ [] })
    ≡ StartedV.waiting 3 (record { buffer = zero_buffer; semaphores = init_v.memory.semaphores })
unfolding printersv_main fork_children
array_is_set = refl

restart_breaks_exclusion_example :
    (printers_main willing put_one.last.memory.buffer
      ≡ Started.waiting 3 (restarted put_one.last).memory.buffer)
    × ((t u : System) × Step 2 1 (restarted put_one.last) t
        × Step 2 1 t u
        × (critical u (Process.client 0) ≡ true)
        × (critical u (Process.client 1) ≡ true)
        × (◌≢◌ {A = ℕ} 0 1))
unfolding strcpy make_task string ℕ_discrete
restart_breaks_exclusion_example =
    restart_breaks_exclusion 2 1 put_one.last 0 1 (omega arith) refl refl

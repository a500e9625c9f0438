-- ===== src/Spooler/Restart.antt =====
-- What a start of cw8/printers.c does to a segment, new or in use.
use systemy_operacyjne_agh.Prelude.{ℕ, ◌-◌, ◌<◌, ◌≡◌, ◌≢◌, refl, sym, ap, ◌∙◌, true, false, arith}
use systemy_operacyjne_agh.Prelude.Family.{update, update_self, update_other}
use mathlib.Core.Path.{subst}
use systemy_operacyjne_agh.Spooler.Machine.{
  Buffer, Memory, ClientPc, PrinterPc, ClientMove, System, Step, init_buffer,
}
use systemy_operacyjne_agh.Spooler.Safety.{Process, critical, client_critical}
use systemy_operacyjne_agh.Spooler.Setup.{
  zero_buffer, Answers, init_semaphores, fork_children, Started, printers_main,
}

-- All calls succeed.
abbrev pub willing : Answers
willing = record {
  shm_open = true;
  ftruncate = true;
  mmap = true;
  sem_init = λ k. true;
  fork = λ i. true;
}

-- The segment as `printers_main` leaves it when all calls succeed.
abbrev pub set_up : Buffer → Buffer
set_up b = record b { empty = 10; full = 0; used = 1; in_index = 0; out_index = 0 }

printers_main-willing : (b : Buffer) → printers_main willing b ≡ Started.waiting 3 (set_up b)
unfolding printers_main init_semaphores fork_children
printers_main-willing b = refl

-- A new segment becomes the buffer that the runs of the model begin with.
printers_main-new : printers_main willing zero_buffer ≡ Started.waiting 3 init_buffer
unfolding printers_main init_semaphores fork_children
printers_main-new = refl

-- The clients that run when the printers are started anew, and the new printers.
abbrev pub restarted : System → System
restarted s = record {
  memory = record (s.memory) { buffer = set_up s.memory.buffer };
  client = s.client;
  printer = λ _. PrinterPc.idle;
}

-- A client at the start of its round can go up to the ring when both semaphores are positive.
enters :
    (n m : ℕ) (s : System) (j : ℕ)
    → j < n
    → s.client j ≡ ClientPc.idle
    → 0 < s.memory.buffer.empty
    → 0 < s.memory.buffer.used
    → (t u : System) × Step n m s t
      × Step n m t u
      × (u.client j ≡ ClientPc.entered)
      × ((i : ℕ) → j ≢ i → u.client i ≡ s.client i)
enters n m s j lt idle empty used =
    let reserved = update s.client j ClientPc.reserved in
    let first : Memory = record (s.memory) {
      buffer = record (s.memory.buffer) { empty = s.memory.buffer.empty - 1 };
    } in
    let second : Memory = record first {
      buffer = record (first.buffer) { used = first.buffer.used - 1 };
    } in
    (
      _,
      _,
      Step.client_step j lt (
          subst (λ p. ClientMove s.memory p first ClientPc.reserved) (sym idle)
            (ClientMove.wait_empty empty)),
      Step.client_step j lt (
          subst (λ p. ClientMove first p second ClientPc.entered)
            (sym (update_self s.client j ClientPc.reserved)) (ClientMove.wait_used used)),
      update_self reserved j ClientPc.entered,
      λ i other.
          update_other reserved j i ClientPc.entered other
          ∙ update_other s.client j i ClientPc.reserved other,
    )

-- The program sets the semaphores each time it is started, as if the segment were new. If it is started
-- anew while a client is between its `sem_wait(used)` and its `sem_post(used)`, another client that is
-- about to begin its round can get past `sem_wait(used)` as well, and both are then at the ring.
pub restart_breaks_exclusion :
    (n m : ℕ) (s : System) (i j : ℕ)
    → j < n
    → client_critical (s.client i) ≡ true
    → s.client j ≡ ClientPc.idle
    → (printers_main willing s.memory.buffer ≡ Started.waiting 3 (restarted s).memory.buffer)
      × ((t u : System) × Step n m (restarted s) t
          × Step n m t u
          × (critical u (Process.client i) ≡ true)
          × (critical u (Process.client j) ≡ true)
          × (i ≢ j))
restart_breaks_exclusion n m s i j lt inside outside =
    let (t, u, one, two, enters_j, keeps) =
      enters n m (restarted s) j lt outside (omega arith) (omega arith) in
    let differs : i ≢ j = λ e.
      apart (sym inside ∙ ap (λ k. client_critical (s.client k)) e ∙ ap client_critical outside) in
    (
      printers_main-willing s.memory.buffer,
      (
        t,
        u,
        one,
        two,
        ap client_critical (keeps i (λ e. differs (sym e))) ∙ inside,
        ap client_critical enters_j,
        differs,
      ),
    )
  where
    apart : true ≡ false → ⊥
    apart e = ground arith

-- ===== src/Spooler/Invariant/Printers.antt =====
-- A step of a printer keeps the invariant.
use systemy_operacyjne_agh.Prelude.{
  ℕ, suc, ◌+◌, ◌%◌, ◌<◌, ◌≤◌, ◌≡◌, refl, sym, ap, ◌∙◌, List, [], ◌∷◌, ◌++◌, append_assoc, arith,
  get_or, length, ap₂,
}
use systemy_operacyjne_agh.Prelude.Family.{update, total-update, le-total}
use systemy_operacyjne_agh.Spooler.Text.{string, strcpy_returns}
use systemy_operacyjne_agh.Spooler.Machine.{
  Memory, PrinterPc, PrinterMove, wait_full, wait_used, take_task, advance, post_used, post_empty,
  print,
}
use systemy_operacyjne_agh.Spooler.Window.{window, window-mod}
use systemy_operacyjne_agh.Spooler.Invariant.PrinterAt
use systemy_operacyjne_agh.Spooler.Invariant.Defs.{
  All-middle, Tally, printers, stored, PrinterTask, Counts, Holds,
}

-- The tally of the printers before and after one of them goes from `q` to `q'`.
pub record Shift (p p' : Tally) (q q' : PrinterPc) : Type 0 where
  pub before : p'.before + PrinterAt.before q ≡ p.before + PrinterAt.before q'
  pub locked : p'.locked + PrinterAt.locked q ≡ p.locked + PrinterAt.locked q'
  pub copied : p'.copied + PrinterAt.copied q ≡ p.copied + PrinterAt.copied q'
  pub advanced : p'.advanced + PrinterAt.advanced q ≡ p.advanced + PrinterAt.advanced q'
  pub unlocked : p'.unlocked + PrinterAt.unlocked q ≡ p.unlocked + PrinterAt.unlocked q'
  pub was_before : PrinterAt.before q ≤ p.before
  pub was_locked : PrinterAt.locked q ≤ p.locked
  pub was_copied : PrinterAt.copied q ≤ p.copied

pub printers-update :
    (m : ℕ) (p : ℕ → PrinterPc) (i : ℕ) (q' : PrinterPc)
    → i < m
    → Shift (printers m p) (printers m (update p i q')) (p i) q'
printers-update m p i q' lt = record {
  before = total-update PrinterAt.before m p i q' lt;
  locked = total-update PrinterAt.locked m p i q' lt;
  copied = total-update PrinterAt.copied m p i q' lt;
  advanced = total-update PrinterAt.advanced m p i q' lt;
  unlocked = total-update PrinterAt.unlocked m p i q' lt;
  was_before = le-total PrinterAt.before m p i lt;
  was_locked = le-total PrinterAt.locked m p i lt;
  was_copied = le-total PrinterAt.copied m p i lt;
}

module _ {s : Memory} {c p : Tally} (inv : Counts s c p) where
  open inv use {slots, lock, in_lt, out_lt, place, client_locked, printer_locked}

  pub PrinterMove-Counts :
      {s' : Memory} {p' : Tally} {q q' : PrinterPc}
      → PrinterMove s q s' q'
      → Shift p p' q q'
      → Counts s' c p'
  PrinterMove-Counts (wait_full g) f = omega arith
  PrinterMove-Counts (wait_used g) f = omega arith
  PrinterMove-Counts (take_task junk size e) f = omega arith
  PrinterMove-Counts advance f = omega arith
  PrinterMove-Counts post_used f = omega arith
  PrinterMove-Counts post_empty f = omega arith
  PrinterMove-Counts print f = omega arith

  module _ (hold : Holds s c p) where
    -- A step that takes no job may only move `out` past the one that was copied.
    kept :
        (s' : Memory) (p' : Tally)
        → s'.tasks ≡ s.tasks
        → s'.sent ≡ s.sent
        → s'.taken ≡ s.taken
        → (s.out_index + p.copied) % 10 ≡ (s'.out_index + p'.copied) % 10
        → stored s c p ≡ stored s' c p'
        → Holds s' c p'
    kept s' p' tasks sent taken place' same = record {
      size = rw tasks (hold.size);
      rows = rw tasks (hold.rows);
      fifo =
          rw (sent, taken, tasks, ← same)
            (hold.fifo
              ∙ ap (λ xs. s.taken ++ xs)
                  (window-mod s.tasks (s.out_index + p.copied) (s'.out_index + p'.copied)
                    (stored s c p) place'));
      jobs = rw sent (hold.jobs);
    }

    module _ {p' : Tally} {task : List ℕ}
        (f : Shift p p' PrinterPc.entered (PrinterPc.copied task)) where
      first : List ℕ
      first = string (get_or s.tasks s.out_index [])

      -- The job that is granted to a printer is the oldest of the ring.
      oldest : s.sent ≡ s.taken ++ first ∷ window s.tasks (s.out_index + p'.copied) (stored s c p')
      unfolding first
      oldest =
          hold.fifo
          ∙ ap (λ xs. s.taken ++ xs)
              (ap (window s.tasks (s.out_index + p.copied)) fewer
                ∙ ap₂ (λ i h. string (get_or s.tasks i []) ∷ window s.tasks h (stored s c p'))
                    (omega arith) (omega arith))
        where
          fewer : stored s c p ≡ suc (stored s c p')
          fewer = omega arith

    took :
        {p' : Tally} {task : List ℕ}
        → Shift p p' PrinterPc.entered (PrinterPc.copied task)
        → Holds (record s { taken = s.taken ++ (string (get_or s.tasks s.out_index []) ∷ []) }) c p'
    unfolding first
    took {p'} f = record {
      size = hold.size;
      rows = hold.rows;
      fifo =
          oldest f
          ∙ sym (
              append_assoc s.taken (first f ∷ [])
                (window s.tasks (s.out_index + p'.copied) (stored s c p')));
      jobs = hold.jobs;
    }

    pub PrinterMove-Holds :
        {s' : Memory} {p' : Tally} {q q' : PrinterPc}
        → PrinterMove s q s' q'
        → Shift p p' q q'
        → Holds s' c p'
    PrinterMove-Holds {s'} {p'} (wait_full g) f =
        kept s' p' refl refl refl (omega arith) (omega arith)
    PrinterMove-Holds {s'} {p'} (wait_used g) f =
        kept s' p' refl refl refl (omega arith) (omega arith)
    PrinterMove-Holds (take_task junk size e) f = took f
    PrinterMove-Holds {s'} {p'} advance f = kept s' p' refl refl refl (omega arith) (omega arith)
    PrinterMove-Holds {s'} {p'} post_used f = kept s' p' refl refl refl (omega arith) (omega arith)
    PrinterMove-Holds {s'} {p'} post_empty f = kept s' p' refl refl refl (omega arith) (omega arith)
    PrinterMove-Holds {s'} {p'} print f = kept s' p' refl refl refl (omega arith) (omega arith)

    -- The job that a printer is granted has ten letters and an end.
    pub granted-chars :
        {p' : Tally} {task : List ℕ}
        → Shift p p' PrinterPc.entered (PrinterPc.copied task)
        → length (string (get_or s.tasks s.out_index [])) ≡ 10
    unfolding first
    granted-chars {p'} f =
        All-middle (λ w. length w ≡ 10) s.taken (first f)
          (window s.tasks (s.out_index + p'.copied) (stored s c p')) (rw (oldest f) at (hold.jobs))

    pub PrinterMove-Task :
        {s' : Memory} {p' : Tally} {q q' : PrinterPc}
        → PrinterMove s q s' q'
        → Shift p p' q q'
        → PrinterTask q
        → PrinterTask q'
    PrinterMove-Task (wait_full g) f t = tt
    PrinterMove-Task (wait_used g) f t = tt
    PrinterMove-Task (take_task junk size e) f t =
        let copy = strcpy_returns junk (get_or s.tasks s.out_index []) e in
        record { size = copy.0 ∙ size; chars = ap length copy.1 ∙ granted-chars f }
    PrinterMove-Task advance f t = t
    PrinterMove-Task post_used f t = t
    PrinterMove-Task post_empty f t = t
    PrinterMove-Task print f t = tt

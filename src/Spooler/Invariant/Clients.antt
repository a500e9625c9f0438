-- ===== src/Spooler/Invariant/Clients.antt =====
-- A step of a client keeps the invariant.
use systemy_operacyjne_agh.Prelude.{
  ℕ, suc, ◌+◌, ◌<◌, ◌≤◌, ◌≡◌, refl, sym, ap, ap₂, ◌∙◌, some, List, [], ◌∷◌, ◌++◌, append_assoc,
  arith, get_or, set, length, length-set, get_or-set_self, get_or-set_ne, ℕ_discrete,
}
use systemy_operacyjne_agh.Prelude.Family.{update, total-update, le-total}
use systemy_operacyjne_agh.Spooler.Text.{string, strcpy, strcpy_returns, IsTask, make_task-IsTask}
use systemy_operacyjne_agh.Spooler.Machine.{
  Memory, ClientPc, ClientMove, wait_empty, wait_used, fill, put, advance, post_used, post_full,
}
use systemy_operacyjne_agh.Spooler.Window.{window, window-set}
use systemy_operacyjne_agh.Spooler.Invariant.ClientAt
use systemy_operacyjne_agh.Spooler.Invariant.Defs.{
  All-snoc, Tally, clients, stored, contents, ClientTask, Counts, Holds,
}

-- The tally of the clients before and after one of them goes from `q` to `q'`.
pub record Shift (c c' : Tally) (q q' : ClientPc) : Type 0 where
  pub before : c'.before + ClientAt.before q ≡ c.before + ClientAt.before q'
  pub locked : c'.locked + ClientAt.locked q ≡ c.locked + ClientAt.locked q'
  pub copied : c'.copied + ClientAt.copied q ≡ c.copied + ClientAt.copied q'
  pub advanced : c'.advanced + ClientAt.advanced q ≡ c.advanced + ClientAt.advanced q'
  pub unlocked : c'.unlocked + ClientAt.unlocked q ≡ c.unlocked + ClientAt.unlocked q'
  pub was_before : ClientAt.before q ≤ c.before
  pub was_locked : ClientAt.locked q ≤ c.locked

pub clients-update :
    (n : ℕ) (c : ℕ → ClientPc) (i : ℕ) (q' : ClientPc)
    → i < n
    → Shift (clients n c) (clients n (update c i q')) (c i) q'
clients-update n c i q' lt = record {
  before = total-update ClientAt.before n c i q' lt;
  locked = total-update ClientAt.locked n c i q' lt;
  copied = total-update ClientAt.copied n c i q' lt;
  advanced = total-update ClientAt.advanced n c i q' lt;
  unlocked = total-update ClientAt.unlocked n c i q' lt;
  was_before = le-total ClientAt.before n c i lt;
  was_locked = le-total ClientAt.locked n c i lt;
}

module _ {s : Memory} {c p : Tally} (inv : Counts s c p) where
  open inv use {slots, lock, in_lt, out_lt, place, client_locked, printer_locked}

  pub ClientMove-Counts :
      {s' : Memory} {c' : Tally} {q q' : ClientPc}
      → ClientMove s q s' q'
      → Shift c c' q q'
      → Counts s' c' p
  ClientMove-Counts (wait_empty g) f = omega arith
  ClientMove-Counts (wait_used g) f = omega arith
  ClientMove-Counts (fill rand) f = omega arith
  ClientMove-Counts (put e) f = omega arith
  ClientMove-Counts advance f = omega arith
  ClientMove-Counts post_used f = omega arith
  ClientMove-Counts post_full f = omega arith

  -- A step of a client that writes no job leaves the ring as it is.
  module _ (hold : Holds s c p) where
    kept :
        (s' : Memory) (c' : Tally)
        → s'.tasks ≡ s.tasks
        → s'.out_index ≡ s.out_index
        → s'.sent ≡ s.sent
        → s'.taken ≡ s.taken
        → stored s c p ≡ stored s' c' p
        → Holds s' c' p
    kept s' c' tasks out sent taken same = record {
      size = rw tasks (hold.size);
      rows = rw tasks (hold.rows);
      fifo = rw (sent, taken, tasks, out, ← same) (hold.fifo);
      jobs = rw sent (hold.jobs);
    }

    wrote :
        {row task : List ℕ} {c' : Tally}
        → strcpy (get_or s.tasks s.in_index []) task ≡ some row
        → IsTask task
        → Shift c c' (ClientPc.filled task) ClientPc.copied
        → let s' : Memory = record s {
          buffer = record (s.buffer) { tasks = set s.tasks s.in_index row };
          sent = s.sent ++ (string task ∷ []);
        } in
          Holds s' c' p
    wrote {row} {task} {c'} e t f = record {
      size = length-set s.tasks s.in_index row ∙ hold.size;
      rows = λ i lt. elim (ℕ_discrete s.in_index i) [
        | yes same ↦
            rw (← same, get_or-set_self s.tasks s.in_index row [] (omega (arith, hold.size)))
              (copy.0 ∙ hold.rows s.in_index in_lt)
        | no other ↦ rw (get_or-set_ne s.tasks s.in_index i row [] other) (hold.rows i lt)
      ];
      fifo =
          ap₂ (λ xs w. xs ++ (w ∷ [])) (hold.fifo) (sym copy.1)
          ∙ append_assoc s.taken (contents s c p) (string row ∷ [])
          ∙ ap (λ xs. s.taken ++ xs) (sym ring);
      jobs = All-snoc (λ w. length w ≡ 10) s.sent (string task) (hold.jobs) (t.chars);
    }
      where
        copy : (length row ≡ length (get_or s.tasks s.in_index [])) × (string row ≡ string task)
        copy = strcpy_returns (get_or s.tasks s.in_index []) task e

        more : stored s c' p ≡ suc (stored s c p)
        more = omega arith

        ring :
            window (set s.tasks s.in_index row) (s.out_index + p.copied) (stored s c' p)
            ≡ contents s c p ++ (string row ∷ [])
        ring =
            ap (window (set s.tasks s.in_index row) (s.out_index + p.copied)) more
            ∙ window-set s.tasks (s.out_index + p.copied) (stored s c p) s.in_index row (hold.size)
                (omega arith) (omega arith)

    pub ClientMove-Holds :
        {s' : Memory} {c' : Tally} {q q' : ClientPc}
        → ClientMove s q s' q'
        → ClientTask q
        → Shift c c' q q'
        → Holds s' c' p
    ClientMove-Holds {s'} {c'} (wait_empty g) t f = kept s' c' refl refl refl refl (omega arith)
    ClientMove-Holds {s'} {c'} (wait_used g) t f = kept s' c' refl refl refl refl (omega arith)
    ClientMove-Holds {s'} {c'} (fill rand) t f = kept s' c' refl refl refl refl (omega arith)
    ClientMove-Holds (put e) t f = wrote e t f
    ClientMove-Holds {s'} {c'} advance t f = kept s' c' refl refl refl refl (omega arith)
    ClientMove-Holds {s'} {c'} post_used t f = kept s' c' refl refl refl refl (omega arith)
    ClientMove-Holds {s'} {c'} post_full t f = kept s' c' refl refl refl refl (omega arith)

pub ClientMove-Task :
    {s s' : Memory} {q q' : ClientPc} → ClientMove s q s' q' → ClientTask q → ClientTask q'
ClientMove-Task (wait_empty g) t = tt
ClientMove-Task (wait_used g) t = tt
ClientMove-Task (fill rand) t = make_task-IsTask rand
ClientMove-Task (put e) t = tt
ClientMove-Task advance t = tt
ClientMove-Task post_used t = tt
ClientMove-Task post_full t = tt

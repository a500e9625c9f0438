-- ===== src/Spooler/Invariant/Reachable.antt =====
-- The invariant holds at the start, and in every state that the spooler reaches.
use systemy_operacyjne_agh.Prelude.{
  ℕ, ◌≡◌, refl, ap, ◌<◌, arith, get_or, replicate, length, get_or-replicate, [],
}
use systemy_operacyjne_agh.Prelude.Family.{total, total-const, update-keeps}
use systemy_operacyjne_agh.Spooler.Machine.{
  ClientPc, PrinterPc, System, Step, client_step, printer_step, init, Reach, start, later,
}
use systemy_operacyjne_agh.Spooler.Invariant.ClientAt
use systemy_operacyjne_agh.Spooler.Invariant.PrinterAt
use systemy_operacyjne_agh.Spooler.Invariant.Defs.{
  clients, printers, ClientTask, PrinterTask, Counts, Inv,
}
use systemy_operacyjne_agh.Spooler.Invariant.Clients.{
  clients-update, ClientMove-Counts, ClientMove-Holds, ClientMove-Task,
}
use systemy_operacyjne_agh.Spooler.Invariant.Printers.{
  printers-update, PrinterMove-Counts, PrinterMove-Holds, PrinterMove-Task,
}

nobody : (w : ClientPc → ℕ) (n : ℕ) → w ClientPc.idle ≡ 0 → total w n (λ _. ClientPc.idle) ≡ 0
nobody w n h = total-const w n _ (λ _. h)

nobody' : (w : PrinterPc → ℕ) (n : ℕ) → w PrinterPc.idle ≡ 0 → total w n (λ _. PrinterPc.idle) ≡ 0
nobody' w n h = total-const w n _ (λ _. h)

init-Counts : (n m : ℕ) → Counts init.memory (clients n init.client) (printers m init.printer)
init-Counts n m = omega (
  arith,
  nobody ClientAt.before n refl,
  nobody ClientAt.locked n refl,
  nobody ClientAt.copied n refl,
  nobody ClientAt.advanced n refl,
  nobody ClientAt.unlocked n refl,
  nobody' PrinterAt.before m refl,
  nobody' PrinterAt.locked m refl,
  nobody' PrinterAt.copied m refl,
  nobody' PrinterAt.advanced m refl,
  nobody' PrinterAt.unlocked m refl,
)

rows-init : (i : ℕ) → i < 10 → length (get_or init.memory.tasks i []) ≡ 11
rows-init i lt = ap length (get_or-replicate 10 i (replicate 11 0) [] lt)

init-Inv : (n m : ℕ) → Inv n m init.memory init.client init.printer
init-Inv n m = record {
  counts = init-Counts n m;
  holds = record {
    size = refl;
    rows = rows-init;
    fifo = rw (
      nobody ClientAt.copied n refl,
      nobody ClientAt.advanced n refl,
      nobody ClientAt.unlocked n refl,
      nobody' PrinterAt.before m refl,
    );
    jobs = tt;
  };
  client_task = λ i. tt;
  printer_task = λ i. tt;
}

pub Step-Inv :
    {n m : ℕ} {s t : System}
    → Step n m s t
    → Inv n m s.memory s.client s.printer
    → Inv n m t.memory t.client t.printer
Step-Inv {n} {s} (client_step i {p = q} lt mv) inv =
    let f = clients-update n s.client i q lt in
    record {
      counts = ClientMove-Counts (inv.counts) mv f;
      holds = ClientMove-Holds (inv.counts) (inv.holds) mv (inv.client_task i) f;
      client_task =
          update-keeps ClientTask s.client i q (inv.client_task)
            (ClientMove-Task mv (inv.client_task i));
      printer_task = inv.printer_task;
    }
Step-Inv {m} {s} (printer_step i {p = q} lt mv) inv =
    let f = printers-update m s.printer i q lt in
    record {
      counts = PrinterMove-Counts (inv.counts) mv f;
      holds = PrinterMove-Holds (inv.counts) (inv.holds) mv f;
      client_task = inv.client_task;
      printer_task =
          update-keeps PrinterTask s.printer i q (inv.printer_task)
            (PrinterMove-Task (inv.counts) (inv.holds) mv f (inv.printer_task i));
    }

pub Reach-Inv : {n m : ℕ} {s : System} → Reach n m s → Inv n m s.memory s.client s.printer
Reach-Inv {n} {m} start = init-Inv n m
Reach-Inv (later r st) = Step-Inv st (Reach-Inv r)

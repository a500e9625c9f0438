-- ===== src/Spooler/Safety.antt =====
-- What holds in every state that the spooler of cw8 reaches.
use systemy_operacyjne_agh.Prelude.{
  ℕ, ◌+◌, ◌≤◌, ◌<◌, ◌≡◌, ap, Bool, true, false, ◌++◌, arith, length,
}
use systemy_operacyjne_agh.Prelude.Family.{total, le-total, total-add, same_index}
use systemy_operacyjne_agh.Spooler.Machine.{ClientPc, PrinterPc, System, Reach, buffer_size}
use systemy_operacyjne_agh.Spooler.Window.{length-window}
use systemy_operacyjne_agh.Spooler.Invariant.ClientAt
use systemy_operacyjne_agh.Spooler.Invariant.PrinterAt
use systemy_operacyjne_agh.Spooler.Invariant.Defs.{clients, printers, stored, contents}
use systemy_operacyjne_agh.Spooler.Invariant.Reachable.{Reach-Inv}

-- In every reachable state the strings that clients have put into the ring are, in order, those
-- that printers have taken and then those that lie in the ring, at most ten.
pub fifo :
    {n m : ℕ} {s : System}
    → Reach n m s
    → let left = contents s.memory (clients n s.client) (printers m s.printer) in
      (s.memory.sent ≡ s.memory.taken ++ left) × (length left ≤ buffer_size)
fifo {n} {m} {s} r =
    let inv = Reach-Inv r in
    let c = clients n s.client in
    let p = printers m s.printer in
    (
      inv.holds.fifo,
      omega (
        arith,
        length-window s.memory.tasks (s.memory.out_index + p.copied) (stored s.memory c p),
        inv.counts.slots,
        inv.counts.printer_locked,
      ),
    )

-- Between `sem_wait(used)` and `sem_post(used)`.
abbrev pub client_critical : ClientPc → Bool
client_critical ClientPc.entered = true
client_critical (ClientPc.filled _) = true
client_critical ClientPc.copied = true
client_critical ClientPc.advanced = true
client_critical _ = false

abbrev pub printer_critical : PrinterPc → Bool
printer_critical PrinterPc.entered = true
printer_critical (PrinterPc.copied _) = true
printer_critical (PrinterPc.advanced _) = true
printer_critical _ = false

-- A process of the system.
pub data Process : Type 0 where
  client : ℕ → Process
  printer : ℕ → Process

abbrev pub IsRunning : ℕ → ℕ → Process → Type 0
IsRunning n m (Process.client i) = i < n
IsRunning n m (Process.printer i) = i < m

abbrev pub critical : System → Process → Bool
critical s (Process.client i) = client_critical (s.client i)
critical s (Process.printer i) = printer_critical (s.printer i)

abbrev pub client_weight : ClientPc → ℕ
client_weight q = ClientAt.locked q + ClientAt.copied q + ClientAt.advanced q

abbrev pub printer_weight : PrinterPc → ℕ
printer_weight q = PrinterAt.locked q + PrinterAt.copied q + PrinterAt.advanced q

client_weight-critical : (q : ClientPc) → client_critical q ≡ true → client_weight q ≡ 1
client_weight-critical ClientPc.idle h = ground arith
client_weight-critical _ h = ground arith

printer_weight-critical : (q : PrinterPc) → printer_critical q ≡ true → printer_weight q ≡ 1
printer_weight-critical PrinterPc.idle h = ground arith
printer_weight-critical _ h = ground arith

-- The semaphore `used` leaves room for one process.
one_holder :
    {n m : ℕ} {s : System}
    → Reach n m s
    → total client_weight n s.client + total printer_weight m s.printer ≤ 1
one_holder {n} {m} {s} r = omega (
  arith,
  (Reach-Inv r).counts.lock,
  total-add (λ q. ClientAt.locked q + ClientAt.copied q) ClientAt.advanced n s.client,
  total-add ClientAt.locked ClientAt.copied n s.client,
  total-add (λ q. PrinterAt.locked q + PrinterAt.copied q) PrinterAt.advanced m s.printer,
  total-add PrinterAt.locked PrinterAt.copied m s.printer,
)

clash :
    (n m : ℕ) (s : System)
    → Reach n m s
    → (i j : ℕ) → i < n
    → j < m
    → client_critical (s.client i) ≡ true
    → printer_critical (s.printer j) ≡ true
    → ⊥
clash n m s r i j hi hj ci cj = omega (
  arith,
  one_holder r,
  le-total client_weight n s.client i hi,
  le-total printer_weight m s.printer j hj,
  client_weight-critical (s.client i) ci,
  printer_weight-critical (s.printer j) cj,
)

-- In every reachable state at most one process, client or printer, is between its
-- `sem_wait(used)` and its `sem_post(used)`.
pub mutual_exclusion :
    {n m : ℕ} {s : System}
    → Reach n m s
    → (a b : Process) → IsRunning n m a
    → IsRunning n m b
    → critical s a ≡ true
    → critical s b ≡ true
    → a ≡ b
mutual_exclusion {n} {m} {s} r (Process.client i) (Process.client j) hi hj ci cj =
    ap Process.client (
      same_index client_weight n s.client i j (omega (arith, one_holder r)) hi hj
        (client_weight-critical (s.client i) ci) (client_weight-critical (s.client j) cj))
mutual_exclusion {n} {m} {s} r (Process.printer i) (Process.printer j) hi hj ci cj =
    ap Process.printer (
      same_index printer_weight m s.printer i j (omega (arith, one_holder r)) hi hj
        (printer_weight-critical (s.printer i) ci) (printer_weight-critical (s.printer j) cj))
mutual_exclusion {n} {m} {s} r (Process.client i) (Process.printer j) hi hj ci cj =
    absurd (clash n m s r i j hi hj ci cj)
mutual_exclusion {n} {m} {s} r (Process.printer j) (Process.client i) hj hi cj ci =
    absurd (clash n m s r i j hi hj ci cj)

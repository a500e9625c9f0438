-- ===== src/Spooler/Progress.antt =====
-- The steps that are left in a state of the spooler of cw8, and the copies of its strings.
use systemy_operacyjne_agh.Prelude.{
  ℕ, ◌+◌, ◌<◌, ◌≡◌, refl, [], replicate, arith, dec_lt, get_or, ◌⊎◌, inl, inr,
}
use systemy_operacyjne_agh.Prelude.Family.{total, total-add, pos-of-total}
use systemy_operacyjne_agh.Spooler.Text.{strcpy-total}
use systemy_operacyjne_agh.Spooler.Machine.{
  Memory, ClientPc, ClientMove, PrinterPc, PrinterMove, System, Step, client_step, printer_step,
  Reach, wait_empty, fill, put, post_full, wait_full, take_task, post_empty, print,
}
use systemy_operacyjne_agh.Spooler.Invariant.ClientAt
use systemy_operacyjne_agh.Spooler.Invariant.PrinterAt
use systemy_operacyjne_agh.Spooler.Invariant.Defs.{
  Tally, clients, printers, ClientTask, Counts, Holds, Inv,
}
use systemy_operacyjne_agh.Spooler.Invariant.Printers.{Shift, printers-update, granted-chars}
use systemy_operacyjne_agh.Spooler.Invariant.Reachable.{Reach-Inv}
use systemy_operacyjne_agh.Spooler.Safety.{client_weight, printer_weight}

-- The semaphore that a process waits for is free.
abbrev ClientReady : Memory → ClientPc → Type 0
ClientReady s ClientPc.idle = 0 < s.empty
ClientReady s ClientPc.reserved = 0 < s.used
ClientReady s _ = Unit

abbrev PrinterReady : Memory → PrinterPc → Type 0
PrinterReady s PrinterPc.idle = 0 < s.full
PrinterReady s PrinterPc.reserved = 0 < s.used
PrinterReady s _ = Unit

client_moves :
    (s : Memory) {c p : Tally} (q : ClientPc)
    → Counts s c p
    → Holds s c p
    → ClientTask q
    → ClientReady s q
    → (t : Memory) × (q' : ClientPc) × ClientMove s q t q'
client_moves s ClientPc.idle inv hold t r = (_, _, wait_empty r)
client_moves s ClientPc.reserved inv hold t r = (_, _, ClientMove.wait_used r)
client_moves s ClientPc.entered inv hold t r = (_, _, fill (λ _. 0))
client_moves s (ClientPc.filled task) inv hold t r =
    let (row, e) =
      strcpy-total (get_or s.tasks s.in_index []) task (omega (arith, t.size, t.chars))
        (omega (arith, t.chars, hold.rows s.in_index (inv.in_lt))) in
    (_, _, put e)
client_moves s ClientPc.copied inv hold t r = (_, _, ClientMove.advance)
client_moves s ClientPc.advanced inv hold t r = (_, _, ClientMove.post_used)
client_moves s ClientPc.unlocked inv hold t r = (_, _, post_full)

printer_moves :
    (s : Memory) {c p p' : Tally} (q : PrinterPc)
    → Counts s c p
    → Holds s c p
    → Shift p p' q (PrinterPc.copied [])
    → PrinterReady s q
    → (t : Memory) × (q' : PrinterPc) × PrinterMove s q t q'
printer_moves s PrinterPc.idle inv hold f r = (_, _, wait_full r)
printer_moves s PrinterPc.reserved inv hold f r = (_, _, PrinterMove.wait_used r)
printer_moves s PrinterPc.entered inv hold f r =
    let chars = granted-chars inv hold f in
    let row = hold.rows s.out_index (inv.out_lt) in
    let (task, e) =
      strcpy-total (replicate 11 0) (get_or s.tasks s.out_index []) (omega arith) (omega arith) in
    (_, _, take_task (replicate 11 0) refl e)
printer_moves s (PrinterPc.copied task) inv hold f r = (_, _, PrinterMove.advance)
printer_moves s (PrinterPc.advanced task) inv hold f r = (_, _, PrinterMove.post_used)
printer_moves s (PrinterPc.unlocked task) inv hold f r = (_, _, post_empty)
printer_moves s (PrinterPc.printing task) inv hold f r = (_, _, print)

module _ {n m : ℕ} {s : System} (inv : Inv n m s.memory s.client s.printer) where
  client_can_step :
      (i : ℕ) → i < n → ClientReady s.memory (s.client i) → (t : System) × Step n m s t
  client_can_step i lt r =
      let (t, q', mv) =
        client_moves s.memory (s.client i) (inv.counts) (inv.holds) (inv.client_task i) r in
      (_, client_step i lt mv)

  printer_can_step :
      (i : ℕ) → i < m → PrinterReady s.memory (s.printer i) → (t : System) × Step n m s t
  printer_can_step i lt r =
      let (t, q', mv) =
        printer_moves s.memory (s.printer i) (inv.counts) (inv.holds)
          (printers-update m s.printer i (PrinterPc.copied []) lt) r in
      (_, printer_step i lt mv)

abbrev client_busy : ClientPc → ℕ
client_busy q = ClientAt.before q + ClientAt.copied q + ClientAt.advanced q + ClientAt.unlocked q

abbrev printer_busy : PrinterPc → ℕ
printer_busy q =
    PrinterAt.before q + PrinterAt.copied q + PrinterAt.advanced q + PrinterAt.unlocked q

-- A process that holds the lock waits for nothing.
holder-ready : (s : Memory) (q : ClientPc) → 0 < client_weight q → ClientReady s q
holder-ready s ClientPc.idle h = absurd (omega arith)
holder-ready s ClientPc.reserved h = absurd (omega arith)
holder-ready s _ h = tt

printer_holder-ready : (s : Memory) (q : PrinterPc) → 0 < printer_weight q → PrinterReady s q
printer_holder-ready s PrinterPc.idle h = absurd (omega arith)
printer_holder-ready s PrinterPc.reserved h = absurd (omega arith)
printer_holder-ready s _ h = tt

-- With the lock free, only a process that is idle may have to wait.
busy-ready :
    (s : Memory) (q : ClientPc) → 0 < s.used → (0 < s.empty) ⊎ (0 < client_busy q) → ClientReady s q
busy-ready s ClientPc.idle u h = omega arith
busy-ready s ClientPc.reserved u h = u
busy-ready s _ u h = tt

printer_busy-ready :
    (s : Memory) (q : PrinterPc)
    → 0 < s.used
    → (0 < s.full) ⊎ (0 < printer_busy q)
    → PrinterReady s q
printer_busy-ready s PrinterPc.idle u h = omega arith
printer_busy-ready s PrinterPc.reserved u h = u
printer_busy-ready s _ u h = tt

client_holding :
    (n : ℕ) (c : ℕ → ClientPc)
    → total client_weight n c ≡ (clients n c).locked + (clients n c).copied + (clients n c).advanced
client_holding n c = omega (
  arith,
  total-add (λ q. ClientAt.locked q + ClientAt.copied q) ClientAt.advanced n c,
  total-add ClientAt.locked ClientAt.copied n c,
)

printer_holding :
    (m : ℕ) (p : ℕ → PrinterPc)
    → total printer_weight m p
      ≡ (printers m p).locked + (printers m p).copied + (printers m p).advanced
printer_holding m p = omega (
  arith,
  total-add (λ q. PrinterAt.locked q + PrinterAt.copied q) PrinterAt.advanced m p,
  total-add PrinterAt.locked PrinterAt.copied m p,
)

client_reserving :
    (n : ℕ) (c : ℕ → ClientPc)
    → total client_busy n c
      ≡ (clients n c).before
        + (clients n c).copied
        + (clients n c).advanced
        + (clients n c).unlocked
client_reserving n c = omega (
  arith,
  total-add (λ q. ClientAt.before q + ClientAt.copied q + ClientAt.advanced q) ClientAt.unlocked n
      c,
  total-add (λ q. ClientAt.before q + ClientAt.copied q) ClientAt.advanced n c,
  total-add ClientAt.before ClientAt.copied n c,
)

printer_reserving :
    (m : ℕ) (p : ℕ → PrinterPc)
    → total printer_busy m p
      ≡ (printers m p).before
        + (printers m p).copied
        + (printers m p).advanced
        + (printers m p).unlocked
printer_reserving m p = omega (
  arith,
  total-add (λ q. PrinterAt.before q + PrinterAt.copied q + PrinterAt.advanced q) PrinterAt.unlocked
      m p,
  total-add (λ q. PrinterAt.before q + PrinterAt.copied q) PrinterAt.advanced m p,
  total-add PrinterAt.before PrinterAt.copied m p,
)

module _ {n m : ℕ} {s : System} (inv : Inv n m s.memory s.client s.printer) where
  -- The lock is taken: its holder moves.
  holder_steps : s.memory.used ≡ 0 → (t : System) × Step n m s t
  holder_steps e = elim (dec_lt 0 (total client_weight n s.client)) [
    | yes some_client ↦
        let (i, lt, w) = pos-of-total client_weight n s.client some_client in
        client_can_step inv i lt (holder-ready s.memory (s.client i) w)
    | no no_client ↦
        let (i, lt, w) = pos-of-total printer_weight m s.printer (
          omega (arith, inv.counts.lock, client_holding n s.client, printer_holding m s.printer)) in
        printer_can_step inv i lt (printer_holder-ready s.memory (s.printer i) w)
  ]

  -- The lock is free: a process between its first wait and its last post moves.
  busy_steps :
      0 < s.memory.used
      → 0 < total client_busy n s.client + total printer_busy m s.printer
      → (t : System) × Step n m s t
  busy_steps u h = elim (dec_lt 0 (total client_busy n s.client)) [
    | yes some_client ↦
        let (i, lt, w) = pos-of-total client_busy n s.client some_client in
        client_can_step inv i lt (busy-ready s.memory (s.client i) u (inr w))
    | no no_client ↦
        let (i, lt, w) = pos-of-total printer_busy m s.printer (omega arith) in
        printer_can_step inv i lt (printer_busy-ready s.memory (s.printer i) u (inr w))
  ]

-- With at least one client and one printer, every reachable state has a step: there is no
-- deadlock, and no process is stopped by a `strcpy` that would leave its arrays.
pub no_deadlock : {n m : ℕ} {s : System} → 0 < n → 0 < m → Reach n m s → (t : System) × Step n m s t
no_deadlock {n} {m} {s} hn hm r =
    let inv = Reach-Inv r in
    elim (dec_lt 0 s.memory.used) [
      | no taken ↦ holder_steps inv (omega arith)
      | yes free ↦ elim (dec_lt 0 s.memory.empty) [
        | yes place ↦ client_can_step inv 0 hn (busy-ready s.memory (s.client 0) free (inl place))
        | no no_place ↦ elim (dec_lt 0 s.memory.full) [
          | yes job ↦
              printer_can_step inv 0 hm (printer_busy-ready s.memory (s.printer 0) free (inl job))
          | no no_job ↦ busy_steps inv free (
              omega (
                arith,
                inv.counts.slots,
                client_reserving n s.client,
                printer_reserving m s.printer,
              ))
        ]
      ]
    ]

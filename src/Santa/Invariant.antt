-- ===== src/Santa/Invariant.antt =====
-- What holds between the steps of cw10/zad10.c: who holds the mutex, who is in the queue, and that
-- Santa does not sleep through a full queue.
use systemy_operacyjne_agh.Prelude.{ℕ, ◌+◌, ◌<◌, ◌≤◌, ◌≡◌, refl, Bool, true, false, arith}
use systemy_operacyjne_agh.Prelude.Family.{
  total, total-update, total-const, le-total, total-le, total-map, update,
}
use systemy_operacyjne_agh.Santa.Machine.{
  reindeers_num, presents_delivery, max_reindeers_in_queue, ReindeerPc, SantaPc, Station,
  ReindeerMove, SantaMove, System, Step, reindeer_step, santa_step, broadcast, init, Reach, here,
  next, wake,
}

-- A reindeer with the mutex.
abbrev pub holds : ReindeerPc → ℕ
holds ReindeerPc.arrived = 1
holds ReindeerPc.counted = 1
holds ReindeerPc.checking = 1
holds ReindeerPc.leaving = 1
holds _ = 0

-- A reindeer that has joined the queue and not left.
abbrev pub queued : ReindeerPc → ℕ
queued ReindeerPc.counted = 1
queued ReindeerPc.checking = 1
queued ReindeerPc.waiting = 1
queued ReindeerPc.woken = 1
queued _ = 0

-- A reindeer about to test whether the queue is full.
abbrev pub signalling : ReindeerPc → ℕ
signalling ReindeerPc.counted = 1
signalling _ = 0

abbrev pub santa_holds : SantaPc → ℕ
santa_holds (SantaPc.checking _) = 1
santa_holds (SantaPc.delivering _) = 1
santa_holds (SantaPc.emptied _) = 1
santa_holds (SantaPc.leaving _) = 1
santa_holds _ = 0

abbrev pub bit : Bool → ℕ
bit true = 1
bit false = 0

-- The sums over the reindeer.
pub record Herd : Type 0 where
  pub holding : ℕ
  pub queueing : ℕ
  pub signals : ℕ

abbrev pub herd : (ℕ → ReindeerPc) → Herd
herd r = record {
  holding = total holds reindeers_num r;
  queueing = total queued reindeers_num r;
  signals = total signalling reindeers_num r;
}

-- What Santa's place says of the queue and of the deliveries.
abbrev pub SantaFact : ℕ → ℕ → SantaPc → Type 0
SantaFact queue signals (SantaPc.resting d) = d ≤ presents_delivery
SantaFact queue signals (SantaPc.locking d) = d < presents_delivery
SantaFact queue signals (SantaPc.checking d) = d < presents_delivery
SantaFact queue signals (SantaPc.waiting d) =
    (d < presents_delivery) × (queue < max_reindeers_in_queue + signals)
SantaFact queue signals (SantaPc.woken d) = d < presents_delivery
SantaFact queue signals (SantaPc.delivering d) =
    (d < presents_delivery) × (max_reindeers_in_queue ≤ queue)
SantaFact queue signals (SantaPc.emptied d) = (d ≤ presents_delivery) × (queue ≡ 0)
SantaFact queue signals (SantaPc.leaving d) = d ≤ presents_delivery
SantaFact queue signals SantaPc.finished = Unit

pub record Inv (s : Station) (h : Herd) : Type 0 where
  pub held : bit s.mutex ≡ h.holding + santa_holds s.santa
  pub queue_le : s.reindeers_in_queue ≤ h.queueing
  pub queueing_le : h.queueing ≤ reindeers_num
  pub fact : SantaFact s.reindeers_in_queue h.signals s.santa

-- The herd before and after one reindeer goes from `q` to `q'`.
pub record Shift (h h' : Herd) (q q' : ReindeerPc) : Type 0 where
  pub holding : h'.holding + holds q ≡ h.holding + holds q'
  pub queueing : h'.queueing + queued q ≡ h.queueing + queued q'
  pub signals : h'.signals + signalling q ≡ h.signals + signalling q'
  pub was_holding : holds q ≤ h.holding
  pub few : h'.queueing ≤ reindeers_num

ReindeerMove-Inv :
    (s : Station) {s' : Station} {h h' : Herd} {q q' : ReindeerPc}
    → ReindeerMove s q s' q'
    → Shift h h' q q'
    → Inv s h
    → Inv s' h'
ReindeerMove-Inv s (ReindeerMove.lock g) f inv = ground arith
ReindeerMove-Inv s ReindeerMove.join f inv = ground arith
ReindeerMove-Inv s (ReindeerMove.signal g) f inv = ground arith
ReindeerMove-Inv s (ReindeerMove.pass g) f inv = ground arith
ReindeerMove-Inv s (ReindeerMove.wait g) f inv = ground arith
ReindeerMove-Inv s ReindeerMove.spurious f inv = ground arith
ReindeerMove-Inv s (ReindeerMove.relock g) f inv = ground arith
ReindeerMove-Inv s (ReindeerMove.depart g) f inv = ground arith
ReindeerMove-Inv s ReindeerMove.unlock f inv = ground arith

SantaMove-Inv :
    (s : Station) {s' : Station} {h : Herd} {q : SantaPc}
    → SantaMove s q s'
    → s.santa ≡ q
    → Inv s h
    → Inv s' h
SantaMove-Inv s (SantaMove.begin g) e inv = ground arith
SantaMove-Inv s (SantaMove.lock g) e inv = ground arith
SantaMove-Inv s (SantaMove.wait g) e inv = ground arith
SantaMove-Inv s SantaMove.spurious e inv = ground arith
SantaMove-Inv s (SantaMove.relock g) e inv = ground arith
SantaMove-Inv s (SantaMove.deliver g) e inv = ground arith
SantaMove-Inv s SantaMove.empty_queue e inv = ground arith
SantaMove-Inv s SantaMove.unlock e inv = ground arith
SantaMove-Inv s (SantaMove.finish g) e inv = ground arith

queued-le : (q : ReindeerPc) → queued q ≤ 1
queued-le q = ground arith

pub herd-update :
    (r : ℕ → ReindeerPc) (i : ℕ) (q' : ReindeerPc)
    → i < reindeers_num
    → Shift (herd r) (herd (update r i q')) (r i) q'
herd-update r i q' lt = record {
  holding = total-update holds reindeers_num r i q' lt;
  queueing = total-update queued reindeers_num r i q' lt;
  signals = total-update signalling reindeers_num r i q' lt;
  was_holding = le-total holds reindeers_num r i lt;
  few = total-le queued queued-le reindeers_num (update r i q');
}

-- The broadcast moves no reindeer across the mutex or the queue.
pub herd-wake : (r : ℕ → ReindeerPc) → herd (λ i. wake (r i)) ≡ herd r
herd-wake r = λ k. record {
  holding = total-map holds wake (λ q. ground arith) reindeers_num r k;
  queueing = total-map queued wake (λ q. ground arith) reindeers_num r k;
  signals = total-map signalling wake (λ q. ground arith) reindeers_num r k;
}

broadcast-Inv :
    (s : Station) {h : Herd} {d : ℕ}
    → s.santa ≡ SantaPc.emptied d
    → Inv s h
    → Inv (record s { santa = SantaPc.leaving d }) h
broadcast-Inv s e inv = ground arith

pub Step-Inv :
    {s t : System} → Step s t → Inv s.station (herd s.reindeer) → Inv t.station (herd t.reindeer)
Step-Inv {s} (reindeer_step i {q = q} lt mv) inv =
    ReindeerMove-Inv s.station mv (herd-update s.reindeer i q lt) inv
Step-Inv {s} (santa_step mv) inv = SantaMove-Inv s.station mv refl inv
Step-Inv {s} (broadcast e) inv = rw (herd-wake s.reindeer) (broadcast-Inv s.station e inv)

pub init-Inv : Inv init.station (herd init.reindeer)
init-Inv = omega (
  arith,
  total-const holds reindeers_num init.reindeer (λ _. refl),
  total-const queued reindeers_num init.reindeer (λ _. refl),
)

pub Reach-Inv :
    {s t : System} → Inv s.station (herd s.reindeer) → Reach s t → Inv t.station (herd t.reindeer)
Reach-Inv inv here = inv
Reach-Inv inv (next r st) = Step-Inv st (Reach-Inv inv r)

-- ===== src/Santa/Deliveries.antt =====
-- How often Santa of cw10/zad10.c delivers.
use systemy_operacyjne_agh.Prelude.{ℕ, ◌+◌, ◌≡◌, refl, ap, ◌∙◌, arith, ◌==◌, ◌&&◌, if◌then◌else◌}
use systemy_operacyjne_agh.Santa.Machine.{
  presents_delivery, max_reindeers_in_queue, SantaPc, Station, ReindeerPc, ReindeerMove, SantaMove,
  System, Step, signal_santa, reindeer_step, santa_step, broadcast, init, Reach, here, next,
}
use systemy_operacyjne_agh.Santa.Invariant.{Herd, herd, Inv, init-Inv, Reach-Inv}

-- `delivered_presents` at each of Santa's places.
abbrev delivered : SantaPc → ℕ
delivered (SantaPc.resting d) = d
delivered (SantaPc.locking d) = d
delivered (SantaPc.checking d) = d
delivered (SantaPc.waiting d) = d
delivered (SantaPc.woken d) = d
delivered (SantaPc.delivering d) = d
delivered (SantaPc.emptied d) = d
delivered (SantaPc.leaving d) = d
delivered SantaPc.finished = presents_delivery

-- 1 if the queue goes from full to empty.
abbrev pub empties : ℕ → ℕ → ℕ
empties before after = if before == max_reindeers_in_queue && after == 0 then 1 else 0

-- In how many steps of a run `reindeers_in_queue` goes from `MAX_REINDEERS_IN_QUEUE` to 0.
pub deliveries : {s t : System} → Reach s t → ℕ
deliveries here = 0
deliveries (next {t = t} {u = u} r st) =
    deliveries r + empties t.reindeers_in_queue u.reindeers_in_queue

-- `delivered_presents` grows by 1 exactly at a step that empties the full queue.
SantaMove-delivered :
    (s : Station) {t : Station} {h : Herd} {q : SantaPc}
    → SantaMove s q t
    → s.santa ≡ q
    → Inv s h
    → delivered t.santa ≡ delivered q + empties s.reindeers_in_queue t.reindeers_in_queue
SantaMove-delivered s (SantaMove.begin g) e inv = ground arith
SantaMove-delivered s (SantaMove.lock g) e inv = ground arith
SantaMove-delivered s (SantaMove.wait g) e inv = ground arith
SantaMove-delivered s SantaMove.spurious e inv = ground arith
SantaMove-delivered s (SantaMove.relock g) e inv = ground arith
SantaMove-delivered s (SantaMove.deliver g) e inv = ground arith
SantaMove-delivered s SantaMove.empty_queue e inv = ground arith
SantaMove-delivered s SantaMove.unlock e inv = ground arith
SantaMove-delivered s (SantaMove.finish g) e inv = ground arith

empties_same : (n : ℕ) → empties n n ≡ 0
empties_same n = ground arith

empties_more : (n : ℕ) → empties n (n + 1) ≡ 0
empties_more n = ground arith

delivered-signal : (q : SantaPc) → delivered (signal_santa q) ≡ delivered q
delivered-signal q = ground arith

ReindeerMove-empties :
    (s : Station) {t : Station} {q q' : ReindeerPc}
    → ReindeerMove s q t q'
    → empties s.reindeers_in_queue t.reindeers_in_queue ≡ 0
ReindeerMove-empties s (ReindeerMove.signal g) = empties_same s.reindeers_in_queue
ReindeerMove-empties s (ReindeerMove.lock g) = empties_same s.reindeers_in_queue
ReindeerMove-empties s ReindeerMove.join = empties_more s.reindeers_in_queue
ReindeerMove-empties s (ReindeerMove.pass g) = empties_same s.reindeers_in_queue
ReindeerMove-empties s (ReindeerMove.wait g) = empties_same s.reindeers_in_queue
ReindeerMove-empties s ReindeerMove.spurious = empties_same s.reindeers_in_queue
ReindeerMove-empties s (ReindeerMove.relock g) = empties_same s.reindeers_in_queue
ReindeerMove-empties s (ReindeerMove.depart g) = empties_same s.reindeers_in_queue
ReindeerMove-empties s ReindeerMove.unlock = empties_same s.reindeers_in_queue

ReindeerMove-delivered :
    (s : Station) {t : Station} {q q' : ReindeerPc}
    → ReindeerMove s q t q'
    → delivered t.santa ≡ delivered s.santa
ReindeerMove-delivered s (ReindeerMove.signal g) = delivered-signal s.santa
ReindeerMove-delivered s (ReindeerMove.lock g) = refl
ReindeerMove-delivered s ReindeerMove.join = refl
ReindeerMove-delivered s (ReindeerMove.pass g) = refl
ReindeerMove-delivered s (ReindeerMove.wait g) = refl
ReindeerMove-delivered s ReindeerMove.spurious = refl
ReindeerMove-delivered s (ReindeerMove.relock g) = refl
ReindeerMove-delivered s (ReindeerMove.depart g) = refl
ReindeerMove-delivered s ReindeerMove.unlock = refl

Step-delivered :
    {s t : System}
    → Step s t
    → Inv s.station (herd s.reindeer)
    → delivered t.santa ≡ delivered s.santa + empties s.reindeers_in_queue t.reindeers_in_queue
Step-delivered {s} (reindeer_step i lt mv) inv =
    omega (arith, ReindeerMove-delivered s.station mv, ReindeerMove-empties s.station mv)
Step-delivered {s} (santa_step mv) inv = SantaMove-delivered s.station mv refl inv
Step-delivered {s} (broadcast e) inv =
    omega (arith, ap delivered e, empties_same s.reindeers_in_queue)

deliveries-eq-delivered : {s : System} (r : Reach init s) → deliveries r ≡ delivered s.santa
unfolding deliveries
deliveries-eq-delivered here = refl
deliveries-eq-delivered (next r st) =
    omega (arith, deliveries-eq-delivered r, Step-delivered st (Reach-Inv init-Inv r))

-- In every run from the start in which Santa finishes, exactly four steps take `reindeers_in_queue`
-- from nine to 0.
pub four_deliveries :
    {s : System} (r : Reach init s) → s.santa ≡ SantaPc.finished → deliveries r ≡ 4
four_deliveries r e = deliveries-eq-delivered r ∙ ap delivered e

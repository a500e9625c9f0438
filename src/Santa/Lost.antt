-- ===== src/Santa/Lost.antt =====
-- The reindeer of cw10/zad10.c that Santa wakes and that find the queue begun again.
use systemy_operacyjne_agh.Prelude.{ℕ, ◌<◌, ◌≡◌, ◌≢◌, refl, arith}
use systemy_operacyjne_agh.Prelude.Family.{total}
use systemy_operacyjne_agh.Santa.Machine.{
  reindeers_num, SantaPc, Station, ReindeerPc, ReindeerMove, SantaMove, System, Step, reindeer_step,
  santa_step, broadcast, init, Reach, here, next,
}
use systemy_operacyjne_agh.Santa.Invariant.{
  queued, Herd, herd, Shift, herd-update, herd-wake, Inv, init-Inv, Reach-Inv,
}

-- A new queue has begun, and more reindeer stand in it than it counts.
pub record IsLost (s : Station) (h : Herd) : Type 0 where
  pub begun : 0 < s.reindeers_in_queue
  pub short : s.reindeers_in_queue < h.queueing

ReindeerMove-IsLost :
    (s : Station) {s' : Station} {h h' : Herd} {q q' : ReindeerPc}
    → ReindeerMove s q s' q'
    → Shift h h' q q'
    → IsLost s h
    → IsLost s' h'
ReindeerMove-IsLost s (ReindeerMove.lock g) f l = omega arith
ReindeerMove-IsLost s ReindeerMove.join f l = omega arith
ReindeerMove-IsLost s (ReindeerMove.signal g) f l = omega arith
ReindeerMove-IsLost s (ReindeerMove.pass g) f l = omega arith
ReindeerMove-IsLost s (ReindeerMove.wait g) f l = omega arith
ReindeerMove-IsLost s ReindeerMove.spurious f l = omega arith
ReindeerMove-IsLost s (ReindeerMove.relock g) f l = omega arith
ReindeerMove-IsLost s (ReindeerMove.depart g) f l = omega arith
ReindeerMove-IsLost s ReindeerMove.unlock f l = omega arith

SantaMove-IsLost :
    (s : Station) {s' : Station} {h : Herd} {q : SantaPc}
    → SantaMove s q s'
    → s.santa ≡ q
    → Inv s h
    → IsLost s h
    → IsLost s' h
SantaMove-IsLost s (SantaMove.begin g) e inv l = omega arith
SantaMove-IsLost s (SantaMove.lock g) e inv l = omega arith
SantaMove-IsLost s (SantaMove.wait g) e inv l = omega arith
SantaMove-IsLost s SantaMove.spurious e inv l = omega arith
SantaMove-IsLost s (SantaMove.relock g) e inv l = omega arith
SantaMove-IsLost s (SantaMove.deliver g) e inv l = omega arith
SantaMove-IsLost s SantaMove.empty_queue e inv l = ground arith
SantaMove-IsLost s SantaMove.unlock e inv l = omega arith
SantaMove-IsLost s (SantaMove.finish g) e inv l = omega arith

Step-IsLost :
    {s t : System}
    → Step s t
    → Inv s.station (herd s.reindeer)
    → IsLost s.station (herd s.reindeer)
    → IsLost t.station (herd t.reindeer)
Step-IsLost {s} (reindeer_step i {q = q} lt mv) inv l =
    ReindeerMove-IsLost s.station mv (herd-update s.reindeer i q lt) l
Step-IsLost {s} (santa_step mv) inv l = SantaMove-IsLost s.station mv refl inv l
Step-IsLost {s} (broadcast e) inv l = rw (herd-wake s.reindeer) (omega arith)

Reach-IsLost :
    {s t : System}
    → Inv s.station (herd s.reindeer)
    → IsLost s.station (herd s.reindeer)
    → Reach s t
    → IsLost t.station (herd t.reindeer)
Reach-IsLost inv l here = l
Reach-IsLost inv l (next r st) = Step-IsLost st (Reach-Inv inv r) (Reach-IsLost inv l r)

-- From a reachable state in which the queue has begun and counts fewer reindeer than stand in it,
-- no order of steps lets Santa deliver again.
pub lost_for_good :
    {s t : System} {d : ℕ}
    → Reach init s
    → 0 < s.reindeers_in_queue
    → s.reindeers_in_queue < total queued reindeers_num s.reindeer
    → Reach s t
    → t.santa ≢ SantaPc.delivering d
lost_for_good {s} {t} {d} r begun short later e =
    let inv = Reach-Inv init-Inv r in
    let l : IsLost s.station (herd s.reindeer) = record { begun = begun; short = short } in
    ground (arith, Reach-IsLost inv l later, Reach-Inv inv later)

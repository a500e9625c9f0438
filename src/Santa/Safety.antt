-- ===== src/Santa/Safety.antt =====
-- What holds in every state that cw10/zad10.c reaches.
use systemy_operacyjne_agh.Prelude.{ℕ, ◌+◌, ◌<◌, ◌≤◌, ◌≡◌, refl, ap, ◌⊎◌, Bool, true, false, arith}
use systemy_operacyjne_agh.Prelude.Family.{total, le-total, total_mono, all-of-total, same_index}
use systemy_operacyjne_agh.Santa.Machine.{
  reindeers_num, max_reindeers_in_queue, ReindeerPc, SantaPc, System, Reach, init,
}
use systemy_operacyjne_agh.Santa.Invariant.{
  holds, queued, signalling, santa_holds, herd, Inv, init-Inv, Reach-Inv,
}

-- A thread of the program.
pub data Thread : Type 0 where
  santa : Thread
  reindeer : ℕ → Thread

abbrev pub IsRunning : Thread → Type 0
IsRunning Thread.santa = Unit
IsRunning (Thread.reindeer i) = i < reindeers_num

abbrev pub santa_inside : SantaPc → Bool
santa_inside (SantaPc.checking _) = true
santa_inside (SantaPc.delivering _) = true
santa_inside (SantaPc.emptied _) = true
santa_inside (SantaPc.leaving _) = true
santa_inside _ = false

abbrev pub reindeer_inside : ReindeerPc → Bool
reindeer_inside ReindeerPc.arrived = true
reindeer_inside ReindeerPc.counted = true
reindeer_inside ReindeerPc.checking = true
reindeer_inside ReindeerPc.leaving = true
reindeer_inside _ = false

-- The thread is between `pthread_mutex_lock` and `pthread_mutex_unlock`, and not in a wait.
abbrev pub inside : System → Thread → Bool
inside s Thread.santa = santa_inside s.santa
inside s (Thread.reindeer i) = reindeer_inside (s.reindeer i)

santa_inside-holds : (q : SantaPc) → santa_inside q ≡ true → santa_holds q ≡ 1
santa_inside-holds q h = ground arith

reindeer_inside-holds : (q : ReindeerPc) → reindeer_inside q ≡ true → holds q ≡ 1
reindeer_inside-holds q h = ground arith

-- The mutex has room for one thread.
one_inside :
    {s : System} → Reach init s → total holds reindeers_num s.reindeer + santa_holds s.santa ≤ 1
one_inside {s} r = ground (arith, (Reach-Inv init-Inv r).held)

-- In every reachable state at most one thread is inside the monitor.
pub one_thread_inside :
    {s : System}
    → Reach init s
    → (a b : Thread) → IsRunning a
    → IsRunning b
    → inside s a ≡ true
    → inside s b ≡ true
    → a ≡ b
one_thread_inside {s} r Thread.santa Thread.santa ha hb ia ib = refl
one_thread_inside {s} r Thread.santa (Thread.reindeer j) ha hb ia ib = absurd (
    omega (
      arith,
      one_inside r,
      santa_inside-holds s.santa ia,
      reindeer_inside-holds (s.reindeer j) ib,
      le-total holds reindeers_num s.reindeer j hb,
    ))
one_thread_inside {s} r (Thread.reindeer i) Thread.santa ha hb ia ib = absurd (
    omega (
      arith,
      one_inside r,
      santa_inside-holds s.santa ib,
      reindeer_inside-holds (s.reindeer i) ia,
      le-total holds reindeers_num s.reindeer i ha,
    ))
one_thread_inside {s} r (Thread.reindeer i) (Thread.reindeer j) ha hb ia ib = ap Thread.reindeer (
    same_index holds reindeers_num s.reindeer i j (omega (arith, one_inside r)) ha hb
      (reindeer_inside-holds (s.reindeer i) ia) (reindeer_inside-holds (s.reindeer j) ib))

idle-waits :
    (q : ReindeerPc)
    → holds q ≡ 0
    → queued q ≡ 1
    → (q ≡ ReindeerPc.waiting) ⊎ (q ≡ ReindeerPc.woken)
idle-waits q h k = ground arith

-- When Santa delivers, the queue counts exactly nine, and each of the nine reindeer is in its wait
-- on the condition.
pub delivers_with_all :
    {s : System} {d : ℕ}
    → Reach init s
    → s.santa ≡ SantaPc.delivering d
    → (i : ℕ) → i < reindeers_num
    → (s.reindeers_in_queue ≡ max_reindeers_in_queue)
      × ((s.reindeer i ≡ ReindeerPc.waiting) ⊎ (s.reindeer i ≡ ReindeerPc.woken))
delivers_with_all {s} {d} r e i lt = (
  omega (arith, queue),
  idle-waits (s.reindeer i) (omega (arith, le-total holds reindeers_num s.reindeer i lt, alone)) (
      all-of-total queued (λ q. ground arith) reindeers_num s.reindeer (omega (arith, queue)) i lt),
)
  where
    inv : Inv s.station (herd s.reindeer)
    inv = Reach-Inv init-Inv r

    queue :
        (max_reindeers_in_queue ≤ s.reindeers_in_queue)
        × (s.reindeers_in_queue ≤ total queued reindeers_num s.reindeer)
        × (total queued reindeers_num s.reindeer ≤ reindeers_num)
    queue = ground (arith, inv)

    alone : total holds reindeers_num s.reindeer ≡ 0
    alone = ground (arith, inv)

-- Santa does not sleep through a full queue: while he waits unsignalled and the mutex is free,
-- fewer than nine reindeer are counted.
pub no_missed_signal :
    {s : System} {d : ℕ}
    → Reach init s
    → s.santa ≡ SantaPc.waiting d
    → s.mutex ≡ false
    → s.reindeers_in_queue < max_reindeers_in_queue
no_missed_signal {s} {d} r e free = ground (
  arith,
  Reach-Inv init-Inv r,
  total_mono signalling holds (λ q. ground arith) reindeers_num s.reindeer,
)

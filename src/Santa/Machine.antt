-- ===== src/Santa/Machine.antt =====
-- The threads of cw10/zad10.c, one shared access at a time. `sleep` and `rand` only delay a thread,
-- so the order of the steps is left open. A waiting thread may also wake with no signal, as
-- `pthread_cond_wait` allows.
use systemy_operacyjne_agh.Prelude.{ℕ, ◌+◌, ◌<◌, ◌≤◌, ◌≡◌, ◌≢◌, Bool, true, false}
use systemy_operacyjne_agh.Prelude.Family.{update}

abbrev pub reindeers_num : ℕ
reindeers_num = 9

abbrev pub max_reindeers_in_queue : ℕ
max_reindeers_in_queue = 9

abbrev pub presents_delivery : ℕ
presents_delivery = 4

-- Where a reindeer stands in `reindeer_mechanic`.
pub data ReindeerPc : Type 0 where
  vacation : ReindeerPc  -- before `pthread_mutex_lock`
  arrived : ReindeerPc  -- before `reindeers_in_queue++`
  counted : ReindeerPc  -- before the test that signals Santa
  checking : ReindeerPc  -- at the test of the inner `while`
  waiting : ReindeerPc  -- in `pthread_cond_wait`, not signalled
  woken : ReindeerPc  -- in `pthread_cond_wait`, about to take the mutex back
  leaving : ReindeerPc  -- before `pthread_mutex_unlock`

-- Where Santa stands in `santa_mechanic`, with `delivered_presents`.
pub data SantaPc : Type 0 where
  resting : (delivered : ℕ) → SantaPc  -- at the test of the outer `while`
  locking : (delivered : ℕ) → SantaPc  -- before `pthread_mutex_lock`
  checking : (delivered : ℕ) → SantaPc  -- at the test of the inner `while`
  waiting : (delivered : ℕ) → SantaPc
  woken : (delivered : ℕ) → SantaPc
  delivering : (delivered : ℕ) → SantaPc  -- after the inner `while`
  emptied : (delivered : ℕ) → SantaPc  -- before `pthread_cond_broadcast`
  leaving : (delivered : ℕ) → SantaPc  -- before `pthread_mutex_unlock`
  finished : SantaPc

-- The shared variables, with Santa's place, which a signal changes.
pub record Station : Type 0 where
  pub reindeers_in_queue : ℕ
  pub mutex : Bool  -- held by a thread
  pub santa : SantaPc

-- `pthread_cond_signal(&condition_for_santa)`
abbrev pub signal_santa : SantaPc → SantaPc
signal_santa (SantaPc.waiting d) = SantaPc.woken d
signal_santa q = q

-- `pthread_cond_broadcast(&condition_for_reindeers)`, for one reindeer
abbrev pub wake : ReindeerPc → ReindeerPc
wake ReindeerPc.waiting = ReindeerPc.woken
wake q = q

-- One step of a reindeer.
pub data ReindeerMove (s : Station) : ReindeerPc → Station → ReindeerPc → Type 0 where
  lock :
      s.mutex ≡ false
      → ReindeerMove s ReindeerPc.vacation (record s { mutex = true }) ReindeerPc.arrived
  join :
      ReindeerMove s ReindeerPc.arrived
        (record s { reindeers_in_queue = s.reindeers_in_queue + 1 })
        ReindeerPc.counted
  signal :
      s.reindeers_in_queue ≡ max_reindeers_in_queue
      → ReindeerMove s ReindeerPc.counted
          (record s { santa = signal_santa (s.santa) })
          ReindeerPc.checking
  pass :
      s.reindeers_in_queue ≢ max_reindeers_in_queue
      → ReindeerMove s ReindeerPc.counted s ReindeerPc.checking
  wait :
      0 < s.reindeers_in_queue
      → ReindeerMove s ReindeerPc.checking (record s { mutex = false }) ReindeerPc.waiting
  spurious : ReindeerMove s ReindeerPc.waiting s ReindeerPc.woken
  relock :
      s.mutex ≡ false
      → ReindeerMove s ReindeerPc.woken (record s { mutex = true }) ReindeerPc.checking
  depart : s.reindeers_in_queue ≡ 0 → ReindeerMove s ReindeerPc.checking s ReindeerPc.leaving
  unlock : ReindeerMove s ReindeerPc.leaving (record s { mutex = false }) ReindeerPc.vacation

-- One step of Santa on the station, but for the broadcast.
pub data SantaMove (s : Station) : SantaPc → Station → Type 0 where
  begin :
      {d : ℕ}
      → d < presents_delivery
      → SantaMove s (SantaPc.resting d) (record s { santa = SantaPc.locking d })
  lock :
      {d : ℕ}
      → s.mutex ≡ false
      → SantaMove s (SantaPc.locking d) (record s { mutex = true; santa = SantaPc.checking d })
  wait :
      {d : ℕ}
      → s.reindeers_in_queue < max_reindeers_in_queue
      → SantaMove s (SantaPc.checking d) (record s { mutex = false; santa = SantaPc.waiting d })
  spurious : {d : ℕ} → SantaMove s (SantaPc.waiting d) (record s { santa = SantaPc.woken d })
  relock :
      {d : ℕ}
      → s.mutex ≡ false
      → SantaMove s (SantaPc.woken d) (record s { mutex = true; santa = SantaPc.checking d })
  deliver :
      {d : ℕ}
      → max_reindeers_in_queue ≤ s.reindeers_in_queue
      → SantaMove s (SantaPc.checking d) (record s { santa = SantaPc.delivering d })
  empty_queue :
      {d : ℕ}
      → SantaMove s
          (SantaPc.delivering d)
          (record s { reindeers_in_queue = 0; santa = SantaPc.emptied (d + 1) })
  unlock :
      {d : ℕ}
      → SantaMove s (SantaPc.leaving d) (record s { mutex = false; santa = SantaPc.resting d })
  finish :
      {d : ℕ}
      → presents_delivery ≤ d
      → SantaMove s (SantaPc.resting d) (record s { santa = SantaPc.finished })

-- An index from `reindeers_num` on names no reindeer: it is never picked.
pub record System : Type 0 where
  pub station : Station
  pub open station use *
  pub reindeer : ℕ → ReindeerPc

pub data Step (s : System) : System → Type 0 where
  reindeer_step :
      (i : ℕ) {t : Station} {q : ReindeerPc}
      → i < reindeers_num
      → ReindeerMove s.station (s.reindeer i) t q
      → Step s (record s { station = t; reindeer = update s.reindeer i q })
  santa_step : {t : Station} → SantaMove s.station s.santa t → Step s (record s { station = t })
  broadcast :
      {d : ℕ}
      → s.santa ≡ SantaPc.emptied d
      → Step s (record s {
        station = record (s.station) { santa = SantaPc.leaving d };
        reindeer = λ i. wake (s.reindeer i);
      })

-- After `pthread_create` of all threads.
abbrev pub init : System
init = record {
  station = record { reindeers_in_queue = 0; mutex = false; santa = SantaPc.resting 0 };
  reindeer = λ _. ReindeerPc.vacation;
}

pub data Reach : System → System → Type 0 where
  here : {s : System} → Reach s s
  next : {s t u : System} → Reach s t → Step t u → Reach s u

-- ===== src/Santa/Schedule.antt =====
-- Runs of cw10/zad10.c under a given order of the threads: 0 is Santa, `suc i` is reindeer `i`. A
-- thread that cannot move keeps its place.
use systemy_operacyjne_agh.Prelude.{
  ℕ, zero, suc, ◌≡◌, refl, Bool, true, false, Option, none, some, List, [], ◌∷◌, ◌++◌, arith,
  dec_lt, dec_le, ℕ_discrete,
}
use mathlib.Core.List.{foldl}
use systemy_operacyjne_agh.Santa.Machine.{
  reindeers_num, max_reindeers_in_queue, presents_delivery, ReindeerPc, SantaPc, Station,
  ReindeerMove, SantaMove, System, Step, reindeer_step, santa_step, broadcast, init, Reach, here,
  next,
}

bool_dec : (b : Bool) → Dec (b ≡ false)
bool_dec false = yes refl
bool_dec true = no (λ e. cc)

reindeer_turn :
    (s : Station) (q : ReindeerPc)
    → Option ((t : Station) × (q' : ReindeerPc) × ReindeerMove s q t q')
unfolding bool_dec dec_lt ℕ_discrete
reindeer_turn s ReindeerPc.vacation = elim (bool_dec s.mutex) [
  | yes e ↦ some (_, _, ReindeerMove.lock e)
  | no _ ↦ none
]
reindeer_turn s ReindeerPc.arrived = some (_, _, ReindeerMove.join)
reindeer_turn s ReindeerPc.counted = elim (ℕ_discrete s.reindeers_in_queue max_reindeers_in_queue) [
  | yes e ↦ some (_, _, ReindeerMove.signal e)
  | no e ↦ some (_, _, ReindeerMove.pass e)
]
reindeer_turn s ReindeerPc.checking = elim (dec_lt 0 s.reindeers_in_queue) [
  | yes e ↦ some (_, _, ReindeerMove.wait e)
  | no e ↦ some (_, _, ReindeerMove.depart (omega arith))
]
reindeer_turn s ReindeerPc.waiting = none
reindeer_turn s ReindeerPc.woken = elim (bool_dec s.mutex) [
  | yes e ↦ some (_, _, ReindeerMove.relock e)
  | no _ ↦ none
]
reindeer_turn s ReindeerPc.leaving = some (_, _, ReindeerMove.unlock)

santa_turn : (s : Station) (q : SantaPc) → Option ((t : Station) × SantaMove s q t)
unfolding bool_dec dec_lt dec_le
santa_turn s (SantaPc.resting d) = elim (dec_lt d presents_delivery) [
  | yes e ↦ some (_, SantaMove.begin e)
  | no e ↦ some (_, SantaMove.finish (omega arith))
]
santa_turn s (SantaPc.locking d) = elim (bool_dec s.mutex) [
  | yes e ↦ some (_, SantaMove.lock e)
  | no _ ↦ none
]
santa_turn s (SantaPc.checking d) = elim (dec_lt s.reindeers_in_queue max_reindeers_in_queue) [
  | yes e ↦ some (_, SantaMove.wait e)
  | no e ↦ some (_, SantaMove.deliver (omega arith))
]
santa_turn s (SantaPc.woken d) = elim (bool_dec s.mutex) [
  | yes e ↦ some (_, SantaMove.relock e)
  | no _ ↦ none
]
santa_turn s (SantaPc.delivering d) = some (_, SantaMove.empty_queue)
santa_turn s (SantaPc.leaving d) = some (_, SantaMove.unlock)
santa_turn s _ = none

-- The broadcast, where Santa is about to make it.
broadcast_turn : (s : System) (q : SantaPc) → s.santa ≡ q → Option ((t : System) × Step s t)
broadcast_turn s (SantaPc.emptied d) e = some (_, broadcast e)
broadcast_turn s _ e = none

pub record Run : Type 0 where
  pub last : System
  pub reach : Reach init last

turn : Run → ℕ → Run
unfolding santa_turn reindeer_turn broadcast_turn
turn r zero = elim (broadcast_turn r.last r.last.santa refl) [
  | some (t, st) ↦ record { last = t; reach = next r.reach st }
  | none ↦ elim (santa_turn r.last.station r.last.santa) [
    | some (t, mv) ↦ record { last = _; reach = next r.reach (santa_step mv) }
    | none ↦ r
  ]
]
turn r (suc i) = elim (dec_lt i reindeers_num) [
  | no _ ↦ r
  | yes lt ↦ elim (reindeer_turn r.last.station (r.last.reindeer i)) [
    | some (t, q, mv) ↦ record { last = _; reach = next r.reach (reindeer_step i lt mv) }
    | none ↦ r
  ]
]

unfoldable pub run : List ℕ → Run
unfolding turn
run = foldl turn (record { last = init; reach = here })

-- Reindeer `i` joins the queue and waits.
abbrev joins : ℕ → List ℕ
joins i = suc i ∷ suc i ∷ suc i ∷ suc i ∷ []

abbrev all_join : ℕ → List ℕ
all_join zero = []
all_join (suc n) = all_join n ++ joins n

-- Santa waits, the nine reindeer join, and Santa delivers.
abbrev pub to_delivery : List ℕ
to_delivery = 0 ∷ 0 ∷ 0 ∷ all_join 9 ++ 0 ∷ 0 ∷ []

-- Then Santa rests, reindeer 0 leaves and joins again at once, and reindeer 1 wakes only then.
abbrev pub to_lost : List ℕ
to_lost = to_delivery ++ 0 ∷ 0 ∷ 0 ∷ 1 ∷ 1 ∷ 1 ∷ joins 0 ++ 2 ∷ 2 ∷ []

-- The nine reindeer leave.
abbrev all_leave : ℕ → List ℕ
all_leave zero = []
all_leave (suc n) = all_leave n ++ suc n ∷ suc n ∷ suc n ∷ []

abbrev one_round : List ℕ
one_round = to_delivery ++ 0 ∷ 0 ∷ 0 ∷ all_leave 9

-- Four deliveries, and the end of Santa's loop.
abbrev pub to_finish : List ℕ
to_finish = (one_round ++ one_round) ++ (one_round ++ one_round) ++ 0 ∷ []

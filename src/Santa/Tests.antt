-- ===== src/Santa/Tests.antt =====
-- Runs of cw10/zad10.c, and its theorems at states that they reach.
use systemy_operacyjne_agh.Prelude.{◌<◌, ◌≡◌, ◌≢◌, ◌⊎◌, refl, true, false, [], ◌∷◌, arith, ltb}
use systemy_operacyjne_agh.Prelude.Family.{total}
use systemy_operacyjne_agh.Santa.Main.{create_reindeers, santa_main, MainEnd}
use systemy_operacyjne_agh.Santa.Machine.{max_reindeers_in_queue, ReindeerPc, SantaPc, here}
use systemy_operacyjne_agh.Santa.Safety.{delivers_with_all, no_missed_signal}
use systemy_operacyjne_agh.Santa.Lost.{lost_for_good}
use systemy_operacyjne_agh.Santa.Deliveries.{deliveries, four_deliveries}
use systemy_operacyjne_agh.Santa.Schedule.{Run, run, to_delivery, to_lost, to_finish}

abbrev delivery : Run
delivery = run to_delivery

abbrev lost : Run
lost = run to_lost

delivery_state :
    (delivery.last.santa ≡ SantaPc.delivering 0) × (delivery.last.reindeers_in_queue ≡ 9)
unfolding run
delivery_state = (refl, refl)

lost_state :
    (lost.last.reindeers_in_queue ≡ 1)
    × (lost.last.reindeer 0 ≡ ReindeerPc.waiting)
    × (lost.last.reindeer 1 ≡ ReindeerPc.waiting)
unfolding run
lost_state = (refl, refl, refl)

delivers_with_all_example :
    (delivery.last.reindeers_in_queue ≡ max_reindeers_in_queue)
    × ((delivery.last.reindeer 7 ≡ ReindeerPc.waiting)
        ⊎ (delivery.last.reindeer 7 ≡ ReindeerPc.woken))
unfolding run
delivers_with_all_example = delivers_with_all {d = 0} (delivery.reach) refl 7 (omega arith)

-- Santa has begun to wait and no reindeer has come.
abbrev early : Run
early = run (0 ∷ 0 ∷ 0 ∷ [])

no_missed_signal_example : early.last.reindeers_in_queue < max_reindeers_in_queue
unfolding run
no_missed_signal_example = no_missed_signal {d = 0} (early.reach) refl refl

-- In `lost` the reindeer 1 to 8 wait or wake uncounted, and only reindeer 0 is counted.
lost_for_good_example : lost.last.santa ≢ SantaPc.delivering 1
unfolding run total
lost_for_good_example = lost_for_good (lost.reach) (omega arith) (omega arith) here

abbrev finish : Run
finish = run to_finish

four_deliveries_example : deliveries finish.reach ≡ 4
unfolding run
four_deliveries_example = four_deliveries (finish.reach) refl

-- The fourth reindeer cannot be created.
three_reindeers :
    (create_reindeers (λ i. ltb i 3) 9 0 ≡ (3, false))
    × (santa_main
          (record { create_santa = true; create_reindeer = λ i. ltb i 3; join_santa = true })
        ≡ MainEnd.failed)
unfolding santa_main create_reindeers
three_reindeers = (refl, refl)

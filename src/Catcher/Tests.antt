-- ===== src/Catcher/Tests.antt =====
-- Runs of the signal catcher and instances of its theorems.
use systemy_operacyjne_agh.Prelude.{◌≡◌, refl, [], ◌∷◌, ◌++◌, replicate}
use systemy_operacyjne_agh.Prelude.Int.{ℤ, pos}
use systemy_operacyjne_agh.Catcher.Machine.{
  Place, Line, Catcher, catcher_start, work, catch, Event, run,
}
use systemy_operacyjne_agh.Catcher.Requests.{spaced, requests_answered, request_lost}
use systemy_operacyjne_agh.Catcher.Steps.{numbers_from}

-- The count is asked for twice, then the end.
count_twice_then_end :
    run
      (Event.works
        ∷ Event.works
        ∷ Event.arrives (pos 2)
        ∷ (replicate 5 Event.works
            ++ Event.arrives (pos 2)
              ∷ (replicate 5 Event.works
                  ++ Event.arrives (pos 3) ∷ Event.works ∷ Event.works ∷ [])))
      catcher_start
    ≡ record {
      requests_number = 3;
      work_type = pos 3;
      place = Place.exited;
      printed = Line.requests 1 ∷ Line.requests 2 ∷ Line.caput ∷ [];
      replies = 3;
    }
unfolding run work catch
count_twice_then_end = refl

requests_answered_example :
    (w : ℤ) × (run (Event.works ∷ Event.works ∷ spaced 0 (pos 1 ∷ pos 7 ∷ pos 2 ∷ [])) catcher_start
      ≡ record {
        requests_number = 3;
        work_type = w;
        place = Place.paused;
        printed = numbers_from 0 101 ++ Line.requests 3 ∷ [];
        replies = 3;
      })
requests_answered_example =
    requests_answered 0 (pos 1 ∷ pos 7 ∷ pos 2 ∷ []) (refl, (refl, (refl, tt)))

abbrev printing : Catcher
printing = record {
  requests_number = 1;
  work_type = pos 1;
  place = Place.numbers 99;
  printed = [];
  replies = 1;
}

request_lost_example :
    run (Event.arrives (pos 2) ∷ replicate 4 Event.works) printing
    ≡ record (run (replicate 4 Event.works) printing) { requests_number = 2; replies = 2 }
request_lost_example = request_lost (pos 2) 2 99 1 (pos 1) [] 1 refl

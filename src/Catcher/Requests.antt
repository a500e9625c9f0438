-- ===== src/Catcher/Requests.antt =====
-- What becomes of the requests to cw5/zadanie2/catcher.c.
use systemy_operacyjne_agh.Prelude.{
  ℕ, ◌+◌, ◌≡◌, sym, ap, ◌∙◌, false, List, [], ◌∷◌, ◌++◌, replicate, arith, append_assoc, append-nil,
  length,
}
use systemy_operacyjne_agh.Prelude.Int.{ℤ, pos, eqb_ℤ}
use systemy_operacyjne_agh.Catcher.Machine.{
  Place, Line, Catcher, catcher_start, work, catch, Event, run,
}
use systemy_operacyjne_agh.Catcher.Steps.{
  numbers_from, answer, alone, run-append, paused_at, prints, run_works, alone_lem,
}

-- What the requests have printed, after `k` before them.
abbrev pub answers : List ℤ → ℕ → List Line
answers [] k = []
answers (r ∷ requests) k = answer r (k + 1) ++ answers requests (k + 1)

-- None of them asks the catcher to end.
abbrev pub NoneEnds : List ℤ → Type 0
NoneEnds [] = Unit {0}
NoneEnds (r ∷ requests) = (eqb_ℤ r (pos 3) ≡ false) × NoneEnds requests

-- The requests, each followed by 106 and so many more steps of `main`.
abbrev pub spaced : ℕ → List ℤ → List Event
spaced extra [] = []
spaced extra (r ∷ requests) = alone (106 + extra) r ++ spaced extra requests

spaced_lem :
    (extra : ℕ) (requests : List ℤ) (n : ℕ) (w : ℤ) (printed : List Line) (replies : ℕ)
    → NoneEnds requests
    → (w' : ℤ) × (run (spaced extra requests) (paused_at n w printed replies)
        ≡ paused_at
            (n + length requests)
            w'
            (printed ++ answers requests n)
            (replies + length requests))
unfolding run
spaced_lem extra [] n w printed replies none_ends =
    (w, paused_at_same (omega arith) (sym (append-nil printed)) (omega arith))
  where
    paused_at_same :
        {n n' : ℕ} {l l' : List Line} {m m' : ℕ}
        → n ≡ n'
        → l ≡ l'
        → m ≡ m'
        → paused_at n w l m ≡ paused_at n' w l' m'
    paused_at_same e f g = cc
spaced_lem extra (r ∷ requests) n w printed replies (goes_on, none_ends) =
    let (w', one) = alone_lem extra r n w printed replies goes_on in
    let (w'', rest) =
      spaced_lem extra requests (n + 1) w' (printed ++ answer r (n + 1)) (replies + 1) none_ends in
    (
      w'',
      run-append (alone (106 + extra) r) (spaced extra requests) (paused_at n w printed replies)
          ∙ ap (run (spaced extra requests)) one
          ∙ rest
          ∙ paused_at_same w'' (omega arith)
              (append_assoc printed (answer r (n + 1)) (answers requests (n + 1))) (omega arith),
    )
  where
    paused_at_same :
        (w : ℤ) {n n' : ℕ} {l l' : List Line} {m m' : ℕ}
        → n ≡ n'
        → l ≡ l'
        → m ≡ m'
        → paused_at n w l m ≡ paused_at n' w l' m'
    paused_at_same w e f g = cc

-- If `main` gets 106 steps or more after each request, and none asks it to end, then each request
-- is answered in its order: for 1 the numbers up to 100 are printed, for 2 how many requests have
-- come, for any other nothing; each has one reply, and `main` is back in `pause`.
pub requests_answered :
    (extra : ℕ) (requests : List ℤ)
    → NoneEnds requests
    → (w : ℤ) × (run (Event.works ∷ Event.works ∷ spaced extra requests) catcher_start ≡ record {
      requests_number = length requests;
      work_type = w;
      place = Place.paused;
      printed = answers requests 0;
      replies = length requests;
    })
unfolding run work
requests_answered extra requests none_ends =
    let (w, runs) = spaced_lem extra requests 0 (pos 4) [] 0 none_ends in
    (w, runs ∙ ap (λ k. paused_at k w (answers requests 0) k) (omega arith))

-- A request that comes while the numbers are printed is counted and has its reply, but it is never
-- answered: when the `switch` is reached again, all else is as if it had not come.
pub request_lost :
    (r : ℤ) (k i n : ℕ) (w : ℤ) (printed : List Line) (replies : ℕ)
    → i + k ≡ 101
    → let busy : Catcher = record {
      requests_number = n;
      work_type = w;
      place = Place.numbers i;
      printed = printed;
      replies = replies;
    } in
      run (Event.arrives r ∷ replicate (k + 2) Event.works) busy
      ≡ record (run (replicate (k + 2) Event.works) busy) {
        requests_number = n + 1;
        replies = replies + 1;
      }
unfolding run work catch
request_lost r k i n w printed replies e =
    until_switch (n + 1) r (replies + 1)
    ∙ ap {A = Catcher} (λ c. record c { requests_number = n + 1; replies = replies + 1 })
        (sym (until_switch n w replies))
  where
    until_switch :
        (n : ℕ) (w : ℤ) (replies : ℕ)
        → run (replicate (k + 2) Event.works) (record {
          requests_number = n;
          work_type = w;
          place = Place.numbers i;
          printed = printed;
          replies = replies;
        })
          ≡ record {
            requests_number = n;
            work_type = pos 4;
            place = Place.switching;
            printed = printed ++ numbers_from i k;
            replies = replies;
          }
    until_switch n w replies =
        run_works k 2 (record {
          requests_number = n;
          work_type = w;
          place = Place.numbers i;
          printed = printed;
          replies = replies;
        })
        ∙ ap (run (replicate 2 Event.works)) (prints k i n w printed replies e)

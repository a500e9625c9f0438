-- ===== src/Catcher/Steps.antt =====
-- How many steps `main` of cw5/zadanie2/catcher.c takes for one request.
use systemy_operacyjne_agh.Prelude.{
  ℕ, zero, suc, ◌+◌, ◌≡◌, refl, sym, ap, ap₂, ◌∙◌, true, false, List, [], ◌∷◌, ◌++◌, le→leb,
  if◌then◌else◌, replicate, Bool-cases, inl, inr, arith, append_assoc, append-nil,
}
use systemy_operacyjne_agh.Prelude.Int.{ℤ, pos, eqb_ℤ}
use systemy_operacyjne_agh.Catcher.Machine.{Place, Line, Catcher, chosen, work, catch, Event, run}

-- The numbers from `i` on, `n` of them.
abbrev pub numbers_from : ℕ → ℕ → List Line
numbers_from i zero = []
numbers_from i (suc n) = Line.number i ∷ numbers_from (suc i) n

-- What a request has printed, when it is the `k`-th.
abbrev pub answer : ℤ → ℕ → List Line
answer r k =
    if eqb_ℤ r (pos 1)
    then numbers_from 0 101
    else (if eqb_ℤ r (pos 2) then Line.requests k ∷ [] else [])

-- The request, then so many steps of `main`.
abbrev pub alone : ℕ → ℤ → List Event
alone steps r = Event.arrives r ∷ replicate steps Event.works

pub run-append : (l m : List Event) (c : Catcher) → run (l ++ m) c ≡ run m (run l c)
unfolding run
run-append [] m c = refl
run-append (Event.works ∷ l) m c = run-append l m (work c)
run-append (Event.arrives r ∷ l) m c = run-append l m (catch r c)

abbrev pub paused_at : ℕ → ℤ → List Line → ℕ → Catcher
paused_at n w printed replies = record {
  requests_number = n;
  work_type = w;
  place = Place.paused;
  printed = printed;
  replies = replies;
}

-- `main` stays in `pause` without a signal.
rests :
    (steps n : ℕ) (w : ℤ) (printed : List Line) (replies : ℕ)
    → run (replicate steps Event.works) (paused_at n w printed replies)
      ≡ paused_at n w printed replies
unfolding run work
rests zero n w printed replies = refl
rests (suc steps) n w printed replies = rests steps n w printed replies

pub prints :
    (k i n : ℕ) (w : ℤ) (printed : List Line) (replies : ℕ)
    → i + k ≡ 101
    → run (replicate k Event.works) (record {
      requests_number = n;
      work_type = w;
      place = Place.numbers i;
      printed = printed;
      replies = replies;
    })
      ≡ record {
        requests_number = n;
        work_type = w;
        place = Place.numbers 101;
        printed = printed ++ numbers_from i k;
        replies = replies;
      }
unfolding run work
prints zero i n w printed replies e =
    ap₂
      (λ j l. record {
        requests_number = n;
        work_type = w;
        place = Place.numbers j;
        printed = l;
        replies = replies;
      })
      (omega arith) (sym (append-nil printed))
prints (suc k) i n w printed replies e =
    rw (run, work, le→leb i 100 (omega arith))
      (prints k (i + 1) n w (printed ++ Line.number i ∷ []) replies (omega arith)
        ∙ ap
            (λ l. record {
              requests_number = n;
              work_type = w;
              place = Place.numbers 101;
              printed = l;
              replies = replies;
            })
            (append_assoc printed (Line.number i ∷ []) (numbers_from (i + 1) k)
              ∙ ap (λ j. printed ++ Line.number i ∷ numbers_from j k) (omega arith)))

pub run_works :
    (a b : ℕ) (c : Catcher)
    → run (replicate (a + b) Event.works) c
      ≡ run (replicate b Event.works) (run (replicate a Event.works) c)
unfolding run
run_works zero b c =
    let same : 0 + b ≡ b = omega arith in ap (λ n. run (replicate n Event.works) c) same
run_works (suc a) b c =
    let same : suc a + b ≡ suc (a + b) = omega arith in
    ap (λ n. run (replicate n Event.works) c) same ∙ run_works a b (work c)

-- From the reset on, `main` comes to `pause` within three steps.
resets :
    (steps n : ℕ) (w : ℤ) (printed : List Line) (replies : ℕ)
    → run (replicate (3 + steps) Event.works) (record {
      requests_number = n;
      work_type = w;
      place = Place.resetting;
      printed = printed;
      replies = replies;
    })
      ≡ paused_at n (pos 4) printed replies
unfolding run work
resets steps n w printed replies =
    run_works 3 steps (record {
      requests_number = n;
      work_type = w;
      place = Place.resetting;
      printed = printed;
      replies = replies;
    })
    ∙ rests steps n (pos 4) printed replies

-- `main` after the handler has set the request, from `pause`.
switching_at : ℕ → ℤ → List Line → ℕ → Catcher
switching_at n w printed replies = record {
  requests_number = n;
  work_type = w;
  place = Place.switching;
  printed = printed;
  replies = replies;
}

numbers_request :
    (extra n : ℕ) (printed : List Line) (replies : ℕ)
    → run (replicate (106 + extra) Event.works) (switching_at n (pos 1) printed replies)
      ≡ paused_at n (pos 4) (printed ++ numbers_from 0 101) replies
unfolding run work switching_at
numbers_request extra n printed replies =
    let steps : 106 + extra ≡ 1 + (101 + (1 + (3 + extra))) = omega arith in
    let begun : Catcher = record {
      requests_number = n;
      work_type = pos 1;
      place = Place.numbers 0;
      printed = printed;
      replies = replies;
    } in
    let done : Catcher = record {
      requests_number = n;
      work_type = pos 1;
      place = Place.numbers 101;
      printed = printed ++ numbers_from 0 101;
      replies = replies;
    } in
    ap (λ k. run (replicate k Event.works) (switching_at n (pos 1) printed replies)) steps
    ∙ run_works 1 (101 + (1 + (3 + extra))) (switching_at n (pos 1) printed replies)
    ∙ run_works 101 (1 + (3 + extra)) begun
    ∙ ap (run (replicate (1 + (3 + extra)) Event.works))
        (prints 101 0 n (pos 1) printed replies refl)
    ∙ run_works 1 (3 + extra) done
    ∙ resets extra n (pos 1) (printed ++ numbers_from 0 101) replies

count_request :
    (extra n : ℕ) (printed : List Line) (replies : ℕ)
    → run (replicate (106 + extra) Event.works) (switching_at n (pos 2) printed replies)
      ≡ paused_at n (pos 4) (printed ++ Line.requests n ∷ []) replies
unfolding run work switching_at
count_request extra n printed replies =
    let steps : 106 + extra ≡ 2 + (3 + (101 + extra)) = omega arith in
    ap (λ k. run (replicate k Event.works) (switching_at n (pos 2) printed replies)) steps
    ∙ run_works 2 (3 + (101 + extra)) (switching_at n (pos 2) printed replies)
    ∙ resets (101 + extra) n (pos 2) (printed ++ Line.requests n ∷ []) replies

other_request :
    (extra n : ℕ) (r : ℤ) (printed : List Line) (replies : ℕ)
    → chosen r ≡ Place.pausing
    → run (replicate (106 + extra) Event.works) (switching_at n r printed replies)
      ≡ paused_at n r printed replies
unfolding run work switching_at
other_request extra n r printed replies pauses =
    let steps : 106 + extra ≡ 2 + (104 + extra) = omega arith in
    let pausing : run (replicate 2 Event.works) (switching_at n r printed replies)
        ≡ paused_at n r printed replies =
      ap
        (λ p. work (record {
          requests_number = n;
          work_type = r;
          place = p;
          printed = printed;
          replies = replies;
        }))
        pauses in
    ap (λ k. run (replicate k Event.works) (switching_at n r printed replies)) steps
    ∙ run_works 2 (104 + extra) (switching_at n r printed replies)
    ∙ ap (run (replicate (104 + extra) Event.works)) pausing
    ∙ rests (104 + extra) n r printed replies

eqb_ℤ→≡ : (r : ℤ) (k : ℕ) → eqb_ℤ r (pos k) ≡ true → r ≡ pos k
eqb_ℤ→≡ r k h = ground arith

-- One request, and time enough for it: 106 steps of `main`, or more.
pub alone_lem :
    (extra : ℕ) (r : ℤ) (n : ℕ) (w : ℤ) (printed : List Line) (replies : ℕ)
    → eqb_ℤ r (pos 3) ≡ false
    → (w' : ℤ) × (run (alone (106 + extra) r) (paused_at n w printed replies)
        ≡ paused_at (n + 1) w' (printed ++ answer r (n + 1)) (replies + 1))
unfolding run catch switching_at
alone_lem extra r n w printed replies other = elim (Bool-cases (eqb_ℤ r (pos 1))) [
  | inl first ↦ (
    pos 4,
    rw first (
        ap
          (λ x.
            run (replicate (106 + extra) Event.works)
              (switching_at (n + 1) x printed (replies + 1)))
          (eqb_ℤ→≡ r 1 first)
        ∙ numbers_request extra (n + 1) printed (replies + 1)),
  )
  | inr not_first ↦ elim (Bool-cases (eqb_ℤ r (pos 2))) [
    | inl second ↦ (
      pos 4,
      rw (not_first, second)
          (ap
              (λ x.
                run (replicate (106 + extra) Event.works)
                  (switching_at (n + 1) x printed (replies + 1)))
              (eqb_ℤ→≡ r 2 second)
            ∙ count_request extra (n + 1) printed (replies + 1)),
    )
    | inr not_second ↦ (
      r,
      rw (not_first, not_second)
          (other_request extra (n + 1) r printed (replies + 1)
              (rw (not_first, not_second, other) refl)
            ∙ ap (λ l. paused_at (n + 1) r l (replies + 1)) (sym (append-nil printed))),
    )
  ]
]

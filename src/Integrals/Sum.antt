-- ===== src/Integrals/Sum.antt =====
-- What `intergral` of cw6 returns, when it returns, and what its fuel changes.
use systemy_operacyjne_agh.Prelude.{
  ℕ, zero, suc, ◌≤◌, ◌<◌, ◌≡◌, ◌⊎◌, List, [], ◌∷◌, refl, true, false, none, some, inl, inr,
  Bool-cases, arith,
}
use systemy_operacyjne_agh.Integrals.Floats.{Floats, intergral_loop, intergral}

module _ (floats : Floats) where
  open floats use {Float, of_int, plus, minus, times, over, below}

  -- `start` after `k` rounds.
  abbrev pub advance : ℕ → Float → Float → Float
  advance zero start step = start
  advance (suc k) start step = advance k (plus start step) step

  -- More fuel gives the same.
  pub intergral_loop_more :
      (fuel k : ℕ) (start end step result value : Float)
      → intergral_loop floats fuel start end step result ≡ some value
      → fuel ≤ k
      → intergral_loop floats k start end step result ≡ some value
  unfolding intergral_loop
  intergral_loop_more zero k start end step result value e le = absurd (ground arith)
  intergral_loop_more (suc fuel) zero start end step result value e le = absurd (omega arith)
  intergral_loop_more (suc fuel) (suc k) start end step result value e le =
      elim (Bool-cases (below (plus start step) end)) [
        | inl again ↦
            let rest = rw again at e in
            rw again (intergral_loop_more fuel k _ end step _ value rest (omega arith))
        | inr last ↦ let done = rw last at e in rw last done
      ]

  -- The rectangle over `width` with the height of 4 / (x² + 1) at `x`.
  abbrev pub rectangle : Float → Float → Float
  rectangle x width = times (over (of_int 4) (plus (times x x) (of_int 1))) width

  -- The rectangles of `k` rounds, and then the one over the rest of the interval.
  abbrev pub rectangles : ℕ → Float → Float → Float → List Float
  rectangles zero start end step =
      rectangle (plus (over (minus end start) (of_int 2)) start) (minus end start) ∷ []
  rectangles (suc k) start end step =
      rectangle (over (plus start step) (of_int 2)) step ∷ rectangles k (plus start step) end step

  -- The sum, from the left.
  abbrev pub add_up : Float → List Float → Float
  add_up result [] = result
  add_up result (x ∷ xs) = add_up (plus result x) xs

  -- `k` steps from `start` on are below `end`, and the next one is not.
  pub record IsLast (k : ℕ) (start end step : Float) : Type 0 where
    pub before : (j : ℕ) → j < k → below (advance (suc j) start step) end ≡ true
    pub after : below (advance (suc k) start step) end ≡ false

  abbrev AllBelow : ℕ → Float → Float → Float → Type 0
  AllBelow k start end step = (j : ℕ) → j < k → below (advance (suc j) start step) end ≡ true

  one_more :
      (k : ℕ) (start end step : Float)
      → below (plus start step) end ≡ true
      → AllBelow k (plus start step) end step
      → AllBelow (suc k) start end step
  one_more k start end step again all zero lt = again
  one_more k start end step again all (suc j) lt = all j (omega arith)

  intergral_loop_sums :
      (fuel : ℕ) (start end step result : Float)
      → ((k : ℕ) × (k < fuel)
          × IsLast k start end step
          × (intergral_loop floats fuel start end step result
              ≡ some (add_up result (rectangles k start end step))))
        ⊎ (AllBelow fuel start end step × (intergral_loop floats fuel start end step result ≡ none))
  unfolding intergral_loop
  intergral_loop_sums zero start end step result = inr ((λ j lt. absurd (omega arith)), refl)
  intergral_loop_sums (suc fuel) start end step result =
      elim (Bool-cases (below (plus start step) end)) [
        | inr last ↦ inl (
          0,
          omega arith,
          record { before = λ j lt. absurd (omega arith); after = last },
          rw last refl,
        )
        | inl again ↦
            let next = plus result (rectangle (over (plus start step) (of_int 2)) step) in
            elim (intergral_loop_sums fuel (plus start step) end step next) [
              | inl (k, lt, is_last, value) ↦ inl (
                suc k,
                omega arith,
                record {
                  before = one_more k start end step again is_last.before;
                  after = is_last.after;
                },
                rw again value,
              )
              | inr (all, runs_out) ↦
                  inr (one_more fuel start end step again all, rw again runs_out)
            ]
      ]

  -- Either the `k`-th step from `start` on is the last below `end`, for a `k` below the fuel, and
  -- `intergral` returns the sum, from 0 and from the left, of `k` rectangles over `step`, whose height
  -- is taken at half of each end `start + step`, and of one over the rest of the interval, whose
  -- height is taken in its middle; or as many steps as there is fuel are below `end`, and the fuel
  -- runs out. Each operation is rounded as the machine rounds it.
  pub intergral_lem :
      (fuel : ℕ) (start end step : Float)
      → ((k : ℕ) × (k < fuel)
          × IsLast k start end step
          × (intergral floats fuel start end step
              ≡ some (add_up (of_int 0) (rectangles k start end step))))
        ⊎ (((j : ℕ) → j < fuel → below (advance (suc j) start step) end ≡ true)
            × (intergral floats fuel start end step ≡ none))
  unfolding intergral
  intergral_lem fuel start end step = intergral_loop_sums fuel start end step (of_int 0)

  stays : (k : ℕ) (start step : Float) → plus start step ≡ start → advance k start step ≡ start
  stays zero start step same = refl
  stays (suc k) start step same = rw same (stays k start step same)

  -- A step that rounding loses, as 0 or one that is too small beside `start`, is never done: with any
  -- fuel `intergral` has no result.
  pub lost_step_never_returns :
      (start end step : Float) (fuel : ℕ)
      → plus start step ≡ start
      → below start end ≡ true
      → intergral floats fuel start end step ≡ none
  unfolding intergral intergral_loop
  lost_step_never_returns start end step fuel same inside = go fuel (of_int 0)
    where
      go : (fuel : ℕ) (result : Float) → intergral_loop floats fuel start end step result ≡ none
      go zero result = refl
      go (suc fuel) result = rw (same, inside) (go fuel _)

-- ===== src/Integrals/Floats.antt =====
-- `function` and `intergral` of cw6/zadanie1/integrals.c and cw6/zadanie2/integral.c.
use systemy_operacyjne_agh.Prelude.{ℕ, zero, suc, Bool, Option, none, some, if◌then◌else◌}

-- The type `float` with the operations that the program uses, rounded as the machine rounds them;
-- `of_int` is the conversion, `ratio n` is `1.0 / n`.
pub record Floats : Type 1 where
  pub Float : Type 0
  pub of_int : ℕ → Float
  pub ratio : ℕ → Float
  pub plus : Float → Float → Float
  pub minus : Float → Float → Float
  pub times : Float → Float → Float
  pub over : Float → Float → Float
  pub below : Float → Float → Bool

module _ (floats : Floats) where
  open floats use {Float, of_int, ratio, plus, minus, times, over, below}

  abbrev pub function : Float → Float
  function x = over (of_int 4) (plus (times x x) (of_int 1))

  -- `while (start + step < end)`, then the rest of the interval; `none` if the fuel runs out.
  unfoldable pub intergral_loop : ℕ → Float → Float → Float → Float → Option Float
  intergral_loop zero start end step result = none
  intergral_loop (suc fuel) start end step result =
      let rest : Option Float =
        intergral_loop fuel (plus start step) end step
          (plus result (times (function (over (plus start step) (of_int 2))) step)) in
      if below (plus start step) end
      then rest
      else some (
          plus result
            (times (function (plus (over (minus end start) (of_int 2)) start)) (minus end start)))

  unfoldable pub intergral : ℕ → Float → Float → Float → Option Float
  intergral fuel start end step = intergral_loop fuel start end step (of_int 0)

  -- The piece `i` of `n` in `main` of cw6/zadanie1/integrals.c.
  unfoldable pub piece : ℕ → Float → ℕ → ℕ → Option Float
  piece n step i fuel =
      intergral fuel (times (of_int i) (ratio n)) (times (of_int (suc i)) (ratio n)) step

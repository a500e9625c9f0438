-- ===== src/Integrals/Fifo.antt =====
-- `main` of cw6/zadanie2/integral.c, from the two numbers that it reads to the one that it writes.
use systemy_operacyjne_agh.Prelude.{ℕ, zero, suc, ◌≡◌, ap, Option, none, some}
use systemy_operacyjne_agh.Integrals.Floats.{Floats, intergral}

module _ (floats : Floats) (fuel : ℕ) where
  open floats use {Float, of_int, plus, minus, times, over}

  -- The `for` loop from `i` on, with `rounds` rounds left.
  unfoldable pub add_pieces : ℕ → ℕ → Float → Float → Option Float
  add_pieces zero i step res = some res
  add_pieces (suc rounds) i step res =
      elim (intergral floats fuel (times (of_int i) step) (times (of_int (suc i)) step) step) [
        | none ↦ none
        | some value ↦ add_pieces rounds (suc i) step (plus res value)
      ]

  unfoldable pub integrate : Float → Float → Option Float
  integrate start end = add_pieces 10 0 (over (of_int 10) (minus end start)) (of_int 0)

  -- Of the interval only its width has a part in the result.
  integrate_width :
      (start end start' end' : Float)
      → minus end start ≡ minus end' start'
      → integrate start end ≡ integrate start' end'
  unfolding integrate
  integrate_width start end start' end' same =
      ap (λ width. add_pieces 10 0 (over (of_int 10) width) (of_int 0)) same

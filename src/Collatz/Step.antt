-- ===== src/Collatz/Step.antt =====
-- `collatz_conjecture` of cw2/collatzlib/collatz.c, on the 32-bit `int`.
use systemy_operacyjne_agh.Prelude.{
  ℕ, suc, ◌+◌, ◌*◌, ◌/◌, ◌%◌, ◌^◌, ◌<◌, ◌≡◌, Bool, Option, none, some, arith, ltb, leb, ◌==◌,
  if◌then◌else◌,
}
use systemy_operacyjne_agh.Prelude.Int.{ℤ, pos, negsuc, sub_ℕ}

-- 2 ^ 31: an `int` lies from its negative to one below it.
abbrev pub int_limit : ℕ
int_limit = 2 ^ 31

-- `n` as an `int`: `none` if it is too large, which in C is undefined.
abbrev pub to_int : ℕ → Option ℤ
to_int n = if ltb n int_limit then some (pos n) else none

-- `input % 2 == 0`: the remainder of an odd negative number is -1.
abbrev pub is_even : ℤ → Bool
is_even (pos n) = n % 2 == 0
is_even (negsuc n) = suc n % 2 == 0

-- `input / 2` rounds towards 0.
abbrev pub half : ℤ → ℤ
half (pos n) = pos (n / 2)
half (negsuc n) = sub_ℕ 0 (suc n / 2)

-- `(3 * input) + 1`; for a negative `input` the product has to fit too.
abbrev pub triple_plus_one : ℤ → Option ℤ
triple_plus_one (pos n) = to_int (3 * n + 1)
triple_plus_one (negsuc n) = if leb (3 * suc n) int_limit then some (negsuc (3 * n + 1)) else none

unfoldable pub collatz_conjecture : ℤ → Option ℤ
collatz_conjecture input = if is_even input then some (half input) else triple_plus_one input

-- The result of a positive number is positive, and of a number that is not positive is not positive.
abbrev pub IsPositive : ℤ → Type 0
IsPositive (pos n) = 0 < n
IsPositive (negsuc n) = ⊥

pub collatz_conjecture-IsPositive :
    (x : ℤ) {y : ℤ} → IsPositive x → collatz_conjecture x ≡ some y → IsPositive y
unfolding collatz_conjecture
collatz_conjecture-IsPositive (pos n) h e = ground arith
collatz_conjecture-IsPositive (negsuc n) h e = absurd h

pub collatz_conjecture-not_IsPositive :
    (x : ℤ) {y : ℤ} → ¬ IsPositive x → collatz_conjecture x ≡ some y → ¬ IsPositive y
unfolding collatz_conjecture
collatz_conjecture-not_IsPositive (pos n) h e = ground arith
collatz_conjecture-not_IsPositive (negsuc n) h e = ground arith

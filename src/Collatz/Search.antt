-- ===== src/Collatz/Search.antt =====
-- `test_collatz_convergence` of cw2/collatzlib/collatz.c against plain iteration.
use systemy_operacyjne_agh.Prelude.{
  ℕ, zero, suc, ◌+◌, ◌≤◌, ◌<◌, ◌≡◌, ◌≢◌, refl, sym, ◌∙◌, true, false, not, ◌&&◌, Option, none, some,
  arith, if◌then◌else◌, Bool-cases, Option-cases, inl, inr, ap, dec_lt,
}
use mathlib.Core.Path.{subst}
use systemy_operacyjne_agh.Prelude.Int.{ℤ, pos, negsuc, pos_part, ltb_ℤ, eqb_ℤ}
use systemy_operacyjne_agh.Collatz.Step.{
  collatz_conjecture, IsPositive, collatz_conjecture-not_IsPositive,
}

pub data Outcome : Type 0 where
  returned : ℤ → Outcome
  overflow : Outcome  -- a signed overflow, undefined in C
  running : Outcome  -- the fuel has run out

-- The `while` loop and the return after it.
unfoldable pub search : ℕ → ℤ → ℕ → ℤ → Outcome
search zero max_iter iter input = running
search (suc fuel) max_iter iter input =
    let rest : Outcome = elim (collatz_conjecture input) [
      | none ↦ overflow
      | some input' ↦ search fuel max_iter (iter + 1) input'
    ] in
    if not (eqb_ℤ input (pos 1)) && ltb_ℤ (pos iter) max_iter
    then rest
    else (if eqb_ℤ input (pos 1) then returned (pos iter) else returned (negsuc 0))

-- The loop makes at most `max_iter` rounds, so this fuel is enough.
unfoldable pub test_collatz_convergence : ℤ → ℤ → Outcome
test_collatz_convergence input max_iter = search (suc (pos_part max_iter)) max_iter 0 input

-- The number after `k` steps; `none` if a step overflows.
pub iterate : ℕ → ℤ → Option ℤ
iterate zero x = some x
iterate (suc k) x = elim (iterate k x) [ none ↦ none | some y ↦ collatz_conjecture y ]

-- What a result says of the numbers after each step.
abbrev pub Correct : ℤ → ℕ → Outcome → Type 0
Correct input max (returned (pos k)) =
    (k ≤ max)
    × (iterate k input ≡ some (pos 1))
    × ((j : ℕ) → j < k → iterate j input ≢ some (pos 1))
Correct input max (returned (negsuc n)) =
    (n ≡ 0) × ((j : ℕ) → j ≤ max → iterate j input ≢ some (pos 1))
Correct input max overflow =
    (k : ℕ) × (k < max)
    × (iterate (suc k) input ≡ none)
    × ((j : ℕ) → j ≤ k → iterate j input ≢ some (pos 1))
Correct input max running = ⊥

some_injective : {x y : ℤ} → some x ≡ some y → x ≡ y
some_injective e = cc

eqb_ℤ→≡ : (x : ℤ) → eqb_ℤ x (pos 1) ≡ true → x ≡ pos 1
eqb_ℤ→≡ x h = ground arith

ltb_ℤ→< : (i : ℕ) (m : ℤ) → ltb_ℤ (pos i) m ≡ true → i < pos_part m
ltb_ℤ→< i m h = ground arith

ltb_ℤ→≤ : (i : ℕ) (m : ℤ) → ltb_ℤ (pos i) m ≡ false → pos_part m ≤ i
ltb_ℤ→≤ i m h = ground arith

iterate-suc :
    (k : ℕ) (input x : ℤ) → iterate k input ≡ some x → iterate (suc k) input ≡ collatz_conjecture x
unfolding iterate
iterate-suc k input x e = rw e

-- The number after `iter` steps is not 1 either.
extend :
    (iter : ℕ) (input x : ℤ)
    → iterate iter input ≡ some x
    → x ≢ pos 1
    → ((j : ℕ) → j < iter → iterate j input ≢ some (pos 1))
    → (j : ℕ) → j ≤ iter
    → iterate j input ≢ some (pos 1)
extend iter input x at other none_yet j h = elim (dec_lt j iter) [
  | yes before ↦ none_yet j before
  | no last ↦
      let same : j ≡ iter = omega arith in
      λ one. other (some_injective (sym at ∙ ap (λ k. iterate k input) (sym same) ∙ one))
]

search-Correct :
    (fuel iter : ℕ) (input max_iter x : ℤ)
    → pos_part max_iter < fuel + iter
    → iter ≤ pos_part max_iter
    → iterate iter input ≡ some x
    → ((j : ℕ) → j < iter → iterate j input ≢ some (pos 1))
    → Correct input (pos_part max_iter) (search fuel max_iter iter x)
unfolding search
search-Correct zero iter input max_iter x f le at none_yet = absurd (omega arith)
search-Correct (suc fuel) iter input max_iter x f le at none_yet =
    elim (Bool-cases (eqb_ℤ x (pos 1))) [
      | inl one ↦ rw one (le, at ∙ ap some (eqb_ℤ→≡ x one), none_yet)
      | inr other ↦
          let more = extend iter input x at (λ e. ground arith) none_yet in
          elim (Bool-cases (ltb_ℤ (pos iter) max_iter)) [
            | inr stop ↦
                rw (other, stop) (refl, λ j h. more j (omega (arith, ltb_ℤ→≤ iter max_iter stop)))
            | inl go ↦
                let lt = ltb_ℤ→< iter max_iter go in
                elim (Option-cases (collatz_conjecture x)) [
                  | inl none_left ↦
                      rw (other, go, none_left)
                        (iter, lt, iterate-suc iter input x at ∙ none_left, more)
                  | inr (y, e) ↦
                      rw (other, go, e)
                        (search-Correct fuel (iter + 1) input max_iter y (omega arith) (omega arith)
                          (next iter input y (iterate-suc iter input x at ∙ e))
                          (λ j h. more j (omega arith)))
                ]
          ]
    ]
  where
    next : (k : ℕ) (input y : ℤ) → iterate (suc k) input ≡ some y → iterate (k + 1) input ≡ some y
    next k input y e = ap (λ j. iterate j input) (omega arith) ∙ e

-- `test_collatz_convergence` ends. It returns a number `k` from 0 on only if `k` is at most
-- `max_iter` and the number after `k` steps, and after no fewer, is 1; it returns -1 only if the
-- number is 1 after none of the steps up to `max_iter`; and a step before `max_iter` overflows only
-- if no number up to it is 1. A negative `max_iter` counts as 0.
pub test_collatz_convergence-Correct :
    (input max_iter : ℤ)
    → Correct input (pos_part max_iter) (test_collatz_convergence input max_iter)
unfolding test_collatz_convergence iterate
test_collatz_convergence-Correct input max_iter =
    search-Correct (suc (pos_part max_iter)) 0 input max_iter input (omega arith) (omega arith) refl
      (λ j h. absurd (omega arith))

iterate-not_IsPositive :
    (k : ℕ) (x : ℤ) {y : ℤ} → ¬ IsPositive x → iterate k x ≡ some y → ¬ IsPositive y
unfolding iterate
iterate-not_IsPositive zero x h e = subst (λ z. ¬ IsPositive z) (some_injective e) h
iterate-not_IsPositive (suc k) x h e = elim (Option-cases (iterate k x)) [
  | inl none_left ↦ ground arith
  | inr (z, at) ↦ collatz_conjecture-not_IsPositive z (iterate-not_IsPositive k x h at) (rw at at e)
]

-- From a number that is not positive the search never returns a count.
pub not_positive_never_converges :
    (input max_iter : ℤ) (k : ℕ)
    → ¬ IsPositive input
    → test_collatz_convergence input max_iter ≢ returned (pos k)
not_positive_never_converges input max_iter k h e =
    let (le, one, first) =
      subst (Correct input (pos_part max_iter)) e
        (test_collatz_convergence-Correct input max_iter) in
    iterate-not_IsPositive k input h one (omega arith)

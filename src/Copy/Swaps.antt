-- ===== src/Copy/Swaps.antt =====
-- The swaps of `reverse_copy_1024buffer` of cw3/zad1.c, and the bytes that they move.
use systemy_operacyjne_agh.Prelude.{
  ℕ, zero, suc, ◌+◌, ◌-◌, ◌/◌, ◌<◌, ◌≤◌, ◌≡◌, ◌≢◌, ◌⊎◌, refl, sym, ap, ◌∙◌, List, [], ◌∷◌, arith,
  length, get_or, set, take, reverse, length-set, length-take, length-reverse, get_or-set_self,
  get_or-set_ne, get_or-append_lt, get_or-append_ge, get_or-take, list_ext, dec_lt, ℕ_discrete,
}
use mathlib.Core.List.{reverse-append}
use systemy_operacyjne_agh.Copy.Blocks.{swap_ends, reverse_block}

length-swap_ends : (b i : ℕ) (xs : List ℕ) → length (swap_ends b i xs) ≡ length xs
length-swap_ends b i xs =
    length-set (set xs i (get_or xs (b - i - 1) 0)) (b - i - 1) (get_or xs i 0)
    ∙ length-set xs i (get_or xs (b - i - 1) 0)

pub length-reverse_block : (b n i : ℕ) (xs : List ℕ) → length (reverse_block b n i xs) ≡ length xs
unfolding reverse_block
length-reverse_block b zero i xs = refl
length-reverse_block b (suc n) i xs =
    length-reverse_block b n (i + 1) (swap_ends b i xs) ∙ length-swap_ends b i xs

swap_ends-other :
    (b i k : ℕ) (xs : List ℕ)
    → i ≢ k
    → b - i - 1 ≢ k
    → get_or (swap_ends b i xs) k 0 ≡ get_or xs k 0
swap_ends-other b i k xs h h' =
    get_or-set_ne (set xs i (get_or xs (b - i - 1) 0)) (b - i - 1) k (get_or xs i 0) 0 h'
    ∙ get_or-set_ne xs i k (get_or xs (b - i - 1) 0) 0 h

swap_ends-left :
    (b i : ℕ) (xs : List ℕ)
    → i < length xs
    → b - i - 1 ≢ i
    → get_or (swap_ends b i xs) i 0 ≡ get_or xs (b - i - 1) 0
swap_ends-left b i xs h h' =
    get_or-set_ne (set xs i (get_or xs (b - i - 1) 0)) (b - i - 1) i (get_or xs i 0) 0 h'
    ∙ get_or-set_self xs i (get_or xs (b - i - 1) 0) 0 h

swap_ends-right :
    (b i : ℕ) (xs : List ℕ)
    → b - i - 1 < length xs
    → get_or (swap_ends b i xs) (b - i - 1) 0 ≡ get_or xs i 0
swap_ends-right b i xs h =
    get_or-set_self (set xs i (get_or xs (b - i - 1) 0)) (b - i - 1) (get_or xs i 0) 0
      (omega (arith, length-set xs i (get_or xs (b - i - 1) 0)))

-- `n` swaps from `i` on leave alone what lies outside them and between them.
reverse_block-kept :
    (b n i k : ℕ) (xs : List ℕ)
    → (i + n) + (i + n) ≤ b
    → k < b
    → (k < i) ⊎ ((b - i ≤ k) ⊎ (i + n ≤ k) × (k + i + n < b))
    → get_or (reverse_block b n i xs) k 0 ≡ get_or xs k 0
unfolding reverse_block
reverse_block-kept b zero i k xs room h out = refl
reverse_block-kept b (suc n) i k xs room h out =
    reverse_block-kept b n (i + 1) k (swap_ends b i xs) (omega arith) h (omega arith)
    ∙ swap_ends-other b i k xs (omega arith) (omega arith)

-- They mirror the rest.
reverse_block-moved :
    (b n i k : ℕ) (xs : List ℕ)
    → (i + n) + (i + n) ≤ b
    → b ≤ length xs
    → k < b
    → i ≤ k
    → k < b - i
    → (k < i + n) ⊎ (b ≤ k + i + n)
    → get_or (reverse_block b n i xs) k 0 ≡ get_or xs (b - k - 1) 0
unfolding reverse_block
reverse_block-moved b zero i k xs room size h lo hi where_ = absurd (omega arith)
reverse_block-moved b (suc n) i k xs room size h lo hi where_ = elim (ℕ_discrete i k) [
  | yes left ↦
      reverse_block-kept b n (i + 1) k (swap_ends b i xs) (omega arith) h (omega arith)
      ∙ ap (λ j. get_or (swap_ends b i xs) j 0) (sym left)
      ∙ swap_ends-left b i xs (omega arith) (omega arith)
      ∙ ap (λ j. get_or xs j 0) (omega arith)
  | no inner ↦ elim (ℕ_discrete (b - i - 1) k) [
    | yes right ↦
        reverse_block-kept b n (i + 1) k (swap_ends b i xs) (omega arith) h (omega arith)
        ∙ ap (λ j. get_or (swap_ends b i xs) j 0) (sym right)
        ∙ swap_ends-right b i xs (omega arith)
        ∙ ap (λ j. get_or xs j 0) (omega arith)
    | no between ↦
        reverse_block-moved b n (i + 1) k (swap_ends b i xs) (omega arith)
          (omega (arith, length-swap_ends b i xs)) h (omega arith) (omega arith) (omega arith)
        ∙ swap_ends-other b i (b - k - 1) xs (omega arith) (omega arith)
  ]
]

get_or-reverse :
    (xs : List ℕ) (k : ℕ)
    → k < length xs
    → get_or (reverse xs) k 0 ≡ get_or xs (length xs - k - 1) 0
get_or-reverse [] k h = elim h [ ]
get_or-reverse (x ∷ xs) k h = elim (dec_lt k (length xs)) [
  | yes before ↦
      ap (λ ys. get_or ys k 0) (reverse-append (x ∷ []) xs)
      ∙ get_or-append_lt (reverse xs) (x ∷ []) k 0 (omega (arith, length-reverse xs))
      ∙ get_or-reverse xs k before
      ∙ shifted (length xs - k - 1) (suc (length xs) - k - 1) (omega arith)
  | no last ↦
      ap (λ ys. get_or ys k 0) (reverse-append (x ∷ []) xs)
      ∙ get_or-append_ge (reverse xs) (x ∷ []) k 0 (omega (arith, length-reverse xs))
      ∙ ap (λ j. get_or (x ∷ []) j 0)
          (empty k (length (reverse xs)) (omega (arith, length-reverse xs)))
      ∙ ap (λ j. get_or (x ∷ xs) j 0) (sym (empty (suc (length xs) - k) 1 (omega arith)))
]
  where
    shifted : (i j : ℕ) → suc i ≡ j → get_or xs i 0 ≡ get_or (x ∷ xs) j 0
    shifted i j e = ap (λ m. get_or (x ∷ xs) m 0) e

    empty : (i j : ℕ) → i ≤ j → i - j ≡ 0
    empty i j h = omega arith

-- Half as many swaps as there are bytes in the block reverse it, and the rest of the buffer is
-- not part of the block.
pub take-reverse_block :
    (b : ℕ) (xs : List ℕ)
    → b ≤ length xs
    → take b (reverse_block b (b / 2) 0 xs) ≡ reverse (take b xs)
take-reverse_block b xs size =
    list_ext (take b (reverse_block b (b / 2) 0 xs)) (reverse (take b xs)) 0
      (omega (
        arith,
        length-take b (reverse_block b (b / 2) 0 xs),
        length-take b xs,
        length-reverse (take b xs),
        length-reverse_block b (b / 2) 0 xs,
      ))
      λ k h.
        let h' : k < b = omega (arith, length-take b (reverse_block b (b / 2) 0 xs)) in
        let e : length (take b xs) ≡ b = omega (arith, length-take b xs) in
        get_or-take b (reverse_block b (b / 2) 0 xs) k 0 h'
        ∙ mirrored k h'
        ∙ sym (get_or-take b xs (b - k - 1) 0 (omega arith))
        ∙ ap (λ j. get_or (take b xs) (j - k - 1) 0) (sym e)
        ∙ sym (get_or-reverse (take b xs) k (omega arith))
  where
    mirrored : (k : ℕ) → k < b → get_or (reverse_block b (b / 2) 0 xs) k 0 ≡ get_or xs (b - k - 1) 0
    mirrored k h = elim (ℕ_discrete (b - k - 1) k) [
      | yes middle ↦
          reverse_block-kept b (b / 2) 0 k xs (omega arith) h (omega arith)
          ∙ ap (λ j. get_or xs j 0) (sym middle)
      | no moved ↦
          reverse_block-moved b (b / 2) 0 k xs (omega arith) size h (omega arith) (omega arith)
            (omega arith)
    ]

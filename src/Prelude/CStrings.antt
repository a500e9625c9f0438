-- ===== src/Prelude/CStrings.antt =====
-- C strings as lists of bytes.
use Prim.Native.Nat.{ℕ}
use mathlib.Core.Path.{◌≡◌, refl, ap, ap₂}
use mathlib.Core.Logic.{◌≢◌, inl, inr}
use mathlib.Core.Bool.{Bool, true, false, ◌&&◌}
use mathlib.Core.List.{List, [], ◌∷◌, ◌++◌}
use native.Mathlib.Omega.{arith}
use systemy_operacyjne_agh.Prelude.Tests.{◌==◌, if◌then◌else◌, ==→≡, ==-refl, Bool-cases}

-- `strcmp(a, b) == 0`
abbrev pub eqb_bytes : List ℕ → List ℕ → Bool
eqb_bytes [] [] = true
eqb_bytes [] (b ∷ ys) = false
eqb_bytes (a ∷ xs) [] = false
eqb_bytes (a ∷ xs) (b ∷ ys) = let rest = eqb_bytes xs ys in (a == b) && rest

pub eqb_bytes→≡ : (a b : List ℕ) → eqb_bytes a b ≡ true → a ≡ b
eqb_bytes→≡ [] [] h = refl
eqb_bytes→≡ [] (y ∷ b) h = ground arith
eqb_bytes→≡ (x ∷ a) [] h = ground arith
eqb_bytes→≡ (x ∷ a) (y ∷ b) h = elim (Bool-cases (x == y)) [
  | inl same ↦ ap₂ ◌∷◌ (==→≡ x y same) (eqb_bytes→≡ a b (rw same at h))
  | inr differs ↦ absurd (false_ne_true (rw differs at h))
]
  where
    false_ne_true : false ≡ true → ⊥
    false_ne_true e = ground arith

pub eqb_bytes_refl : (a : List ℕ) → eqb_bytes a a ≡ true
eqb_bytes_refl [] = refl
eqb_bytes_refl (x ∷ a) = rw (==-refl x) (eqb_bytes_refl a)

-- The bytes before the first zero.
abbrev pub c_string : List ℕ → List ℕ
c_string [] = []
c_string (b ∷ bytes) = let rest = c_string bytes in if b == 0 then [] else b ∷ rest

-- No byte is zero.
abbrev pub IsText : List ℕ → Type 0
IsText [] = Unit {0}
IsText (b ∷ text) = (b ≢ 0) × IsText text

pub c_string-IsText : (text : List ℕ) → IsText text → c_string text ≡ text
c_string-IsText [] h = refl
c_string-IsText (b ∷ text) (nonzero, h) =
    let differs : (b == 0) ≡ false = ground arith in
    rw differs (ap (λ t. b ∷ t) (c_string-IsText text h))

pub IsText-append : (s t : List ℕ) → IsText s → IsText t → IsText (s ++ t)
IsText-append [] t hs ht = ht
IsText-append (b ∷ s) t (nonzero, hs) ht = (nonzero, IsText-append s t hs ht)

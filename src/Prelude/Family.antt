-- ===== src/Prelude/Family.antt =====
-- The threads of a program as a family indexed by number: one thread is updated at a time, and a
-- weighted sum over the first `n` counts the threads that are at some point of their code.
use Prim.Native.Nat.{ℕ, zero, suc, ◌+◌, ◌≤◌, ◌<◌}
use mathlib.Core.Path.{◌≡◌, refl, sym, ap, ap₂, ◌∙◌}
use mathlib.Core.Logic.{◌≢◌, ite, if_pos, if_neg}
use native.Mathlib.Decide.{dec_lt, ℕ_discrete}
use native.Mathlib.Omega.{arith}

abbrev pub update {ℓ} : {A : Type ℓ} → (ℕ → A) → ℕ → A → ℕ → A
update f i a j = ite (ℕ_discrete i j) a (f j)

pub update_self {ℓ} : {A : Type ℓ} (f : ℕ → A) (k : ℕ) (a : A) → update f k a k ≡ a
update_self f k a = rw (if_pos (ℕ_discrete k k) refl)

pub update_other {ℓ} : {A : Type ℓ} (f : ℕ → A) (k j : ℕ) (a : A) → k ≢ j → update f k a j ≡ f j
update_other f k j a h = rw (if_neg (ℕ_discrete k j) h)

module _ {ℓ} {A : Type ℓ} (w : A → ℕ) where
  unfoldable pub total : ℕ → (ℕ → A) → ℕ
  total zero threads = 0
  total (suc k) threads = w (threads k) + total k threads

  -- A thread that the sum leaves out may move as it likes.
  total-update_beyond :
      (k : ℕ) (threads : ℕ → A) (t : ℕ) (pc : A)
      → k ≤ t
      → total k (update threads t pc) ≡ total k threads
  unfolding total
  total-update_beyond zero threads t pc out = refl
  total-update_beyond (suc k) threads t pc out =
      ap₂ ◌+◌ (ap w (update_other threads t k pc (omega arith)))
        (total-update_beyond k threads t pc (omega arith))

  -- Moving thread `t` replaces its weight in the sum.
  pub total-update :
      (k : ℕ) (threads : ℕ → A) (t : ℕ) (pc : A)
      → t < k
      → total k (update threads t pc) + w (threads t) ≡ total k threads + w pc
  unfolding total
  total-update zero threads t pc inside = absurd (omega arith)
  total-update (suc k) threads t pc inside = elim (ℕ_discrete t k) [
    | yes last ↦ omega (
      arith,
      total-update_beyond k threads t pc (omega arith),
      ap (λ j. w (update threads t pc j)) (sym last) ∙ ap w (update_self threads t pc),
      ap (λ j. w (threads j)) last,
    )
    | no before ↦ omega (
      arith,
      total-update k threads t pc (omega arith),
      ap w (update_other threads t k pc before),
    )
  ]

  pub total-const : (k : ℕ) (threads : ℕ → A) → ((i : ℕ) → w (threads i) ≡ 0) → total k threads ≡ 0
  unfolding total
  total-const zero threads h = refl
  total-const (suc k) threads h = omega (arith, total-const k threads h, h k)

  pub le-total : (k : ℕ) (threads : ℕ → A) (i : ℕ) → i < k → w (threads i) ≤ total k threads
  unfolding total
  le-total zero threads i h = absurd (omega arith)
  le-total (suc k) threads i h = elim (dec_lt i k) [
    | yes below ↦ omega (arith, le-total k threads i below)
    | no last ↦ ground arith
  ]

  -- Two threads each weigh in.
  pub add-le-total :
      (k : ℕ) (threads : ℕ → A) (i j : ℕ)
      → i < j
      → j < k
      → w (threads i) + w (threads j) ≤ total k threads
  unfolding total
  add-le-total zero threads i j h h2 = absurd (omega arith)
  add-le-total (suc k) threads i j h h2 = elim (dec_lt j k) [
    | yes below ↦ omega (arith, add-le-total k threads i j h below)
    | no last ↦ ground (arith, le-total k threads i)
  ]

  -- A positive sum has a thread with a positive weight.
  pub pos-of-total :
      (k : ℕ) (threads : ℕ → A) → 0 < total k threads → (i : ℕ) × (i < k) × (0 < w (threads i))
  unfolding total
  pos-of-total zero threads h = absurd (omega arith)
  pos-of-total (suc k) threads h = elim (dec_lt 0 (w (threads k))) [
    | yes here ↦ (k, omega arith, here)
    | no below ↦ let (i, p, q) = pos-of-total k threads (omega arith) in (i, omega arith, q)
  ]

  pub total-le : ((a : A) → w a ≤ 1) → (k : ℕ) (threads : ℕ → A) → total k threads ≤ k
  unfolding total
  total-le light zero threads = omega arith
  total-le light (suc k) threads = omega (arith, light (threads k), total-le light k threads)

  -- When the sum is full, every thread weighs in.
  pub all-of-total :
      ((a : A) → w a ≤ 1)
      → (k : ℕ) (threads : ℕ → A) → total k threads ≡ k
      → (i : ℕ) → i < k
      → w (threads i) ≡ 1
  unfolding total
  all-of-total light zero threads e i h = absurd (omega arith)
  all-of-total light (suc k) threads e i h = elim (dec_lt i k) [
    | yes below ↦
        all-of-total light k threads (omega (arith, light (threads k), total-le light k threads)) i
          below
    | no last ↦ ground (arith, light (threads k), total-le light k threads)
  ]

pub total_mono {ℓ} :
    {A : Type ℓ} (v w : A → ℕ)
    → ((a : A) → v a ≤ w a)
    → (k : ℕ) (threads : ℕ → A) → total v k threads ≤ total w k threads
unfolding total
total_mono v w h zero threads = omega arith
total_mono v w h (suc k) threads = omega (arith, total_mono v w h k threads, h (threads k))

-- Moving one thread keeps a property that each thread has.
pub update-keeps {ℓ κ} :
    {A : Type ℓ} (P : A → Type κ) (threads : ℕ → A) (i : ℕ) (a : A)
    → ((j : ℕ) → P (threads j))
    → P a
    → (j : ℕ) → P (update threads i a j)
update-keeps P threads i a h k j = elim (ℕ_discrete i j) [
  | yes e ↦ rw (if_pos (ℕ_discrete i j) e) k
  | no e ↦ rw (if_neg (ℕ_discrete i j) e) (h j)
]

pub total-add {ℓ} :
    {A : Type ℓ} (v w : A → ℕ) (k : ℕ) (threads : ℕ → A)
    → total (λ a. v a + w a) k threads ≡ total v k threads + total w k threads
unfolding total
total-add v w zero threads = omega arith
total-add v w (suc k) threads = omega (arith, total-add v w k threads)

-- A change of every thread that keeps its weight keeps the sum.
pub total-map {ℓ} :
    {A : Type ℓ} (w : A → ℕ) (g : A → A)
    → ((a : A) → w (g a) ≡ w a)
    → (k : ℕ) (threads : ℕ → A) → total w k (λ i. g (threads i)) ≡ total w k threads
unfolding total
total-map w g h zero threads = refl
total-map w g h (suc k) threads = omega (arith, total-map w g h k threads, h (threads k))

-- Of two indices with weight 1 in a sum of at most 1, neither comes before the other.
pub same_index {ℓ} :
    {A : Type ℓ} (w : A → ℕ) (k : ℕ) (threads : ℕ → A) (i j : ℕ)
    → total w k threads ≤ 1
    → i < k
    → j < k
    → w (threads i) ≡ 1
    → w (threads j) ≡ 1
    → i ≡ j
same_index w k threads i j one hi hj wi wj = elim (dec_lt i j) [
  | yes less ↦ absurd (omega (arith, add-le-total w k threads i j less hj))
  | no other ↦ elim (dec_lt j i) [
    | yes more ↦ absurd (omega (arith, add-le-total w k threads j i more hi))
    | no same ↦ omega arith
  ]
]

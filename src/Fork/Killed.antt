-- ===== src/Fork/Killed.antt =====
-- When cw5/zadanie1/SIGUSR1.c is killed by the signal that it raises.
use systemy_operacyjne_agh.Prelude.{
  ℕ, ◌≡◌, ◌≢◌, ◌⊎◌, ◌↔◌, refl, sym, ap, ◌∙◌, Bool, true, false, List, [], inl, inr, Bool-cases,
  arith,
}
use mathlib.Core.Path.{subst}
use systemy_operacyjne_agh.Prelude.CStrings.{eqb_bytes, eqb_bytes→≡, eqb_bytes_refl}
use systemy_operacyjne_agh.Fork.Disposition.{
  Disposition, Process, Run, none_word, ignore_word, handler_word, mask_word, apply_argument,
  signal_main,
}

abbrev pub IsKilled : Run → Type 0
IsKilled (Run.alive p) = ⊥
IsKilled (Run.killed output) = Unit {0}

-- The argument is none of the four words.
abbrev pub IsOther : List ℕ → Type 0
IsOther argument =
    (argument ≢ none_word)
    × (argument ≢ ignore_word)
    × (argument ≢ handler_word)
    × (argument ≢ mask_word)

differs : (a b : List ℕ) → eqb_bytes a b ≡ false → a ≢ b
differs a b h = λ e. absurd (false_ne_true (sym h ∙ ap (λ x. eqb_bytes x b) e ∙ eqb_bytes_refl b))
  where
    false_ne_true : false ≡ true → ⊥
    false_ne_true e = ground arith

differs_eqb : (a b : List ℕ) → a ≢ b → eqb_bytes a b ≡ false
differs_eqb a b h = elim (Bool-cases (eqb_bytes a b)) [
  | inl same ↦ absurd (h (eqb_bytes→≡ a b same))
  | inr other ↦ other
]

-- What the process is when `main` begins: no handler is set, and no signal is pending.
abbrev pub begins : Disposition → Bool → Process
begins disposition blocks = record {
  disposition = disposition;
  blocks = blocks;
  pending = false;
  output = [];
}

words :
    (argument : List ℕ)
    → (argument ≡ none_word)
      ⊎ ((argument ≡ ignore_word)
          ⊎ ((argument ≡ handler_word) ⊎ ((argument ≡ mask_word) ⊎ IsOther argument)))
words argument = elim (Bool-cases (eqb_bytes argument none_word)) [
  | inl e ↦ inl (eqb_bytes→≡ argument none_word e)
  | inr n ↦ elim (Bool-cases (eqb_bytes argument ignore_word)) [
    | inl e ↦ inr (inl (eqb_bytes→≡ argument ignore_word e))
    | inr i ↦ elim (Bool-cases (eqb_bytes argument handler_word)) [
      | inl e ↦ inr (inr (inl (eqb_bytes→≡ argument handler_word e)))
      | inr h ↦ elim (Bool-cases (eqb_bytes argument mask_word)) [
        | inl e ↦ inr (inr (inr (inl (eqb_bytes→≡ argument mask_word e))))
        | inr m ↦ inr (
            inr (
              inr (
                inr (
                  differs argument none_word n,
                  differs argument ignore_word i,
                  differs argument handler_word h,
                  differs argument mask_word m,
                ))))
      ]
    ]
  ]
]

-- Where the run ends under an argument that is no word.
unmatched :
    (argument : List ℕ) (p : Process) → IsOther argument → apply_argument argument p ≡ Run.alive p
unmatched argument p (n, i, h, m) =
    rw
      (
        differs_eqb argument none_word n,
        differs_eqb argument ignore_word i,
        differs_eqb argument handler_word h,
        differs_eqb argument mask_word m,
      )
      refl

-- The verdict on a process that began in some way.
abbrev pub KilledIff : List ℕ → Disposition → Bool → Type 0
KilledIff argument disposition blocks =
    IsKilled (signal_main argument (begins disposition blocks))
    ↔ ((argument ≡ none_word) ⊎ (IsOther argument × (disposition ≡ Disposition.default)))

KilledIff-word :
    (word : List ℕ) (disposition : Disposition) (blocks : Bool)
    → (IsKilled (signal_main word (begins disposition blocks)) → ⊥)
    → eqb_bytes word none_word ≡ false
    → (IsOther word → ⊥)
    → KilledIff word disposition blocks
KilledIff-word word disposition blocks lives other known = (
  (λ k. absurd (lives k)),
  (λ h. elim h [
    | inl e ↦ absurd (differs word none_word other e)
    | inr (unknown, e) ↦ absurd (known unknown)
  ]),
)

KilledIff-other :
    (argument : List ℕ) (disposition : Disposition) (blocks : Bool)
    → disposition ≢ Disposition.handler
    → IsOther argument
    → KilledIff argument disposition blocks
unfolding signal_main
KilledIff-other argument Disposition.default blocks inherited other = (
  (λ k. inr (other, refl)),
  (λ h. rw (unmatched argument (begins Disposition.default false) other) tt),
)
KilledIff-other argument Disposition.ignore blocks inherited other = (
  (λ k. absurd (rw (unmatched argument (begins Disposition.ignore false) other) at k)),
  (λ h. elim h [ inl e ↦ absurd (other.0 e) | inr (unknown, e) ↦ ground arith ]),
)
KilledIff-other argument Disposition.handler blocks inherited other = absurd (inherited refl)

-- When no signal is pending and no handler is inherited, the process is killed exactly if the argument
-- is "none", or is none of the four words while the inherited disposition is the default one; whether
-- the signal was blocked before makes no difference.
pub signal_main_killed :
    (argument : List ℕ) (disposition : Disposition) (blocks : Bool)
    → disposition ≢ Disposition.handler
    → KilledIff argument disposition blocks
unfolding signal_main
signal_main_killed argument disposition blocks inherited = elim (words argument) [
  | inl e ↦ subst (λ a. KilledIff a disposition blocks) (sym e) ((λ k. inl refl), (λ h. tt))
  | inr (inl e) ↦
      subst (λ a. KilledIff a disposition blocks) (sym e)
        (KilledIff-word ignore_word disposition blocks (λ k. k) refl (λ o. o.1 refl))
  | inr (inr (inl e)) ↦
      subst (λ a. KilledIff a disposition blocks) (sym e)
        (KilledIff-word handler_word disposition blocks (λ k. k) refl (λ o. o.2 refl))
  | inr (inr (inr (inl e))) ↦
      subst (λ a. KilledIff a disposition blocks) (sym e)
        (KilledIff-word mask_word disposition blocks (masked disposition blocks) refl
          (λ o. o.3 refl))
  | inr (inr (inr (inr other))) ↦ KilledIff-other argument disposition blocks inherited other
]
  where
    masked :
        (disposition : Disposition) (blocks : Bool)
        → IsKilled (signal_main mask_word (begins disposition blocks))
        → ⊥
    masked Disposition.default blocks k = k
    masked Disposition.ignore blocks k = k
    masked Disposition.handler blocks k = k

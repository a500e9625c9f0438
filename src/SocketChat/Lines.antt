-- ===== src/SocketChat/Lines.antt =====
-- Lines typed at cw11/client.c, and what it sends.
use systemy_operacyjne_agh.Prelude.{
  ℕ, zero, suc, ◌+◌, ◌≡◌, ◌≢◌, ◌<◌, refl, ap, ◌∙◌, Option, some, List, [], ◌∷◌, ◌++◌, length,
  replicate, arith, ≢→==,
}
use systemy_operacyjne_agh.Prelude.CStrings.{c_string}
use systemy_operacyjne_agh.SocketChat.Client.{
  fgets, before_newline, type_line, and_send, type_lines,
}

-- No byte is zero or a newline.
abbrev pub IsLine : List ℕ → Type 0
IsLine [] = Unit {0}
IsLine (b ∷ line) = (b ≢ 0) × (b ≢ 10) × IsLine line

fgets-line :
    (n : ℕ) (line input : List ℕ)
    → IsLine line
    → length line < n
    → fgets n (line ++ 10 ∷ input) ≡ (line ++ 10 ∷ [], input)
fgets-line zero line input h lt = absurd (omega arith)
fgets-line (suc n) [] input h lt = refl
fgets-line (suc n) (b ∷ line) input (nonzero, other, h) lt =
    rw (≢→== b 10 other) (ap (λ p. (b ∷ p.0, p.1)) (fgets-line n line input h (omega arith)))

before_newline-line :
    (line : List ℕ) → IsLine line → before_newline (c_string (line ++ 10 ∷ [])) ≡ line
before_newline-line [] h = refl
before_newline-line (b ∷ line) (nonzero, other, h) =
    rw (≢→== b 0 nonzero, ≢→== b 10 other) (ap (λ l. b ∷ l) (before_newline-line line h))

pub type_line-line :
    (line input : List ℕ) (buffer : Option (List ℕ))
    → IsLine line
    → length line < 255
    → type_line (line ++ 10 ∷ input) buffer ≡ (some line, input)
type_line-line [] input buffer h lt = refl
type_line-line (b ∷ line) input buffer h lt =
    rw (fgets-line 255 (b ∷ line) input h lt)
      (ap (λ l. (some l, input)) (before_newline-line (b ∷ line) h))

-- The bytes that are typed for some lines.
abbrev pub typed_text : List (List ℕ) → List ℕ
typed_text [] = []
typed_text (line ∷ lines) = line ++ 10 ∷ typed_text lines

abbrev pub LinesFit : List (List ℕ) → Type 0
LinesFit [] = Unit {0}
LinesFit (line ∷ lines) = IsLine line × (length line < 255) × LinesFit lines

pub one_round :
    (n : ℕ) (line rest input : List ℕ) (buffer : Option (List ℕ))
    → type_line input buffer ≡ (some line, rest)
    → type_lines (suc n) input buffer ≡ and_send line (type_lines n rest (some line))
unfolding type_lines
one_round n line rest input buffer e =
    let filled : (type_line input buffer).0 ≡ some line = ap (λ p. p.0) e in
    let left : (type_line input buffer).1 ≡ rest = ap (λ p. p.1) e in
    rw (type_lines, filled) (ap (λ r. and_send line (type_lines n r (some line))) left)

-- After the input has ended.
repeats : (k : ℕ) (line : List ℕ) → type_lines k [] (some line) ≡ some (replicate k line)
unfolding type_lines
repeats zero line = refl
repeats (suc k) line = rw (repeats k line) refl

-- The lines that are typed, each shorter than 255 bytes and without a zero byte, are sent one by one,
-- in order; then the input has ended, and the last line is sent again in every round.
pub last_line_repeats :
    (k : ℕ) (lines : List (List ℕ)) (last : List ℕ) (buffer : Option (List ℕ))
    → LinesFit (lines ++ last ∷ [])
    → type_lines (suc (length lines + k)) (typed_text (lines ++ last ∷ [])) buffer
      ≡ some (lines ++ last ∷ replicate k last)
unfolding type_lines
last_line_repeats k [] last buffer (is_line, short, fit) =
    let rounds : 0 + k ≡ k = omega arith in
    one_round (0 + k) last [] (last ++ 10 ∷ []) buffer (type_line-line last [] buffer is_line short)
    ∙ ap (λ n. and_send last (type_lines n [] (some last))) rounds
    ∙ ap (and_send last) (repeats k last)
last_line_repeats k (line ∷ lines) last buffer (is_line, short, fit) =
    let rounds : length (line ∷ lines) + k ≡ suc (length lines + k) = omega arith in
    one_round (length (line ∷ lines) + k) line (typed_text (lines ++ last ∷ []))
      (typed_text (line ∷ lines ++ last ∷ [])) buffer
      (type_line-line line (typed_text (lines ++ last ∷ [])) buffer is_line short)
    ∙ ap (λ n. and_send line (type_lines n (typed_text (lines ++ last ∷ [])) (some line))) rounds
    ∙ ap (and_send line) (last_line_repeats k lines last (some line) fit)

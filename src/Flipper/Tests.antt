-- ===== src/Flipper/Tests.antt =====
-- Runs of the directory flipper and instances of its theorems.
use systemy_operacyjne_agh.Prelude.{
  ℕ, zero, suc, ◌≡◌, ◌≢◌, sym, ap, ◌∙◌, ◌==◌, refl, Bool, true, false, Option, none, some, List, [],
  ◌∷◌, arith, reverse, if◌then◌else◌,
}
use systemy_operacyjne_agh.Prelude.CStrings.{eqb_bytes}
use systemy_operacyjne_agh.Copy.Bytes.{reverse_copy, copy_bytes, copy_byte}
use systemy_operacyjne_agh.Flipper.Directory.{
  Files, Entry, is_txt, path_of, Flipped, contents, flip, flip_entries, copy_file,
}
use systemy_operacyjne_agh.Flipper.Files.{IsFlipped, IsTextName}
use systemy_operacyjne_agh.Flipper.Apart.{flip-apart, flip_in_place}

-- The directory itself, and a text file "x.txt".
abbrev dot : Entry
dot = record { header = 24 ∷ 0 ∷ 4 ∷ []; d_name = 46 ∷ [] }

abbrev text_file : Entry
text_file = record { header = 32 ∷ 0 ∷ 8 ∷ []; d_name = 120 ∷ 46 ∷ 116 ∷ 120 ∷ 116 ∷ [] }

-- The paths "a/x.txt" and "./a/x.txt" name file 1, and "b/x.txt" file 2.
abbrev file_of : List ℕ → ℕ
file_of path =
    if eqb_bytes path (path_of (97 ∷ []) text_file.d_name)
    then 1
    else (if eqb_bytes path (path_of (46 ∷ 47 ∷ 97 ∷ []) text_file.d_name)
        then 1
        else (if eqb_bytes path (path_of (98 ∷ []) text_file.d_name) then 2 else 0))

-- File 1 holds three bytes.
abbrev one_file : Files
one_file f = if f == 1 then some (1 ∷ 2 ∷ 3 ∷ []) else none

abbrev always : List ℕ → Bool
always p = true

dot_is_passed : is_txt dot ≡ false
dot_is_passed = refl

text_file_is_taken : is_txt text_file ≡ true
text_file_is_taken = refl

abbrev file_after : Flipped → ℕ → Option (List ℕ)
file_after (Flipped.returned code files) f = files f
file_after Flipped.overrun f = none

copy_is_reversed :
    file_after (flip file_of always (97 ∷ []) (98 ∷ []) (some (dot ∷ text_file ∷ [])) one_file) 2
    ≡ some (3 ∷ 2 ∷ 1 ∷ [])
unfolding flip flip_entries copy_file reverse_copy copy_bytes copy_byte
copy_is_reversed = refl

-- From "a" to "./a".
alias_is_emptied :
    file_after
      (flip file_of always (97 ∷ []) (46 ∷ 47 ∷ 97 ∷ []) (some (dot ∷ text_file ∷ [])) one_file)
      1
    ≡ some []
unfolding flip flip_entries copy_file reverse_copy copy_bytes copy_byte
alias_is_emptied = refl

missing_directory :
    flip file_of always (97 ∷ []) (98 ∷ []) none one_file ≡ Flipped.returned 1 one_file
unfolding flip
missing_directory = refl

false_ne_true : false ≢ true
false_ne_true e = ground arith

only_text : (a : List ℕ) → IsTextName (dot ∷ text_file ∷ []) a → a ≡ text_file.d_name
only_text a (zero, e, at, txt, same) =
    let is_dot : dot ≡ e = cc in absurd (false_ne_true (ap is_txt is_dot ∙ txt))
only_text a (suc zero, e, at, txt, same) =
    let is_text : e ≡ text_file = cc in same ∙ ap (λ x. x.d_name) is_text
only_text a (suc (suc i), e, at, txt, same) = absurd (ground arith)

flip-apart_example :
    (files' : Files) × (flip file_of always
        (97 ∷ [])
        (98 ∷ [])
        (some (dot ∷ text_file ∷ []))
        one_file
      ≡ Flipped.returned 0 files')
    × IsFlipped file_of
        (98 ∷ [])
        (λ n. reverse (contents (one_file (file_of (path_of (97 ∷ []) n)))))
        (dot ∷ text_file ∷ [])
        one_file
        files'
flip-apart_example =
    flip-apart file_of always (97 ∷ []) (98 ∷ []) (dot ∷ text_file ∷ []) one_file (λ p. refl)
      (λ a b named_a named_b. rw (only_text a named_a, only_text b named_b) (λ e. omega arith))
      (λ a b named_a named_b e. only_text a named_a ∙ sym (only_text b named_b))
      ((λ txt. ground arith), ((λ txt. (omega arith, omega arith, (_, refl))), tt))

flip_in_place_example :
    (files' : Files) × (flip file_of always
        (97 ∷ [])
        (97 ∷ [])
        (some (dot ∷ text_file ∷ []))
        one_file
      ≡ Flipped.returned 0 files')
    × IsFlipped file_of (97 ∷ []) (λ n. []) (dot ∷ text_file ∷ []) one_file files'
flip_in_place_example =
    flip_in_place file_of always (97 ∷ []) (dot ∷ text_file ∷ []) one_file (λ p. refl)
      ((λ txt. ground arith), ((λ txt. (omega arith, omega arith, (_, refl))), tt))

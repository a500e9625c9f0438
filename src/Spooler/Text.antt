-- ===== src/Spooler/Text.antt =====
-- The C strings that cw8/client.c and cw8/printers.c move: arrays of bytes ended by a 0.
use systemy_operacyjne_agh.Prelude.{
  ℕ, zero, suc, ◌+◌, ◌%◌, ◌<◌, ◌≤◌, ◌≡◌, ◌≢◌, refl, ap, ◌∙◌, inl, inr, Option, none, some, List, [],
  ◌∷◌, ◌++◌, arith, ◌==◌, if◌then◌else◌, length, Bool-cases, Option-cases, length-append, ≢→==,
}
use mathlib.Core.Option

-- The bytes before the first 0.
unfoldable pub string : List ℕ → List ℕ
string [] = []
string (c ∷ s) = if c == 0 then [] else c ∷ string s

-- `strcpy(dst, src)`: `none` when it runs past the end of either array.
unfoldable pub strcpy : List ℕ → List ℕ → Option (List ℕ)
strcpy dst [] = none
strcpy [] (c ∷ src) = none
strcpy (d ∷ dst) (c ∷ src) =
    if c == 0 then some (0 ∷ dst) else Option.map (λ r. c ∷ r) (strcpy dst src)

-- `printf("%s", s)`: what is printed, or `none` when it reads past the end of the array.
unfoldable pub print_string : List ℕ → Option (List ℕ)
print_string [] = none
print_string (c ∷ s) = if c == 0 then some [] else Option.map (λ r. c ∷ r) (print_string s)

-- `for (i = 0; i < n; ++i) if (task[i] != '\0') printf("%c", task[i]); else break;`
unfoldable pub print_chars : ℕ → List ℕ → List ℕ
print_chars zero s = []
print_chars (suc n) [] = []
print_chars (suc n) (c ∷ s) = if c == 0 then [] else c ∷ print_chars n s

-- The random letters that a client writes from index `i` on; `rand k` is the k-th `rand()`.
unfoldable pub letters : (ℕ → ℕ) → ℕ → ℕ → List ℕ
letters rand zero i = []
letters rand (suc n) i = (b'a' + rand i % 26) ∷ letters rand n (i + 1)

-- `task` in client.c: ten letters, and at index 10 the byte `last`.
unfoldable pub make_task : (ℕ → ℕ) → ℕ → List ℕ
unfolding letters
make_task rand last = letters rand 10 0 ++ (last ∷ [])

-- A job as the ring holds it: eleven bytes, the last one the end of the string.
pub record IsTask (t : List ℕ) : Type 0 where
  pub size : length t ≡ 11
  pub chars : length (string t) ≡ 10

-- A copy that returns keeps the size of its target, and carries the string over.
pub strcpy_returns :
    (dst src : List ℕ) {row : List ℕ}
    → strcpy dst src ≡ some row
    → (length row ≡ length dst) × (string row ≡ string src)
unfolding strcpy string
strcpy_returns dst [] h = ground arith
strcpy_returns [] (c ∷ src) h = ground arith
strcpy_returns (d ∷ dst) (c ∷ src) h = elim (Option-cases (strcpy dst src)) [
  | inl e ↦ ground arith
  | inr (r, e) ↦ ground (arith, strcpy_returns dst src e)
]

-- A string that ends inside its array and fits in the target is copied.
pub strcpy-total :
    (dst src : List ℕ)
    → length (string src) < length src
    → length (string src) < length dst
    → (row : List ℕ) × (strcpy dst src ≡ some row)
unfolding strcpy string
strcpy-total dst [] h k = absurd (omega arith)
strcpy-total [] (c ∷ src) h k = absurd (omega arith)
strcpy-total (d ∷ dst) (c ∷ src) h k = elim (Bool-cases (c == 0)) [
  | inl e ↦ (0 ∷ dst, rw e)
  | inr e ↦
      let (row, r) = strcpy-total dst src (ground arith) (ground arith) in (c ∷ row, rw (e, r))
]

-- A string that fits in the count is printed whole.
pub print_chars-eq-string :
    (n : ℕ) (s : List ℕ) → length (string s) ≤ n → print_chars n s ≡ string s
unfolding print_chars string
print_chars-eq-string zero [] h = refl
print_chars-eq-string zero (c ∷ s) h = ground arith
print_chars-eq-string (suc n) [] h = refl
print_chars-eq-string (suc n) (c ∷ s) h = elim (Bool-cases (c == 0)) [
  | inl e ↦ rw e
  | inr e ↦ rw e (ap (λ r. c ∷ r) (print_chars-eq-string n s (ground arith)))
]

length-letters : (rand : ℕ → ℕ) (n i : ℕ) → length (letters rand n i) ≡ n
unfolding letters
length-letters rand zero i = refl
length-letters rand (suc n) i = ap suc (length-letters rand n (i + 1))

string-letters : (rand : ℕ → ℕ) (n i : ℕ) → string (letters rand n i ++ (0 ∷ [])) ≡ letters rand n i
unfolding letters string
string-letters rand zero i = refl
string-letters rand (suc n) i =
    rw (≢→== (b'a' + rand i % 26) 0 (omega arith))
      (ap (λ r. (b'a' + rand i % 26) ∷ r) (string-letters rand n (i + 1)))

pub string-make_task : (rand : ℕ → ℕ) → string (make_task rand 0) ≡ letters rand 10 0
unfolding make_task
string-make_task rand = string-letters rand 10 0

pub make_task-IsTask : (rand : ℕ → ℕ) → IsTask (make_task rand 0)
unfolding make_task
make_task-IsTask rand = record {
  size = omega (arith, length-append (letters rand 10 0) (0 ∷ []), length-letters rand 10 0);
  chars = ap length (string-letters rand 10 0) ∙ length-letters rand 10 0;
}

print_string-letters :
    (rand : ℕ → ℕ) (n i last : ℕ) → last ≢ 0 → print_string (letters rand n i ++ (last ∷ [])) ≡ none
unfolding letters print_string
print_string-letters rand zero i last h = rw (≢→== last 0 h)
print_string-letters rand (suc n) i last h =
    rw (≢→== (b'a' + rand i % 26) 0 (omega arith), print_string-letters rand n (i + 1) last h)

-- client.c prints `task` before it writes the end of the string: whatever the random letters, the
-- print reads past the array unless the uninitialised last byte happens to be 0.
pub print-make_task_overruns :
    (rand : ℕ → ℕ) (last : ℕ) → last ≢ 0 → print_string (make_task rand last) ≡ none
unfolding make_task
print-make_task_overruns rand last h = print_string-letters rand 10 0 last h

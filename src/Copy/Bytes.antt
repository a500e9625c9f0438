-- ===== src/Copy/Bytes.antt =====
-- `reverse_copy` of cw3/zad1.c and of cw3/DziwakNorbert-cw03/flipper.c.
use systemy_operacyjne_agh.Prelude.{
  ℕ, zero, suc, ◌+◌, ◌<◌, ◌≤◌, ◌≡◌, refl, sym, ap, ◌∙◌, List, [], ◌∷◌, ◌++◌, append-nil,
  append_assoc, arith, length, take, drop, get_or, reverse,
}
use mathlib.Core.List.{reverse-append}
use systemy_operacyjne_agh.Copy.Stream.{Stream, fseek_end, fseek_set, fread}

-- The body of the loop, at index `i`: `byte` is a buffer of one byte, and `receiver` what has been
-- written.
unfoldable pub copy_byte : Stream × List ℕ × List ℕ → ℕ → Stream × List ℕ × List ℕ
copy_byte (giver, byte, receiver) i =
    let (byte', giver') = fread byte 1 (fseek_set giver i) in
    (giver', byte', receiver ++ take 1 byte')

-- The loop from `i - 1` down to 0.
unfoldable pub copy_bytes : ℕ → Stream × List ℕ × List ℕ → Stream × List ℕ × List ℕ
copy_bytes zero s = s
copy_bytes (suc i) s = copy_bytes i (copy_byte s i)

-- What `receiver` holds at the end; `junk` is the first value of `byte`.
unfoldable pub reverse_copy : ℕ → Stream → List ℕ → List ℕ
unfolding copy_bytes copy_byte
reverse_copy junk giver receiver =
    let giver' = fseek_end giver in (copy_bytes giver'.position (giver', junk ∷ [], receiver)).2

take-suc :
    (i : ℕ) (xs : List ℕ) → i < length xs → take (suc i) xs ≡ take i xs ++ (get_or xs i 0 ∷ [])
take-suc i [] h = elim h [ ]
take-suc zero (x ∷ xs) h = refl
take-suc (suc i) (x ∷ xs) h = ap (λ r. x ∷ r) (take-suc i xs (omega arith))

take-drop-one : (i : ℕ) (xs : List ℕ) → i < length xs → take 1 (drop i xs) ≡ get_or xs i 0 ∷ []
take-drop-one i [] h = elim h [ ]
take-drop-one zero (x ∷ xs) h = refl
take-drop-one (suc i) (x ∷ xs) h = take-drop-one i xs (omega arith)

take_all : (xs : List ℕ) → take (length xs) xs ≡ xs
take_all [] = refl
take_all (x ∷ xs) = ap (λ r. x ∷ r) (take_all xs)

copy_byte_lem :
    (g : Stream) (byte out : List ℕ) (i : ℕ)
    → i < length g.bytes
    → copy_byte (g, byte, out) i ≡ (
      record g { position = i + 1 },
      get_or g.bytes i 0 ∷ drop 1 byte,
      out ++ (get_or g.bytes i 0 ∷ []),
    )
unfolding copy_byte
copy_byte_lem g byte out i h = rw (take-drop-one i (g.bytes) h)

copy_bytes_lem :
    (i : ℕ) (g : Stream) (byte out : List ℕ)
    → i ≤ length g.bytes
    → (copy_bytes i (g, byte, out)).2 ≡ out ++ reverse (take i g.bytes)
unfolding copy_bytes
copy_bytes_lem zero g byte out h = sym (append-nil out)
copy_bytes_lem (suc i) g byte out h =
    ap (λ t. (copy_bytes i t).2) (copy_byte_lem g byte out i h)
    ∙ copy_bytes_lem i (record g { position = i + 1 }) (get_or g.bytes i 0 ∷ drop 1 byte)
        (out ++ (get_or g.bytes i 0 ∷ [])) (omega arith)
    ∙ append_assoc out (get_or g.bytes i 0 ∷ []) (reverse (take i g.bytes))
    ∙ ap (λ r. out ++ r)
        (sym (reverse-append (take i g.bytes) (get_or g.bytes i 0 ∷ []))
          ∙ ap reverse (sym (take-suc i g.bytes h)))

-- `reverse_copy` appends the bytes of the giver in reverse order to the receiver, wherever the
-- giver's position was.
pub reverse_copy_lem :
    (junk : ℕ) (giver : Stream) (receiver : List ℕ)
    → reverse_copy junk giver receiver ≡ receiver ++ reverse giver.bytes
unfolding reverse_copy
reverse_copy_lem junk giver receiver =
    copy_bytes_lem (length giver.bytes) (fseek_end giver) (junk ∷ []) receiver (omega arith)
    ∙ ap (λ xs. receiver ++ reverse xs) (take_all giver.bytes)

-- ===== src/Copy/Rounds.antt =====
-- The loop of `reverse_copy_1024buffer` of cw3/zad1.c: what it has written after each round.
use systemy_operacyjne_agh.Prelude.{
  ℕ, zero, suc, ◌+◌, ◌-◌, ◌*◌, ◌/◌, ◌≤◌, ◌≡◌, refl, sym, ap, ap₂, ◌∙◌, none, List, [], ◌∷◌, ◌++◌,
  append_assoc, append-nil, arith, length, take, drop, reverse, length-append, length-take,
  length-drop, take-append-drop, min, le→leb,
}
use mathlib.Core.List.{reverse-append}
use mathlib.Core.Path.{subst}
use systemy_operacyjne_agh.Prelude.Int.{pos}
use systemy_operacyjne_agh.Copy.Stream.{Stream}
use systemy_operacyjne_agh.Copy.Blocks.{
  Copy, block_size, copy_of_size, copy_block, copy_blocks, copy_start, reverse_copy_1024buffer,
  rounds,
}
use systemy_operacyjne_agh.Copy.Swaps.{length-reverse_block, take-reverse_block}

block_size_cases : (l : ℕ) → block_size (pos l) ≡ min l 1024
block_size_cases l = ground arith

bytes_left-copy_block :
    (s : Copy) (l : ℕ) → s.bytes_left ≡ pos l → (copy_block s).bytes_left ≡ pos (l - min l 1024)
unfolding copy_block copy_of_size
bytes_left-copy_block s l e = ground arith

pub copy_blocks-none : (fuel l : ℕ) (s : Copy) → s.bytes_left ≡ pos l → copy_blocks fuel s ≡ none
unfolding copy_blocks
copy_blocks-none zero l s e = refl
copy_blocks-none (suc fuel) l s e =
    ground
      (arith, copy_blocks-none fuel (l - min l 1024) (copy_block s) (bytes_left-copy_block s l e))

-- With any fuel, from any file, the loop is still running when the fuel is used up: once
-- `bytesLeft` is 0 the block size is 0 and the test `bytesLeft >= 0` holds for ever.
pub reverse_copy_1024buffer_never_returns :
    (fuel : ℕ) (junk : List ℕ) (giver : Stream) (receiver : List ℕ)
    → reverse_copy_1024buffer fuel junk giver receiver ≡ none
unfolding reverse_copy_1024buffer
reverse_copy_1024buffer_never_returns fuel junk giver receiver = rw (
  copy_blocks-none fuel (length giver.bytes) (copy_start junk giver receiver) refl,
  reverse_copy_1024buffer,
)

-- With `l` bytes left, the bytes behind them are written in reverse order.
record Progress (xs out : List ℕ) (l : ℕ) (s : Copy) : Type 0 where
  bytes : s.giver.bytes ≡ xs
  position : s.giver.position ≡ l
  left : s.bytes_left ≡ pos l
  size : length s.buffer ≡ 1024
  written : s.receiver ≡ out ++ reverse (drop l xs)
  within : l ≤ length xs

take-nil : (n : ℕ) → take {A = ℕ} n [] ≡ []
take-nil zero = refl
take-nil (suc n) = refl

take-append-drop_at :
    (b n j : ℕ) (xs : List ℕ) → j ≡ n + b → take b (drop n xs) ++ drop j xs ≡ drop n xs
take-append-drop_at b zero j xs e =
    ap (λ m. take b xs ++ drop m xs) (omega arith) ∙ take-append-drop b xs
take-append-drop_at b (suc n) zero xs e = absurd (omega arith)
take-append-drop_at b (suc n) (suc j) [] e = rw (take-nil b)
take-append-drop_at b (suc n) (suc j) (x ∷ xs) e = take-append-drop_at b n j xs (omega arith)

take-append_of_length : (ys zs : List ℕ) → take (length ys) (ys ++ zs) ≡ ys
take-append_of_length [] zs = refl
take-append_of_length (y ∷ ys) zs = ap (λ r. y ∷ r) (take-append_of_length ys zs)

-- One round from `l` bytes left, with a block of `b`.
copy_of_size_lem :
    (xs buffer out : List ℕ) (l b : ℕ)
    → b ≤ l
    → b ≤ 1024
    → l ≤ length xs
    → length buffer ≡ 1024
    → let got = take b (drop (l - b) xs) in
      let s' = copy_of_size b (record {
        giver = record { bytes = xs; position = l };
        buffer = buffer;
        bytes_left = pos l;
        receiver = out;
      }) in
      (s'.giver ≡ record { bytes = xs; position = l - b })
      × (length s'.buffer ≡ 1024)
      × (s'.receiver ≡ out ++ reverse got)
unfolding copy_of_size
copy_of_size_lem xs buffer out l b le small within size =
    let got = take b (drop (l - b) xs) in
    let len : length got ≡ b =
      omega (arith, length-take b (drop (l - b) xs), length-drop (l - b) xs) in
    let full = got ++ drop (length got) buffer in
    rw (le→leb b l le) (
      ap (λ p. record { bytes = xs; position = p }) (ground (arith, len)),
      length-reverse_block b (b / 2) 0 full
          ∙ omega (
            arith,
            length-append got (drop (length got) buffer),
            length-drop (length got) buffer,
          ),
      ap (λ r. out ++ r)
          (take-reverse_block b full (omega (arith, length-append got (drop (length got) buffer)))
            ∙ ap reverse (
                ap (λ k. take k full) (sym len)
                ∙ take-append_of_length got (drop (length got) buffer))),
    )

-- The state at the start of a round, with its known parts written out.
same_step :
    (xs : List ℕ) {out : List ℕ} (l : ℕ) (s : Copy)
    → Progress xs out l s
    → copy_of_size (block_size s.bytes_left) s
      ≡ copy_of_size (min l 1024) (record {
        giver = record { bytes = xs; position = l };
        buffer = s.buffer;
        bytes_left = pos l;
        receiver = s.receiver;
      })
same_step xs l s p = ap₂ copy_of_size (ap block_size (p.left) ∙ block_size_cases l) (λ i. record {
  giver = record { bytes = p.bytes i; position = p.position i };
  buffer = s.buffer;
  bytes_left = p.left i;
  receiver = s.receiver;
})

copy_block-Progress :
    (xs out : List ℕ) (l : ℕ) (s : Copy)
    → Progress xs out l s
    → Progress xs out (l - min l 1024) (copy_block s)
unfolding copy_block
copy_block-Progress xs out l s p =
    let b = min l 1024 in
    let step =
      copy_of_size_lem xs s.buffer s.receiver l b (omega arith) (omega arith) (p.within) (p.size) in
    let same = same_step xs l s p in
    let got = take b (drop (l - b) xs) in
    record {
      bytes = ap (λ (t : Copy). t.giver.bytes) same ∙ ap (λ (g : Stream). g.bytes) step.0;
      position = ap (λ (t : Copy). t.giver.position) same ∙ ap (λ (g : Stream). g.position) step.0;
      left = unfold copy_block in bytes_left-copy_block s l (p.left);
      size = ap (λ (t : Copy). length t.buffer) same ∙ step.1;
      written =
          ap (λ (t : Copy). t.receiver) same
          ∙ step.2
          ∙ ap (λ r. r ++ reverse got) (p.written)
          ∙ append_assoc out (reverse (drop l xs)) (reverse got)
          ∙ ap (λ r. out ++ r)
              (sym (reverse-append got (drop l xs))
                ∙ ap reverse (take-append-drop_at b (l - b) l xs (omega arith)));
      within = omega (arith, p.within);
    }

rounds-Progress :
    (xs out : List ℕ) (n l : ℕ) (s : Copy)
    → Progress xs out l s
    → l ≤ 1024 * n
    → Progress xs out 0 (rounds n s)
unfolding rounds
rounds-Progress xs out zero l s p h = subst (λ k. Progress xs out k s) (omega arith) p
rounds-Progress xs out (suc n) l s p h =
    rounds-Progress xs out n (l - min l 1024) (copy_block s) (copy_block-Progress xs out l s p)
      (omega arith)

drop_all : (xs : List ℕ) → drop (length xs) xs ≡ []
drop_all [] = refl
drop_all (x ∷ xs) = drop_all xs

start-Progress :
    (junk out : List ℕ) (giver : Stream)
    → length junk ≡ 1024
    → Progress giver.bytes out (length giver.bytes) (copy_start junk giver out)
start-Progress junk out giver size = record {
  bytes = refl;
  position = refl;
  left = refl;
  size = size;
  written = sym (ap (λ r. out ++ reverse r) (drop_all giver.bytes) ∙ append-nil out);
  within = omega arith;
}

-- After as many rounds as the file has blocks of 1024 bytes, and after any more, the receiver holds
-- the bytes of the file in reverse order, and no bytes are left.
pub rounds_lem :
    (n : ℕ) (junk : List ℕ) (giver : Stream) (receiver : List ℕ)
    → length junk ≡ 1024
    → length giver.bytes ≤ 1024 * n
    → let s = rounds n (copy_start junk giver receiver) in
      (s.receiver ≡ receiver ++ reverse giver.bytes) × (s.bytes_left ≡ pos 0)
rounds_lem n junk giver receiver size h =
    let p =
      rounds-Progress giver.bytes receiver n (length giver.bytes) (copy_start junk giver receiver)
        (start-Progress junk receiver giver size) h in
    (p.written, p.left)

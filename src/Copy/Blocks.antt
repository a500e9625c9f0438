-- ===== src/Copy/Blocks.antt =====
-- `reverse_copy_1024buffer` of cw3/zad1.c.
use systemy_operacyjne_agh.Prelude.{
  ℕ, zero, suc, ◌+◌, ◌-◌, ◌/◌, not, Option, none, some, List, ◌++◌, get_or, set, take,
  if◌then◌else◌,
}
use systemy_operacyjne_agh.Prelude.Int.{ℤ, pos, pos_part, neg_part, sub_ℕ, ltb_ℤ}
use systemy_operacyjne_agh.Copy.Stream.{Stream, fseek_end, fseek_back, fread}

-- The body of the `for` loop: `buffer[i]` and `buffer[block_size - i - 1]` change places.
abbrev pub swap_ends : ℕ → ℕ → List ℕ → List ℕ
swap_ends block_size i buffer =
    let temp = get_or buffer i 0 in
    let buffer' = set buffer i (get_or buffer (block_size - i - 1) 0) in
    set buffer' (block_size - i - 1) temp

-- The `for` loop, with `n` rounds left.
unfoldable pub reverse_block : ℕ → ℕ → ℕ → List ℕ → List ℕ
reverse_block block_size zero i buffer = buffer
reverse_block block_size (suc n) i buffer =
    reverse_block block_size n (i + 1) (swap_ends block_size i buffer)

-- The variables of the function, and what has been written to `receiver`.
pub record Copy : Type 0 where
  pub giver : Stream
  pub buffer : List ℕ
  pub bytes_left : ℤ
  pub receiver : List ℕ

-- `blockSize`, for the value of `bytesLeft`.
abbrev pub block_size : ℤ → ℕ
block_size left = if not (ltb_ℤ left (pos 1024)) then 1024 else pos_part left

-- The body of the `while` loop after `blockSize` is set to `size`.
unfoldable pub copy_of_size : ℕ → Copy → Copy
copy_of_size size s =
    let (buffer, giver) = fread s.buffer size (fseek_back s.giver size) in
    let buffer' = reverse_block size (size / 2) 0 buffer in
    record {
      giver = fseek_back giver size;
      buffer = buffer';
      bytes_left = sub_ℕ (pos_part s.bytes_left) (neg_part s.bytes_left + size);
      receiver = s.receiver ++ take size buffer';
    }

-- The body of the `while` loop.
unfoldable pub copy_block : Copy → Copy
copy_block s = copy_of_size (block_size s.bytes_left) s

-- `while (bytesLeft >= 0)` on fuel: `none` when the fuel runs out before the loop ends.
unfoldable pub copy_blocks : ℕ → Copy → Option Copy
copy_blocks zero s = none
copy_blocks (suc fuel) s =
    let more = copy_blocks fuel (copy_block s) in
    if not (ltb_ℤ s.bytes_left (pos 0)) then more else some s

-- The state before the loop; `junk` is what the buffer holds at first.
abbrev pub copy_start : List ℕ → Stream → List ℕ → Copy
copy_start junk giver receiver =
    let giver' = fseek_end giver in
    record { giver = giver'; buffer = junk; bytes_left = pos giver'.position; receiver = receiver }

unfoldable pub reverse_copy_1024buffer : ℕ → List ℕ → Stream → List ℕ → Option (List ℕ)
reverse_copy_1024buffer fuel junk giver receiver =
    elim (copy_blocks fuel (copy_start junk giver receiver)) [
      | none ↦ none
      | some s ↦ some s.receiver
    ]

-- The state after `n` rounds of the loop.
unfoldable pub rounds : ℕ → Copy → Copy
rounds zero s = s
rounds (suc n) s = rounds n (copy_block s)

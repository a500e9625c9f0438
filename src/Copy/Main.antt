-- ===== src/Copy/Main.antt =====
-- `main` of cw3/zad1.c, on three different files.
use systemy_operacyjne_agh.Prelude.{
  ℕ, ◌*◌, ◌≤◌, ◌≡◌, refl, ap, ap₂, Bool, true, false, not, Option, none, some, List, [], length,
  reverse, if◌then◌else◌,
}
use systemy_operacyjne_agh.Copy.Stream.{Stream}
use systemy_operacyjne_agh.Copy.Bytes.{reverse_copy, reverse_copy_lem}
use systemy_operacyjne_agh.Copy.Blocks.{copy_start, copy_blocks, rounds}
use systemy_operacyjne_agh.Copy.Rounds.{rounds_lem, copy_blocks-none}

-- `main` has returned a code, is in `reverse_copy_1024buffer`, or has used a null pointer as a file;
-- with what has been written to the receivers by then.
pub data Main : Type 0 where
  returned : ℕ → Main
  copying : List ℕ → List ℕ → Main
  faulted : List ℕ → Main

-- Before the loops the stack holds `byte` and `buffer`. The giver is `none` if it cannot be opened,
-- and `n` rounds of the loop in `reverse_copy_1024buffer` are done. `receiver2` is never tested.
unfoldable pub main_copies : ℕ → List ℕ → Option (List ℕ) → Bool → Bool → ℕ → Main
main_copies byte buffer none receiver_opens receiver2_opens n = Main.returned 1
main_copies byte buffer (some bytes) receiver_opens receiver2_opens n =
    let giver : Stream = record { bytes = bytes; position = 0 } in
    let receiver = reverse_copy byte giver [] in
    if not receiver_opens
    then Main.returned 1
    else (if not receiver2_opens
        then Main.faulted receiver
        else elim (copy_blocks n (copy_start buffer giver [])) [
          | none ↦ Main.copying receiver (rounds n (copy_start buffer giver [])).receiver
          | some s ↦ Main.returned 0
        ])

-- If all files open, then after as many rounds as the giver has blocks of 1024 bytes, and after any
-- more, both receivers have been given its bytes in reverse order, and `main` is still copying. If the
-- second receiver cannot be opened, the first is written and the null pointer is then used.
pub main_copies_lem :
    (byte : ℕ) (buffer bytes : List ℕ) (n : ℕ)
    → length buffer ≡ 1024
    → length bytes ≤ 1024 * n
    → (main_copies byte buffer (some bytes) true true n
        ≡ Main.copying (reverse bytes) (reverse bytes))
      × (main_copies byte buffer (some bytes) true false n ≡ Main.faulted (reverse bytes))
unfolding main_copies
main_copies_lem byte buffer bytes n size enough =
    let giver : Stream = record { bytes = bytes; position = 0 } in
    let first = reverse_copy_lem byte giver [] in
    let (second, rest) = rounds_lem n buffer giver [] size enough in
    let runs = copy_blocks-none n (length bytes) (copy_start buffer giver []) refl in
    (rw (runs) (ap₂ Main.copying first second), ap Main.faulted first)

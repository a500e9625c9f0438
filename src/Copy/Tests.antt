-- ===== src/Copy/Tests.antt =====
-- The copies of cw3 on a short file.
use systemy_operacyjne_agh.Prelude.{
  ℕ, ◌≡◌, refl, true, false, some, List, [], ◌∷◌, ◌++◌, arith, replicate, length-replicate, reverse,
}
use systemy_operacyjne_agh.Prelude.Int.{pos}
use systemy_operacyjne_agh.Copy.Stream.{Stream}
use systemy_operacyjne_agh.Copy.Bytes.{reverse_copy}
use systemy_operacyjne_agh.Copy.Blocks.{copy_start, rounds, copy_block, copy_of_size, reverse_block}
use systemy_operacyjne_agh.Copy.Main.{Main, main_copies, main_copies_lem}
use systemy_operacyjne_agh.Copy.Rounds.{rounds_lem}

abbrev abc : Stream
abc = record { bytes = b'a' ∷ b'b' ∷ b'c' ∷ []; position = 1 }

abbrev zeros : List ℕ
zeros = replicate 1024 0

abc_reversed : reverse_copy 0 abc (b'-' ∷ []) ≡ b'-' ∷ b'c' ∷ b'b' ∷ b'a' ∷ []
unfolding reverse_copy
abc_reversed = refl

abc_block : (rounds 1 (copy_start zeros abc [])).receiver ≡ b'c' ∷ b'b' ∷ b'a' ∷ []
unfolding rounds copy_block copy_of_size reverse_block
abc_block = refl

rounds_lem_example :
    ((rounds 3 (copy_start zeros abc [])).receiver ≡ [] ++ reverse abc.bytes)
    × ((rounds 3 (copy_start zeros abc [])).bytes_left ≡ pos 0)
rounds_lem_example = rounds_lem 3 zeros abc [] (length-replicate {A = ℕ} 1024 0) (omega arith)

main_copies_lem_example :
    (main_copies 0 zeros (some abc.bytes) true true 4
      ≡ Main.copying (reverse abc.bytes) (reverse abc.bytes))
    × (main_copies 0 zeros (some abc.bytes) true false 4 ≡ Main.faulted (reverse abc.bytes))
main_copies_lem_example =
    main_copies_lem 0 zeros abc.bytes 4 (length-replicate {A = ℕ} 1024 0) (omega arith)

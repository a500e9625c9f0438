-- ===== src/SocketChat/Receiving.antt =====
-- The check of cw11/server.c, as cw11/client.c receives it.
use systemy_operacyjne_agh.Prelude.{
  ℕ, ◌+◌, ◌≡◌, ◌<◌, refl, ap, Bool, true, false, Option, some, List, [], ◌∷◌, ◌++◌, length,
  length-append, arith, inl, inr, Bool-cases, lt→ltb,
}
use systemy_operacyjne_agh.Prelude.CStrings.{IsText, c_string-IsText, eqb_bytes, eqb_bytes→≡}
use systemy_operacyjne_agh.SocketChat.Table.{buffer_size}
use systemy_operacyjne_agh.SocketChat.Client.{alive, Reply, receive_messages}

one_text :
    (bytes : List ℕ) (reply : Bool) (rounds : List (Option (List ℕ))) (replies : List Reply)
    → IsText bytes
    → 0 < length bytes
    → length bytes < buffer_size
    → eqb_bytes bytes alive ≡ reply
    → receive_messages (some bytes ∷ rounds) replies
      ≡ receive_messages rounds
          (replies ++ (elim reply [ true ↦ Reply.answered | false ↦ Reply.printed bytes ]) ∷ [])
unfolding receive_messages
one_text [] reply rounds replies is_text some_byte fits e = absurd (omega arith)
one_text (b ∷ bytes) true rounds replies is_text some_byte fits e =
    rw
      (
        receive_messages,
        c_string-IsText (b ∷ bytes) is_text,
        e,
        lt→ltb (length (b ∷ bytes)) buffer_size fits,
      )
      refl
one_text (b ∷ bytes) false rounds replies is_text some_byte fits e =
    rw
      (
        receive_messages,
        c_string-IsText (b ∷ bytes) is_text,
        e,
        lt→ltb (length (b ∷ bytes)) buffer_size fits,
      )
      refl

longer_than_alive :
    (before after : List ℕ)
    → 0 < length before + length after
    → eqb_bytes (before ++ (alive ++ after)) alive ≡ false
longer_than_alive before after more =
    elim (Bool-cases (eqb_bytes (before ++ (alive ++ after)) alive)) [
      | inl same ↦
          let size : length (before ++ (alive ++ after)) ≡ 5 =
            ap length (eqb_bytes→≡ (before ++ (alive ++ after)) alive same) in
          let sum : length (before ++ (alive ++ after)) ≡ length before + (5 + length after) =
            omega (arith, length-append before (alive ++ after), length-append alive after) in
          absurd (omega arith)
      | inr differs ↦ differs
    ]

-- A check that one `recv` brings alone is answered. One that comes together with bytes before or after
-- it, in a text shorter than the buffer, is printed with them and gets no answer.
pub merged_check_unanswered :
    (before after : List ℕ) (rounds : List (Option (List ℕ))) (replies : List Reply)
    → IsText (before ++ (alive ++ after))
    → 0 < length before + length after
    → length (before ++ (alive ++ after)) < buffer_size
    → (receive_messages (some alive ∷ rounds) replies
        ≡ receive_messages rounds (replies ++ Reply.answered ∷ []))
      × (receive_messages (some (before ++ (alive ++ after)) ∷ rounds) replies
          ≡ receive_messages rounds (replies ++ Reply.printed (before ++ (alive ++ after)) ∷ []))
unfolding receive_messages
merged_check_unanswered before after rounds replies is_text more fits = (
  refl,
  one_text (before ++ (alive ++ after)) false rounds replies is_text
      (omega (arith, length-append before (alive ++ after), length-append alive after)) fits
      (longer_than_alive before after more),
)

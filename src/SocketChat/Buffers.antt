-- ===== src/SocketChat/Buffers.antt =====
-- The tests and the buffer of `send_to_all` of cw11/server.c.
use systemy_operacyjne_agh.Prelude.{
  ℕ, ◌≡◌, ◌≢◌, ◌≤◌, refl, ap, ◌∙◌, le→ltb, Bool, true, false, not, ◌&&◌, Option, none, some, List,
  ◌∷◌, Bool-cases, inl, inr, arith, length, ltb,
}
use systemy_operacyjne_agh.Prelude.CStrings.{eqb_bytes, eqb_bytes→≡, eqb_bytes_refl}
use systemy_operacyjne_agh.SocketChat.Table.{ClientInfo, buffer_size, put, then_send}

-- The client is active and has another name than the sender.
abbrev pub IsReached : List ℕ → ClientInfo → Type 0
IsReached sender_name c = (c.active ≡ true) × (c.name ≢ sender_name)

-- The composed message has no room in the buffer.
abbrev pub IsTooLong : List ℕ → Type 0
IsTooLong text = buffer_size ≤ length text

pub reached :
    (sender_name : List ℕ) (c : ClientInfo)
    → (c.active && not (eqb_bytes c.name sender_name)) ≡ true
    → IsReached sender_name c
reached sender_name c h = (
  and_left c.active _ h,
  λ same. absurd (
      and_right c.active _ h (ap (λ n. eqb_bytes n sender_name) same ∙ eqb_bytes_refl sender_name)),
)
  where
    and_left : (a b : Bool) → (a && b) ≡ true → a ≡ true
    and_left true b h = refl
    and_left false b h = ground arith

    and_right : (a b : Bool) → (a && not b) ≡ true → b ≡ true → ⊥
    and_right a true h e = ground arith
    and_right a false h e = ground arith

pub test_reached :
    (sender_name : List ℕ) (c : ClientInfo)
    → IsReached sender_name c
    → (c.active && not (eqb_bytes c.name sender_name)) ≡ true
test_reached sender_name c (active, other) = elim (Bool-cases (eqb_bytes c.name sender_name)) [
  | inl same ↦ absurd (other (eqb_bytes→≡ c.name sender_name same))
  | inr differs ↦ rw (active, differs) refl
]

pub then_send-some :
    (fd : ℕ) (o : Option (List ℕ)) (r : Option (List (ℕ × List ℕ))) (l : List (ℕ × List ℕ))
    → then_send fd o r ≡ some l
    → (text : List ℕ) × (rest : List (ℕ × List ℕ)) × (o ≡ some text)
      × (r ≡ some rest)
      × (l ≡ (fd, text) ∷ rest)
then_send-some fd none r l e = ground arith
then_send-some fd (some text) none l e = ground arith
then_send-some fd (some text) (some rest) l e = (text, rest, refl, refl, cc)

pub put-some : (text out : List ℕ) → put text ≡ some out → out ≡ text
put-some text out e = elim (Bool-cases (ltb (length text) buffer_size)) [
  | inl fits ↦ let same = rw fits at e in cc
  | inr long ↦ let differs = rw long at e in ground arith
]

pub put-none : (text : List ℕ) → put text ≡ none → IsTooLong text
put-none text e = elim (Bool-cases (ltb (length text) buffer_size)) [
  | inl fits ↦ let differs = rw fits at e in ground arith
  | inr long ↦ ltb→le (length text) buffer_size long
]
  where
    ltb→le : (a b : ℕ) → ltb a b ≡ false → b ≤ a
    ltb→le a b h = ground arith

pub put-IsTooLong : (text : List ℕ) → IsTooLong text → put text ≡ none
put-IsTooLong text long = rw (le→ltb (length text) buffer_size long) refl

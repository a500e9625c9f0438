-- ===== src/SocketChat/Client.antt =====
-- cw11/client.c: the loop that types, the thread that receives, and the handler of SIGINT.
use systemy_operacyjne_agh.Prelude.{
  ℕ, zero, suc, Bool, not, ◌||◌, Option, none, some, List, [], ◌∷◌, ◌++◌, map, length, ltb, ◌==◌,
  if◌then◌else◌,
}
use systemy_operacyjne_agh.Prelude.CStrings.{c_string, eqb_bytes}
use systemy_operacyjne_agh.SocketChat.Table.{buffer_size}

-- `fgets(buffer, size, stdin)` on input that has not ended: bytes up to a newline, which is kept, at
-- most `n` of them; and the input that is left.
abbrev pub fgets : ℕ → List ℕ → List ℕ × List ℕ
fgets zero input = ([], input)
fgets (suc n) [] = ([], [])
fgets (suc n) (b ∷ input) =
    let rest : List ℕ × List ℕ = fgets n input in
    if b == 10 then (b ∷ [], input) else (b ∷ rest.0, rest.1)

-- `buffer[strcspn(buffer, "\n")] = 0`, as the string that is left.
abbrev pub before_newline : List ℕ → List ℕ
before_newline [] = []
before_newline (b ∷ text) = let rest = before_newline text in if b == 10 then [] else b ∷ rest

-- The string in the buffer after a round, and the input left. At the end of the input `fgets`
-- leaves the buffer as it is; `none` is a buffer that was never filled.
abbrev pub type_line : List ℕ → Option (List ℕ) → Option (List ℕ) × List ℕ
type_line [] buffer = (buffer, [])
type_line (b ∷ input) buffer =
    let (line, rest) = fgets 255 (b ∷ input) in (some (before_newline (c_string line)), rest)

abbrev pub and_send : List ℕ → Option (List (List ℕ)) → Option (List (List ℕ))
and_send text none = none
and_send text (some texts) = some (text ∷ texts)

-- `n` rounds of the loop in `main`: what `send_message` sends, `none` if the buffer was never filled.
unfoldable pub type_lines : ℕ → List ℕ → Option (List ℕ) → Option (List (List ℕ))
type_lines zero input buffer = some []
type_lines (suc n) input buffer =
    let (line, rest) = type_line input buffer in
    elim line [ none ↦ none | some text ↦ and_send text (type_lines n rest (some text)) ]

-- "STOP"
abbrev pub stop_text : List ℕ
stop_text = 83 ∷ 84 ∷ 79 ∷ 80 ∷ []

-- "ALIVE"
abbrev pub alive : List ℕ
alive = 65 ∷ 76 ∷ 73 ∷ 86 ∷ 69 ∷ []

-- What `main` does to the socket.
pub data Effect : Type 0 where
  sent : List ℕ → Effect
  closed : Effect

-- What can fail before the loop.
pub record Start : Type 0 where
  pub socket : Bool
  pub address : Bool
  pub connects : Bool

-- `main` in its loop, at its end with an exit code, or after a read of the unfilled buffer.
pub data Client : Type 0 where
  typing : List Effect → Client
  exited : ℕ → List Effect → Client
  undefined : Client

abbrev pub sigint_handler : List Effect → Client
sigint_handler done = Client.exited 0 (done ++ Effect.sent stop_text ∷ Effect.closed ∷ [])

-- `n` rounds are done, and then, if `interrupted`, the signal comes.
unfoldable pub main_client : Start → List ℕ → ℕ → List ℕ → Bool → Client
main_client start name n input interrupted =
    if not start.socket
    then Client.exited 1 []
    else (if not start.address || not start.connects
        then Client.exited 1 (Effect.closed ∷ [])
        else elim (type_lines n input none) [
          | none ↦ Client.undefined
          | some texts ↦
              let done = Effect.sent name ∷ map Effect.sent texts in
              if interrupted then sigint_handler done else Client.typing done
        ])

-- What the receiving thread does with what it received: it sends "ALIVE_response" or prints.
pub data Reply : Type 0 where
  answered : Reply
  printed : List ℕ → Reply

-- The thread is in `recv`, has ended, or has written past its buffer.
pub data Receiver : Type 0 where
  receiving : List Reply → Receiver
  ended : List Reply → Receiver
  overrun : List Reply → Receiver

-- What `recv` brings in each round: bytes, none of them when the server has closed, or -1.
unfoldable pub receive_messages : List (Option (List ℕ)) → List Reply → Receiver
receive_messages [] replies = Receiver.receiving replies
receive_messages (none ∷ rounds) replies = Receiver.ended replies
receive_messages (some [] ∷ rounds) replies = Receiver.ended replies
receive_messages (some (b ∷ bytes) ∷ rounds) replies =
    let text = c_string (b ∷ bytes) in
    let reply = if eqb_bytes text alive then Reply.answered else Reply.printed text in
    let rest : Receiver = receive_messages rounds (replies ++ reply ∷ []) in
    if ltb (length (b ∷ bytes)) buffer_size then rest else Receiver.overrun replies

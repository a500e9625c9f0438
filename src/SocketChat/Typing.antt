-- ===== src/SocketChat/Typing.antt =====
-- Lines typed at cw11/client.c, and what cw11/server.c reads.
use systemy_operacyjne_agh.Prelude.{
  ℕ, ◌+◌, ◌≡◌, ◌≢◌, ◌<◌, refl, ap, ap₂, ◌∙◌, Bool, true, false, not, ◌&&◌, Option, none, some, List,
  [], ◌∷◌, ◌++◌, map, length, length-append, arith, ◌==◌,
}
use systemy_operacyjne_agh.Prelude.CStrings.{IsText}
use systemy_operacyjne_agh.SocketChat.Command.{Command, is_space, all_prefix, one_prefix, parse}
use systemy_operacyjne_agh.SocketChat.Routing.{IsWord, parse-all_prefix, parse-one_prefix}
use systemy_operacyjne_agh.SocketChat.Client.{
  and_send, type_lines, stop_text, Effect, Start, Client, main_client,
}
use systemy_operacyjne_agh.SocketChat.Lines.{IsLine, type_line-line, typed_text, one_round}

-- The commands that a client means to give.
pub data Order : Type 0 where
  all : (message : List ℕ) → Order
  one : (b : ℕ) (word message : List ℕ) → Order

abbrev pub order_text : Order → List ℕ
order_text (Order.all message) = all_prefix ++ message
order_text (Order.one b word message) = one_prefix ++ (b ∷ word ++ 32 ∷ message)

abbrev pub order_command : Order → Command
order_command (Order.all message) = Command.to_all message
order_command (Order.one b word message) = Command.to_one (b ∷ word) message

-- The name is one word of at most 49 bytes, the message has no zero byte and no newline, and the line
-- is shorter than 255 bytes.
abbrev pub CanType : Order → Type 0
CanType (Order.all message) = IsLine message × (5 + length message < 255)
CanType (Order.one b word message) =
    IsWord (b ∷ word)
    × (length word < 49)
    × IsLine message
    × (7 + length word + length message < 255)

abbrev pub AllCanType : List Order → Type 0
AllCanType [] = Unit {0}
AllCanType (order ∷ orders) = CanType order × AllCanType orders

IsLine-IsText : (line : List ℕ) → IsLine line → IsText line
IsLine-IsText [] h = tt
IsLine-IsText (b ∷ line) (nonzero, other, h) = (nonzero, IsLine-IsText line h)

-- The test of `IsLine`.
abbrev is_line : List ℕ → Bool
is_line [] = true
is_line (b ∷ line) = let rest = is_line line in not (b == 0) && not (b == 10) && rest

is_line→IsLine : (line : List ℕ) → is_line line ≡ true → IsLine line
is_line→IsLine [] h = tt
is_line→IsLine (b ∷ line) h =
    ((λ e. ground arith), (λ e. ground arith), is_line→IsLine line (ground arith))

IsLine-append : (s t : List ℕ) → IsLine s → IsLine t → IsLine (s ++ t)
IsLine-append [] t hs ht = ht
IsLine-append (b ∷ s) t (nonzero, other, hs) ht = (nonzero, other, IsLine-append s t hs ht)

not_newline : (b : ℕ) → is_space b ≡ false → b ≢ 10
not_newline b solid = λ e. ground arith

IsWord-IsLine : (word : List ℕ) → IsWord word → IsLine word
IsWord-IsLine [] h = tt
IsWord-IsLine (b ∷ word) (nonzero, solid, h) = (nonzero, not_newline b solid, IsWord-IsLine word h)

order_IsLine : (order : Order) → CanType order → IsLine (order_text order)
order_IsLine (Order.all message) (h, short) =
    IsLine-append all_prefix message (is_line→IsLine all_prefix refl) h
order_IsLine (Order.one b word message) (is_word, short, h, fits) =
    IsLine-append one_prefix (b ∷ word ++ 32 ∷ message) (is_line→IsLine one_prefix refl) (
      IsLine-append (b ∷ word) (32 ∷ message) (IsWord-IsLine (b ∷ word) is_word)
        ((λ e. omega arith), (λ e. omega arith), h))

order_fits : (order : Order) → CanType order → length (order_text order) < 255
order_fits (Order.all message) (h, short) = omega arith
order_fits (Order.one b word message) (is_word, short, h, fits) =
    omega (arith, length-append word (32 ∷ message))

parse-order_text : (order : Order) → CanType order → parse (order_text order) ≡ order_command order
parse-order_text (Order.all message) (h, short) =
    parse-all_prefix message (IsLine-IsText message h) (omega arith)
parse-order_text (Order.one b word message) (is_word, short, h, fits) =
    parse-one_prefix b word message is_word short (IsLine-IsText message h) (omega arith)

lines_sent :
    (orders : List Order) (buffer : Option (List ℕ))
    → AllCanType orders
    → type_lines (length orders) (typed_text (map order_text orders)) buffer
      ≡ some (map order_text orders)
unfolding type_lines
lines_sent [] buffer h = refl
lines_sent (order ∷ orders) buffer (can, h) =
    one_round (length orders) (order_text order) (typed_text (map order_text orders))
      (typed_text (map order_text (order ∷ orders))) buffer
      (type_line-line (order_text order) (typed_text (map order_text orders)) buffer
        (order_IsLine order can) (order_fits order can))
    ∙ ap (and_send (order_text order)) (lines_sent orders (some (order_text order)) h)

texts_read :
    (orders : List Order)
    → AllCanType orders
    → map parse (map order_text orders) ≡ map order_command orders
texts_read [] h = refl
texts_read (order ∷ orders) (can, h) = ap₂ ◌∷◌ (parse-order_text order can) (texts_read orders h)

abbrev pub ready : Start
ready = record { socket = true; address = true; connects = true }

-- A client that connects, types orders and then gets the signal sends its name, one text for each
-- order and "STOP", closes the socket and exits with 0. If each `recv` of the server brings one of
-- these texts, it reads them as the orders that were meant, in order, and the last as the command
-- that ends the client. A name in an order is one word of at most 49 bytes, and each line is shorter
-- than 255 bytes.
pub session-parse :
    (name : List ℕ) (orders : List Order)
    → AllCanType orders
    → (texts : List (List ℕ)) × (main_client ready name
          (length orders)
          (typed_text (map order_text orders))
          true
        ≡ Client.exited 0 (
            (Effect.sent name ∷ map Effect.sent texts)
            ++ Effect.sent stop_text ∷ Effect.closed ∷ []))
      × (map parse texts ≡ map order_command orders)
      × (parse stop_text ≡ Command.stop_client)
unfolding main_client parse
session-parse name orders h = (
  map order_text orders,
  rw (main_client, lines_sent orders none h) refl,
  texts_read orders h,
  refl,
)

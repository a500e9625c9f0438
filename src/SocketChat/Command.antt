-- ===== src/SocketChat/Command.antt =====
-- The commands that `client_handler` of cw11/server.c reads.
use systemy_operacyjne_agh.Prelude.{
  ℕ, ◌+◌, Bool, true, false, ◌&&◌, ◌||◌, Option, none, some, List, [], ◌∷◌, length, drop, ltb, leb,
  ◌==◌, if◌then◌else◌,
}
use systemy_operacyjne_agh.Prelude.CStrings.{c_string}
use systemy_operacyjne_agh.SocketChat.Table.{buffer_size}

-- `undefined` stands for a write or a read outside an array, or of bytes never set.
pub data Command : Type 0 where
  to_all : List ℕ → Command
  to_one : List ℕ → List ℕ → Command
  list_clients : Command
  stop_client : Command
  other : Command
  undefined : Command

-- `strncmp(text, prefix, strlen(prefix)) == 0`
abbrev pub starts_with : List ℕ → List ℕ → Bool
starts_with text [] = true
starts_with [] (p ∷ prefix) = false
starts_with (b ∷ text) (p ∷ prefix) = let rest = starts_with text prefix in (b == p) && rest

-- `isspace`
abbrev pub is_space : ℕ → Bool
is_space b = (b == 32) || leb 9 b && leb b 13

abbrev pub skip_spaces : List ℕ → List ℕ
skip_spaces [] = []
skip_spaces (b ∷ text) = let rest = skip_spaces text in if is_space b then rest else b ∷ text

abbrev pub first_word : List ℕ → List ℕ
first_word [] = []
first_word (b ∷ text) = let rest = first_word text in if is_space b then [] else b ∷ rest

-- `sscanf(text, "%s", recipient_name)`: without a word nothing is set, and a word has to fit, with
-- its end, into 50 bytes.
abbrev pub scan_name : List ℕ → Option (List ℕ)
scan_name text = elim (first_word (skip_spaces text)) [
  | [] ↦ none
  | b ∷ word ↦ if ltb (length word) 49 then some (b ∷ word) else none
]

-- `buffer + 6 + strlen(recipient_name)`, which has to stand in the text or at its end.
abbrev pub to_recipient : List ℕ → Command
to_recipient text = elim (scan_name (drop 5 text)) [
  | none ↦ Command.undefined
  | some recipient_name ↦
      if leb (6 + length recipient_name) (length text)
      then Command.to_one recipient_name (drop (6 + length recipient_name) text)
      else Command.undefined
]

abbrev pub all_prefix : List ℕ
all_prefix = 50 ∷ 65 ∷ 76 ∷ 76 ∷ 32 ∷ []

abbrev pub one_prefix : List ℕ
one_prefix = 50 ∷ 79 ∷ 78 ∷ 69 ∷ 32 ∷ []

abbrev pub list_prefix : List ℕ
list_prefix = 76 ∷ 73 ∷ 83 ∷ 84 ∷ []

abbrev pub stop_prefix : List ℕ
stop_prefix = 83 ∷ 84 ∷ 79 ∷ 80 ∷ []

-- The tests, in their order, on the text in the buffer.
abbrev pub command_of : List ℕ → Command
command_of text =
    if starts_with text all_prefix
    then Command.to_all (drop 5 text)
    else (if starts_with text one_prefix
        then to_recipient text
        else (if starts_with text list_prefix
            then Command.list_clients
            else (if starts_with text stop_prefix then Command.stop_client else Command.other)))

-- What `recv` brought: the end is written after the bytes, and must fit into the buffer.
unfoldable pub parse : List ℕ → Command
parse bytes =
    if ltb (length bytes) buffer_size then command_of (c_string bytes) else Command.undefined

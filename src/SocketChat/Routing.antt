-- ===== src/SocketChat/Routing.antt =====
-- The texts that clients write, as cw11/server.c reads them.
use systemy_operacyjne_agh.Prelude.{
  ℕ, suc, ◌+◌, ◌≡◌, ◌≢◌, ◌<◌, refl, ap, ◌∙◌, false, some, List, [], ◌∷◌, ◌++◌, arith, length,
  length-append, drop, lt→ltb, le→leb,
}
use systemy_operacyjne_agh.Prelude.CStrings.{IsText, IsText-append, c_string-IsText}
use systemy_operacyjne_agh.SocketChat.Table.{buffer_size}
use systemy_operacyjne_agh.SocketChat.Command.{
  Command, is_space, first_word, scan_name, to_recipient, all_prefix, one_prefix, command_of, parse,
}

-- No byte is zero or white space.
abbrev pub IsWord : List ℕ → Type 0
IsWord [] = Unit {0}
IsWord (b ∷ word) = (b ≢ 0) × (is_space b ≡ false) × IsWord word

pub IsWord-IsText : (word : List ℕ) → IsWord word → IsText word
IsWord-IsText [] h = tt
IsWord-IsText (b ∷ word) (nonzero, solid, h) = (nonzero, IsWord-IsText word h)

pub one_prefix-IsText : IsText one_prefix
one_prefix-IsText = (
  (λ e. omega arith),
  ((λ e. omega arith), ((λ e. omega arith), ((λ e. omega arith), ((λ e. omega arith), tt)))),
)

first_word-append : (word text : List ℕ) → IsWord word → first_word (word ++ 32 ∷ text) ≡ word
first_word-append [] text h = refl
first_word-append (b ∷ word) text (nonzero, solid, h) =
    rw solid (ap (λ w. b ∷ w) (first_word-append word text h))

drop-append : (s t : List ℕ) → drop (suc (length s)) (s ++ 32 ∷ t) ≡ t
drop-append [] t = refl
drop-append (b ∷ s) t = drop-append s t

scan_name-append :
    (b : ℕ) (word text : List ℕ)
    → IsWord (b ∷ word)
    → length word < 49
    → scan_name (b ∷ word ++ 32 ∷ text) ≡ some (b ∷ word)
scan_name-append b word text (nonzero, solid, h) short =
    rw (scan_name, solid, solid, first_word-append word text h, lt→ltb (length word) 49 short) refl

pub parse-IsText :
    (text : List ℕ) → IsText text → length text < buffer_size → parse text ≡ command_of text
unfolding parse
parse-IsText text is_text fits =
    rw (parse, lt→ltb (length text) buffer_size fits, c_string-IsText text is_text) refl

pub all_prefix-IsText : IsText all_prefix
all_prefix-IsText = (
  (λ e. omega arith),
  ((λ e. omega arith), ((λ e. omega arith), ((λ e. omega arith), ((λ e. omega arith), tt)))),
)

pub parse-all_prefix :
    (message : List ℕ)
    → IsText message
    → 5 + length message < buffer_size
    → parse (all_prefix ++ message) ≡ Command.to_all message
parse-all_prefix message is_text fits =
    parse-IsText (all_prefix ++ message)
      (IsText-append all_prefix message all_prefix-IsText is_text) (omega arith)

pub parse-one_prefix :
    (b : ℕ) (word message : List ℕ)
    → IsWord (b ∷ word)
    → length word < 49
    → IsText message
    → 7 + length word + length message < buffer_size
    → parse (one_prefix ++ (b ∷ word ++ 32 ∷ message)) ≡ Command.to_one (b ∷ word) message
parse-one_prefix b word message is_word short is_text fits =
    let text = one_prefix ++ (b ∷ word ++ 32 ∷ message) in
    let size : length text ≡ 7 + length word + length message =
      omega (arith, length-append word (32 ∷ message)) in
    let whole : IsText text =
      IsText-append one_prefix (b ∷ word ++ 32 ∷ message) one_prefix-IsText (
        IsText-append (b ∷ word) (32 ∷ message) (IsWord-IsText (b ∷ word) is_word)
          ((λ e. omega arith), is_text)) in
    let after : 6 + length (b ∷ word) ≡ suc (suc (suc (suc (suc (suc (length (b ∷ word))))))) =
      omega arith in
    let rest : drop (6 + length (b ∷ word)) text ≡ message =
      ap (λ n. drop n text) after ∙ drop-append (b ∷ word) message in
    parse-IsText text whole (omega arith)
    ∙ rw
        (
          to_recipient,
          scan_name-append b word message is_word short,
          le→leb (6 + length (b ∷ word)) (length text) (omega arith),
          rest,
        )
        refl

-- What a client writes for a message to all, or to one by a name that is one word of at most 49
-- bytes, is read as that command, with the message and the name, if it is shorter than the buffer
-- and has no zero byte.
pub parse_lem :
    (b : ℕ) (word message : List ℕ)
    → IsWord (b ∷ word)
    → length word < 49
    → IsText message
    → 7 + length word + length message < buffer_size
    → (parse (all_prefix ++ message) ≡ Command.to_all message)
      × (parse (one_prefix ++ (b ∷ word ++ 32 ∷ message)) ≡ Command.to_one (b ∷ word) message)
parse_lem b word message is_word short is_text fits = (
  parse-all_prefix message is_text (omega arith),
  parse-one_prefix b word message is_word short is_text fits,
)

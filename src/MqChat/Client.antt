-- ===== src/MqChat/Client.antt =====
-- The two processes of cw7/client.c: the parent, which sends, and the child, which receives.
use systemy_operacyjne_agh.Prelude.{
  ℕ, Bool, Option, none, some, ◌&&◌, List, [], ◌∷◌, ◌++◌, length, leb, if◌then◌else◌,
}
use systemy_operacyjne_agh.Prelude.Int.{ℤ, negsuc}
use systemy_operacyjne_agh.MqChat.Message.{MessageType, Message}

-- `MAX_MESSAGE_SIZE`
abbrev pub max_message_size : ℕ
max_message_size = 4096

-- `msg`, with the name of the client's queue.
abbrev pub init_message : List ℕ → Message
init_message name = record { type = MessageType.init; client_id = negsuc 0; text = name }

-- `new_msg`
abbrev pub word_message : ℤ → List ℕ → Message
word_message client_id word = record {
  type = MessageType.message;
  client_id = client_id;
  text = word;
}

-- `end_msg`
abbrev pub stop_message : ℤ → Message
stop_message client_id = record { type = MessageType.stop; client_id = client_id; text = [] }

-- `scanf("%ms", &buffer)`: 1 and a word, 0, or -1 at the end of the input.
pub data Scan : Type 0 where
  word : List ℕ → Scan
  no_word : Scan
  end_of_input : Scan

-- One turn of the parent's loop: what `scanf` brings, whether the message can be sent, and whether
-- the signal has come by the end of the turn.
pub record Typed : Type 0 where
  pub scan : Scan
  pub sends : Bool
  pub interrupted : Bool

-- The messages that the parent has sent, when it waits for input, has ended, has exited after an
-- error, or has left an array or read through the null pointer.
pub data Sender : Type 0 where
  typing : List Message → Sender
  ended : List Message → Sender
  failed : List Message → Sender
  crashed : List Message → Sender

-- The end of `main`.
abbrev pub say_goodbye : ℤ → Bool → List Message → Sender
say_goodbye client_id sends msgs =
    if sends then Sender.ended (msgs ++ stop_message client_id ∷ []) else Sender.failed msgs

-- The parent's `while (flag)`; `end_sends` tells whether the last message can be sent.
unfoldable pub talk : ℤ → Bool → List Typed → List Message → Sender
talk client_id end_sends [] msgs = Sender.typing msgs
talk client_id end_sends (t ∷ turns) msgs =
    let go_on : List Message → Sender = λ sent.
      let rest : Sender = talk client_id end_sends turns sent in
      if t.interrupted then say_goodbye client_id end_sends sent else rest in
    elim t.scan [
      | Scan.word w ↦
          if leb (length w) max_message_size
          then (if t.sends
              then go_on (msgs ++ word_message client_id w ∷ [])
              else Sender.failed msgs)
          else Sender.crashed msgs
      | Scan.no_word ↦ go_on msgs
      | Scan.end_of_input ↦ Sender.crashed msgs
    ]

-- What can fail before the loops.
pub record Setup : Type 0 where
  pub own_queue : Bool
  pub server_queue : Bool
  pub init_sends : Bool
  pub pipe : Bool
  pub fork : Bool

-- The parent, given what it reads from the pipe.
unfoldable pub parent : Setup → List ℕ → ℤ → Bool → List Typed → Sender
parent setup name client_id end_sends turns =
    if setup.own_queue && setup.server_queue && setup.init_sends
    then (if setup.pipe && setup.fork
        then talk client_id end_sends turns (init_message name ∷ [])
        else Sender.failed (init_message name ∷ []))
    else Sender.failed []

-- What the child prints.
pub data Line : Type 0 where
  got_identifier : ℤ → Line
  got_message : ℤ → List ℕ → Line
  farewell : List ℕ → Line

-- What the child has written to the pipe, and what it has printed.
pub record Child : Type 0 where
  pub written : List ℤ
  pub printed : List Line

-- `switch(recive_msg.type)`
abbrev pub show : Message → Child → Child
show msg c = elim msg.type [
  | MessageType.init ↦ c
  | MessageType.identifier ↦ record {
    written = c.written ++ msg.client_id ∷ [];
    printed = c.printed ++ Line.got_identifier msg.client_id ∷ [];
  }
  | MessageType.message ↦ record c {
    printed = c.printed ++ Line.got_message msg.client_id msg.text ∷ [];
  }
  | MessageType.stop ↦ record c { printed = c.printed ++ Line.farewell msg.text ∷ [] }
]

-- The child's `while(flag)`, until the signal: what `mq_receive` brings in each turn, and whether
-- the signal has come by its end.
unfoldable pub child : List (Option Message × Bool) → Child → Child
child [] c = c
child ((received, interrupted) ∷ turns) c =
    let c' : Child = elim received [ none ↦ c | some msg ↦ show msg c ] in
    let rest : Child = child turns c' in if interrupted then c' else rest

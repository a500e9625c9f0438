-- ===== src/MqChat/Message.antt =====
-- The messages of cw7/messeage.h, and what the servers do with the queues, in order.
use systemy_operacyjne_agh.Prelude.{ℕ, List, [], ◌∷◌, Option}
use systemy_operacyjne_agh.Prelude.Int.{ℤ, pos}

pub data MessageType : Type 0 where
  init : MessageType
  identifier : MessageType
  message : MessageType
  stop : MessageType

-- `message_msg`: the text is the array's bytes, less the zeros at its end.
pub record Message : Type 0 where
  pub type : MessageType
  pub client_id : ℤ
  pub text : List ℕ

-- A queue that the server opened, a message that it handed to `mq_send`, a queue that it closed.
pub data Event : Type 0 where
  opened : ℕ → Event
  sent : ℕ → Message → Event
  closed : ℕ → Event

-- What the system answers while a message is handled: the descriptor of a queue, or `none` for
-- -1, and whether a message can be sent to a descriptor.
pub record System : Type 0 where
  pub mq_open : List ℕ → Option ℕ
  pub mq_send : ℕ → Message → Option ℕ

-- `rmsg_to_send`
abbrev pub identifier_message : ℕ → Message
identifier_message id = record { type = MessageType.identifier; client_id = pos id; text = [] }

abbrev pub goodbye : List ℕ
goodbye =
    68 ∷ 122 ∷ 105 ∷ 101 ∷ 107 ∷ 117 ∷ 106 ∷ 101 ∷ 109 ∷ 121 ∷ 32 ∷ 122 ∷ 97 ∷ 32 ∷ 115 ∷ 107 ∷ 111
    ∷ 114 ∷ 122 ∷ 121 ∷ 115 ∷ 116 ∷ 97 ∷ 110 ∷ 105 ∷ 101 ∷ 32 ∷ 122 ∷ 32 ∷ 110 ∷ 97 ∷ 115 ∷ 122
    ∷ 121 ∷ 99 ∷ 104 ∷ 32 ∷ 117 ∷ 115 ∷ 108 ∷ 117 ∷ 103 ∷ 44 ∷ 32 ∷ 100 ∷ 111 ∷ 32 ∷ 122 ∷ 111 ∷ 98
    ∷ 97 ∷ 99 ∷ 122 ∷ 101 ∷ 110 ∷ 105 ∷ 97 ∷ 33 ∷ []

-- `end_msg`
abbrev pub end_message : ℕ → Message
end_message id = record { type = MessageType.stop; client_id = pos id; text = goodbye }

-- ===== src/MqChat/LongType.antt =====
-- `message_msg` as the calls of System V see it: a `long`, then the text. Of the `long`, the enum
-- `message_type` is the low word and `client_id` the high one (cw7/messeage.h on a 64-bit machine).
use systemy_operacyjne_agh.Prelude.{
  ℕ, ◌+◌, ◌-◌, ◌*◌, ◌%◌, ◌^◌, ◌<◌, ◌≡◌, refl, Bool, true, false, List, arith, ltb, if◌then◌else◌,
}
use systemy_operacyjne_agh.Prelude.Int.{ℤ, pos, negsuc, ltb_ℤ}
use systemy_operacyjne_agh.MqChat.Message.{MessageType, Message, identifier_message}

abbrev pub type_code : MessageType → ℕ
type_code MessageType.init = 0
type_code MessageType.identifier = 1
type_code MessageType.message = 2
type_code MessageType.stop = 3

-- The 32 bits of an `int`.
unfoldable pub int_bits : ℤ → ℕ
int_bits (pos n) = n % 2 ^ 32
int_bits (negsuc n) = 2 ^ 32 - 1 - n % 2 ^ 32

-- 64 bits read as a `long`.
unfoldable pub long_of : ℕ → ℤ
long_of bits = if ltb bits (2 ^ 63) then pos bits else negsuc (2 ^ 64 - 1 - bits)

unfoldable pub mtype : Message → ℤ
mtype msg = long_of (type_code msg.type + 2 ^ 32 * int_bits msg.client_id)

-- `msgsnd` is documented to refuse a message whose type is not positive.
unfoldable pub sendable : Message → Bool
sendable msg = ltb_ℤ (pos 0) (mtype msg)

-- A type that is not INIT can be sent, whatever the number of the client.
pub sendable-code :
    (msg : Message) (id : ℕ)
    → msg.client_id ≡ pos id
    → 0 < type_code msg.type
    → type_code msg.type < 4
    → id < 2 ^ 31
    → sendable msg ≡ true
unfolding sendable mtype long_of int_bits
sendable-code msg id e low high lt = rw (e) (ground arith)

pub sendable-identifier_message : (id : ℕ) → id < 10 → sendable (identifier_message id) ≡ true
sendable-identifier_message id lt =
    sendable-code (identifier_message id) id refl (omega arith) (omega arith) (omega arith)

-- INIT with the number -1 cannot.
pub not_sendable-init :
    (text : List ℕ)
    → sendable (record { type = MessageType.init; client_id = negsuc 0; text = text }) ≡ false
unfolding sendable mtype long_of int_bits
not_sendable-init text = refl

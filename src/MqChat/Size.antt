-- ===== src/MqChat/Size.antt =====
-- The size of the table of clients in cw7/serverv.c.
use systemy_operacyjne_agh.Prelude.{
  ℕ, suc, ◌+◌, ◌<◌, ◌≡◌, refl, Option, none, some, List, [], ◌∷◌, arith, length, inl, inr,
  Option-cases, Bool-cases, length-set,
}
use systemy_operacyjne_agh.MqChat.Message.{
  MessageType, Message, System, identifier_message, end_message,
}
use systemy_operacyjne_agh.MqChat.Server.{Server, Result, find_free, client_at, index}
use systemy_operacyjne_agh.MqChat.ServerV.{
  handle_v, handle_init_v, handle_message_v, handle_stop_v, broadcast_v,
}

find_free-lt_from :
    (clients : List (Option ℕ)) (k id : ℕ) → find_free clients k ≡ some id → id < k + length clients
find_free-lt_from [] k id e = ground arith
find_free-lt_from (none ∷ clients) k id e = ground arith
find_free-lt_from (some d ∷ clients) k id e = omega (arith, find_free-lt_from clients (suc k) id e)

pub find_free-lt :
    (clients : List (Option ℕ)) (id : ℕ) → find_free clients 0 ≡ some id → id < length clients
find_free-lt clients id e = omega (arith, find_free-lt_from clients 0 id e)

-- A result whose table has as many entries as that of `s`.
abbrev pub SameSize : Server → Result → Type 0
SameSize s (Result.ok u) = length u.clients ≡ length s.clients
SameSize s (Result.exits u) = length u.clients ≡ length s.clients
SameSize s Result.fault = Unit {0}

size_init : (system : System) (msg : Message) (s : Server) → SameSize s (handle_init_v system msg s)
unfolding handle_init_v
size_init system msg s = elim (Option-cases (find_free s.clients 0)) [
  | inl none_free ↦ rw (handle_init_v, none_free) tt
  | inr (id, free) ↦ elim (Option-cases (system.mq_open msg.text)) [
    | inl refused ↦ rw (handle_init_v, free, refused) refl
    | inr (d, opens) ↦ elim (Option-cases (system.mq_send d (identifier_message id))) [
      | inl fails ↦ rw (handle_init_v, free, opens, fails) (length-set s.clients id (some d))
      | inr (n, sends) ↦ rw (handle_init_v, free, opens, sends) (length-set s.clients id (some d))
    ]
  ]
]

size_message :
    (system : System) (msg : Message) (s : Server) → SameSize s (handle_message_v system msg s)
unfolding handle_message_v
size_message system msg s = elim (Bool-cases ((broadcast_v system msg s.clients 0).1)) [
  | inl all ↦ rw (handle_message_v, all) refl
  | inr fails ↦ rw (handle_message_v, fails) refl
]

size_stop : (system : System) (msg : Message) (s : Server) → SameSize s (handle_stop_v system msg s)
unfolding handle_stop_v
size_stop system msg s = go (client_at s.clients msg.client_id) refl
  where
    go :
        (slot : Option (Option ℕ))
        → client_at s.clients msg.client_id ≡ slot
        → SameSize s (handle_stop_v system msg s)
    go none e = rw (handle_stop_v, e) tt
    go (some none) e = rw (handle_stop_v, e) refl
    go (some (some d)) e =
        elim (Option-cases (system.mq_send d (end_message (index msg.client_id)))) [
          | inl fails ↦ rw (handle_stop_v, e, fails) refl
          | inr (n, sends) ↦
              rw (handle_stop_v, e, sends) (length-set s.clients (index msg.client_id) none)
        ]

size_of_type :
    (system : System) (msg : Message) (s : Server) (t : MessageType)
    → msg.type ≡ t
    → SameSize s (handle_v system msg s)
unfolding handle_v
size_of_type system msg s MessageType.init e = rw (handle_v, e) (size_init system msg s)
size_of_type system msg s MessageType.identifier e = rw (handle_v, e) refl
size_of_type system msg s MessageType.message e = rw (handle_v, e) (size_message system msg s)
size_of_type system msg s MessageType.stop e = rw (handle_v, e) (size_stop system msg s)

pub handle_v-SameSize :
    (system : System) (msg : Message) (s : Server) → SameSize s (handle_v system msg s)
handle_v-SameSize system msg s = size_of_type system msg s msg.type refl

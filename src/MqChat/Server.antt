-- ===== src/MqChat/Server.antt =====
-- `main` of cw7/server.c: the table of clients, the three messages, the loop and its end.
use systemy_operacyjne_agh.Prelude.{
  ℕ, suc, Bool, not, Option, none, some, List, [], ◌∷◌, ◌++◌, get_elem?, set, replicate,
  if◌then◌else◌,
}
use systemy_operacyjne_agh.Prelude.Int.{ℤ, pos, negsuc, eqb_ℤ}
use systemy_operacyjne_agh.MqChat.Message.{
  MessageType, Message, Event, System, identifier_message, end_message,
}

-- `clients`, where `none` is -1, and what has been done with the queues so far.
pub record Server : Type 0 where
  pub clients : List (Option ℕ)
  pub log : List Event

abbrev pub server_start : Server
server_start = record { clients = replicate 10 none; log = [] }

-- `fault` is an access outside the table, or a use of the message before the first is received.
pub data Result : Type 0 where
  ok : Server → Result
  exits : Server → Result
  fault : Result

-- `while(clients[id] != -1) id++`, from the rest of the table; `none` if it leaves the table.
abbrev pub find_free : List (Option ℕ) → ℕ → Option ℕ
find_free [] id = none
find_free (none ∷ clients) id = some id
find_free (some d ∷ clients) id = find_free clients (suc id)

unfoldable pub handle_init : System → Message → Server → Result
handle_init system msg s = elim (find_free s.clients 0) [
  | none ↦ Result.fault
  | some id ↦ elim (system.mq_open msg.text) [
    | none ↦ Result.exits s
    | some d ↦ Result.ok (record s {
      clients = set s.clients id (some d);
      log = s.log ++ Event.opened d ∷ Event.sent d (identifier_message id) ∷ [];
    })
  ]
]

-- `for(int i = 0; i < 10; i++)` over the rest of the table, from the index `i`.
abbrev pub broadcast : Message → List (Option ℕ) → ℕ → List Event
broadcast msg [] i = []
broadcast msg (none ∷ clients) i = broadcast msg clients (suc i)
broadcast msg (some d ∷ clients) i =
    let rest = broadcast msg clients (suc i) in
    if not (eqb_ℤ (pos i) msg.client_id) then Event.sent d msg ∷ rest else rest

abbrev pub handle_message : Message → Server → Result
handle_message msg s = Result.ok (record s { log = s.log ++ broadcast msg s.clients 0 })

-- `clients[recive_msg.client_id]`
abbrev pub client_at : List (Option ℕ) → ℤ → Option (Option ℕ)
client_at clients (pos id) = get_elem? clients id
client_at clients (negsuc n) = none

abbrev pub index : ℤ → ℕ
index (pos id) = id
index (negsuc n) = 0

unfoldable pub handle_stop : System → Message → Server → Result
handle_stop system msg s = elim (client_at s.clients msg.client_id) [
  | none ↦ Result.fault
  | some none ↦ Result.ok s
  | some (some d) ↦
      let goodbye_message = end_message (index msg.client_id) in
      let log' = s.log ++ Event.sent d goodbye_message ∷ [] in
      elim (system.mq_send d goodbye_message) [
        | none ↦ Result.exits (record s { log = log' })
        | some n ↦ Result.ok (record s {
          clients = set s.clients (index msg.client_id) none;
          log = log' ++ Event.closed d ∷ [];
        })
      ]
]

-- `switch (recive_msg.type)`
unfoldable pub handle : System → Message → Server → Result
handle system msg s = elim msg.type [
  | MessageType.init ↦ handle_init system msg s
  | MessageType.identifier ↦ Result.ok s
  | MessageType.message ↦ handle_message msg s
  | MessageType.stop ↦ handle_stop system msg s
]

-- One turn of the loop: what `mq_receive` brings, `none` if it fails, what the system answers, and
-- whether the signal has come by the end of the turn.
pub record Turn : Type 0 where
  pub received : Option Message
  pub system : System
  pub interrupted : Bool

-- `mq_receive` leaves the message of the turn before if it fails.
abbrev pub receive : Option Message → Option Message → Option Message
receive none recive_msg = recive_msg
receive (some msg) recive_msg = some msg

-- The end of `main`: the queues that are still open are closed.
abbrev pub close_all : List (Option ℕ) → List Event
close_all [] = []
close_all (none ∷ clients) = close_all clients
close_all (some d ∷ clients) = Event.closed d ∷ close_all clients

-- `waiting` at `mq_receive`, or after `main`.
pub data Outcome : Type 0 where
  waiting : Option Message → Server → Outcome
  finished : Server → Outcome
  failed : Server → Outcome
  faulted : Outcome

unfoldable pub shutdown : Server → Server
shutdown s = record s { log = s.log ++ close_all s.clients }

-- `while(flag)`
unfoldable pub serve : List Turn → Option Message → Server → Outcome
serve [] recive_msg s = Outcome.waiting recive_msg s
serve (t ∷ turns) recive_msg s = elim (receive t.received recive_msg) [
  | none ↦ Outcome.faulted
  | some msg ↦ elim (handle t.system msg s) [
    | Result.fault ↦ Outcome.faulted
    | Result.exits s' ↦ Outcome.failed s'
    | Result.ok s' ↦
        let rest : Outcome = serve turns (some msg) s' in
        if t.interrupted then Outcome.finished (shutdown s') else rest
  ]
]

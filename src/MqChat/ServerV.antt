-- ===== src/MqChat/ServerV.antt =====
-- `main` of cw7/serverv.c, the server on System V queues, beside that of cw7/server.c.
use systemy_operacyjne_agh.Prelude.{
  ℕ, suc, ◌≡◌, Bool, true, false, not, Option, none, some, List, [], ◌∷◌, ◌++◌, set, if◌then◌else◌,
}
use systemy_operacyjne_agh.Prelude.Int.{pos, eqb_ℤ}
use systemy_operacyjne_agh.MqChat.Message.{
  MessageType, Message, Event, System, identifier_message, end_message,
}
use systemy_operacyjne_agh.MqChat.LongType.{sendable}
use systemy_operacyjne_agh.MqChat.Server.{
  Server, Result, find_free, client_at, index, Turn, Outcome,
}

-- `ftok` and `msgget` are `mq_open`, `msgsnd` is `mq_send`.
unfoldable pub handle_init_v : System → Message → Server → Result
handle_init_v system msg s = elim (find_free s.clients 0) [
  | none ↦ Result.fault
  | some id ↦ elim (system.mq_open msg.text) [
    | none ↦ Result.exits s
    | some d ↦
        let s' : Server = record s {
          clients = set s.clients id (some d);
          log = s.log ++ Event.opened d ∷ Event.sent d (identifier_message id) ∷ [];
        } in
        elim (system.mq_send d (identifier_message id)) [
          | none ↦ Result.exits s'
          | some n ↦ Result.ok s'
        ]
  ]
]

-- The `for` loop over the rest of the table: what was sent, and whether nothing failed.
unfoldable pub broadcast_v : System → Message → List (Option ℕ) → ℕ → List Event × Bool
broadcast_v system msg [] i = ([], true)
broadcast_v system msg (none ∷ clients) i = broadcast_v system msg clients (suc i)
broadcast_v system msg (some d ∷ clients) i =
    let (sends, sent_all) = broadcast_v system msg clients (suc i) in
    if not (eqb_ℤ (pos i) msg.client_id)
    then elim (system.mq_send d msg) [
      | none ↦ (Event.sent d msg ∷ [], false)
      | some n ↦ (Event.sent d msg ∷ sends, sent_all)
    ]
    else (sends, sent_all)

unfoldable pub handle_message_v : System → Message → Server → Result
handle_message_v system msg s =
    let (sends, sent_all) = broadcast_v system msg s.clients 0 in
    let s' : Server = record s { log = s.log ++ sends } in
    if sent_all then Result.ok s' else Result.exits s'

unfoldable pub handle_stop_v : System → Message → Server → Result
handle_stop_v system msg s = elim (client_at s.clients msg.client_id) [
  | none ↦ Result.fault
  | some none ↦ Result.ok s
  | some (some d) ↦
      let goodbye_message = end_message (index msg.client_id) in
      let log' = s.log ++ Event.sent d goodbye_message ∷ [] in
      elim (system.mq_send d goodbye_message) [
        | none ↦ Result.exits (record s { log = log' })
        | some n ↦
            Result.ok (record s { clients = set s.clients (index msg.client_id) none; log = log' })
      ]
]

-- `switch (recive_msg.type)`
unfoldable pub handle_v : System → Message → Server → Result
handle_v system msg s = elim msg.type [
  | MessageType.init ↦ handle_init_v system msg s
  | MessageType.identifier ↦ Result.ok s
  | MessageType.message ↦ handle_message_v system msg s
  | MessageType.stop ↦ handle_stop_v system msg s
]

-- `while (flag)`: the server exits when `msgrcv` fails; its own queue is all that it removes.
unfoldable pub serve_v : List Turn → Option Message → Server → Outcome
serve_v [] recive_msg s = Outcome.waiting recive_msg s
serve_v (t ∷ turns) recive_msg s = elim t.received [
  | none ↦ Outcome.failed s
  | some msg ↦ elim (handle_v t.system msg s) [
    | Result.fault ↦ Outcome.faulted
    | Result.exits s' ↦ Outcome.failed s'
    | Result.ok s' ↦
        let rest : Outcome = serve_v turns (some msg) s' in
        if t.interrupted then Outcome.finished s' else rest
  ]
]

-- What both servers do: all but the closing of queues.
abbrev pub forget : List Event → List Event
forget [] = []
forget (Event.opened d ∷ log) = Event.opened d ∷ forget log
forget (Event.sent d msg ∷ log) = Event.sent d msg ∷ forget log
forget (Event.closed d ∷ log) = forget log

abbrev pub forget_server : Server → Server
forget_server s = record s { log = forget s.log }

abbrev pub forget_result : Result → Result
forget_result (Result.ok s) = Result.ok (forget_server s)
forget_result (Result.exits s) = Result.exits (forget_server s)
forget_result Result.fault = Result.fault

-- Every send succeeds that `msgsnd` does not refuse for its type.
abbrev pub SendsSucceed : System → Type 0
SendsSucceed system =
    (d : ℕ) (msg : Message) → sendable msg ≡ true → (n : ℕ) × (system.mq_send d msg ≡ some n)

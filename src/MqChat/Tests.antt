-- ===== src/MqChat/Tests.antt =====
-- Runs of the message queue servers and instances of their theorems.
use systemy_operacyjne_agh.Prelude.{
  ℕ, ◌≡◌, refl, Bool, true, false, none, some, List, [], ◌∷◌, ◌++◌, length, replicate,
}
use systemy_operacyjne_agh.Prelude.Int.{pos}
use systemy_operacyjne_agh.MqChat.Message.{
  MessageType, Message, Event, System, identifier_message, end_message,
}
use systemy_operacyjne_agh.MqChat.Server.{
  Server, Result, server_start, handle_init, handle_stop, handle_message, handle, Turn, Outcome,
  shutdown, serve,
}
use systemy_operacyjne_agh.MqChat.Ledger.{AfterOutcome, every_queue_closed}
use systemy_operacyjne_agh.MqChat.Counts.{held}
use systemy_operacyjne_agh.MqChat.Routing.{
  deliveries, sent_to, OnlySends, handle_message_lem, interrupted_message_repeats,
}
use systemy_operacyjne_agh.MqChat.LongType.{sendable, mtype, long_of, int_bits}
use systemy_operacyjne_agh.MqChat.ClientV.{TypedV, SetupV, talk_v, parent_v, init_never_sent}
use systemy_operacyjne_agh.MqChat.ServerV.{serve_v}
use systemy_operacyjne_agh.MqChat.Refine.{forget_outcome, serve_v-serve}
use systemy_operacyjne_agh.MqChat.Client.{
  Scan, Sender, child, Line, init_message, word_message, stop_message,
}
use systemy_operacyjne_agh.MqChat.Session.{receiving, visit, words_sent}
use systemy_operacyjne_agh.MqChat.Counts.{same}

-- A system that opens every queue, under the length of its name, and sends every message.
abbrev willing : System
willing = record { mq_open = λ name. some (length name); mq_send = λ d msg. some 0 }

abbrev join : List ℕ → Message
join name = record { type = MessageType.init; client_id = pos 1; text = name }

abbrev hello : ℕ → Message
hello id = record { type = MessageType.message; client_id = pos id; text = 104 ∷ 105 ∷ [] }

abbrev leave : ℕ → Message
leave id = record { type = MessageType.stop; client_id = pos id; text = [] }

abbrev turn : Message → Bool → Turn
turn msg interrupted = record { received = some msg; system = willing; interrupted = interrupted }

abbrev session : List Turn
session =
    turn (join (47 ∷ [])) false
    ∷ turn (join (47 ∷ 98 ∷ [])) false
    ∷ turn (hello 0) false
    ∷ turn (leave 1) true
    ∷ []

abbrev two_clients : Server
two_clients = record { clients = some 1 ∷ some 2 ∷ replicate 8 none; log = [] }

session_ends :
    serve session none server_start
    ≡ Outcome.finished (record {
      clients = some 1 ∷ replicate 9 none;
      log =
          Event.opened 1
          ∷ Event.sent 1 (identifier_message 0)
          ∷ Event.opened 2
          ∷ Event.sent 2 (identifier_message 1)
          ∷ Event.sent 2 (hello 0)
          ∷ Event.sent 2 (end_message 1)
          ∷ Event.closed 2
          ∷ Event.closed 1
          ∷ [];
    })
unfolding serve handle handle_init handle_stop shutdown
session_ends = refl

stop_out_of_range : handle_stop willing (leave 10) two_clients ≡ Result.fault
unfolding handle_stop
stop_out_of_range = refl

every_queue_closed_example : AfterOutcome (serve session none server_start)
every_queue_closed_example = every_queue_closed session

handle_message_lem_example :
    (sends : List Event) × (handle_message (hello 0) two_clients
      ≡ Result.ok (record two_clients { log = sends }))
    × OnlySends (hello 0) sends
    × ((d : ℕ) → deliveries d sends ≡ held d (none ∷ some 2 ∷ replicate 8 none))
handle_message_lem_example = handle_message_lem (hello 0) two_clients

interrupted_message_repeats_example :
    (ended : Server) × (serve
        (record { received = some (hello 0); system = willing; interrupted = false }
          ∷ record { received = none; system = willing; interrupted = true }
          ∷ [])
        none
        two_clients
      ≡ Outcome.finished ended)
    × ((d : ℕ)
        → sent_to d ended.log
          ≡ replicate (held d (none ∷ some 2 ∷ replicate 8 none)) (hello 0)
            ++ replicate (held d (none ∷ some 2 ∷ replicate 8 none)) (hello 0))
interrupted_message_repeats_example =
    interrupted_message_repeats willing willing none (hello 0) two_clients refl

serve_v-serve_example :
    forget_outcome (serve_v session none server_start)
    ≡ forget_outcome (serve session none server_start)
unfolding sendable mtype long_of int_bits
serve_v-serve_example =
    serve_v-serve session none server_start server_start
      (
        (_, refl, refl),
        (λ d msg can. (0, refl)),
        (
          (_, refl, refl),
          (λ d msg can. (0, refl)),
          (
            (_, refl, refl),
            (λ d msg can. (0, refl)),
            ((_, refl, refl), (λ d msg can. (0, refl)), tt),
          ),
        ),
      )
      refl refl

visit_example :
    (s' : Server) × (serve
        (receiving willing (
            init_message (47 ∷ [])
            ∷ word_message (pos 2) (97 ∷ [])
            ∷ word_message (pos 2) (98 ∷ [])
            ∷ stop_message (pos 2)
            ∷ [])
          ++ session)
        none
        two_clients
      ≡ serve session (some (stop_message (pos 2))) s')
    × (s'.clients ≡ two_clients.clients)
    × ((c : ℕ)
        → sent_to c s'.log
          ≡ (replicate (same c 1) (identifier_message 2)
              ++ words_sent (held c two_clients.clients) (pos 2) ((97 ∷ []) ∷ (98 ∷ []) ∷ []))
            ++ replicate (same c 1) (end_message 2))
visit_example =
    visit willing (47 ∷ []) ((97 ∷ []) ∷ (98 ∷ []) ∷ []) session none two_clients 2 1 0 refl refl
      refl

child_shows :
    child
      ((some (identifier_message 2), false)
        ∷ (none, false)
        ∷ (some (hello 0), false)
        ∷ (some (end_message 2), true)
        ∷ [])
      (record { written = []; printed = [] })
    ≡ record {
      written = pos 2 ∷ [];
      printed =
          Line.got_identifier (pos 2)
          ∷ Line.got_message (pos 0) (104 ∷ 105 ∷ [])
          ∷ Line.farewell ((end_message 2).text)
          ∷ [];
    }
unfolding child
child_shows = refl

-- All is there, and every message of a positive type is taken.
abbrev all_well : SetupV
all_well = record {
  own_queue = true;
  server_queue = true;
  msgsnd = sendable;
  pipe = true;
  fork = true;
}

abbrev word_v : List ℕ → Bool → TypedV
word_v w interrupted = record { scan = Scan.word w; msgsnd = sendable; interrupted = interrupted }

init_never_sent_example :
    parent_v all_well (99 ∷ []) (pos 2) sendable (word_v (97 ∷ []) true ∷ []) ≡ Sender.failed []
init_never_sent_example =
    init_never_sent all_well (99 ∷ []) (pos 2) sendable (word_v (97 ∷ []) true ∷ []) (λ msg e. e)

-- What the System V client would send, had it joined.
would_send :
    talk_v (pos 2) sendable (word_v (97 ∷ []) false ∷ word_v (98 ∷ []) true ∷ []) []
    ≡ Sender.ended (
        word_message (pos 2) (97 ∷ []) ∷ word_message (pos 2) (98 ∷ []) ∷ stop_message (pos 2) ∷ [])
unfolding talk_v sendable mtype long_of int_bits
would_send = refl

-- ===== src/MqChat/Ledger.antt =====
-- The queues that cw7/server.c opens and closes: a ledger of descriptors.
use systemy_operacyjne_agh.Prelude.{
  ℕ, ◌+◌, ◌≡◌, refl, Option, none, some, List, [], ◌∷◌, ◌++◌, get_elem?, set, arith, inl, inr,
  Option-cases, Bool-cases,
}
use systemy_operacyjne_agh.Prelude.Int.{ℤ, pos, negsuc}
use systemy_operacyjne_agh.MqChat.Message.{MessageType, Message, Event, System, end_message}
use systemy_operacyjne_agh.MqChat.Server.{
  Server, Result, find_free, handle_init, handle_stop, handle, client_at, index, server_start,
  broadcast, Turn, receive, close_all, Outcome, shutdown, serve,
}
use systemy_operacyjne_agh.MqChat.Table.{first_free, get_elem?-IsFirstFree}
use systemy_operacyjne_agh.MqChat.Counts.{
  opens, closes, held, opens-append, closes-append, held-set-some, held-set-none, opens-broadcast,
  closes-broadcast, opens-close_all, closes-close_all,
}

-- Each descriptor was opened as often as it was closed or is in the table.
abbrev pub IsBalanced : Server → Type 0
IsBalanced s = (d : ℕ) → opens d s.log ≡ closes d s.log + held d s.clients

-- What holds after a message, and after a run.
abbrev AfterResult : Result → Type 0
AfterResult (Result.ok s) = IsBalanced s
AfterResult (Result.exits s) = IsBalanced s
AfterResult Result.fault = Unit {0}

handle_init-IsBalanced :
    (system : System) (msg : Message) (s : Server)
    → IsBalanced s
    → AfterResult (handle_init system msg s)
unfolding handle_init
handle_init-IsBalanced system msg s h = elim (Option-cases (find_free s.clients 0)) [
  | inl none_free ↦ rw (handle_init, none_free) tt
  | inr (id, free) ↦ elim (Option-cases (system.mq_open msg.text)) [
    | inl refused ↦ rw (handle_init, free, refused) h
    | inr (e, opened) ↦
        let slot = get_elem?-IsFirstFree s.clients id (first_free s.clients id free) in
        rw (handle_init, free, opened)
          (λ d. omega (
            arith,
            h d,
            held-set-some d e s.clients id slot,
            opens-append d s.log _,
            closes-append d s.log _,
          ))
  ]
]

client_at-index :
    (clients : List (Option ℕ)) (id : ℤ) {slot : Option ℕ}
    → client_at clients id ≡ some slot
    → get_elem? clients (index id) ≡ some slot
client_at-index clients (pos i) e = e
client_at-index clients (negsuc n) e = ground arith

close_slot :
    (l : List Event) (m : Message) (d : ℕ) (clients : List (Option ℕ)) (j : ℕ)
    → get_elem? clients j ≡ some (some d)
    → IsBalanced (record { clients = clients; log = l })
    → IsBalanced (record {
      clients = set clients j none;
      log = (l ++ Event.sent d m ∷ []) ++ Event.closed d ∷ [];
    })
close_slot l m d clients j slot h c = omega (
  arith,
  h c,
  held-set-none c d clients j slot,
  opens-append c l (Event.sent d m ∷ []),
  closes-append c l (Event.sent d m ∷ []),
  opens-append c (l ++ Event.sent d m ∷ []) (Event.closed d ∷ []),
  closes-append c (l ++ Event.sent d m ∷ []) (Event.closed d ∷ []),
)

handle_stop-IsBalanced :
    (system : System) (msg : Message) (s : Server)
    → IsBalanced s
    → AfterResult (handle_stop system msg s)
unfolding handle_stop
handle_stop-IsBalanced system msg s h = go (client_at s.clients msg.client_id) refl
  where
    go :
        (slot : Option (Option ℕ))
        → client_at s.clients msg.client_id ≡ slot
        → AfterResult (handle_stop system msg s)
    go none e = rw (handle_stop, e) tt
    go (some none) e = rw (handle_stop, e) h
    go (some (some d)) e =
        elim (Option-cases (system.mq_send d (end_message (index msg.client_id)))) [
          | inl refused ↦
              rw (handle_stop, e, refused)
                (λ c. omega (arith, h c, opens-append c s.log _, closes-append c s.log _))
          | inr (n, sends) ↦
              rw (handle_stop, e, sends)
                (close_slot s.log (end_message (index msg.client_id)) d s.clients
                  (index msg.client_id) (client_at-index s.clients msg.client_id e) h)
        ]

handle_as :
    (system : System) (msg : Message) (s : Server) (t : MessageType)
    → msg.type ≡ t
    → IsBalanced s
    → AfterResult (handle system msg s)
unfolding handle
handle_as system msg s MessageType.init e h = rw (handle, e) (handle_init-IsBalanced system msg s h)
handle_as system msg s MessageType.identifier e h = rw (handle, e) h
handle_as system msg s MessageType.message e h =
    rw (handle, e)
      (λ d. omega (
        arith,
        h d,
        opens-append d s.log (broadcast msg s.clients 0),
        closes-append d s.log (broadcast msg s.clients 0),
        opens-broadcast d msg s.clients 0,
        closes-broadcast d msg s.clients 0,
      ))
handle_as system msg s MessageType.stop e h = rw (handle, e) (handle_stop-IsBalanced system msg s h)

abbrev pub AfterOutcome : Outcome → Type 0
AfterOutcome (Outcome.waiting msg s) = IsBalanced s
AfterOutcome (Outcome.finished s) = (d : ℕ) → opens d s.log ≡ closes d s.log
AfterOutcome (Outcome.failed s) = IsBalanced s
AfterOutcome Outcome.faulted = Unit {0}

shutdown_lem :
    (s : Server) → IsBalanced s → (d : ℕ) → opens d ((shutdown s).log) ≡ closes d ((shutdown s).log)
unfolding shutdown
shutdown_lem s h d = omega (
  arith,
  h d,
  opens-append d s.log (close_all s.clients),
  closes-append d s.log (close_all s.clients),
  opens-close_all d s.clients,
  closes-close_all d s.clients,
)

-- One turn, for any proof about the rest of the turns.
turn-IsBalanced :
    (t : Turn) (turns : List Turn) (recive_msg : Option Message) (msg : Message) (s : Server)
    (r : Result)
    → ((s' : Server) → IsBalanced s' → AfterOutcome (serve turns (some msg) s'))
    → receive t.received recive_msg ≡ some msg
    → handle t.system msg s ≡ r
    → AfterResult r
    → AfterOutcome (serve (t ∷ turns) recive_msg s)
unfolding serve
turn-IsBalanced t turns recive_msg msg s Result.fault next e at after = rw (serve, e, at) tt
turn-IsBalanced t turns recive_msg msg s (Result.exits s') next e at after = rw (serve, e, at) after
turn-IsBalanced t turns recive_msg msg s (Result.ok s') next e at after =
    elim (Bool-cases t.interrupted) [
      | inl stops ↦ rw (serve, e, at, stops) (shutdown_lem s' after)
      | inr goes_on ↦ rw (serve, e, at, goes_on) (next s' after)
    ]

serve-IsBalanced :
    (turns : List Turn) (recive_msg : Option Message) (s : Server)
    → IsBalanced s
    → AfterOutcome (serve turns recive_msg s)
unfolding serve
serve-IsBalanced [] recive_msg s h = h
serve-IsBalanced (t ∷ turns) recive_msg s h = elim (Option-cases (receive t.received recive_msg)) [
  | inl none_left ↦ rw (serve, none_left) tt
  | inr (msg, e) ↦
      turn-IsBalanced t turns recive_msg msg s (handle t.system msg s)
        (λ s' h'. serve-IsBalanced turns (some msg) s' h') e refl
        (handle_as t.system msg s msg.type refl h)
]

-- However the server runs from its start, each descriptor has been opened as often as it has been
-- closed or is held by a slot of the table, also when it exits after an error; and when it ends
-- after the signal, each has been closed as often as it was opened.
pub every_queue_closed : (turns : List Turn) → AfterOutcome (serve turns none server_start)
every_queue_closed turns = serve-IsBalanced turns none server_start (λ d. refl)

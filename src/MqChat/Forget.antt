-- ===== src/MqChat/Forget.antt =====
-- The messages as cw7/serverv.c and cw7/server.c handle them, but for the closing of queues.
use systemy_operacyjne_agh.Prelude.{
  ℕ, suc, ◌≡◌, refl, sym, ap, ◌∙◌, true, not, Option, none, some, List, [], ◌∷◌, ◌++◌, set, inl,
  inr, Option-cases, Bool-cases, append-nil, length, arith,
}
use systemy_operacyjne_agh.Prelude.Int.{pos, eqb_ℤ}
use systemy_operacyjne_agh.MqChat.Message.{Message, Event, System, identifier_message, end_message}
use systemy_operacyjne_agh.MqChat.Server.{
  Server, Result, find_free, client_at, index, handle_init, handle_stop, handle_message, broadcast,
}
use systemy_operacyjne_agh.MqChat.LongType.{sendable, sendable-identifier_message}
use systemy_operacyjne_agh.MqChat.Size.{find_free-lt}
use systemy_operacyjne_agh.MqChat.ServerV.{
  handle_init_v, broadcast_v, handle_message_v, handle_stop_v, forget, forget_server, forget_result,
  SendsSucceed,
}

pub forget-append : (l m : List Event) → forget (l ++ m) ≡ forget l ++ forget m
forget-append [] m = refl
forget-append (Event.opened d ∷ l) m = ap (λ x. Event.opened d ∷ x) (forget-append l m)
forget-append (Event.sent d msg ∷ l) m = ap (λ x. Event.sent d msg ∷ x) (forget-append l m)
forget-append (Event.closed d ∷ l) m = forget-append l m

pub forget-forget : (l : List Event) → forget (forget l) ≡ forget l
forget-forget [] = refl
forget-forget (Event.opened d ∷ l) = ap (λ x. Event.opened d ∷ x) (forget-forget l)
forget-forget (Event.sent d msg ∷ l) = ap (λ x. Event.sent d msg ∷ x) (forget-forget l)
forget-forget (Event.closed d ∷ l) = forget-forget l

broadcast_v-broadcast :
    (system : System) (msg : Message) (clients : List (Option ℕ)) (i : ℕ)
    → SendsSucceed system
    → sendable msg ≡ true
    → broadcast_v system msg clients i ≡ (broadcast msg clients i, true)
unfolding broadcast_v
broadcast_v-broadcast system msg [] i h can = refl
broadcast_v-broadcast system msg (none ∷ clients) i h can =
    broadcast_v-broadcast system msg clients (suc i) h can
broadcast_v-broadcast system msg (some d ∷ clients) i h can =
    let (n, sends) = h d msg can in
    elim (Bool-cases (not (eqb_ℤ (pos i) msg.client_id))) [
      | inl other ↦
          rw (other, sends)
            (ap (λ p. (Event.sent d msg ∷ p.0, p.1))
              (broadcast_v-broadcast system msg clients (suc i) h can))
      | inr own ↦ rw own (broadcast_v-broadcast system msg clients (suc i) h can)
    ]

pub same_init :
    (system : System) (msg : Message) (s : Server)
    → SendsSucceed system
    → length s.clients ≡ 10
    → handle_init_v system msg s ≡ handle_init system msg s
unfolding handle_init_v handle_init
same_init system msg s h size = elim (Option-cases (find_free s.clients 0)) [
  | inl none_free ↦ rw (handle_init, handle_init_v, none_free) refl
  | inr (id, free) ↦ elim (Option-cases (system.mq_open msg.text)) [
    | inl refused ↦ rw (handle_init, handle_init_v, free, refused) refl
    | inr (d, opens) ↦
        let (n, sends) =
          h d (identifier_message id)
            (sendable-identifier_message id (omega (arith, find_free-lt s.clients id free))) in
        rw (handle_init, handle_init_v, free, opens, sends) refl
  ]
]

pub same_message :
    (system : System) (msg : Message) (s : Server)
    → SendsSucceed system
    → sendable msg ≡ true
    → handle_message_v system msg s ≡ handle_message msg s
unfolding handle_message_v
same_message system msg s h can = rw (broadcast_v-broadcast system msg s.clients 0 h can) refl

forget-sent :
    (l : List Event) (d : ℕ) (msg : Message)
    → forget (l ++ Event.sent d msg ∷ [])
      ≡ forget ((l ++ Event.sent d msg ∷ []) ++ Event.closed d ∷ [])
forget-sent l d msg =
    sym (forget-append (l ++ Event.sent d msg ∷ []) (Event.closed d ∷ []) ∙ append-nil _)

pub same_stop :
    (system : System) (msg : Message) (s : Server)
    → forget_result (handle_stop_v system msg s) ≡ forget_result (handle_stop system msg s)
unfolding handle_stop_v handle_stop
same_stop system msg s = go (client_at s.clients msg.client_id) refl
  where
    go :
        (slot : Option (Option ℕ))
        → client_at s.clients msg.client_id ≡ slot
        → forget_result (handle_stop_v system msg s) ≡ forget_result (handle_stop system msg s)
    go none e = rw (handle_stop, handle_stop_v, e) refl
    go (some none) e = rw (handle_stop, handle_stop_v, e) refl
    go (some (some d)) e =
        elim (Option-cases (system.mq_send d (end_message (index msg.client_id)))) [
          | inl refused ↦ rw (handle_stop, handle_stop_v, e, refused) refl
          | inr (n, sends) ↦
              rw (handle_stop, handle_stop_v, e, sends)
                (ap
                  (λ l.
                    Result.ok
                      (record { clients = set s.clients (index msg.client_id) none; log = l }))
                  (forget-sent s.log d (end_message (index msg.client_id))))
        ]

-- What is done to the log depends on the table alone.
pub forget-again : (l m : List Event) → forget (forget l ++ m) ≡ forget (l ++ m)
forget-again l m =
    forget-append (forget l) m ∙ ap (λ k. k ++ forget m) (forget-forget l) ∙ sym (forget-append l m)

pub forgets_init :
    (system : System) (msg : Message) (s : Server)
    → forget_result (handle_init system msg (forget_server s))
      ≡ forget_result (handle_init system msg s)
unfolding handle_init
forgets_init system msg s = elim (Option-cases (find_free s.clients 0)) [
  | inl none_free ↦ rw (handle_init, none_free) refl
  | inr (id, free) ↦ elim (Option-cases (system.mq_open msg.text)) [
    | inl refused ↦
        rw (handle_init, free, refused)
          (ap (λ l. Result.exits (record { clients = s.clients; log = l })) (forget-forget s.log))
    | inr (d, opens) ↦
        rw (handle_init, free, opens)
          (ap (λ l. Result.ok (record { clients = set s.clients id (some d); log = l }))
            (forget-again s.log (Event.opened d ∷ Event.sent d (identifier_message id) ∷ [])))
  ]
]

pub forgets_stop :
    (system : System) (msg : Message) (s : Server)
    → forget_result (handle_stop system msg (forget_server s))
      ≡ forget_result (handle_stop system msg s)
unfolding handle_stop
forgets_stop system msg s = go (client_at s.clients msg.client_id) refl
  where
    go :
        (slot : Option (Option ℕ))
        → client_at s.clients msg.client_id ≡ slot
        → forget_result (handle_stop system msg (forget_server s))
          ≡ forget_result (handle_stop system msg s)
    go none e = rw (handle_stop, e) refl
    go (some none) e =
        rw (handle_stop, e)
          (ap (λ l. Result.ok (record { clients = s.clients; log = l })) (forget-forget s.log))
    go (some (some d)) e =
        elim (Option-cases (system.mq_send d (end_message (index msg.client_id)))) [
          | inl refused ↦
              rw (handle_stop, e, refused)
                (ap (λ l. Result.exits (record { clients = s.clients; log = l }))
                  (forget-again s.log (Event.sent d (end_message (index msg.client_id)) ∷ [])))
          | inr (n, sends) ↦
              rw (handle_stop, e, sends)
                (ap
                  (λ l.
                    Result.ok
                      (record { clients = set s.clients (index msg.client_id) none; log = l }))
                  (sym (forget-sent (forget s.log) d (end_message (index msg.client_id)))
                    ∙ forget-again s.log (Event.sent d (end_message (index msg.client_id)) ∷ [])
                    ∙ forget-sent s.log d (end_message (index msg.client_id))))
        ]

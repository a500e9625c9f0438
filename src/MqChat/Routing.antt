-- ===== src/MqChat/Routing.antt =====
-- Where the messages go that cw7/server.c passes on.
use systemy_operacyjne_agh.Prelude.{
  ℕ, zero, suc, ◌+◌, ◌≤◌, ◌≡◌, refl, ap, ◌∙◌, true, false, not, Option, none, some, List, [], ◌∷◌,
  ◌++◌, set, arith, inl, inr, Bool-cases, sym, ap₂, replicate, append_assoc, append-nil,
}
use systemy_operacyjne_agh.Prelude.Int.{ℤ, pos, negsuc, eqb_ℤ}
use systemy_operacyjne_agh.MqChat.Message.{MessageType, Message, Event, System}
use systemy_operacyjne_agh.MqChat.Server.{
  Server, Result, handle_message, handle, broadcast, close_all, Outcome, shutdown, serve,
}
use systemy_operacyjne_agh.MqChat.Counts.{same, held}

-- How many messages were sent to the descriptor.
abbrev pub deliveries : ℕ → List Event → ℕ
deliveries d [] = 0
deliveries d (Event.opened e ∷ log) = deliveries d log
deliveries d (Event.sent e msg ∷ log) = same d e + deliveries d log
deliveries d (Event.closed e ∷ log) = deliveries d log

-- All that was done was to send this message.
abbrev pub OnlySends : Message → List Event → Type 0
OnlySends msg [] = Unit {0}
OnlySends msg (Event.opened e ∷ log) = ⊥
OnlySends msg (Event.sent e m ∷ log) = (m ≡ msg) × OnlySends msg log
OnlySends msg (Event.closed e ∷ log) = ⊥

-- The table without the slot of the sender, if there is such a slot.
abbrev pub without : List (Option ℕ) → ℤ → List (Option ℕ)
without clients (pos id) = set clients id none
without clients (negsuc n) = clients

pub deliveries-append :
    (d : ℕ) (l m : List Event) → deliveries d (l ++ m) ≡ deliveries d l + deliveries d m
deliveries-append d [] m = omega arith
deliveries-append d (Event.opened e ∷ l) m = deliveries-append d l m
deliveries-append d (Event.sent e msg ∷ l) m = omega (arith, deliveries-append d l m)
deliveries-append d (Event.closed e ∷ l) m = deliveries-append d l m

broadcast-OnlySends :
    (msg : Message) (clients : List (Option ℕ)) (i : ℕ) → OnlySends msg (broadcast msg clients i)
broadcast-OnlySends msg [] i = tt
broadcast-OnlySends msg (none ∷ clients) i = broadcast-OnlySends msg clients (suc i)
broadcast-OnlySends msg (some d ∷ clients) i =
    elim (Bool-cases (not (eqb_ℤ (pos i) msg.client_id))) [
      | inl other ↦ rw other (refl, broadcast-OnlySends msg clients (suc i))
      | inr own ↦ rw own (broadcast-OnlySends msg clients (suc i))
    ]

-- No slot from the index `i` on is the sender's.
deliveries-broadcast_all :
    (d : ℕ) (msg : Message) (clients : List (Option ℕ)) (i : ℕ)
    → ((j : ℕ) → i ≤ j → eqb_ℤ (pos j) msg.client_id ≡ false)
    → deliveries d (broadcast msg clients i) ≡ held d clients
deliveries-broadcast_all d msg [] i h = refl
deliveries-broadcast_all d msg (none ∷ clients) i h =
    deliveries-broadcast_all d msg clients (suc i) (λ j le. h j (omega arith))
deliveries-broadcast_all d msg (some e ∷ clients) i h = rw (h i (omega arith)) (
    ap (λ n. same d e + n)
      (deliveries-broadcast_all d msg clients (suc i) (λ j le. h j (omega arith))))

-- The sender's slot is `k` slots further on.
deliveries-broadcast_others :
    (d : ℕ) (msg : Message) (clients : List (Option ℕ)) (i k : ℕ)
    → msg.client_id ≡ pos (i + k)
    → deliveries d (broadcast msg clients i) ≡ held d (set clients k none)
deliveries-broadcast_others d msg [] i k e = refl
deliveries-broadcast_others d msg (none ∷ clients) i zero e =
    deliveries-broadcast_all d msg clients (suc i) (λ j le. rw e (ground arith))
deliveries-broadcast_others d msg (none ∷ clients) i (suc k) e =
    deliveries-broadcast_others d msg clients (suc i) k (e ∙ ap pos (omega arith))
deliveries-broadcast_others d msg (some c ∷ clients) i zero e =
    let own : eqb_ℤ (pos i) msg.client_id ≡ true = rw e (ground arith) in
    rw own (deliveries-broadcast_all d msg clients (suc i) (λ j le. rw e (ground arith)))
deliveries-broadcast_others d msg (some c ∷ clients) i (suc k) e =
    let other : eqb_ℤ (pos i) msg.client_id ≡ false = rw e (ground arith) in
    rw other (
      ap (λ n. same d c + n)
        (deliveries-broadcast_others d msg clients (suc i) k (e ∙ ap pos (omega arith))))

deliveries-broadcast :
    (d : ℕ) (msg : Message) (clients : List (Option ℕ)) (id : ℤ)
    → msg.client_id ≡ id
    → deliveries d (broadcast msg clients 0) ≡ held d (without clients id)
deliveries-broadcast d msg clients (pos k) e =
    deliveries-broadcast_others d msg clients 0 k (e ∙ ap pos (omega arith))
deliveries-broadcast d msg clients (negsuc n) e =
    deliveries-broadcast_all d msg clients 0 (λ j le. rw e (ground arith))

-- MESSAGE leaves the table, and all it does is to send the message, unchanged, to each queue as
-- often as a slot other than the sender's holds it.
pub handle_message_lem :
    (msg : Message) (s : Server)
    → (sends : List Event) × (handle_message msg s ≡ Result.ok (record s { log = s.log ++ sends }))
      × OnlySends msg sends
      × ((d : ℕ) → deliveries d sends ≡ held d (without s.clients msg.client_id))
handle_message_lem msg s = (
  broadcast msg s.clients 0,
  refl,
  broadcast-OnlySends msg s.clients 0,
  λ d. deliveries-broadcast d msg s.clients msg.client_id refl,
)

replicate-add :
    {A : Type 0} (m n : ℕ) (x : A) → replicate (m + n) x ≡ replicate m x ++ replicate n x
replicate-add zero n x = ap (λ k. replicate k x) (omega arith)
replicate-add (suc m) n x =
    let next : suc m + n ≡ suc (m + n) = omega arith in
    rw next (ap (λ l. x ∷ l) (replicate-add m n x))

-- The messages that were sent to the descriptor, in order.
abbrev pub sent_to : ℕ → List Event → List Message
sent_to d [] = []
sent_to d (Event.opened e ∷ log) = sent_to d log
sent_to d (Event.sent e msg ∷ log) = replicate (same d e) msg ++ sent_to d log
sent_to d (Event.closed e ∷ log) = sent_to d log

pub sent_to-append : (d : ℕ) (l m : List Event) → sent_to d (l ++ m) ≡ sent_to d l ++ sent_to d m
sent_to-append d [] m = refl
sent_to-append d (Event.opened e ∷ l) m = sent_to-append d l m
sent_to-append d (Event.sent e msg ∷ l) m =
    ap (λ r. replicate (same d e) msg ++ r) (sent_to-append d l m)
    ∙ sym (append_assoc (replicate (same d e) msg) (sent_to d l) (sent_to d m))
sent_to-append d (Event.closed e ∷ l) m = sent_to-append d l m

pub sent_to-OnlySends :
    (d : ℕ) (msg : Message) (log : List Event)
    → OnlySends msg log
    → sent_to d log ≡ replicate (deliveries d log) msg
sent_to-OnlySends d msg [] only = refl
sent_to-OnlySends d msg (Event.opened e ∷ log) only = elim only [ ]
sent_to-OnlySends d msg (Event.closed e ∷ log) only = elim only [ ]
sent_to-OnlySends d msg (Event.sent e m ∷ log) (same_msg, only) =
    ap₂ ◌++◌ (ap (λ x. replicate (same d e) x) same_msg) (sent_to-OnlySends d msg log only)
    ∙ sym (replicate-add (same d e) (deliveries d log) msg)

-- MESSAGE with what it sends to each descriptor.
pub sent_to-broadcast :
    (d : ℕ) (msg : Message) (clients : List (Option ℕ))
    → sent_to d (broadcast msg clients 0) ≡ replicate (held d (without clients msg.client_id)) msg
sent_to-broadcast d msg clients =
    sent_to-OnlySends d msg (broadcast msg clients 0) (broadcast-OnlySends msg clients 0)
    ∙ ap (λ n. replicate n msg) (deliveries-broadcast d msg clients msg.client_id refl)

sent_to-close_all : (d : ℕ) (clients : List (Option ℕ)) → sent_to d (close_all clients) ≡ []
sent_to-close_all d [] = refl
sent_to-close_all d (none ∷ clients) = sent_to-close_all d clients
sent_to-close_all d (some e ∷ clients) = sent_to-close_all d clients

-- When the signal interrupts `mq_receive` after a MESSAGE, the server ends after it has passed that
-- message on a second time: each queue gets the same message again, unchanged, as often as a slot
-- other than the sender's holds the queue, and nothing else.
pub interrupted_message_repeats :
    (system system' : System) (recive_msg : Option Message) (msg : Message) (s : Server)
    → msg.type ≡ MessageType.message
    → (ended : Server) × (serve
          (record { received = some msg; system = system; interrupted = false }
            ∷ record { received = none; system = system'; interrupted = true }
            ∷ [])
          recive_msg
          s
        ≡ Outcome.finished ended)
      × ((d : ℕ)
          → sent_to d ended.log
            ≡ (sent_to d s.log ++ replicate (held d (without s.clients msg.client_id)) msg)
              ++ replicate (held d (without s.clients msg.client_id)) msg)
unfolding serve handle shutdown
interrupted_message_repeats system system' recive_msg msg s is_message =
    let sends = broadcast msg s.clients 0 in
    let ended : Server = record {
      clients = s.clients;
      log = ((s.log ++ sends) ++ sends) ++ close_all s.clients;
    } in
    (
      ended,
      rw is_message refl,
      λ d.
          sent_to-append d ((s.log ++ sends) ++ sends) (close_all s.clients)
          ∙ ap (λ l. sent_to d ((s.log ++ sends) ++ sends) ++ l) (sent_to-close_all d s.clients)
          ∙ append-nil (sent_to d ((s.log ++ sends) ++ sends))
          ∙ sent_to-append d (s.log ++ sends) sends
          ∙ ap₂ ◌++◌
              (sent_to-append d s.log sends
                ∙ ap (λ l. sent_to d s.log ++ l) (sent_to-broadcast d msg s.clients))
              (sent_to-broadcast d msg s.clients),
    )

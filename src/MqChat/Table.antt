-- ===== src/MqChat/Table.antt =====
-- The table of clients of cw7/server.c: the free slot that INIT takes, and what STOP gives back.
use systemy_operacyjne_agh.Prelude.{
  ℕ, zero, suc, ◌+◌, ◌<◌, ◌≡◌, ◌≢◌, refl, sym, ap, ap₂, ◌∙◌, append_assoc, Option, none, some, List,
  [], ◌∷◌, ◌++◌, length, get_elem?, set, arith, inl, inr, Option-cases, ◌↔◌,
}
use mathlib.Core.Path.{subst}
use systemy_operacyjne_agh.Prelude.Int.{pos}
use systemy_operacyjne_agh.MqChat.Message.{
  MessageType, Message, Event, System, identifier_message, end_message,
}
use systemy_operacyjne_agh.MqChat.Server.{Server, Result, find_free, handle_init, handle_stop}

-- The slot `j` is the first free one.
abbrev pub IsFirstFree : List (Option ℕ) → ℕ → Type 0
IsFirstFree [] j = ⊥
IsFirstFree (none ∷ clients) j = j ≡ 0
IsFirstFree (some d ∷ clients) zero = ⊥
IsFirstFree (some d ∷ clients) (suc j) = IsFirstFree clients j

find_free-some :
    (clients : List (Option ℕ)) (k id : ℕ)
    → find_free clients k ≡ some id
    → (j : ℕ) × (id ≡ k + j) × IsFirstFree clients j
find_free-some [] k id e = ground arith
find_free-some (none ∷ clients) k id e = (0, ground arith, refl)
find_free-some (some d ∷ clients) k id e =
    let (j, at, first) = find_free-some clients (suc k) id e in (suc j, omega arith, first)

pub get_elem?-IsFirstFree :
    (clients : List (Option ℕ)) (j : ℕ) → IsFirstFree clients j → get_elem? clients j ≡ some none
get_elem?-IsFirstFree [] j h = absurd h
get_elem?-IsFirstFree (none ∷ clients) j h = rw h refl
get_elem?-IsFirstFree (some d ∷ clients) zero h = absurd h
get_elem?-IsFirstFree (some d ∷ clients) (suc j) h = get_elem?-IsFirstFree clients j h

pub IsFirstFree-used :
    (clients : List (Option ℕ)) (j i : ℕ)
    → IsFirstFree clients j
    → i < j
    → (d : ℕ) × (get_elem? clients i ≡ some (some d))
IsFirstFree-used [] j i h lt = absurd h
IsFirstFree-used (none ∷ clients) j i h lt = absurd (omega arith)
IsFirstFree-used (some d ∷ clients) zero i h lt = absurd h
IsFirstFree-used (some d ∷ clients) (suc j) zero h lt = (d, refl)
IsFirstFree-used (some d ∷ clients) (suc j) (suc i) h lt =
    IsFirstFree-used clients j i h (omega arith)

find_free-none :
    (clients : List (Option ℕ)) (k i : ℕ)
    → find_free clients k ≡ none
    → i < length clients
    → (d : ℕ) × (get_elem? clients i ≡ some (some d))
find_free-none [] k i e lt = absurd (omega arith)
find_free-none (none ∷ clients) k i e lt = ground arith
find_free-none (some d ∷ clients) k zero e lt = (d, refl)
find_free-none (some d ∷ clients) k (suc i) e lt = find_free-none clients (suc k) i e (omega arith)

pub first_free :
    (clients : List (Option ℕ)) (id : ℕ) → find_free clients 0 ≡ some id → IsFirstFree clients id
first_free clients id e =
    let (j, at, first) = find_free-some clients 0 id e in
    subst (IsFirstFree clients) (omega arith) first

some_injective : {x y : Option ℕ} → some x ≡ some y → x ≡ y
some_injective e = cc

pub set-set_self :
    (clients : List (Option ℕ)) (j : ℕ) (x : Option ℕ)
    → get_elem? clients j ≡ some none
    → set (set clients j x) j none ≡ clients
set-set_self [] j x e = refl
set-set_self (c ∷ clients) zero x e = ap (λ y. y ∷ clients) (some_injective (sym e))
set-set_self (c ∷ clients) (suc j) x e = ap (λ l. c ∷ l) (set-set_self clients j x e)

find_free-used :
    (clients : List (Option ℕ)) (k : ℕ)
    → ((i : ℕ) → i < length clients → (d : ℕ) × (get_elem? clients i ≡ some (some d)))
    → find_free clients k ≡ none
find_free-used [] k h = refl
find_free-used (none ∷ clients) k h = let (d, e) = h 0 (omega arith) in ground arith
find_free-used (some d ∷ clients) k h =
    find_free-used clients (suc k) (λ i lt. h (suc i) (omega arith))

result_differs : {s : Server} → Result.ok s ≢ Result.fault
result_differs e = ground arith

exit_differs : {s : Server} → Result.exits s ≢ Result.fault
exit_differs e = ground arith

-- INIT runs past the end of the table exactly if every slot is used.
pub full_table_faults :
    (system : System) (msg : Message) (s : Server)
    → ((i : ℕ) → i < length s.clients → (d : ℕ) × (get_elem? s.clients i ≡ some (some d)))
      ↔ (handle_init system msg s ≡ Result.fault)
unfolding handle_init
full_table_faults system msg s = (
  λ full. rw (handle_init, find_free-used s.clients 0 full) refl,
  λ e i lt. elim (Option-cases (find_free s.clients 0)) [
    | inl none_free ↦ find_free-none s.clients 0 i none_free lt
    | inr (id, free) ↦ elim (Option-cases (system.mq_open msg.text)) [
      | inl refused ↦ absurd (exit_differs (rw (handle_init, free, refused) at e))
      | inr (d, opens) ↦ absurd (result_differs (rw (handle_init, free, opens) at e))
    ]
  ],
)

-- What is known after INIT, by its result.
abbrev pub Registered : System → Message → Server → Result → Type 0
Registered system msg s (Result.ok s') =
    (id : ℕ) × (d : ℕ) × (system.mq_open msg.text ≡ some d)
    × IsFirstFree s.clients id
    × (s'.clients ≡ set s.clients id (some d))
    × (s'.log ≡ s.log ++ Event.opened d ∷ Event.sent d (identifier_message id) ∷ [])
Registered system msg s (Result.exits s') = (s' ≡ s) × (system.mq_open msg.text ≡ none)
Registered system msg s Result.fault =
    (i : ℕ) → i < length s.clients → (d : ℕ) × (get_elem? s.clients i ≡ some (some d))

-- INIT opens the client's queue, puts it into the first free slot, leaves the other slots, and
-- answers with the number of the slot; it exits only if the queue cannot be opened, and leaves the
-- table only if every slot is used.
pub handle_init-Registered :
    (system : System) (msg : Message) (s : Server)
    → Registered system msg s (handle_init system msg s)
unfolding handle_init
handle_init-Registered system msg s = elim (Option-cases (find_free s.clients 0)) [
  | inl none_free ↦ rw (handle_init, none_free) (λ i lt. find_free-none s.clients 0 i none_free lt)
  | inr (id, free) ↦ elim (Option-cases (system.mq_open msg.text)) [
    | inl refused ↦ rw (handle_init, free, refused) (refl, refused)
    | inr (d, opens) ↦
        rw (handle_init, free, opens) (id, d, opens, first_free s.clients id free, refl, refl)
  ]
]

pub get_elem?-set :
    (clients : List (Option ℕ)) (j : ℕ) (x : Option ℕ)
    → get_elem? clients j ≡ some none
    → get_elem? (set clients j x) j ≡ some x
get_elem?-set [] j x e = ground arith
get_elem?-set (c ∷ clients) zero x e = refl
get_elem?-set (c ∷ clients) (suc j) x e = get_elem?-set clients j x e

pub find_free-IsFirstFree :
    (clients : List (Option ℕ)) (k j : ℕ)
    → IsFirstFree clients j
    → find_free clients k ≡ some (k + j)
find_free-IsFirstFree [] k j h = absurd h
find_free-IsFirstFree (none ∷ clients) k j h = ap some (omega arith)
find_free-IsFirstFree (some d ∷ clients) k zero h = absurd h
find_free-IsFirstFree (some d ∷ clients) k (suc j) h =
    find_free-IsFirstFree clients (suc k) j h ∙ ap some (omega arith)

-- A STOP from a slot that is used.
pub handle_stop-used :
    (system : System) (s : Server) (id d n : ℕ) (text : List ℕ)
    → get_elem? s.clients id ≡ some (some d)
    → system.mq_send d (end_message id) ≡ some n
    → handle_stop system (record { type = MessageType.stop; client_id = pos id; text = text }) s
      ≡ Result.ok (record {
        clients = set s.clients id none;
        log = (s.log ++ Event.sent d (end_message id) ∷ []) ++ Event.closed d ∷ [];
      })
unfolding handle_stop
handle_stop-used system s id d n text slot sends = rw (handle_stop, slot, sends) refl

append_twice : (l xs ys zs : List Event) → ((l ++ xs) ++ ys) ++ zs ≡ l ++ (xs ++ (ys ++ zs))
append_twice l xs ys zs = append_assoc (l ++ xs) ys zs ∙ append_assoc l xs (ys ++ zs)

-- A client that joins and stops: after INIT, a STOP with the number that INIT gave, if the goodbye
-- can be sent, restores the table, and the log gains the opening, the number, the goodbye to the
-- same queue and its closing.
pub handle_stop-handle_init :
    (system : System) (msg : Message) (s : Server) (id d n : ℕ) (text : List ℕ)
    → IsFirstFree s.clients id
    → system.mq_open msg.text ≡ some d
    → system.mq_send d (end_message id) ≡ some n
    → (joined : Server) × (handle_init system msg s ≡ Result.ok joined)
      × (handle_stop system
            (record { type = MessageType.stop; client_id = pos id; text = text })
            joined
          ≡ Result.ok (record {
            clients = s.clients;
            log =
                s.log
                ++ Event.opened d
                  ∷ Event.sent d (identifier_message id)
                  ∷ Event.sent d (end_message id)
                  ∷ Event.closed d
                  ∷ [];
          }))
unfolding handle_init handle_stop
handle_stop-handle_init system msg s id d n text first opens sends =
    let free : find_free s.clients 0 ≡ some id =
      subst (λ j. find_free s.clients 0 ≡ some j) (omega arith)
        (find_free-IsFirstFree s.clients 0 id first) in
    let slot = get_elem?-IsFirstFree s.clients id first in
    let joined : Server = record {
      clients = set s.clients id (some d);
      log = s.log ++ Event.opened d ∷ Event.sent d (identifier_message id) ∷ [];
    } in
    (
      joined,
      rw (handle_init, free, opens) refl,
      rw (handle_stop, get_elem?-set s.clients id (some d) slot, sends)
          (ap₂ (λ c l. Result.ok (record { clients = c; log = l }))
            (set-set_self s.clients id (some d) slot) (append_twice s.log _ _ _)),
    )

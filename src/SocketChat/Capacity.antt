-- ===== src/SocketChat/Capacity.antt =====
-- When a connection to cw11/server.c is refused.
use systemy_operacyjne_agh.Prelude.{
  ℕ, zero, suc, ◌+◌, ◌≡◌, ◌≢◌, ◌≤◌, refl, sym, ap, ◌∙◌, true, false, Option, some, List, [], ◌∷◌,
  get_elem?, Bool-cases, Option-cases, inl, inr, arith, length, length-set,
}
use systemy_operacyjne_agh.Prelude.Int.{ℤ, pos, pos_part, neg_part, ltb_ℤ}
use systemy_operacyjne_agh.SocketChat.Table.{
  ClientInfo, Chat, Accepted, accept_client, remove_client, find_inactive, max_clients,
}
use systemy_operacyjne_agh.SocketChat.Threads.{Thread, Move, System, system_start, Step, Steps}
use systemy_operacyjne_agh.SocketChat.Counter.{count_active, length-deactivate, Steps-≼}

-- The table keeps its size.
abbrev IsSized : Chat → Type 0
IsSized chat = length chat.clients ≡ max_clients

accept_client-IsSized :
    (fd : ℕ) (name : List ℕ) (chat : Chat) → IsSized chat → IsSized ((accept_client fd name chat).1)
unfolding accept_client
accept_client-IsSized fd name chat h =
    elim (Bool-cases (ltb_ℤ chat.num_clients (pos max_clients))) [
      | inr full ↦ rw (accept_client, full) h
      | inl room ↦ elim (Option-cases (find_inactive chat.clients 0)) [
        | inl none_free ↦ rw (accept_client, room, none_free) h
        | inr (i, free) ↦ rw (accept_client, room, free) (length-set chat.clients i _ ∙ h)
      ]
    ]

Move-IsSized :
    {chat chat' : Chat} {thread : Thread} {after : Option Thread}
    → Move chat thread chat' after
    → IsSized chat
    → IsSized chat'
unfolding remove_client
Move-IsSized (Move.disconnected at inactive) h = h
Move-IsSized (Move.timed_out at active) h = h
Move-IsSized (Move.received bytes at active) h = h
Move-IsSized Move.stops h = h
Move-IsSized (Move.answers ctime sends other at) h = h
Move-IsSized {chat} (Move.handler_removes {i = i}) h = length-deactivate chat.clients i ∙ h
Move-IsSized Move.alive h = h
Move-IsSized Move.silent h = h
Move-IsSized {chat} (Move.checker_removes {i = i}) h = length-deactivate chat.clients i ∙ h

Step-IsSized : {s t : System} → Step s t → IsSized s.chat → IsSized t.chat
Step-IsSized {s} (Step.accepts fd name) h = accept_client-IsSized fd name s.chat h
Step-IsSized Step.checks h = h
Step-IsSized (Step.moves front back move) h = Move-IsSized move h

Steps-IsSized : {s t : System} → Steps s t → IsSized s.chat → IsSized t.chat
Steps-IsSized Steps.done h = h
Steps-IsSized (Steps.step first rest) h = Steps-IsSized rest (Step-IsSized first h)

count_active-le : (clients : List ClientInfo) → count_active clients ≤ length clients
count_active-le [] = omega arith
count_active-le (c ∷ clients) = elim (Bool-cases c.active) [
  | inl busy ↦ rw busy (omega (arith, count_active-le clients))
  | inr free ↦ rw free (omega (arith, count_active-le clients))
]

all_active :
    (clients : List ClientInfo) (i : ℕ) (c : ClientInfo)
    → length clients ≤ count_active clients
    → get_elem? clients i ≡ some c
    → c.active ≡ true
all_active [] i c le at = ground arith
all_active (x ∷ clients) i c at_most at = elim (Bool-cases x.active) [
  | inr free ↦ absurd (short (rw free at at_most) (count_active-le clients))
  | inl busy ↦ here_or_later i c (all_active clients) (less (rw busy at at_most)) busy at
]
  where
    short : {n m : ℕ} → suc n ≤ 0 + m → m ≤ n → ⊥
    short h g = omega arith

    less : {n m : ℕ} → suc n ≤ 1 + m → n ≤ m
    less h = omega arith

    here_or_later :
        (i : ℕ) (c : ClientInfo)
        → ((j : ℕ) (c : ClientInfo)
            → length clients ≤ count_active clients
            → get_elem? clients j ≡ some c
            → c.active ≡ true)
        → length clients ≤ count_active clients
        → x.active ≡ true
        → get_elem? (x ∷ clients) i ≡ some c
        → c.active ≡ true
    here_or_later zero c later le busy at =
        let same : x ≡ c = cc in ap (λ y. y.active) (sym same) ∙ busy
    here_or_later (suc j) c later le busy at = later j c le at

-- In every reachable state, a connection is refused only if all ten slots are active.
pub refused_only_when_full :
    {s : System} (fd : ℕ) (name : List ℕ)
    → Steps system_start s
    → (accept_client fd name s.chat).0 ≡ Accepted.refused
    → (length s.chat.clients ≡ max_clients)
      × ((i : ℕ) (c : ClientInfo) → get_elem? s.chat.clients i ≡ some c → c.active ≡ true)
unfolding accept_client
refused_only_when_full {s} fd name steps is_refused =
    let sized = Steps-IsSized steps refl in
    (
      sized,
      elim (Bool-cases (ltb_ℤ s.chat.num_clients (pos max_clients))) [
        | inr full ↦ λ i c at.
            all_active s.chat.clients i c (at_least s.chat.num_clients sized full (Steps-≼ steps))
              at
        | inl room ↦ elim (Option-cases (find_inactive s.chat.clients 0)) [
          | inl none_free ↦
              absurd (dropped_differs (rw (accept_client, room, none_free) at is_refused))
          | inr (i, free) ↦ absurd (joined_differs (rw (accept_client, room, free) at is_refused))
        ]
      ],
    )
  where
    at_least :
        (n : ℤ) {a l : ℕ}
        → l ≡ 10
        → ltb_ℤ n (pos 10) ≡ false
        → 0 + 0 + pos_part n ≤ a + neg_part n + 0
        → l ≤ a
    at_least n h g le = ground arith

    dropped_differs : Accepted.dropped ≢ Accepted.refused
    dropped_differs e = ground arith

    joined_differs : {i : ℕ} → Accepted.joined i ≢ Accepted.refused
    joined_differs e = ground arith

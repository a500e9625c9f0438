-- ===== src/SocketChat/Counter.antt =====
-- `num_clients` of cw11/server.c and the number of active slots.
use systemy_operacyjne_agh.Prelude.{
  ℕ, zero, suc, ◌+◌, ◌≡◌, ◌≤◌, ◌<◌, refl, sym, ap, Bool, true, false, Option, none, some, List, [],
  ◌∷◌, ◌++◌, set, if◌then◌else◌, Bool-cases, Option-cases, inl, inr, arith, length, append_assoc,
}
use mathlib.Core.Path.{subst}
use systemy_operacyjne_agh.Prelude.Int.{ℤ, pos, negsuc, pos_part, neg_part, ltb_ℤ}
use systemy_operacyjne_agh.SocketChat.Table.{
  ClientInfo, Chat, accept_client, remove_client, find_inactive, deactivate, name_at, write_over,
  succ_ℤ, pred_ℤ, max_clients,
}
use systemy_operacyjne_agh.SocketChat.Threads.{Thread, Move, System, Step, Steps}

abbrev pub count_active : List ClientInfo → ℕ
count_active [] = 0
count_active (c ∷ clients) = (if c.active then 1 else 0) + count_active clients

-- The active slots less `num_clients` are at most as many in the first state as in the second.
infix 50 ◌≼◌
abbrev pub ◌≼◌ : Chat → Chat → Type 0
a ≼ b =
    count_active a.clients + neg_part a.num_clients + pos_part b.num_clients
    ≤ count_active b.clients + neg_part b.num_clients + pos_part a.num_clients

-- They are fewer in the first.
infix 50 ◌≺◌
abbrev pub ◌≺◌ : Chat → Chat → Type 0
a ≺ b =
    count_active a.clients + neg_part a.num_clients + pos_part b.num_clients
    < count_active b.clients + neg_part b.num_clients + pos_part a.num_clients

count_active-deactivate :
    (clients : List ClientInfo) (i : ℕ)
    → count_active clients ≤ suc (count_active (deactivate clients i))
count_active-deactivate [] i = omega arith
count_active-deactivate (c ∷ clients) zero = if_le c.active
  where
    if_le :
        (b : Bool) → (if b then 1 else 0) + count_active clients ≤ suc (0 + count_active clients)
    if_le true = omega arith
    if_le false = omega arith
count_active-deactivate (c ∷ clients) (suc i) = omega (arith, count_active-deactivate clients i)

deactivate-twice :
    (clients : List ClientInfo) (i : ℕ) → deactivate (deactivate clients i) i ≡ deactivate clients i
deactivate-twice [] i = refl
deactivate-twice (c ∷ clients) zero = refl
deactivate-twice (c ∷ clients) (suc i) = ap (λ l. c ∷ l) (deactivate-twice clients i)

pub length-deactivate :
    (clients : List ClientInfo) (i : ℕ) → length (deactivate clients i) ≡ length clients
length-deactivate [] i = refl
length-deactivate (c ∷ clients) zero = refl
length-deactivate (c ∷ clients) (suc i) = ap suc (length-deactivate clients i)

find_inactive-some :
    (clients : List ClientInfo) (k i : ℕ)
    → find_inactive clients k ≡ some i
    → (j : ℕ) × (i ≡ k + j)
      × ((fd : ℕ) (name : List ℕ)
          → count_active (set clients j (record { socket_fd = fd; name = name; active = true }))
            ≡ suc (count_active clients))
find_inactive-some [] k i e = ground arith
find_inactive-some (c ∷ clients) k i e = elim (Bool-cases c.active) [
  | inl busy ↦
      let (j, at, counts) = find_inactive-some clients (suc k) i (rw busy at e) in
      (suc j, omega arith, λ fd name. omega (arith, counts fd name))
  | inr free ↦ let here = rw free at e in (0, ground arith, λ fd name. rw free (omega arith))
]

find_inactive-none :
    (clients : List ClientInfo) (k : ℕ)
    → find_inactive clients k ≡ none
    → count_active clients ≡ length clients
find_inactive-none [] k e = refl
find_inactive-none (c ∷ clients) k e = elim (Bool-cases c.active) [
  | inl busy ↦ rw busy (omega (arith, find_inactive-none clients (suc k) (rw busy at e)))
  | inr free ↦ let here = rw free at e in ground arith
]

remove_client-≼ : (i : ℕ) (chat : Chat) → chat ≼ remove_client i chat
unfolding remove_client
remove_client-≼ i chat = go chat.num_clients (count_active-deactivate chat.clients i)
  where
    go :
        (n : ℤ) {a b : ℕ}
        → a ≤ suc b
        → a + neg_part n + pos_part (pred_ℤ n) ≤ b + neg_part (pred_ℤ n) + pos_part n
    go (pos zero) h = omega arith
    go (pos (suc n)) h = omega arith
    go (negsuc n) h = omega arith

remove_client-twice : (i : ℕ) (chat : Chat) → chat ≺ remove_client i (remove_client i chat)
unfolding remove_client
remove_client-twice i chat = go chat.num_clients (
    subst (λ l. count_active chat.clients ≤ suc (count_active l))
      (sym (deactivate-twice chat.clients i)) (count_active-deactivate chat.clients i))
  where
    go :
        (n : ℤ) {a b : ℕ}
        → a ≤ suc b
        → a + neg_part n + pos_part (pred_ℤ (pred_ℤ n))
          < b + neg_part (pred_ℤ (pred_ℤ n)) + pos_part n
    go (pos zero) h = omega arith
    go (pos (suc zero)) h = omega arith
    go (pos (suc (suc n))) h = omega arith
    go (negsuc n) h = omega arith

accept_client-≼ : (fd : ℕ) (name : List ℕ) (chat : Chat) → chat ≼ (accept_client fd name chat).1
unfolding accept_client
accept_client-≼ fd name chat = elim (Bool-cases (ltb_ℤ chat.num_clients (pos max_clients))) [
  | inr full ↦ rw (accept_client, full) (omega arith)
  | inl room ↦ elim (Option-cases (find_inactive chat.clients 0)) [
    | inl none_free ↦ rw (accept_client, room, none_free) (omega arith)
    | inr (i, free) ↦
        let (j, at, counts) = find_inactive-some chat.clients 0 i free in
        let text = write_over name (name_at chat.clients i) in
        rw (accept_client, room, free)
          (balance chat.num_clients (
            subst
              (λ k.
                count_active
                  (set chat.clients k (record { socket_fd = fd; name = text; active = true }))
                ≡ suc (count_active chat.clients))
              (omega arith) (counts fd text)))
  ]
]
  where
    balance :
        (n : ℤ) {a b : ℕ}
        → b ≡ suc a
        → a + neg_part n + pos_part (succ_ℤ n) ≤ b + neg_part (succ_ℤ n) + pos_part n
    balance (pos n) h = omega arith
    balance (negsuc zero) h = omega arith
    balance (negsuc (suc n)) h = omega arith

Move-≼ :
    {chat chat' : Chat} {thread : Thread} {after : Option Thread}
    → Move chat thread chat' after
    → chat ≼ chat'
Move-≼ (Move.disconnected at inactive) = omega arith
Move-≼ (Move.timed_out at active) = omega arith
Move-≼ (Move.received bytes at active) = omega arith
Move-≼ Move.stops = omega arith
Move-≼ (Move.answers ctime sends other at) = omega arith
Move-≼ {chat} (Move.handler_removes {i = i}) = remove_client-≼ i chat
Move-≼ Move.alive = omega arith
Move-≼ Move.silent = omega arith
Move-≼ {chat} (Move.checker_removes {i = i}) = remove_client-≼ i chat

Step-≼ : {s t : System} → Step s t → s.chat ≼ t.chat
Step-≼ {s} (Step.accepts fd name) = accept_client-≼ fd name s.chat
Step-≼ Step.checks = omega arith
Step-≼ (Step.moves front back move) = Move-≼ move

≼-trans : (a b c : Chat) → a ≼ b → b ≼ c → a ≼ c
≼-trans a b c h g = omega arith

pub Steps-≼ : {s t : System} → Steps s t → s.chat ≼ t.chat
Steps-≼ Steps.done = omega arith
Steps-≼ (Steps.step {s = s} {t = t} {u = u} first rest) =
    ≼-trans s.chat t.chat u.chat (Step-≼ first) (Steps-≼ rest)

-- When the handler and a checker of one slot have both closed its socket, both can count the client
-- out, and then in every state that follows `num_clients` is further below the number of active
-- slots than it was before: no order of steps makes it catch up.
pub double_close_never_repaired :
    (chat : Chat) (i : ℕ) (front mid back : List Thread)
    → (t : System) × Steps
        (record {
          chat = chat;
          threads = front ++ Thread.stopping i ∷ (mid ++ Thread.closing i ∷ back);
        })
        t
      × ((u : System) → Steps t u → chat ≺ u.chat)
double_close_never_repaired chat i front mid back =
    let once = remove_client i chat in
    let twice = remove_client i once in
    (
      record { chat = twice; threads = (front ++ mid) ++ back },
      Steps.step (Step.moves front (mid ++ Thread.closing i ∷ back) Move.handler_removes) (
          subst
            (λ l.
              Steps (record { chat = once; threads = l })
                (record { chat = twice; threads = (front ++ mid) ++ back }))
            (append_assoc front mid (Thread.closing i ∷ back))
            (Steps.step (Step.moves (front ++ mid) back Move.checker_removes) Steps.done)),
      λ u steps. later chat twice u.chat (remove_client-twice i chat) (Steps-≼ steps),
    )
  where
    later : (a b c : Chat) → a ≺ b → b ≼ c → a ≺ c
    later a b c h g = omega arith

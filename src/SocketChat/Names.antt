-- ===== src/SocketChat/Names.antt =====
-- The name of a client that gets a slot of cw11/server.c which another client has left.
use systemy_operacyjne_agh.Prelude.{
  ℕ, zero, suc, ◌+◌, ◌-◌, ◌<◌, ◌≡◌, ◌≢◌, refl, ap, true, ◌&&◌, some, List, [], ◌∷◌, length, drop,
  set, length-append, length-drop, arith, inl, inr, Bool-cases,
}
use systemy_operacyjne_agh.Prelude.CStrings.{eqb_bytes, eqb_bytes→≡}
use systemy_operacyjne_agh.Prelude.Int.{pos, ltb_ℤ}
use systemy_operacyjne_agh.SocketChat.Table.{
  ClientInfo, Chat, Accepted, accept_client, find_inactive, name_at, write_over, send_to_one,
  max_clients,
}

-- No client of the table is active under some name.
abbrev pub NoOneNamed : List ℕ → List ClientInfo → Type 0
NoOneNamed name [] = Unit {0}
NoOneNamed name (c ∷ clients) = (c.active ≡ true → c.name ≢ name) × NoOneNamed name clients

send_to_one-NoOneNamed :
    (ctime : ℕ → List ℕ) (message sender_name recipient_name : List ℕ) (clients : List ClientInfo)
    (i : ℕ)
    → NoOneNamed recipient_name clients
    → send_to_one ctime message sender_name recipient_name clients i ≡ some []
unfolding send_to_one
send_to_one-NoOneNamed ctime message sender_name recipient_name [] i h = refl
send_to_one-NoOneNamed ctime message sender_name recipient_name (c ∷ clients) i (other, h) =
    elim (Bool-cases (c.active && eqb_bytes c.name recipient_name)) [
      | inl found ↦ absurd (other (active found) (eqb_bytes→≡ c.name recipient_name (named found)))
      | inr passed ↦
          rw passed
            (send_to_one-NoOneNamed ctime message sender_name recipient_name clients (suc i) h)
    ]
  where
    active : (c.active && eqb_bytes c.name recipient_name) ≡ true → c.active ≡ true
    active e = ground arith

    named :
        (c.active && eqb_bytes c.name recipient_name) ≡ true
        → eqb_bytes c.name recipient_name ≡ true
    named e = ground arith

NoOneNamed-set :
    (name : List ℕ) (clients : List ClientInfo) (i : ℕ) (c : ClientInfo)
    → c.name ≢ name
    → NoOneNamed name clients
    → NoOneNamed name (set clients i c)
NoOneNamed-set name [] i c other h = tt
NoOneNamed-set name (x ∷ clients) zero c other (h, rest) = ((λ e. other), rest)
NoOneNamed-set name (x ∷ clients) (suc i) c other (h, rest) =
    (h, NoOneNamed-set name clients i c other rest)

longer : (name old : List ℕ) → length name < length old → write_over name old ≢ name
longer name old lt e =
    let size : length (write_over name old) ≡ length name + (length old - length name) =
      omega (arith, length-append name (drop (length name) old), length-drop (length name) old) in
    let same : length (write_over name old) ≡ length name = ap length e in absurd (omega arith)

-- A client whose name is shorter than the one left in the slot that it gets is entered under its own
-- name with the rest of the old one behind it; and if no other active client has its own name, a
-- message to that name reaches nobody.
pub shorter_name_unreachable :
    (fd i : ℕ) (name : List ℕ) (chat : Chat) (ctime : ℕ → List ℕ) (message sender_name : List ℕ)
    → ltb_ℤ chat.num_clients (pos max_clients) ≡ true
    → find_inactive chat.clients 0 ≡ some i
    → length name < length (name_at chat.clients i)
    → NoOneNamed name chat.clients
    → let (accepted, chat') = accept_client fd name chat in
      (accepted ≡ Accepted.joined i)
      × (chat'.clients
          ≡ set chat.clients i (record {
            socket_fd = fd;
            name = write_over name (name_at chat.clients i);
            active = true;
          }))
      × (send_to_one ctime message sender_name name chat'.clients 0 ≡ some [])
unfolding accept_client
shorter_name_unreachable fd i name chat ctime message sender_name room free short alone =
    rw (accept_client, room, free)
      (
        refl,
        refl,
        send_to_one-NoOneNamed ctime message sender_name name _ 0 (
            NoOneNamed-set name chat.clients i _ (longer name (name_at chat.clients i) short)
              alone),
      )

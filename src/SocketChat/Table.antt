-- ===== src/SocketChat/Table.antt =====
-- The table of clients of cw11/server.c: sending to one client or to all, and a new client.
use systemy_operacyjne_agh.Prelude.{
  ℕ, zero, suc, Bool, true, false, not, ◌&&◌, Option, none, some, List, [], ◌∷◌, ◌++◌, length, drop,
  set, replicate, ltb, if◌then◌else◌,
}
use systemy_operacyjne_agh.Prelude.CStrings.{eqb_bytes}
use systemy_operacyjne_agh.Prelude.Int.{ℤ, pos, negsuc, ltb_ℤ}

abbrev pub max_clients : ℕ
max_clients = 10

abbrev pub buffer_size : ℕ
buffer_size = 256

-- A name is its array's bytes, less the zeros at its end; clients send no zero in a name.
pub record ClientInfo : Type 0 where
  pub socket_fd : ℕ
  pub name : List ℕ
  pub active : Bool

-- The global variables, and what has been sent, to which socket, so far.
pub record Chat : Type 0 where
  pub clients : List ClientInfo
  pub num_clients : ℤ
  pub sent : List (ℕ × List ℕ)

abbrev pub chat_start : Chat
chat_start = record {
  clients = replicate max_clients (record { socket_fd = 0; name = []; active = false });
  num_clients = pos 0;
  sent = [];
}

-- The date, a space, the sender, ": " and the message.
abbrev pub compose : List ℕ → List ℕ → List ℕ → List ℕ
compose date sender_name message = date ++ 32 ∷ sender_name ++ 58 ∷ 32 ∷ message

-- With its end it has to fit into `buffer`; `none` if the last `strcat` would leave it.
abbrev pub put : List ℕ → Option (List ℕ)
put text = if ltb (length text) buffer_size then some text else none

abbrev pub then_send : ℕ → Option (List ℕ) → Option (List (ℕ × List ℕ)) → Option (List (ℕ × List ℕ))
then_send fd none rest = none
then_send fd (some text) none = none
then_send fd (some text) (some sends) = some ((fd, text) ∷ sends)

-- The loop of `send_to_all` over the rest of the table; `ctime` gives the date at each slot.
unfoldable pub send_to_all :
    (ℕ → List ℕ) → List ℕ → List ℕ → List ClientInfo → ℕ → Option (List (ℕ × List ℕ))
send_to_all ctime message sender_name [] i = some []
send_to_all ctime message sender_name (c ∷ clients) i =
    let rest = send_to_all ctime message sender_name clients (suc i) in
    if c.active && not (eqb_bytes c.name sender_name)
    then then_send c.socket_fd (put (compose (ctime i) sender_name message)) rest
    else rest

-- The loop of `send_to_one`: the first match ends it.
unfoldable pub send_to_one :
    (ℕ → List ℕ) → List ℕ → List ℕ → List ℕ → List ClientInfo → ℕ → Option (List (ℕ × List ℕ))
send_to_one ctime message sender_name recipient_name [] i = some []
send_to_one ctime message sender_name recipient_name (c ∷ clients) i =
    let rest = send_to_one ctime message sender_name recipient_name clients (suc i) in
    if c.active && eqb_bytes c.name recipient_name
    then then_send c.socket_fd (put (compose (ctime i) sender_name message)) (some [])
    else rest

-- "Clients on server : \n"
abbrev pub list_heading : List ℕ
list_heading =
    67 ∷ 108 ∷ 105 ∷ 101 ∷ 110 ∷ 116 ∷ 115 ∷ 32 ∷ 111 ∷ 110 ∷ 32 ∷ 115 ∷ 101 ∷ 114 ∷ 118 ∷ 101 ∷ 114
    ∷ 32 ∷ 58 ∷ 32 ∷ 10 ∷ []

-- The names of the active clients, a line each.
abbrev pub list_names : List ClientInfo → List ℕ
list_names [] = []
list_names (c ∷ clients) =
    let rest = list_names clients in if c.active then c.name ++ 10 ∷ rest else rest

abbrev pub succ_ℤ : ℤ → ℤ
succ_ℤ (pos n) = pos (suc n)
succ_ℤ (negsuc zero) = pos 0
succ_ℤ (negsuc (suc n)) = negsuc n

abbrev pub pred_ℤ : ℤ → ℤ
pred_ℤ (pos zero) = negsuc 0
pred_ℤ (pos (suc n)) = pos n
pred_ℤ (negsuc n) = negsuc (suc n)

-- `clients[i].active = 0` for the slot `i`.
abbrev pub deactivate : List ClientInfo → ℕ → List ClientInfo
deactivate [] i = []
deactivate (c ∷ clients) zero = record c { active = false } ∷ clients
deactivate (c ∷ clients) (suc i) = c ∷ deactivate clients i

-- The critical section that takes a client out.
unfoldable pub remove_client : ℕ → Chat → Chat
remove_client client_index chat = record chat {
  clients = deactivate chat.clients client_index;
  num_clients = pred_ℤ chat.num_clients;
}

-- The first slot, from the index `i`, that is not active.
abbrev pub find_inactive : List ClientInfo → ℕ → Option ℕ
find_inactive [] i = none
find_inactive (c ∷ clients) i =
    let rest = find_inactive clients (suc i) in if not c.active then some i else rest

-- The name in a slot.
abbrev pub name_at : List ClientInfo → ℕ → List ℕ
name_at [] i = []
name_at (c ∷ clients) zero = c.name
name_at (c ∷ clients) (suc i) = name_at clients i

-- `recv(…, clients[i].name, 50, 0)`: the bytes are written over the start of the array, with no zero
-- after them, so that the rest of a longer name stays.
abbrev pub write_over : List ℕ → List ℕ → List ℕ
write_over bytes name = bytes ++ drop (length bytes) name

-- What becomes of a connection: closed, served in a slot, or left alone.
pub data Accepted : Type 0 where
  refused : Accepted
  joined : ℕ → Accepted
  dropped : Accepted

-- The critical section of `main`, with the name that the client sends.
unfoldable pub accept_client : ℕ → List ℕ → Chat → Accepted × Chat
accept_client client_socket_fd name chat =
    if not (ltb_ℤ chat.num_clients (pos max_clients))
    then (Accepted.refused, chat)
    else elim (find_inactive chat.clients 0) [
      | none ↦ (Accepted.dropped, chat)
      | some i ↦ (
        Accepted.joined i,
        record chat {
          clients = set chat.clients i (record {
            socket_fd = client_socket_fd;
            name = write_over name (name_at chat.clients i);
            active = true;
          });
          num_clients = succ_ℤ chat.num_clients;
        },
      )
    ]

-- ===== src/SocketChat/Tests.antt =====
-- Runs of the socket chat server and instances of its theorems.
use systemy_operacyjne_agh.Prelude.{
  ℕ, zero, suc, ◌+◌, ◌≡◌, ◌↔◌, refl, Bool, true, false, none, some, List, [], ◌∷◌, ◌++◌, arith,
  length, set, get_elem?, replicate, map,
}
use systemy_operacyjne_agh.Prelude.Int.{pos}
use systemy_operacyjne_agh.SocketChat.Table.{
  ClientInfo, Chat, chat_start, Accepted, accept_client, send_to_all, send_to_one, compose,
  max_clients,
}
use systemy_operacyjne_agh.SocketChat.Command.{Command, parse, one_prefix}
use systemy_operacyjne_agh.SocketChat.Threads.{Thread, System, system_start, Step, Steps, handlers}
use systemy_operacyjne_agh.SocketChat.Counter.{◌≺◌, double_close_never_repaired}
use systemy_operacyjne_agh.SocketChat.Capacity.{refused_only_when_full}
use systemy_operacyjne_agh.SocketChat.Recipients.{Addressed, Overrun, send_to_all_lem}
use systemy_operacyjne_agh.SocketChat.Client.{
  alive, stop_text, type_lines, Client, Effect, main_client, Reply, Receiver, receive_messages,
}
use systemy_operacyjne_agh.SocketChat.Typing.{
  Order, order_text, order_command, ready, session-parse,
}
use systemy_operacyjne_agh.SocketChat.Lines.{typed_text}
use systemy_operacyjne_agh.SocketChat.Names.{shorter_name_unreachable}
use systemy_operacyjne_agh.SocketChat.Buffers.{IsReached}

abbrev client : ℕ → ℕ → Bool → ClientInfo
client fd letter active = record { socket_fd = fd; name = letter ∷ []; active = active }

-- The clients a, b and c, of which b has left.
abbrev three_clients : List ClientInfo
three_clients = client 4 97 true ∷ client 5 98 false ∷ client 6 99 true ∷ []

abbrev dates : ℕ → List ℕ
dates i = 68 ∷ []

a_to_all :
    send_to_all dates (104 ∷ []) (97 ∷ []) three_clients 0
    ≡ some ((6, 68 ∷ 32 ∷ 97 ∷ 58 ∷ 32 ∷ 104 ∷ []) ∷ [])
unfolding send_to_all
a_to_all = refl

a_to_c :
    send_to_one dates (104 ∷ []) (97 ∷ []) (99 ∷ []) three_clients 0
    ≡ some ((6, 68 ∷ 32 ∷ 97 ∷ 58 ∷ 32 ∷ 104 ∷ []) ∷ [])
unfolding send_to_one
a_to_c = refl

stop_is_read : parse (83 ∷ 84 ∷ 79 ∷ 80 ∷ []) ≡ Command.stop_client
unfolding parse
stop_is_read = refl

one_without_name : parse one_prefix ≡ Command.undefined
unfolding parse
one_without_name = refl

full_buffer : parse (replicate 256 65) ≡ Command.undefined
unfolding parse
full_buffer = refl

first_joins : (accept_client 4 (97 ∷ []) chat_start).0 ≡ Accepted.joined 0
unfolding accept_client
first_joins = refl

send_to_all_lem_example :
    ((send_to_all dates (104 ∷ []) (97 ∷ []) three_clients 0 ≡ none)
      ↔ Overrun dates (104 ∷ []) (97 ∷ []) three_clients 0)
    × ((sends : List (ℕ × List ℕ))
        → send_to_all dates (104 ∷ []) (97 ∷ []) three_clients 0 ≡ some sends
        → ((k fd : ℕ) (text : List ℕ)
            → get_elem? sends k ≡ some (fd, text)
            → Addressed dates (104 ∷ []) (97 ∷ []) three_clients 0 fd text)
          × ((j : ℕ) (c : ClientInfo)
              → get_elem? three_clients j ≡ some c
              → IsReached (97 ∷ []) c
              → (k : ℕ) × (get_elem? sends k
                  ≡ some (c.socket_fd, compose (dates (0 + j)) (97 ∷ []) (104 ∷ [])))))
send_to_all_lem_example = send_to_all_lem dates (104 ∷ []) (97 ∷ []) three_clients

double_close_never_repaired_example :
    (t : System) × Steps
      (record {
        chat = record { clients = three_clients; num_clients = pos 2; sent = [] };
        threads = Thread.stopping 0 ∷ Thread.closing 0 ∷ [];
      })
      t
    × ((u : System)
        → Steps t u
        → record { clients = three_clients; num_clients = pos 2; sent = [] } ≺ u.chat)
double_close_never_repaired_example =
    double_close_never_repaired (record { clients = three_clients; num_clients = pos 2; sent = [] })
      0 [] [] []

-- After `n` clients more, all of one name, on socket 4.
abbrev fill : ℕ → System → System
fill zero s = s
fill (suc n) s =
    let (accepted, chat') = accept_client 4 (97 ∷ []) s.chat in
    fill n (record { chat = chat'; threads = s.threads ++ handlers accepted chat'.clients })

fill-Steps : (n : ℕ) (s : System) → Steps s (fill n s)
fill-Steps zero s = Steps.done
fill-Steps (suc n) s = Steps.step (Step.accepts 4 (97 ∷ [])) (fill-Steps n _)

refused_only_when_full_example :
    (length ((fill 10 system_start).chat.clients) ≡ max_clients)
    × ((i : ℕ) (c : ClientInfo)
        → get_elem? ((fill 10 system_start).chat.clients) i ≡ some c
        → c.active ≡ true)
unfolding accept_client
refused_only_when_full_example =
    refused_only_when_full {s = fill 10 system_start} 9 (98 ∷ []) (fill-Steps 10 system_start) refl

never_filled : type_lines 1 [] none ≡ none
unfolding type_lines
never_filled = refl

no_connection :
    main_client (record { socket = true; address = true; connects = false }) (97 ∷ []) 3 [] true
    ≡ Client.exited 1 (Effect.closed ∷ [])
unfolding main_client
no_connection = refl

server_closes :
    receive_messages (some (104 ∷ []) ∷ some alive ∷ some [] ∷ some (105 ∷ []) ∷ []) []
    ≡ Receiver.ended (Reply.printed (104 ∷ []) ∷ Reply.answered ∷ [])
unfolding receive_messages
server_closes = refl

-- "2ALL h", and then "2ONE b h".
abbrev two_orders : List Order
two_orders = Order.all (104 ∷ []) ∷ Order.one 98 [] (104 ∷ []) ∷ []

session-parse_example :
    (texts : List (List ℕ)) × (main_client ready
        (97 ∷ [])
        2
        (typed_text (map order_text two_orders))
        true
      ≡ Client.exited 0 (
          (Effect.sent (97 ∷ []) ∷ map Effect.sent texts)
          ++ Effect.sent stop_text ∷ Effect.closed ∷ []))
    × (map parse texts ≡ map order_command two_orders)
    × (parse stop_text ≡ Command.stop_client)
session-parse_example = session-parse (97 ∷ []) two_orders (
  (((λ e. omega arith), (λ e. omega arith), tt), omega arith),
  (
    (
      ((λ e. omega arith), refl, tt),
      omega arith,
      ((λ e. omega arith), (λ e. omega arith), tt),
      omega arith,
    ),
    tt,
  ),
)

false_ne_true : false ≡ true → ⊥
false_ne_true e = ground arith

-- "anna" has left the first slot.
abbrev anna_left : Chat
anna_left = record {
  clients =
      record { socket_fd = 4; name = b'a' ∷ b'n' ∷ b'n' ∷ b'a' ∷ []; active = false }
      ∷ client 5 98 true
      ∷ [];
  num_clients = pos 1;
  sent = [];
}

abbrev ewa : List ℕ
ewa = b'e' ∷ b'w' ∷ b'a' ∷ []

-- "ewa" joins, and is entered as "ewaa".
shorter_name_unreachable_example :
    let (accepted, chat') = accept_client 6 ewa anna_left in
    (accepted ≡ Accepted.joined 0)
    × (chat'.clients
        ≡ set anna_left.clients 0
            (record { socket_fd = 6; name = ewa ++ b'a' ∷ []; active = true }))
    × (send_to_one dates (104 ∷ []) (98 ∷ []) ewa chat'.clients 0 ≡ some [])
shorter_name_unreachable_example =
    shorter_name_unreachable 6 0 ewa anna_left dates (104 ∷ []) (98 ∷ []) refl refl (omega arith)
      ((λ active. absurd (false_ne_true active)), ((λ active e. ground arith), tt))

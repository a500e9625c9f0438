-- ===== src/SocketChat/Threads.antt =====
-- The threads of cw11/server.c: `client_handler`, `check_alive`, `alive_checker`, and the loop of
-- `main`, interleaved at the sections under `clients_mutex`.
use systemy_operacyjne_agh.Prelude.{
  ℕ, suc, ◌≡◌, ◌≢◌, true, false, Option, none, some, List, [], ◌∷◌, ◌++◌, get_elem?, if◌then◌else◌,
}
use systemy_operacyjne_agh.SocketChat.Table.{
  ClientInfo, Chat, chat_start, Accepted, accept_client, remove_client, send_to_all, send_to_one,
  list_heading, list_names, name_at, put, then_send,
}
use systemy_operacyjne_agh.SocketChat.Command.{Command, parse}

-- A handler waits in `recv`, has read a command that it has not yet carried out, or has closed its
-- socket after STOP. A checker waits for an answer, or has closed the socket of a client that gave
-- none. `client_index` is the number of the slot.
pub data Thread : Type 0 where
  receiving : ℕ → List ℕ → Thread
  commanded : ℕ → List ℕ → Command → Thread
  stopping : ℕ → Thread
  checking : ℕ → Thread
  closing : ℕ → Thread

-- What a command sends, to be carried out under the lock; `none` if a buffer is overrun.
unfoldable pub answer : (ℕ → List ℕ) → ℕ → List ℕ → Command → Chat → Option (List (ℕ × List ℕ))
answer ctime client_index client_name (Command.to_all message) chat =
    send_to_all ctime message client_name chat.clients 0
answer ctime client_index client_name (Command.to_one recipient_name message) chat =
    send_to_one ctime message client_name recipient_name chat.clients 0
answer ctime client_index client_name Command.list_clients chat =
    elim (get_elem? chat.clients client_index) [
      | none ↦ none
      | some c ↦ then_send c.socket_fd (put (list_heading ++ list_names chat.clients)) (some [])
    ]
answer ctime client_index client_name Command.stop_client chat = some []
answer ctime client_index client_name Command.other chat = some []
answer ctime client_index client_name Command.undefined chat = none

-- A step of one thread: the chat after it, and the thread, or `none` if it ends.
pub data Move : Chat → Thread → Chat → Option Thread → Type 0 where
  -- `recv` returned, and the slot is no longer active
  disconnected :
      {chat : Chat} {i : ℕ} {name : List ℕ} {c : ClientInfo}
      → get_elem? chat.clients i ≡ some c
      → c.active ≡ false
      → Move chat (Thread.receiving i name) chat none
  -- `recv` failed, as it does after a second without a message
  timed_out :
      {chat : Chat} {i : ℕ} {name : List ℕ} {c : ClientInfo}
      → get_elem? chat.clients i ≡ some c
      → c.active ≡ true
      → Move chat (Thread.receiving i name) chat (some (Thread.receiving i name))
  received :
      {chat : Chat} {i : ℕ} {name : List ℕ} {c : ClientInfo}
      → (bytes : List ℕ) → get_elem? chat.clients i ≡ some c
      → c.active ≡ true
      → Move chat (Thread.receiving i name) chat (some (Thread.commanded i name (parse bytes)))
  stops :
      {chat : Chat} {i : ℕ} {name : List ℕ}
      → Move chat (Thread.commanded i name Command.stop_client) chat (some (Thread.stopping i))
  answers :
      {chat : Chat} {i : ℕ} {name : List ℕ} {command : Command}
      → (ctime : ℕ → List ℕ) → (sends : List (ℕ × List ℕ)) → command ≢ Command.stop_client
      → answer ctime i name command chat ≡ some sends
      → Move chat
          (Thread.commanded i name command)
          (record chat { sent = chat.sent ++ sends })
          (some (Thread.receiving i name))
  handler_removes :
      {chat : Chat} {i : ℕ} → Move chat (Thread.stopping i) (remove_client i chat) none
  alive : {chat : Chat} {i : ℕ} → Move chat (Thread.checking i) chat none
  silent : {chat : Chat} {i : ℕ} → Move chat (Thread.checking i) chat (some (Thread.closing i))
  checker_removes : {chat : Chat} {i : ℕ} → Move chat (Thread.closing i) (remove_client i chat) none

-- A checker for each active slot of the rest of the table.
abbrev pub checkers : List ClientInfo → ℕ → List Thread
checkers [] i = []
checkers (c ∷ clients) i =
    let rest = checkers clients (suc i) in if c.active then Thread.checking i ∷ rest else rest

pub record System : Type 0 where
  pub chat : Chat
  pub threads : List Thread

abbrev pub system_start : System
system_start = record { chat = chat_start; threads = [] }

-- `pthread_create`, for a client that is served.
abbrev pub handlers : Accepted → List ClientInfo → List Thread
handlers Accepted.refused clients = []
handlers (Accepted.joined i) clients = Thread.receiving i (name_at clients i) ∷ []
handlers Accepted.dropped clients = []

abbrev pub still_running : Option Thread → List Thread
still_running none = []
still_running (some thread) = thread ∷ []

pub data Step : System → System → Type 0 where
  accepts :
      {s : System}
      → (fd : ℕ) → (name : List ℕ)
      → Step s (
          let (accepted, chat') = accept_client fd name s.chat in
          record { chat = chat'; threads = s.threads ++ handlers accepted chat'.clients })
  checks : {s : System} → Step s (record s { threads = s.threads ++ checkers s.chat.clients 0 })
  moves :
      {chat chat' : Chat} {thread : Thread} {after : Option Thread}
      → (front back : List Thread) → Move chat thread chat' after
      → Step
          (record { chat = chat; threads = front ++ thread ∷ back })
          (record { chat = chat'; threads = front ++ (still_running after ++ back) })

pub data Steps : System → System → Type 0 where
  done : {s : System} → Steps s s
  step : {s t u : System} → Step s t → Steps t u → Steps s u

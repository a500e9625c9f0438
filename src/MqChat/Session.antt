-- ===== src/MqChat/Session.antt =====
-- A visit of a client of cw7: what the parent of cw7/client.c sends, as cw7/server.c handles it.
use systemy_operacyjne_agh.Prelude.{
  ℕ, ◌≡◌, ◌≤◌, refl, sym, ap, ◌∙◌, Bool, true, false, Option, none, some, List, [], ◌∷◌, ◌++◌,
  length, arith, map, le→leb, append_assoc, append-nil, set, get_elem?, replicate, ap₂,
}
use mathlib.Core.Path.{subst}
use systemy_operacyjne_agh.Prelude.Int.{ℤ, pos}
use systemy_operacyjne_agh.MqChat.Message.{
  MessageType, goodbye, Message, Event, System, identifier_message, end_message,
}
use systemy_operacyjne_agh.MqChat.Server.{
  Server, Result, handle, handle_init, Turn, serve, find_free, broadcast,
}
use systemy_operacyjne_agh.MqChat.Table.{
  IsFirstFree, handle_stop-used, find_free-IsFirstFree, get_elem?-IsFirstFree, get_elem?-set,
  set-set_self,
}
use systemy_operacyjne_agh.MqChat.Counts.{same, held}
use systemy_operacyjne_agh.MqChat.Routing.{sent_to, sent_to-append, sent_to-broadcast, without}
use systemy_operacyjne_agh.MqChat.Client.{
  init_message, word_message, stop_message, max_message_size, Scan, Typed, Sender, talk, parent,
}

-- A turn in which a word is typed and sent.
abbrev pub typed : List ℕ → Typed
typed w = record { scan = Scan.word w; sends = true; interrupted = false }

abbrev pub Fits : List (List ℕ) → Type 0
Fits [] = Unit {0}
Fits (w ∷ words) = (length w ≤ max_message_size) × Fits words

-- Without errors the parent sends a MESSAGE for each word in order; after the word at which the
-- signal comes it sends STOP and ends.
talk-typed :
    (client_id : ℤ) (words : List (List ℕ)) (last : List ℕ) (msgs : List Message)
    → Fits words
    → length last ≤ max_message_size
    → talk client_id true
        (map typed words ++ record { scan = Scan.word last; sends = true; interrupted = true } ∷ [])
        msgs
      ≡ Sender.ended (
          msgs
          ++ (map (word_message client_id) words
              ++ word_message client_id last ∷ stop_message client_id ∷ []))
unfolding talk
talk-typed client_id [] last msgs fits le = rw (le→leb (length last) max_message_size le) (
    ap Sender.ended
      (append_assoc msgs (word_message client_id last ∷ []) (stop_message client_id ∷ [])))
talk-typed client_id (w ∷ words) last msgs (le_w, fits) le =
    rw (le→leb (length w) max_message_size le_w) (
      talk-typed client_id words last (msgs ++ word_message client_id w ∷ []) fits le
      ∙ ap Sender.ended (append_assoc msgs (word_message client_id w ∷ []) _))

-- The turns of the server in which it receives the messages.
abbrev pub receiving : System → List Message → List Turn
receiving system = map (λ msg. record { received = some msg; system = system; interrupted = false })

serve-ok :
    (system : System) (msg : Message) (more : List Turn) (buffer : Option Message) (s s' : Server)
    → handle system msg s ≡ Result.ok s'
    → serve (record { received = some msg; system = system; interrupted = false } ∷ more) buffer s
      ≡ serve more (some msg) s'
unfolding serve
serve-ok system msg more buffer s s' e = rw (serve, e) refl

-- The words as messages of the client, each `k` times in a row.
abbrev pub words_sent : ℕ → ℤ → List (List ℕ) → List Message
words_sent k client_id [] = []
words_sent k client_id (w ∷ words) =
    replicate k (record { type = MessageType.message; client_id = client_id; text = w })
    ++ words_sent k client_id words

handle_words :
    (system : System) (id : ℕ) (words : List (List ℕ)) (more : List Turn) (buffer : Option Message)
    (s : Server)
    → (buffer' : Option Message) × (s' : Server) × (serve
          (receiving system (map (word_message (pos id)) words) ++ more)
          buffer
          s
        ≡ serve more buffer' s')
      × (s'.clients ≡ s.clients)
      × ((c : ℕ)
          → sent_to c s'.log
            ≡ sent_to c s.log ++ words_sent (held c (without s.clients (pos id))) (pos id) words)
unfolding serve handle
handle_words system id [] more buffer s =
    (buffer, s, refl, refl, λ c. sym (append-nil (sent_to c s.log)))
handle_words system id (w ∷ words) more buffer s =
    let sends = broadcast (word_message (pos id) w) s.clients 0 in
    let next : Server = record s { log = s.log ++ sends } in
    let (buffer', s', runs, table, log) =
      handle_words system id words more (some (word_message (pos id) w)) next in
    (
      buffer',
      s',
      serve-ok system (word_message (pos id) w)
            (receiving system (map (word_message (pos id)) words) ++ more) buffer s next refl
          ∙ runs,
      table,
      λ c.
          log c
          ∙ ap (λ l. l ++ words_sent (held c (without s.clients (pos id))) (pos id) words)
              (sent_to-append c s.log sends
                ∙ ap (λ l. sent_to c s.log ++ l)
                    (sent_to-broadcast c (word_message (pos id) w) s.clients))
          ∙ append_assoc (sent_to c s.log) _ _,
    )

-- A visit: if the system opens the client's queue and can send the goodbye, then over the messages
-- of a client that joins, sends words and stops, the server finds the first free slot for it and
-- comes back to the table from before. What each queue has been sent since is, in this order: if it
-- is the client's own, an IDENTIFIER with the number of the slot and no text; for each word in order
-- a MESSAGE with this number and the word, once for every slot that held the queue before; and if it
-- is the client's own, a STOP with the number and the goodbye.
pub visit :
    (system : System) (name : List ℕ) (words : List (List ℕ)) (more : List Turn)
    (buffer : Option Message) (s : Server) (id d n : ℕ)
    → IsFirstFree s.clients id
    → system.mq_open name ≡ some d
    → system.mq_send d (end_message id) ≡ some n
    → (s' : Server) × (serve
          (receiving system (init_message name ∷ [])
            ++ (receiving system (map (word_message (pos id)) words)
                ++ (receiving system (stop_message (pos id) ∷ []) ++ more)))
          buffer
          s
        ≡ serve more (some (stop_message (pos id))) s')
      × (s'.clients ≡ s.clients)
      × ((c : ℕ)
          → sent_to c s'.log
            ≡ ((sent_to c s.log
                  ++ replicate
                      (same c d)
                      (record { type = MessageType.identifier; client_id = pos id; text = [] }))
                ++ words_sent (held c s.clients) (pos id) words)
              ++ replicate
                  (same c d)
                  (record { type = MessageType.stop; client_id = pos id; text = goodbye }))
unfolding handle handle_init
visit system name words more buffer s id d n first opens sends =
    let slot = get_elem?-IsFirstFree s.clients id first in
    let free : find_free s.clients 0 ≡ some id =
      subst (λ j. find_free s.clients 0 ≡ some j) (omega arith)
        (find_free-IsFirstFree s.clients 0 id first) in
    let joined : Server = record {
      clients = set s.clients id (some d);
      log = s.log ++ Event.opened d ∷ Event.sent d (identifier_message id) ∷ [];
    } in
    let stopping = receiving system (stop_message (pos id) ∷ []) ++ more in
    let (buffer', talked, runs, table, log) =
      handle_words system id words stopping (some (init_message name)) joined in
    let own : get_elem? talked.clients id ≡ some (some d) =
      ap (λ t. get_elem? t id) table ∙ get_elem?-set s.clients id (some d) slot in
    let left : Server = record {
      clients = set talked.clients id none;
      log = (talked.log ++ Event.sent d (end_message id) ∷ []) ++ Event.closed d ∷ [];
    } in
    let restored = set-set_self s.clients id (some d) slot in
    (
      left,
      serve-ok system (init_message name)
            (receiving system (map (word_message (pos id)) words) ++ stopping) buffer s joined
            (rw (handle_init, free, opens) refl)
          ∙ runs
          ∙ serve-ok system (stop_message (pos id)) more buffer' talked left
              (handle_stop-used system talked id d n [] own sends),
      ap (λ t. set t id none) table ∙ restored,
      λ c.
          sent_to-append c (talked.log ++ Event.sent d (end_message id) ∷ []) (Event.closed d ∷ [])
          ∙ append-nil (sent_to c (talked.log ++ Event.sent d (end_message id) ∷ []))
          ∙ sent_to-append c talked.log (Event.sent d (end_message id) ∷ [])
          ∙ ap₂ ◌++◌
              (log c
                ∙ ap₂ ◌++◌
                    (sent_to-append c s.log
                        (Event.opened d ∷ Event.sent d (identifier_message id) ∷ [])
                      ∙ ap (λ l. sent_to c s.log ++ l)
                          (append-nil (replicate (same c d) (identifier_message id))))
                    (ap (λ t. words_sent (held c t) (pos id) words) restored))
              (append-nil (replicate (same c d) (end_message id))),
    )

-- The parent, if nothing fails: INIT with the name of its queue, a MESSAGE with its number for each
-- word in order, the last being the word that is read when the signal comes, then STOP.
pub parent-typed :
    (name : List ℕ) (client_id : ℤ) (words : List (List ℕ)) (last : List ℕ)
    → Fits words
    → length last ≤ max_message_size
    → parent
        (record {
          own_queue = true;
          server_queue = true;
          init_sends = true;
          pipe = true;
          fork = true;
        })
        name
        client_id
        true
        (map typed words ++ record { scan = Scan.word last; sends = true; interrupted = true } ∷ [])
      ≡ Sender.ended (
          init_message name
          ∷ (map (word_message client_id) words
              ++ word_message client_id last ∷ stop_message client_id ∷ []))
unfolding parent
parent-typed name client_id words last fits le =
    talk-typed client_id words last (init_message name ∷ []) fits le

-- When the input of the client ends, after any number of words, the parent reads through the null
-- pointer: it sends no STOP, so the server keeps the client's slot.
pub end_of_input_crashes :
    (client_id : ℤ) (words : List (List ℕ)) (more : List Typed) (sends interrupted : Bool)
    (msgs : List Message)
    → Fits words
    → talk client_id true
        (map typed words
          ++ record { scan = Scan.end_of_input; sends = sends; interrupted = interrupted } ∷ more)
        msgs
      ≡ Sender.crashed (msgs ++ map (word_message client_id) words)
unfolding talk
end_of_input_crashes client_id [] more sends interrupted msgs fits =
    ap Sender.crashed (sym (append-nil msgs))
end_of_input_crashes client_id (w ∷ words) more sends interrupted msgs (le, fits) =
    rw (le→leb (length w) max_message_size le) (
      end_of_input_crashes client_id words more sends interrupted
        (msgs ++ word_message client_id w ∷ []) fits
      ∙ ap Sender.crashed (append_assoc msgs (word_message client_id w ∷ []) _))

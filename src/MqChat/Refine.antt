-- ===== src/MqChat/Refine.antt =====
-- The loops of cw7/serverv.c and of cw7/server.c, side by side.
use systemy_operacyjne_agh.Prelude.{
  ℕ, ◌≡◌, refl, sym, ap, ◌∙◌, Option, none, some, List, [], ◌∷◌, ◌++◌, arith, inl, inr, Bool-cases,
  append-nil, length, true,
}
use systemy_operacyjne_agh.MqChat.Message.{MessageType, Message, System}
use systemy_operacyjne_agh.MqChat.Server.{
  Server, Result, handle, broadcast, Turn, Outcome, shutdown, serve, close_all,
}
use systemy_operacyjne_agh.MqChat.ServerV.{
  handle_v, serve_v, forget, forget_server, forget_result, SendsSucceed,
}
use systemy_operacyjne_agh.MqChat.LongType.{sendable}
use systemy_operacyjne_agh.MqChat.Size.{SameSize, handle_v-SameSize}
use systemy_operacyjne_agh.MqChat.Forget.{
  forget-append, forget-forget, same_init, same_message, same_stop, forget-again, forgets_init,
  forgets_stop,
}

handle_v-handle :
    (system : System) (msg : Message) (s : Server) (t : MessageType)
    → SendsSucceed system
    → sendable msg ≡ true
    → length s.clients ≡ 10
    → msg.type ≡ t
    → forget_result (handle_v system msg s) ≡ forget_result (handle system msg s)
unfolding handle_v handle
handle_v-handle system msg s MessageType.init h can size e =
    rw (handle_v, handle, e) (ap forget_result (same_init system msg s h size))
handle_v-handle system msg s MessageType.identifier h can size e = rw (handle_v, handle, e) refl
handle_v-handle system msg s MessageType.message h can size e =
    rw (handle_v, handle, e) (ap forget_result (same_message system msg s h can))
handle_v-handle system msg s MessageType.stop h can size e =
    rw (handle_v, handle, e) (same_stop system msg s)

handle-forget_server :
    (system : System) (msg : Message) (s : Server) (t : MessageType)
    → msg.type ≡ t
    → forget_result (handle system msg (forget_server s)) ≡ forget_result (handle system msg s)
unfolding handle
handle-forget_server system msg s MessageType.init e = rw (handle, e) (forgets_init system msg s)
handle-forget_server system msg s MessageType.identifier e =
    rw (handle, e)
      (ap (λ l. Result.ok (record { clients = s.clients; log = l })) (forget-forget s.log))
handle-forget_server system msg s MessageType.message e =
    rw (handle, e)
      (ap (λ l. Result.ok (record { clients = s.clients; log = l }))
        (forget-again s.log (broadcast msg s.clients 0)))
handle-forget_server system msg s MessageType.stop e = rw (handle, e) (forgets_stop system msg s)

-- Turns in which a message is received that could be sent, and every send of such a one succeeds.
abbrev pub IsQuiet : List Turn → Type 0
IsQuiet [] = Unit {0}
IsQuiet (t ∷ turns) =
    ((msg : Message) × (t.received ≡ some msg) × (sendable msg ≡ true))
    × SendsSucceed t.system
    × IsQuiet turns

abbrev pub forget_outcome : Outcome → Outcome
forget_outcome (Outcome.waiting msg s) = Outcome.waiting msg (forget_server s)
forget_outcome (Outcome.finished s) = Outcome.finished (forget_server s)
forget_outcome (Outcome.failed s) = Outcome.failed (forget_server s)
forget_outcome Outcome.faulted = Outcome.faulted

forget_server-shutdown : (s : Server) → forget_server (shutdown s) ≡ forget_server s
unfolding shutdown
forget_server-shutdown s =
    ap (λ l. record { clients = s.clients; log = l })
      (forget-append s.log (close_all s.clients)
        ∙ ap (λ l. forget s.log ++ l) (forget-close_all s.clients)
        ∙ append-nil (forget s.log))
  where
    forget-close_all : (clients : List (Option ℕ)) → forget (close_all clients) ≡ []
    forget-close_all [] = refl
    forget-close_all (none ∷ clients) = forget-close_all clients
    forget-close_all (some d ∷ clients) = forget-close_all clients

-- What follows a turn in which both servers handled the message.
after_turn :
    (t : Turn) (turns : List Turn) (buffer : Option Message) (msg : Message) (s s' : Server)
    (r r' : Result)
    → ((u u' : Server)
        → forget_server u ≡ forget_server u'
        → length u.clients ≡ 10
        → forget_outcome (serve_v turns (some msg) u) ≡ forget_outcome (serve turns (some msg) u'))
    → t.received ≡ some msg
    → handle_v t.system msg s ≡ r
    → handle t.system msg s' ≡ r'
    → forget_result r ≡ forget_result r'
    → length s.clients ≡ 10
    → SameSize s r
    → forget_outcome (serve_v (t ∷ turns) buffer s) ≡ forget_outcome (serve (t ∷ turns) buffer s')
unfolding serve_v serve
after_turn t turns buffer msg s s' (Result.ok u) (Result.ok u') next e at at' eq size same_size =
    let same : forget_server u ≡ forget_server u' = cc in
    elim (Bool-cases t.interrupted) [
      | inl stops ↦
          rw (serve_v, serve, e, at, at', stops)
            (ap Outcome.finished (same ∙ sym (forget_server-shutdown u')))
      | inr goes_on ↦ rw (serve_v, serve, e, at, at', goes_on) (next u u' same (same_size ∙ size))
    ]
after_turn t turns buffer msg s s' (Result.exits u) (Result.exits u') next e at at' eq size
      same_size =
    let same : forget_server u ≡ forget_server u' = cc in
    rw (serve_v, serve, e, at, at') (ap Outcome.failed same)
after_turn t turns buffer msg s s' Result.fault Result.fault next e at at' eq size same_size =
    rw (serve_v, serve, e, at, at') refl
after_turn t turns buffer msg s s' (Result.ok u) (Result.exits u') next e at at' eq size same_size =
    ground arith
after_turn t turns buffer msg s s' (Result.ok u) Result.fault next e at at' eq size same_size =
    ground arith
after_turn t turns buffer msg s s' (Result.exits u) (Result.ok u') next e at at' eq size same_size =
    ground arith
after_turn t turns buffer msg s s' (Result.exits u) Result.fault next e at at' eq size same_size =
    ground arith
after_turn t turns buffer msg s s' Result.fault (Result.ok u') next e at at' eq size same_size =
    ground arith
after_turn t turns buffer msg s s' Result.fault (Result.exits u') next e at at' eq size same_size =
    ground arith

-- The System V server refines the POSIX server: from states that differ at most in what was closed,
-- with ten entries in the table, over any turns in which a message is received that could be sent and
-- no send fails but of a message without a positive type, both come to the same result,
-- with the same table and the same queues opened and messages sent.
pub serve_v-serve :
    (turns : List Turn) (buffer : Option Message) (s s' : Server)
    → IsQuiet turns
    → length s.clients ≡ 10
    → forget_server s ≡ forget_server s'
    → forget_outcome (serve_v turns buffer s) ≡ forget_outcome (serve turns buffer s')
unfolding serve_v serve
serve_v-serve [] buffer s s' quiet size eq = ap (Outcome.waiting buffer) eq
serve_v-serve (t ∷ turns) buffer s s' ((msg, e, can), sends, quiet) size eq =
    after_turn t turns buffer msg s s' (handle_v t.system msg s) (handle t.system msg s')
      (λ u u' same size'. serve_v-serve turns (some msg) u u' quiet size' same) e refl refl
      (handle_v-handle t.system msg s msg.type sends can size refl
        ∙ sym (handle-forget_server t.system msg s msg.type refl)
        ∙ ap (λ u. forget_result (handle t.system msg u)) eq
        ∙ handle-forget_server t.system msg s' msg.type refl)
      size (handle_v-SameSize t.system msg s)

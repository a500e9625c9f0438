-- ===== src/MqChat/ClientV.antt =====
-- `main` of cw7/clientv.c: the two processes of the client on System V queues.
use systemy_operacyjne_agh.Prelude.{
  ℕ, suc, ◌≡◌, refl, ap, ◌<◌, Option, none, some, Bool, true, false, ◌&&◌, List, [], ◌∷◌, ◌++◌, map,
  length, leb, if◌then◌else◌, le→leb, arith, inl, inr, Bool-cases,
}
use systemy_operacyjne_agh.Prelude.Int.{ℤ}
use systemy_operacyjne_agh.MqChat.Message.{MessageType, Message}
use systemy_operacyjne_agh.MqChat.LongType.{sendable, not_sendable-init}
use systemy_operacyjne_agh.MqChat.Client.{
  Child, Line, show, child, max_message_size, init_message, word_message, stop_message, Scan, Typed,
  Sender, talk,
}

-- One turn of the parent's loop: what `scanf` brings, which messages `msgsnd` takes, and whether
-- the signal has come by the end of the turn.
pub record TypedV : Type 0 where
  pub scan : Scan
  pub msgsnd : Message → Bool
  pub interrupted : Bool

-- The end of `main`.
abbrev pub say_goodbye_v : ℤ → (Message → Bool) → List Message → Sender
say_goodbye_v client_id end_msgsnd msgs =
    if end_msgsnd (stop_message client_id)
    then Sender.ended (msgs ++ stop_message client_id ∷ [])
    else Sender.failed msgs

-- `while (flag)`: `memcpy` copies the zero at the end of the word as well.
unfoldable pub talk_v : ℤ → (Message → Bool) → List TypedV → List Message → Sender
talk_v client_id end_msgsnd [] msgs = Sender.typing msgs
talk_v client_id end_msgsnd (t ∷ turns) msgs =
    let go_on : List Message → Sender = λ sent.
      let rest : Sender = talk_v client_id end_msgsnd turns sent in
      if t.interrupted then say_goodbye_v client_id end_msgsnd sent else rest in
    elim t.scan [
      | Scan.word w ↦
          if leb (suc (length w)) max_message_size
          then (if t.msgsnd (word_message client_id w)
              then go_on (msgs ++ word_message client_id w ∷ [])
              else Sender.failed msgs)
          else Sender.crashed msgs
      | Scan.no_word ↦ go_on msgs
      | Scan.end_of_input ↦ Sender.crashed msgs
    ]

-- What can fail before the loops.
pub record SetupV : Type 0 where
  pub own_queue : Bool
  pub server_queue : Bool
  pub msgsnd : Message → Bool
  pub pipe : Bool
  pub fork : Bool

-- The parent, given what it reads from the pipe.
unfoldable pub parent_v : SetupV → List ℕ → ℤ → (Message → Bool) → List TypedV → Sender
parent_v setup name client_id end_msgsnd turns =
    if setup.own_queue && setup.server_queue && setup.msgsnd (init_message name)
    then (if setup.pipe && setup.fork
        then talk_v client_id end_msgsnd turns (init_message name ∷ [])
        else Sender.failed (init_message name ∷ []))
    else Sender.failed []

-- The child's `while (flag)`, until the signal: what `msgrcv` brings in each turn, `none` if it fails,
-- and whether the signal has come by its end.
unfoldable pub child_v : List (Option Message × Bool) → Child → Child
child_v [] c = c
child_v ((received, interrupted) ∷ turns) c =
    let c' : Child = elim received [
      | none ↦ c
      | some msg ↦ elim msg.type [
        | MessageType.init ↦ c
        | MessageType.identifier ↦ record {
          written = c.written ++ msg.client_id ∷ [];
          printed = c.printed ++ Line.got_identifier msg.client_id ∷ [];
        }
        | MessageType.message ↦ record c {
          printed = c.printed ++ Line.got_message msg.client_id msg.text ∷ [];
        }
        | MessageType.stop ↦ record c { printed = c.printed ++ Line.farewell msg.text ∷ [] }
      ]
    ] in
    let rest : Child = child_v turns c' in if interrupted then c' else rest

child_v-child : (turns : List (Option Message × Bool)) (c : Child) → child_v turns c ≡ child turns c
unfolding child_v child
child_v-child [] c = refl
child_v-child ((none, interrupted) ∷ turns) c =
    ap (λ r. if interrupted then c else r) (child_v-child turns c)
child_v-child ((some msg, interrupted) ∷ turns) c =
    ap (λ r. if interrupted then show msg c else r) (child_v-child turns (show msg c))

-- What `msgsnd` is documented to do: it fails for a message whose type is not positive.
abbrev pub RefusesType : (Message → Bool) → Type 0
RefusesType msgsnd = (msg : Message) → sendable msg ≡ false → msgsnd msg ≡ false

-- The System V client never joins: as `msgsnd` refuses a message whose type is not positive, `main`
-- exits with an error before any message is sent, whatever else succeeds and whatever is typed.
pub init_never_sent :
    (setup : SetupV) (name : List ℕ) (client_id : ℤ) (end_msgsnd : Message → Bool)
    (turns : List TypedV)
    → RefusesType setup.msgsnd
    → parent_v setup name client_id end_msgsnd turns ≡ Sender.failed []
unfolding parent_v
init_never_sent setup name client_id end_msgsnd turns refuses =
    rw (refuses (init_message name) (not_sendable-init name))
      (ends setup.own_queue setup.server_queue)
  where
    ends :
        (own server : Bool)
        → (if own && server && false
            then (if setup.pipe && setup.fork
                then talk_v client_id end_msgsnd turns (init_message name ∷ [])
                else Sender.failed (init_message name ∷ []))
            else Sender.failed [])
          ≡ Sender.failed []
    ends true true = refl
    ends true false = refl
    ends false true = refl
    ends false false = refl

-- Whether what is typed in a turn of `talk_v` is sent.
abbrev pub scan_sends : ℤ → (Message → Bool) → Scan → Bool
scan_sends client_id msgsnd (Scan.word w) = msgsnd (word_message client_id w)
scan_sends client_id msgsnd Scan.no_word = true
scan_sends client_id msgsnd Scan.end_of_input = true

-- The turn of cw7/client.c in which the same is typed, and is sent if it is in `t`.
abbrev pub as_posix : ℤ → TypedV → Typed
as_posix client_id t = record {
  scan = t.scan;
  sends = scan_sends client_id t.msgsnd t.scan;
  interrupted = t.interrupted;
}

-- A word fits into the message with the zero at its end.
abbrev pub ScanFits : Scan → Type 0
ScanFits (Scan.word w) = length w < max_message_size
ScanFits Scan.no_word = Unit {0}
ScanFits Scan.end_of_input = Unit {0}

abbrev pub WordsFit : List TypedV → Type 0
WordsFit [] = Unit {0}
WordsFit (t ∷ turns) = ScanFits t.scan × WordsFit turns

same_turn :
    (client_id : ℤ) (end_msgsnd : Message → Bool) (msgsnd : Message → Bool) (stops : Bool)
    (turns : List TypedV) (scan : Scan) (msgs : List Message)
    → ScanFits scan
    → ((sent : List Message)
        → talk_v client_id end_msgsnd turns sent
          ≡ talk client_id
              (end_msgsnd (stop_message client_id))
              (map (as_posix client_id) turns)
              sent)
    → talk_v client_id end_msgsnd
        (record { scan = scan; msgsnd = msgsnd; interrupted = stops } ∷ turns)
        msgs
      ≡ talk client_id
          (end_msgsnd (stop_message client_id))
          (record { scan = scan; sends = scan_sends client_id msgsnd scan; interrupted = stops }
            ∷ map (as_posix client_id) turns)
          msgs
unfolding talk_v talk
same_turn client_id end_msgsnd msgsnd stops turns (Scan.word w) msgs fits next =
    rw
      (
        le→leb (suc (length w)) max_message_size (omega arith),
        le→leb (length w) max_message_size (omega arith),
      )
      (elim (Bool-cases (msgsnd (word_message client_id w))) [
        | inl sends ↦ rw (sends) (
            ap
              (λ r.
                if stops
                then say_goodbye_v client_id end_msgsnd (msgs ++ word_message client_id w ∷ [])
                else r)
              (next (msgs ++ word_message client_id w ∷ [])))
        | inr fails ↦ rw (fails) refl
      ])
same_turn client_id end_msgsnd msgsnd stops turns Scan.no_word msgs fits next =
    ap (λ r. if stops then say_goodbye_v client_id end_msgsnd msgs else r) (next msgs)
same_turn client_id end_msgsnd msgsnd stops turns Scan.end_of_input msgs fits next = refl

-- For words of less than 4096 bytes the parent of cw7/clientv.c does what that of cw7/client.c does
-- when the same is typed and the same can be sent.
pub talk_v-talk :
    (client_id : ℤ) (end_msgsnd : Message → Bool) (turns : List TypedV) (msgs : List Message)
    → WordsFit turns
    → talk_v client_id end_msgsnd turns msgs
      ≡ talk client_id (end_msgsnd (stop_message client_id)) (map (as_posix client_id) turns) msgs
unfolding talk_v talk
talk_v-talk client_id end_msgsnd [] msgs fit = refl
talk_v-talk client_id end_msgsnd (t ∷ turns) msgs (fits, fit) =
    same_turn client_id end_msgsnd t.msgsnd t.interrupted turns t.scan msgs fits
      (λ sent. talk_v-talk client_id end_msgsnd turns sent fit)

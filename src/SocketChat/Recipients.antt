-- ===== src/SocketChat/Recipients.antt =====
-- `send_to_all` of cw11/server.c: who gets a message, and when the buffer is too short for it.
use systemy_operacyjne_agh.Prelude.{
  ℕ, zero, suc, ◌+◌, ◌≡◌, refl, sym, ap, ap₂, ◌∙◌, not, ◌&&◌, Option, none, some, List, [], ◌∷◌,
  Bool-cases, Option-cases, inl, inr, arith, get_elem?, ◌↔◌,
}
use mathlib.Core.Path.{subst}
use systemy_operacyjne_agh.Prelude.CStrings.{eqb_bytes}
use systemy_operacyjne_agh.SocketChat.Table.{ClientInfo, compose, put, then_send, send_to_all}
use systemy_operacyjne_agh.SocketChat.Buffers.{
  IsReached, IsTooLong, reached, test_reached, then_send-some, put-some, put-none, put-IsTooLong,
}

-- The socket is that of a client, from the index `i` on, that is reached, and the text is the
-- message composed at its slot.
abbrev pub Addressed : (ℕ → List ℕ) → List ℕ → List ℕ → List ClientInfo → ℕ → ℕ → List ℕ → Type 0
Addressed ctime message sender_name clients i fd text =
    (j : ℕ) × (c : ClientInfo) × (get_elem? clients j ≡ some c)
    × IsReached sender_name c
    × (fd ≡ c.socket_fd)
    × (text ≡ compose (ctime (i + j)) sender_name message)

module _ (ctime : ℕ → List ℕ) (message sender_name : List ℕ) where
  Addressed-later :
      (c : ClientInfo) (clients : List ClientInfo) (i fd : ℕ) (text : List ℕ)
      → Addressed ctime message sender_name clients (suc i) fd text
      → Addressed ctime message sender_name (c ∷ clients) i fd text
  Addressed-later c clients i fd text (j, c', there, is_reached, same_fd, same_text) = (
    suc j,
    c',
    there,
    is_reached,
    same_fd,
    same_text ∙ ap (λ n. compose (ctime n) sender_name message) (omega arith),
  )

  sends_sound :
      (clients : List ClientInfo) (i : ℕ) (sends : List (ℕ × List ℕ)) (k fd : ℕ) (text : List ℕ)
      → send_to_all ctime message sender_name clients i ≡ some sends
      → get_elem? sends k ≡ some (fd, text)
      → Addressed ctime message sender_name clients i fd text
  unfolding send_to_all
  sends_sound [] i sends k fd text e at =
      let nothing : sends ≡ [] = cc in
      absurd (no_send k (ap (λ l. get_elem? l k) (sym nothing) ∙ at))
    where
      no_send : (k : ℕ) → get_elem? {A = ℕ × List ℕ} [] k ≡ some (fd, text) → ⊥
      no_send k e = ground arith
  sends_sound (c ∷ clients) i sends k fd text e at =
      elim (Bool-cases (c.active && not (eqb_bytes c.name sender_name))) [
        | inr passed ↦
            Addressed-later c clients i fd text
              (sends_sound clients (suc i) sends k fd text (rw (send_to_all, passed) at e) at)
        | inl hit ↦
            let (out, rest, fits, others, shape) =
              then_send-some c.socket_fd (put (compose (ctime i) sender_name message))
                (send_to_all ctime message sender_name clients (suc i)) sends
                (rw (send_to_all, hit) at e) in
            first_or_later out rest fits others k (ap (λ l. get_elem? l k) (sym shape) ∙ at)
              (reached sender_name c hit)
              (λ k' at'. sends_sound clients (suc i) rest k' fd text others at')
      ]
    where
      first_or_later :
          (out : List ℕ) (rest : List (ℕ × List ℕ))
          → put (compose (ctime i) sender_name message) ≡ some out
          → send_to_all ctime message sender_name clients (suc i) ≡ some rest
          → (k : ℕ) → get_elem? ((c.socket_fd, out) ∷ rest) k ≡ some (fd, text)
          → IsReached sender_name c
          → ((k' : ℕ)
              → get_elem? rest k' ≡ some (fd, text)
              → Addressed ctime message sender_name clients (suc i) fd text)
          → Addressed ctime message sender_name (c ∷ clients) i fd text
      first_or_later out rest fits others zero at is_reached later =
          let same_fd : fd ≡ c.socket_fd = cc in
          let same_text : text ≡ out = cc in
          (
            0,
            c,
            refl,
            is_reached,
            same_fd,
            same_text
                ∙ put-some (compose (ctime i) sender_name message) out fits
                ∙ ap (λ n. compose (ctime n) sender_name message) (omega arith),
          )
      first_or_later out rest fits others (suc k') at is_reached later =
          Addressed-later c clients i fd text (later k' at)

  sends_complete :
      (clients : List ClientInfo) (i : ℕ) (sends : List (ℕ × List ℕ)) (j : ℕ) (c : ClientInfo)
      → send_to_all ctime message sender_name clients i ≡ some sends
      → get_elem? clients j ≡ some c
      → IsReached sender_name c
      → (k : ℕ) × (get_elem? sends k
          ≡ some (c.socket_fd, compose (ctime (i + j)) sender_name message))
  unfolding send_to_all
  sends_complete [] i sends j c e at is_reached = ground arith
  sends_complete (x ∷ clients) i sends zero c e at is_reached =
      let same : x ≡ c = cc in
      let hit = test_reached sender_name x (subst (IsReached sender_name) (sym same) is_reached) in
      let (out, rest, fits, others, shape) =
        then_send-some x.socket_fd (put (compose (ctime i) sender_name message))
          (send_to_all ctime message sender_name clients (suc i)) sends
          (rw (send_to_all, hit) at e) in
      (
        0,
        ap (λ l. get_elem? l 0) shape
            ∙ ap₂ (λ fd text. some (fd, text)) (ap (λ y. y.socket_fd) same)
                (put-some (compose (ctime i) sender_name message) out fits
                  ∙ ap (λ n. compose (ctime n) sender_name message) (omega arith)),
      )
  sends_complete (x ∷ clients) i sends (suc j) c e at is_reached =
      elim (Bool-cases (x.active && not (eqb_bytes x.name sender_name))) [
        | inr passed ↦
            let (k, there) =
              sends_complete clients (suc i) sends j c (rw (send_to_all, passed) at e) at
                is_reached in
            (k, there ∙ shift c j)
        | inl hit ↦
            let (out, rest, fits, others, shape) =
              then_send-some x.socket_fd (put (compose (ctime i) sender_name message))
                (send_to_all ctime message sender_name clients (suc i)) sends
                (rw (send_to_all, hit) at e) in
            let (k, there) = sends_complete clients (suc i) rest j c others at is_reached in
            (suc k, ap (λ l. get_elem? l (suc k)) shape ∙ there ∙ shift c j)
      ]
    where
      shift :
          (c : ClientInfo) (j : ℕ)
          → ◌≡◌ {A = Option (ℕ × List ℕ)}
              (some (c.socket_fd, compose (ctime (suc i + j)) sender_name message))
              (some (c.socket_fd, compose (ctime (i + suc j)) sender_name message))
      shift c j = ap (λ n. some (c.socket_fd, compose (ctime n) sender_name message)) (omega arith)

  -- A client from the index `i` on is reached, and the message composed at its slot has no room.
  abbrev pub Overrun : List ClientInfo → ℕ → Type 0
  Overrun clients i =
      (j : ℕ) × (c : ClientInfo) × (get_elem? clients j ≡ some c)
      × IsReached sender_name c
      × IsTooLong (compose (ctime (i + j)) sender_name message)

  overruns-to :
      (clients : List ClientInfo) (i : ℕ)
      → send_to_all ctime message sender_name clients i ≡ none
      → Overrun clients i
  unfolding send_to_all
  overruns-to [] i e = ground arith
  overruns-to (c ∷ clients) i e =
      elim (Bool-cases (c.active && not (eqb_bytes c.name sender_name))) [
        | inr passed ↦ later (overruns-to clients (suc i) (rw (send_to_all, passed) at e))
        | inl hit ↦ elim (Option-cases (put (compose (ctime i) sender_name message))) [
          | inl long ↦ (
            0,
            c,
            refl,
            reached sender_name c hit,
            subst (λ n. IsTooLong (compose (ctime n) sender_name message)) (omega arith)
                (put-none (compose (ctime i) sender_name message) long),
          )
          | inr (out, fits) ↦ later (
              overruns-to clients (suc i) (
                rest_fails out (send_to_all ctime message sender_name clients (suc i))
                  (rw (send_to_all, hit, fits) at e)))
        ]
      ]
    where
      later : Overrun clients (suc i) → Overrun (c ∷ clients) i
      later (j, c', there, is_reached, long) = (
        suc j,
        c',
        there,
        is_reached,
        subst (λ n. IsTooLong (compose (ctime n) sender_name message)) (omega arith) long,
      )

      rest_fails :
          (out : List ℕ) (r : Option (List (ℕ × List ℕ)))
          → then_send c.socket_fd (some out) r ≡ none
          → r ≡ none
      rest_fails out none e = refl
      rest_fails out (some l) e = ground arith

  overruns-from :
      (clients : List ClientInfo) (i j : ℕ) (c : ClientInfo)
      → get_elem? clients j ≡ some c
      → IsReached sender_name c
      → IsTooLong (compose (ctime (i + j)) sender_name message)
      → send_to_all ctime message sender_name clients i ≡ none
  unfolding send_to_all
  overruns-from [] i j c at is_reached long = ground arith
  overruns-from (x ∷ clients) i zero c at is_reached long =
      let same : x ≡ c = cc in
      let hit = test_reached sender_name x (subst (IsReached sender_name) (sym same) is_reached) in
      rw
        (
          send_to_all,
          hit,
          put-IsTooLong (compose (ctime i) sender_name message)
              (subst (λ n. IsTooLong (compose (ctime n) sender_name message)) (omega arith) long),
        )
        refl
  overruns-from (x ∷ clients) i (suc j) c at is_reached long =
      let rest =
        overruns-from clients (suc i) j c at is_reached
          (subst (λ n. IsTooLong (compose (ctime n) sender_name message)) (omega arith) long) in
      elim (Bool-cases (x.active && not (eqb_bytes x.name sender_name))) [
        | inr passed ↦ rw passed rest
        | inl hit ↦
            rw (hit, rest) (nothing_sent x.socket_fd (put (compose (ctime i) sender_name message)))
      ]
    where
      nothing_sent : (fd : ℕ) (o : Option (List ℕ)) → then_send fd o none ≡ none
      nothing_sent fd none = refl
      nothing_sent fd (some text) = refl

  -- `send_to_all` overruns its buffer exactly if some active client with another name than the
  -- sender is there for whose slot the composed message has no room; otherwise all that it sends is
  -- the composed message to the sockets of such clients, and each of them gets it.
  pub send_to_all_lem :
      (clients : List ClientInfo)
      → ((send_to_all ctime message sender_name clients 0 ≡ none) ↔ Overrun clients 0)
        × ((sends : List (ℕ × List ℕ))
            → send_to_all ctime message sender_name clients 0 ≡ some sends
            → ((k fd : ℕ) (text : List ℕ)
                → get_elem? sends k ≡ some (fd, text)
                → Addressed ctime message sender_name clients 0 fd text)
              × ((j : ℕ) (c : ClientInfo)
                  → get_elem? clients j ≡ some c
                  → IsReached sender_name c
                  → (k : ℕ) × (get_elem? sends k
                      ≡ some (c.socket_fd, compose (ctime (0 + j)) sender_name message))))
  send_to_all_lem clients = (
    (
      overruns-to clients 0,
      λ h. let (j, c, at, is_reached, long) = h in overruns-from clients 0 j c at is_reached long,
    ),
    λ sends e. (
      λ k fd text at. sends_sound clients 0 sends k fd text e at,
      λ j c at is_reached. sends_complete clients 0 sends j c e at is_reached,
    ),
  )

-- ===== src/MqChat/Counts.antt =====
-- How often cw7/server.c opens, closes and holds a queue.
use systemy_operacyjne_agh.Prelude.{
  ℕ, zero, suc, ◌+◌, ◌≡◌, refl, ap, ◌∙◌, Bool, true, false, Option, none, some, List, [], ◌∷◌, ◌++◌,
  get_elem?, set, arith, ◌==◌, if◌then◌else◌,
}
use systemy_operacyjne_agh.MqChat.Message.{Message, Event}
use systemy_operacyjne_agh.MqChat.Server.{broadcast, close_all}

-- 1 if the descriptors are the same.
abbrev pub same : ℕ → ℕ → ℕ
same d e = if d == e then 1 else 0

-- How often the descriptor was given to a queue that was opened.
abbrev pub opens : ℕ → List Event → ℕ
opens d [] = 0
opens d (Event.opened e ∷ log) = same d e + opens d log
opens d (Event.sent e msg ∷ log) = opens d log
opens d (Event.closed e ∷ log) = opens d log

-- How often it was closed.
abbrev pub closes : ℕ → List Event → ℕ
closes d [] = 0
closes d (Event.opened e ∷ log) = closes d log
closes d (Event.sent e msg ∷ log) = closes d log
closes d (Event.closed e ∷ log) = same d e + closes d log

-- How many slots hold it.
abbrev pub held : ℕ → List (Option ℕ) → ℕ
held d [] = 0
held d (none ∷ clients) = held d clients
held d (some e ∷ clients) = same d e + held d clients

pub opens-append : (d : ℕ) (l m : List Event) → opens d (l ++ m) ≡ opens d l + opens d m
opens-append d [] m = omega arith
opens-append d (Event.opened e ∷ l) m = omega (arith, opens-append d l m)
opens-append d (Event.sent e msg ∷ l) m = opens-append d l m
opens-append d (Event.closed e ∷ l) m = opens-append d l m

pub closes-append : (d : ℕ) (l m : List Event) → closes d (l ++ m) ≡ closes d l + closes d m
closes-append d [] m = omega arith
closes-append d (Event.opened e ∷ l) m = closes-append d l m
closes-append d (Event.sent e msg ∷ l) m = closes-append d l m
closes-append d (Event.closed e ∷ l) m = omega (arith, closes-append d l m)

pub held-set-some :
    (d e : ℕ) (clients : List (Option ℕ)) (j : ℕ)
    → get_elem? clients j ≡ some none
    → held d (set clients j (some e)) ≡ same d e + held d clients
held-set-some d e [] j h = ground arith
held-set-some d e (none ∷ clients) zero h = refl
held-set-some d e (some c ∷ clients) zero h = ground arith
held-set-some d e (none ∷ clients) (suc j) h = held-set-some d e clients j h
held-set-some d e (some c ∷ clients) (suc j) h = omega (arith, held-set-some d e clients j h)

pub held-set-none :
    (d e : ℕ) (clients : List (Option ℕ)) (j : ℕ)
    → get_elem? clients j ≡ some (some e)
    → same d e + held d (set clients j none) ≡ held d clients
held-set-none d e [] j h = ground arith
held-set-none d e (none ∷ clients) zero h = ground arith
held-set-none d e (some c ∷ clients) zero h =
    let eq : e ≡ c = cc in ap (λ n. same d n + held d clients) eq
held-set-none d e (none ∷ clients) (suc j) h = held-set-none d e clients j h
held-set-none d e (some c ∷ clients) (suc j) h = omega (arith, held-set-none d e clients j h)

opens-if :
    (d : ℕ) (b : Bool) (e : ℕ) (msg : Message) (l : List Event)
    → opens d (if b then Event.sent e msg ∷ l else l) ≡ opens d l
opens-if d true e msg l = refl
opens-if d false e msg l = refl

closes-if :
    (d : ℕ) (b : Bool) (e : ℕ) (msg : Message) (l : List Event)
    → closes d (if b then Event.sent e msg ∷ l else l) ≡ closes d l
closes-if d true e msg l = refl
closes-if d false e msg l = refl

pub opens-broadcast :
    (d : ℕ) (msg : Message) (clients : List (Option ℕ)) (i : ℕ)
    → opens d (broadcast msg clients i) ≡ 0
opens-broadcast d msg [] i = refl
opens-broadcast d msg (none ∷ clients) i = opens-broadcast d msg clients (suc i)
opens-broadcast d msg (some e ∷ clients) i =
    opens-if d _ e msg (broadcast msg clients (suc i)) ∙ opens-broadcast d msg clients (suc i)

pub closes-broadcast :
    (d : ℕ) (msg : Message) (clients : List (Option ℕ)) (i : ℕ)
    → closes d (broadcast msg clients i) ≡ 0
closes-broadcast d msg [] i = refl
closes-broadcast d msg (none ∷ clients) i = closes-broadcast d msg clients (suc i)
closes-broadcast d msg (some e ∷ clients) i =
    closes-if d _ e msg (broadcast msg clients (suc i)) ∙ closes-broadcast d msg clients (suc i)

pub opens-close_all : (d : ℕ) (clients : List (Option ℕ)) → opens d (close_all clients) ≡ 0
opens-close_all d [] = refl
opens-close_all d (none ∷ clients) = opens-close_all d clients
opens-close_all d (some e ∷ clients) = opens-close_all d clients

pub closes-close_all :
    (d : ℕ) (clients : List (Option ℕ)) → closes d (close_all clients) ≡ held d clients
closes-close_all d [] = refl
closes-close_all d (none ∷ clients) = closes-close_all d clients
closes-close_all d (some e ∷ clients) = ap (λ n. same d e + n) (closes-close_all d clients)

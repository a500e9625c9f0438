-- ===== src/Spooler/Invariant/ClientAt.antt =====
-- Weights that count the clients at some points of the loop of cw8/client.c.
use systemy_operacyjne_agh.Prelude.{ℕ}
use systemy_operacyjne_agh.Spooler.Machine.{ClientPc}

-- A client that has a free place and has not used it.
abbrev pub before : ClientPc → ℕ
before ClientPc.reserved = 1
before ClientPc.entered = 1
before (ClientPc.filled _) = 1
before _ = 0

-- Among these, a client that holds the lock.
abbrev pub locked : ClientPc → ℕ
locked ClientPc.entered = 1
locked (ClientPc.filled _) = 1
locked _ = 0

abbrev pub copied : ClientPc → ℕ
copied ClientPc.copied = 1
copied _ = 0

abbrev pub advanced : ClientPc → ℕ
advanced ClientPc.advanced = 1
advanced _ = 0

abbrev pub unlocked : ClientPc → ℕ
unlocked ClientPc.unlocked = 1
unlocked _ = 0

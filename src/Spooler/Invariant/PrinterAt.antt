-- ===== src/Spooler/Invariant/PrinterAt.antt =====
-- Weights that count the printers at some points of the loop of cw8/printers.c.
use systemy_operacyjne_agh.Prelude.{ℕ}
use systemy_operacyjne_agh.Spooler.Machine.{PrinterPc}

-- A printer that has been granted a job and has not taken it.
abbrev pub before : PrinterPc → ℕ
before PrinterPc.reserved = 1
before PrinterPc.entered = 1
before _ = 0

abbrev pub locked : PrinterPc → ℕ
locked PrinterPc.entered = 1
locked _ = 0

abbrev pub copied : PrinterPc → ℕ
copied (PrinterPc.copied _) = 1
copied _ = 0

abbrev pub advanced : PrinterPc → ℕ
advanced (PrinterPc.advanced _) = 1
advanced _ = 0

abbrev pub unlocked : PrinterPc → ℕ
unlocked (PrinterPc.unlocked _) = 1
unlocked _ = 0

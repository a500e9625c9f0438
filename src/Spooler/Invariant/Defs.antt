-- ===== src/Spooler/Invariant/Defs.antt =====
-- The invariant of the spooler.
use systemy_operacyjne_agh.Prelude.{ℕ, ◌+◌, ◌%◌, ◌<◌, ◌≤◌, ◌≡◌, List, [], ◌∷◌, ◌++◌, get_or, length}
use systemy_operacyjne_agh.Prelude.Family.{total}
use systemy_operacyjne_agh.Spooler.Text.{IsTask}
use systemy_operacyjne_agh.Spooler.Machine.{Memory, ClientPc, PrinterPc, buffer_size}
use systemy_operacyjne_agh.Spooler.Window.{window}
use systemy_operacyjne_agh.Spooler.Invariant.ClientAt
use systemy_operacyjne_agh.Spooler.Invariant.PrinterAt

abbrev pub All {ℓ κ} : {A : Type ℓ} → (A → Type κ) → List A → Type κ
All P [] = Unit
All P (x ∷ xs) = P x × All P xs

-- How many processes stand where, for clients or for printers.
pub record Tally : Type 0 where
  pub before : ℕ
  pub locked : ℕ
  pub copied : ℕ
  pub advanced : ℕ
  pub unlocked : ℕ

abbrev pub clients : ℕ → (ℕ → ClientPc) → Tally
clients n c = record {
  before = total ClientAt.before n c;
  locked = total ClientAt.locked n c;
  copied = total ClientAt.copied n c;
  advanced = total ClientAt.advanced n c;
  unlocked = total ClientAt.unlocked n c;
}

abbrev pub printers : ℕ → (ℕ → PrinterPc) → Tally
printers m p = record {
  before = total PrinterAt.before m p;
  locked = total PrinterAt.locked m p;
  copied = total PrinterAt.copied m p;
  advanced = total PrinterAt.advanced m p;
  unlocked = total PrinterAt.unlocked m p;
}

-- Processes that have passed their first `sem_wait` and not reached their last `sem_post`.
abbrev pub busy : Tally → ℕ
busy t = t.before + t.copied + t.advanced + t.unlocked

-- Processes between `sem_wait(used)` and `sem_post(used)`.
abbrev pub holding : Tally → ℕ
holding t = t.locked + t.copied + t.advanced

-- Jobs in the ring: those that `full` counts, those not counted yet, those granted and not taken.
abbrev pub stored : Memory → Tally → Tally → ℕ
stored s c p = s.full + c.copied + c.advanced + c.unlocked + p.before

-- The jobs in the ring, oldest first.
abbrev pub contents : Memory → Tally → Tally → List (List ℕ)
contents s c p = window s.tasks (s.out_index + p.copied) (stored s c p)

abbrev pub ClientTask : ClientPc → Type 0
ClientTask (ClientPc.filled task) = IsTask task
ClientTask _ = Unit

abbrev pub PrinterTask : PrinterPc → Type 0
PrinterTask (PrinterPc.copied task) = IsTask task
PrinterTask (PrinterPc.advanced task) = IsTask task
PrinterTask (PrinterPc.unlocked task) = IsTask task
PrinterTask (PrinterPc.printing task) = IsTask task
PrinterTask _ = Unit

-- What the semaphores count.
pub record Counts (s : Memory) (c p : Tally) : Type 0 where
  pub slots : s.empty + s.full + busy c + busy p ≡ buffer_size
  pub lock : s.used + holding c + holding p ≡ 1
  pub in_lt : s.in_index < buffer_size
  pub out_lt : s.out_index < buffer_size
  -- `in` is as far ahead of `out` as there are jobs, but for the process that is about to move it.
  pub place : (s.in_index + c.copied) % 10 ≡ (s.out_index + p.copied + stored s c p) % 10
  pub client_locked : c.locked ≤ c.before
  pub printer_locked : p.locked ≤ p.before

-- What the ring holds.
pub record Holds (s : Memory) (c p : Tally) : Type 0 where
  pub size : length s.tasks ≡ buffer_size
  pub rows : (i : ℕ) → i < buffer_size → length (get_or s.tasks i []) ≡ 11
  pub fifo : s.sent ≡ s.taken ++ contents s c p
  pub jobs : All (λ w. length w ≡ 10) s.sent

pub record Inv (n m : ℕ) (s : Memory) (c : ℕ → ClientPc) (p : ℕ → PrinterPc) : Type 0 where
  pub counts : Counts s (clients n c) (printers m p)
  pub holds : Holds s (clients n c) (printers m p)
  pub client_task : (i : ℕ) → ClientTask (c i)
  pub printer_task : (i : ℕ) → PrinterTask (p i)

pub All-snoc {ℓ κ} :
    {A : Type ℓ} (P : A → Type κ) (xs : List A) (a : A) → All P xs → P a → All P (xs ++ (a ∷ []))
All-snoc P [] a h k = (k, tt)
All-snoc P (x ∷ xs) a h k = (h.0, All-snoc P xs a h.1 k)

pub All-middle {ℓ κ} :
    {A : Type ℓ} (P : A → Type κ) (xs : List A) (a : A) (ys : List A) → All P (xs ++ a ∷ ys) → P a
All-middle P [] a ys h = h.0
All-middle P (x ∷ xs) a ys h = All-middle P xs a ys h.1

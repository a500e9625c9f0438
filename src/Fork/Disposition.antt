-- ===== src/Fork/Disposition.antt =====
-- cw5/zadanie1/SIGUSR1.c: what becomes of SIGUSR1 under the disposition that the argument names.
use systemy_operacyjne_agh.Prelude.{
  ℕ, Bool, true, false, List, [], ◌∷◌, ◌++◌, if◌then◌else◌, ◌&&◌, not,
}
use systemy_operacyjne_agh.Prelude.CStrings.{eqb_bytes}

pub data Disposition : Type 0 where
  default : Disposition
  ignore : Disposition
  handler : Disposition

pub data Line : Type 0 where
  received : Line  -- by `handlerFunction`
  blocked : Line
  not_blocked : Line

-- The process: its disposition for SIGUSR1, whether it blocks it, whether one is pending, and what it
-- has printed.
pub record Process : Type 0 where
  pub disposition : Disposition
  pub blocks : Bool
  pub pending : Bool
  pub output : List Line

-- The process goes on, or has been killed.
pub data Run : Type 0 where
  alive : Process → Run
  killed : List Line → Run

-- A signal that is not blocked is taken.
abbrev pub deliver : Process → Run
deliver p = elim p.disposition [
  | Disposition.default ↦ Run.killed p.output
  | Disposition.ignore ↦ Run.alive (record p { pending = false })
  | Disposition.handler ↦
      Run.alive (record p { pending = false; output = p.output ++ Line.received ∷ [] })
]

-- `raise(SIGUSR1)`: a blocked signal stays pending, on Linux also one that is ignored.
abbrev pub raise : Process → Run
raise p = if p.blocks then Run.alive (record p { pending = true }) else deliver p

-- `sigprocmask(SIG_SETMASK, …)`
abbrev pub set_mask : Bool → Process → Run
set_mask blocks p =
    let p' : Process = record p { blocks = blocks } in
    if p.pending && not blocks then deliver p' else Run.alive p'

abbrev pub and_then : Run → (Process → Run) → Run
and_then (Run.alive p) f = f p
and_then (Run.killed output) f = Run.killed output

abbrev pub none_word : List ℕ
none_word = b'n' ∷ b'o' ∷ b'n' ∷ b'e' ∷ []

abbrev pub ignore_word : List ℕ
ignore_word = b'i' ∷ b'g' ∷ b'n' ∷ b'o' ∷ b'r' ∷ b'e' ∷ []

abbrev pub handler_word : List ℕ
handler_word = b'h' ∷ b'a' ∷ b'n' ∷ b'd' ∷ b'l' ∷ b'e' ∷ b'r' ∷ []

abbrev pub mask_word : List ℕ
mask_word = b'm' ∷ b'a' ∷ b's' ∷ b'k' ∷ []

-- The chain of tests on `argv[1]`.
abbrev pub apply_argument : List ℕ → Process → Run
apply_argument argument p =
    if eqb_bytes argument none_word
    then Run.alive (record p { disposition = Disposition.default })
    else (if eqb_bytes argument ignore_word
        then Run.alive (record p { disposition = Disposition.ignore; pending = false })
        else (if eqb_bytes argument handler_word
            then Run.alive (record p { disposition = Disposition.handler })
            else (if eqb_bytes argument mask_word then set_mask true p else Run.alive p)))

-- The last test, on the set `mask`, which is what the process blocks.
abbrev pub report : Process → Run
report p =
    Run.alive
      (record p { output = p.output ++ (if p.blocks then Line.blocked else Line.not_blocked) ∷ [] })

-- `main`, with what the process has from the one before `exec`: a disposition, which is not a
-- handler, a mask and perhaps a pending signal.
unfoldable pub signal_main : List ℕ → Process → Run
signal_main argument p =
    and_then (and_then (and_then (set_mask false p) (apply_argument argument)) raise) report

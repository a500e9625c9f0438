-- ===== src/Fork/Exec.antt =====
-- cw4/zad2/descendant.c: one child, which prints and becomes `ls`, and the parent, which waits for it.
-- On a terminal, where each line is written at once.
use systemy_operacyjne_agh.Prelude.{
  ℕ, ◌+◌, ◌*◌, ◌/◌, ◌%◌, ◌≡◌, ◌↔◌, refl, Bool, true, not, Option, none, some, List, [], ◌∷◌, ◌++◌,
  ◌==◌, if◌then◌else◌, arith,
}

-- `global` and `local`, of which `fork` gives the child a copy.
pub record Variables : Type 0 where
  pub global : ℕ
  pub local : ℕ

-- How a process ends: with an exit code or by a signal.
pub data Ending : Type 0 where
  exits : (code : ℕ) → Ending
  killed : (signal : ℕ) → Ending

-- The status that `wait` stores, and `WEXITSTATUS` of it.
abbrev pub status : Ending → ℕ
status (Ending.exits code) = code % 256 * 256
status (Ending.killed signal) = signal % 128

abbrev pub wexitstatus : ℕ → ℕ
wexitstatus childStatus = childStatus / 256 % 256

pub data Line : Type 0 where
  child_process : Line
  child_pids : Line
  child_values : (local global : ℕ) → Line
  from_ls : List ℕ → Line
  parent_process : Line
  parent_pids : Line
  exit_code : (code : ℕ) → Line
  parent_values : (local global : ℕ) → Line

-- What `execl` comes to: `none` if it fails, else what `ls` writes and how it ends.
abbrev pub Exec : Type 0
Exec = Option (List ℕ × Ending)

-- What the child prints and how it ends; -1, which `main` returns when `execl` fails, is 255.
unfoldable pub child : Variables → Exec → List Line × Ending
child v execl =
    let global' = v.global + 1 in
    let local' = v.local + 1 in
    let lines = Line.child_process ∷ Line.child_pids ∷ Line.child_values local' global' ∷ [] in
    elim execl [
      | none ↦ (lines, Ending.exits 255)
      | some (text, ending) ↦ (lines ++ Line.from_ls text ∷ [], ending)
    ]

-- What is printed, and what the parent returns. `forks` is false if `fork` returns -1.
unfoldable pub exec_main : Bool → Exec → List Line × ℕ
exec_main forks execl =
    let v : Variables = record { global = 0; local = 0 } in
    let (lines, ending) = child v execl in
    let code = wexitstatus (status ending) in
    if not forks then ([], 1) else (
      lines
          ++ Line.parent_process
            ∷ Line.parent_pids
            ∷ Line.exit_code code
            ∷ Line.parent_values v.local v.global
            ∷ [],
      if not (code == 0) then 1 else 0,
    )

-- How the child ends.
abbrev pub child_ending : Exec → Ending
child_ending none = Ending.exits 255
child_ending (some (text, ending)) = ending

-- The child ended with the code 0, or by a signal.
abbrev pub LooksGood : Ending → Type 0
LooksGood (Ending.exits code) = code % 256 ≡ 0
LooksGood (Ending.killed signal) = Unit {0}

wexitstatus-status_exits : (code : ℕ) → wexitstatus (status (Ending.exits code)) ≡ code % 256
wexitstatus-status_exits code = omega arith

wexitstatus-status_killed : (signal : ℕ) → wexitstatus (status (Ending.killed signal)) ≡ 0
wexitstatus-status_killed signal = omega arith

good_iff : (ending : Ending) → (wexitstatus (status ending) ≡ 0) ↔ LooksGood ending
good_iff (Ending.exits code) = (
  (λ e. omega (arith, wexitstatus-status_exits code)),
  (λ e. omega (arith, wexitstatus-status_exits code)),
)
good_iff (Ending.killed signal) = ((λ e. tt), (λ e. wexitstatus-status_killed signal))

-- A child that a signal kills leaves the same status code as one that ends well: the parent returns 0
-- exactly if the child ended with a code that is 0 in its low eight bits, or was killed. The child
-- prints 1 for both variables, which it has counted up, and the parent prints 0 for both at its end.
pub exec_main_lem :
    (execl : Exec)
    → ((◌≡◌ {A = ℕ} ((exec_main true execl).1) 0) ↔ LooksGood (child_ending execl))
      × ((more : List Line) × ((exec_main true execl).0
            ≡ Line.child_process ∷ Line.child_pids ∷ Line.child_values 1 1 ∷ more
              ++ Line.parent_values 0 0 ∷ []))
unfolding exec_main child
exec_main_lem none = (
  ((λ e. ground arith), (λ e. ground arith)),
  (Line.parent_process ∷ Line.parent_pids ∷ Line.exit_code 255 ∷ [], refl),
)
exec_main_lem (some (text, ending)) = (
  ((λ e. (good_iff ending).0 (is_zero _ e)), (λ good. rw ((good_iff ending).1 good) refl)),
  (
    Line.from_ls text
        ∷ Line.parent_process
        ∷ Line.parent_pids
        ∷ Line.exit_code (wexitstatus (status ending))
        ∷ [],
    refl,
  ),
)
  where
    is_zero : (code : ℕ) → ◌≡◌ {A = ℕ} (if not (code == 0) then 1 else 0) 0 → code ≡ 0
    is_zero code e = ground arith

-- ===== src/Spooler/Simulation.antt =====
-- The System V spooler of cw8 against the POSIX spooler.
use systemy_operacyjne_agh.Prelude.{
  ℕ, ◌-◌, ◌<◌, ◌≡◌, refl, sym, ap, ◌∙◌, none, some, List, [], ◌∷◌, ◌++◌, take, length, leb,
  if◌then◌else◌, Bool-cases, inl, inr, arith, ◌==◌,
}
use mathlib.Core.Path.{subst}
use systemy_operacyjne_agh.Prelude.Family.{update}
use systemy_operacyjne_agh.Spooler.Text.{string, print_chars, print_chars-eq-string, IsTask}
use systemy_operacyjne_agh.Spooler.Machine.{
  Memory, System, ClientPc, PrinterPc, ClientMove, PrinterMove, Step, Reach, buffer_size,
}
use systemy_operacyjne_agh.Spooler.Invariant.Defs.{PrinterTask}
use systemy_operacyjne_agh.Spooler.Invariant.Reachable.{Reach-Inv}
use systemy_operacyjne_agh.Spooler.SystemV.{
  MemoryV, SystemV, ClientMoveV, PrinterMoveV, StepV, ReachV,
}

-- The memory with the semaphores in an array; those in the segment keep their first values.
abbrev pub memory_v : Memory → MemoryV
memory_v s = record {
  buffer = record (s.buffer) { empty = buffer_size; full = 0; used = 1 };
  semaphores = s.empty ∷ s.full ∷ s.used ∷ [];
  sent = s.sent;
  taken = s.taken;
  printed = s.printed;
}

abbrev pub system_v : System → SystemV
system_v s = record { memory = memory_v s.memory; client = s.client; printer = s.printer }

waits :
    (a : ℕ) (array : ℕ → List ℕ) {v : List ℕ}
    → (if leb 1 a then some (array (a - 1)) else none) ≡ some v
    → (0 < a) × (v ≡ array (a - 1))
waits a array e = elim (Bool-cases (leb 1 a)) [
  | inl free ↦ (ground arith, let same = rw free at e in cc)
  | inr taken ↦ let blocked = rw taken at e in ground arith
]

some_same : {v w : List ℕ} → some w ≡ some v → v ≡ w
some_same e = cc

with_array : MemoryV → List ℕ → MemoryV
with_array s v = record s { semaphores = v }

ClientMoveV-ClientMove :
    (s : Memory) {p p' : ClientPc} {t : MemoryV}
    → ClientMoveV (memory_v s) p t p'
    → (s' : Memory) × ClientMove s p s' p' × (t ≡ memory_v s')
unfolding with_array
ClientMoveV-ClientMove s (ClientMoveV.wait_empty e) =
    let (free, same) = waits s.empty (λ n. n ∷ s.full ∷ s.used ∷ []) e in
    (_, ClientMove.wait_empty free, ap (with_array (memory_v s)) same)
ClientMoveV-ClientMove s (ClientMoveV.wait_used e) =
    let (free, same) = waits s.used (λ n. s.empty ∷ s.full ∷ n ∷ []) e in
    (_, ClientMove.wait_used free, ap (with_array (memory_v s)) same)
ClientMoveV-ClientMove s (ClientMoveV.fill rand) = (s, ClientMove.fill rand, refl)
ClientMoveV-ClientMove s (ClientMoveV.put copy) = (_, ClientMove.put copy, refl)
ClientMoveV-ClientMove s ClientMoveV.advance = (_, ClientMove.advance, refl)
ClientMoveV-ClientMove s (ClientMoveV.post_used e) =
    (_, ClientMove.post_used, ap (with_array (memory_v s)) (some_same e))
ClientMoveV-ClientMove s (ClientMoveV.post_full e) =
    (_, ClientMove.post_full, ap (with_array (memory_v s)) (some_same e))

take-string : (task : List ℕ) → take (length (string task)) task ≡ string task
unfolding string
take-string [] = refl
take-string (c ∷ task) = elim (Bool-cases (c == 0)) [
  | inl end ↦ rw end refl
  | inr more ↦ rw more (ap (λ l. c ∷ l) (take-string task))
]

printed_same : (task : List ℕ) → IsTask task → take 10 task ≡ print_chars 11 task
printed_same task is_task =
    ap (λ n. take n task) (sym is_task.chars)
    ∙ take-string task
    ∙ sym (print_chars-eq-string 11 task (omega (arith, is_task.chars)))

PrinterMoveV-PrinterMove :
    (s : Memory) {p p' : PrinterPc} {t : MemoryV}
    → PrinterTask p
    → PrinterMoveV (memory_v s) p t p'
    → (s' : Memory) × PrinterMove s p s' p' × (t ≡ memory_v s')
unfolding with_array
PrinterMoveV-PrinterMove s h (PrinterMoveV.wait_full e) =
    let (free, same) = waits s.full (λ n. s.empty ∷ n ∷ s.used ∷ []) e in
    (_, PrinterMove.wait_full free, ap (with_array (memory_v s)) same)
PrinterMoveV-PrinterMove s h (PrinterMoveV.wait_used e) =
    let (free, same) = waits s.used (λ n. s.empty ∷ s.full ∷ n ∷ []) e in
    (_, PrinterMove.wait_used free, ap (with_array (memory_v s)) same)
PrinterMoveV-PrinterMove s h (PrinterMoveV.take_task junk size copy) =
    (_, PrinterMove.take_task junk size copy, refl)
PrinterMoveV-PrinterMove s h PrinterMoveV.advance = (_, PrinterMove.advance, refl)
PrinterMoveV-PrinterMove s h (PrinterMoveV.post_used e) =
    (_, PrinterMove.post_used, ap (with_array (memory_v s)) (some_same e))
PrinterMoveV-PrinterMove s h (PrinterMoveV.post_empty e) =
    (_, PrinterMove.post_empty, ap (with_array (memory_v s)) (some_same e))
PrinterMoveV-PrinterMove s h (PrinterMoveV.print {task = task}) = (
  _,
  PrinterMove.print,
  ap (λ w. record (memory_v s) { printed = s.printed ++ (w ∷ []) }) (printed_same task h),
)

StepV-Step :
    {n m : ℕ} (s : System) {t : SystemV}
    → ((i : ℕ) → PrinterTask (s.printer i))
    → StepV n m (system_v s) t
    → (s' : System) × Step n m s s' × (t ≡ system_v s')
StepV-Step s tasks (StepV.client_step i {p = p} lt move) =
    let (memory', move', same) = ClientMoveV-ClientMove s.memory move in
    (
      _,
      Step.client_step i lt move',
      ap (λ u. record { memory = u; client = update s.client i p; printer = s.printer }) same,
    )
StepV-Step s tasks (StepV.printer_step i {p = p} lt move) =
    let (memory', move', same) = PrinterMoveV-PrinterMove s.memory (tasks i) move in
    (
      _,
      Step.printer_step i lt move',
      ap (λ u. record { memory = u; client = s.client; printer = update s.printer i p }) same,
    )

-- The System V spooler refines the POSIX spooler: each of its reachable states is a reachable state
-- of that one, with the three semaphores laid out in the array.
pub ReachV-Reach :
    {n m : ℕ} {t : SystemV} → ReachV n m t → (s : System) × Reach n m s × (t ≡ system_v s)
ReachV-Reach ReachV.start = (_, Reach.start, refl)
ReachV-Reach {n} {m} {t} (ReachV.later before step) =
    let (s, reach, same) = ReachV-Reach before in
    let (s', step', same') =
      StepV-Step s ((Reach-Inv reach).printer_task) (subst (λ u. StepV n m u t) same step) in
    (s', Reach.later reach step', same')

-- ===== src/Spooler/Jobs.antt =====
-- Where the jobs of cw8 go, from the clients through the ring to the printers.
use mathlib.Core.Logic.{ite}
use systemy_operacyjne_agh.Prelude.{
  ℕ, ◌+◌, ◌≡◌, refl, sym, ap, ◌∙◌, List, [], ◌∷◌, ◌++◌, arith, get_or, ℕ_discrete,
}
use systemy_operacyjne_agh.Prelude.Family.{update, total, total-update, total-const}
use systemy_operacyjne_agh.Spooler.Text.{string, print_chars, print_chars-eq-string, strcpy_returns}
use systemy_operacyjne_agh.Spooler.Machine.{
  Memory, PrinterPc, PrinterMove, wait_full, wait_used, take_task, advance, post_used, post_empty,
  print, System, client_step, printer_step, Reach, start, later, ClientPc, ClientMove, wait_empty,
  fill, put, post_full,
}
use systemy_operacyjne_agh.Spooler.Invariant.Defs.{PrinterTask, contents, clients, printers}
use systemy_operacyjne_agh.Spooler.Invariant.Reachable.{Reach-Inv}

string_discrete : Discrete (List ℕ)
string_discrete = hlevel ℕ_discrete

-- How often a string stands in a list.
pub count : List ℕ → List (List ℕ) → ℕ
count w [] = 0
count w (x ∷ xs) = ite (string_discrete x w) 1 0 + count w xs

pub count-append :
    (w : List ℕ) (xs ys : List (List ℕ)) → count w (xs ++ ys) ≡ count w xs + count w ys
unfolding count
count-append w [] ys = omega arith
count-append w (x ∷ xs) ys = omega (arith, count-append w xs ys)

-- A printer that has taken the string `w` and not printed it.
pub carries : List ℕ → PrinterPc → ℕ
carries w (PrinterPc.copied task) = count w (string task ∷ [])
carries w (PrinterPc.advanced task) = count w (string task ∷ [])
carries w (PrinterPc.unlocked task) = count w (string task ∷ [])
carries w (PrinterPc.printing task) = count w (string task ∷ [])
carries w _ = 0

-- What is taken and not printed is in the hands of printers.
Balanced : ℕ → Memory → (ℕ → PrinterPc) → Type 0
Balanced m s p = (w : List ℕ) → count w s.taken ≡ count w s.printed + total (carries w) m p

PrinterMove-Balanced :
    {s s' : Memory} {q q' : PrinterPc} (w : List ℕ) (before after : ℕ)
    → PrinterMove s q s' q'
    → PrinterTask q
    → after + carries w q ≡ before + carries w q'
    → count w s.taken ≡ count w s.printed + before
    → count w s'.taken ≡ count w s'.printed + after
unfolding carries
PrinterMove-Balanced w b a (wait_full g) t e h = omega arith
PrinterMove-Balanced w b a (wait_used g) t e h = omega arith
PrinterMove-Balanced {s} w b a (take_task junk {task} size copy) t e h = omega (
  arith,
  count-append w s.taken (string (get_or s.tasks s.out_index []) ∷ []),
  ap (λ x. count w (x ∷ [])) (strcpy_returns junk (get_or s.tasks s.out_index []) copy).1,
)
PrinterMove-Balanced w b a advance t e h = omega arith
PrinterMove-Balanced w b a post_used t e h = omega arith
PrinterMove-Balanced w b a post_empty t e h = omega arith
PrinterMove-Balanced {s} w b a (print {task}) t e h = omega (
  arith,
  count-append w s.printed (print_chars 11 task ∷ []),
  ap (λ x. count w (x ∷ [])) (print_chars-eq-string 11 task (omega (arith, t.chars))),
)

ClientMove-logs :
    {s s' : Memory} {q q' : ClientPc}
    → ClientMove s q s' q'
    → (s'.taken ≡ s.taken) × (s'.printed ≡ s.printed)
ClientMove-logs (wait_empty g) = (refl, refl)
ClientMove-logs (wait_used g) = (refl, refl)
ClientMove-logs (fill rand) = (refl, refl)
ClientMove-logs (put e) = (refl, refl)
ClientMove-logs advance = (refl, refl)
ClientMove-logs post_used = (refl, refl)
ClientMove-logs post_full = (refl, refl)

Reach-Balanced : {n m : ℕ} {s : System} → Reach n m s → Balanced m s.memory s.printer
unfolding Balanced
Reach-Balanced {m} start w =
    unfold count carries in
    omega (arith, total-const (carries w) m (λ _. PrinterPc.idle) (λ _. refl))
Reach-Balanced {m} (later {s} r (client_step i lt mv)) w =
    let same = ClientMove-logs mv in
    ap (count w) same.0
    ∙ Reach-Balanced r w
    ∙ ap (λ xs. count w xs + total (carries w) m s.printer) (sym same.1)
Reach-Balanced {m} (later {s} r (printer_step i {p = q} lt mv)) w =
    PrinterMove-Balanced w (total (carries w) m s.printer)
      (total (carries w) m (update s.printer i q)) mv ((Reach-Inv r).printer_task i)
      (total-update (carries w) m s.printer i q lt) (Reach-Balanced r w)

-- In every reachable state each string has been put into the ring exactly as often as it has been
-- printed, lies in the ring, or is in the hands of a printer: no job is lost or printed twice.
pub jobs_conserved :
    {n m : ℕ} {s : System}
    → Reach n m s
    → (w : List ℕ)
    → count w s.memory.sent
      ≡ count w s.memory.printed
        + count w (contents s.memory (clients n s.client) (printers m s.printer))
        + total (carries w) m s.printer
jobs_conserved {n} {m} {s} r w =
    ap (count w) ((Reach-Inv r).holds.fifo)
    ∙ count-append w s.memory.taken (contents s.memory (clients n s.client) (printers m s.printer))
    ∙ omega (arith, balanced)
  where
    balanced : count w s.memory.taken ≡ count w s.memory.printed + total (carries w) m s.printer
    balanced = unfold Balanced in Reach-Balanced r w

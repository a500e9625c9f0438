-- ===== src/Life/Startup.antt =====
-- `main` of cw9/life.c up to its loop: it creates the grids and the threads, and then fills the
-- foreground, while the threads already work.
use systemy_operacyjne_agh.Prelude.{
  ℕ, suc, ◌%◌, ◌<◌, ◌≡◌, refl, ap, ◌∙◌, arith, length, get_or, set, ◌==◌, length-set,
  get_or-set_self, get_or-set_ne, ℕ_discrete,
}
use mathlib.Core.Path.{subst}
use systemy_operacyjne_agh.Life.Grid.{cells, to_char}
use systemy_operacyjne_agh.Life.Threads.{start_index, ThreadPc, Board, Work}

-- `init_grid` has set the first `m` cells; `rand k` is the k-th `rand()`. When the last thread has
-- been created, the two grids hold any 900 chars that `malloc` handed out.
pub data Startup (n : ℕ) (rand : ℕ → ℕ) : ℕ → Board → Type 0 where
  begins :
      {s : Board}
      → length s.foreground ≡ cells
      → length s.background ≡ cells
      → ((k : ℕ) → s.thread k ≡ ThreadPc.updating (start_index n k))
      → Startup n rand 0 s
  works : {m : ℕ} {s t : Board} → Startup n rand m s → Work n s t → Startup n rand m t
  sets :
      {m : ℕ} {s : Board}
      → Startup n rand m s
      → m < cells
      → Startup n rand
          (suc m)
          (record s { foreground = set s.foreground m (to_char (rand m % 2 == 0)) })

Work-foreground : {n : ℕ} {s t : Board} → Work n s t → t.foreground ≡ s.foreground
Work-foreground (Work.write k lt at inside) = refl
Work-foreground (Work.rest k lt at le) = refl

length-foreground :
    {n : ℕ} {rand : ℕ → ℕ} {m : ℕ} {s : Board} → Startup n rand m s → length s.foreground ≡ cells
length-foreground (Startup.begins size size' starts) = size
length-foreground (Startup.works run move) =
    ap length (Work-foreground move) ∙ length-foreground run
length-foreground (Startup.sets {m = m} {s = s} run lt) =
    length-set s.foreground m _ ∙ length-foreground run

-- Whatever the threads do meanwhile, each of the cells that `init_grid` has set so far lives exactly if
-- its random number is even.
pub startup_foreground :
    {n : ℕ} {rand : ℕ → ℕ} {m : ℕ} {s : Board}
    → Startup n rand m s
    → (c : ℕ) → c < m
    → get_or s.foreground c 0 ≡ to_char (rand c % 2 == 0)
startup_foreground (Startup.begins size size' starts) c lt = absurd (omega arith)
startup_foreground (Startup.works run move) c lt =
    ap (λ g. get_or g c 0) (Work-foreground move) ∙ startup_foreground run c lt
startup_foreground {rand = rand} (Startup.sets {m = m} {s = s} run inside) c lt =
    elim (ℕ_discrete m c) [
      | yes e ↦
          subst
            (λ j.
              get_or (set s.foreground m (to_char (rand m % 2 == 0))) j 0
              ≡ to_char (rand j % 2 == 0))
            e (get_or-set_self s.foreground m _ 0 (omega (arith, length-foreground run)))
      | no e ↦ get_or-set_ne s.foreground m c _ 0 e ∙ startup_foreground run c (omega arith)
    ]

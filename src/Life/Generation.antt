-- ===== src/Life/Generation.antt =====
-- What the threads of cw9/life.c have computed once they all pause, in whatever order they ran.
use native.Mathlib.Nat.{div-add-mod}
use systemy_operacyjne_agh.Prelude.{
  ℕ, zero, suc, lt→ltb, le→ltb, ==-refl, ≢→==, ◌==◌, ◌+◌, ◌*◌, ◌≤◌, ◌<◌, ◌≡◌, ◌≢◌, refl, sym, ap,
  ◌∙◌, ◌⊎◌, inl, inr, arith, List, length, get_or, length-set, get_or-set_self, get_or-set_ne,
  list_ext, dec_lt, ℕ_discrete, ltb, if◌then◌else◌,
}
use systemy_operacyjne_agh.Life.Grid.{cells, update_grid}
use systemy_operacyjne_agh.Life.Update.{next_cell, update_grid_lem}
use systemy_operacyjne_agh.Life.Threads.{
  cells_per_thread, start_index, end_index, ThreadPc, updating, paused, Board, write_cell, Work,
  write, rest, work, signal, swap, Works, Reach,
}

-- The shares of `n` threads end within the grid.
pub shares-le : (n : ℕ) → n * cells_per_thread n ≤ cells
shares-le n = grind (arith, div-add-mod)

pub end_index-le : (n k : ℕ) → k < n → end_index n k ≤ n * cells_per_thread n
end_index-le n k h = grind arith

-- The cells of its share that a thread has written lie below this index.
abbrev reached : ℕ → ℕ → ThreadPc → ℕ
reached n k (updating i) = i
reached n k paused = end_index n k

-- An index below `n` shares of `p` lies in one of them.
find_share : (p n c : ℕ) → c < n * p → (k : ℕ) × (k < n) × (k * p ≤ c) × (c < (k + 1) * p)
find_share p zero c h = absurd (omega arith)
find_share p (suc n) c h = elim (dec_lt c (n * p)) [
  | yes below ↦ let (k, lt, from, to) = find_share p n c below in (k, omega arith, from, to)
  | no last ↦ (n, omega arith, omega arith, grind arith)
]

-- From a board `s`, with every thread at the start of its share, the threads have come to `t`.
record Inv (n : ℕ) (s t : Board) : Type 0 where
  kept : t.foreground ≡ s.foreground
  size : length t.background ≡ cells
  written :
      (k c : ℕ)
      → k < n
      → start_index n k ≤ c
      → c < reached n k (t.thread k)
      → get_or t.background c 0 ≡ next_cell s.foreground c
  outside : (c : ℕ) → n * cells_per_thread n ≤ c → get_or t.background c 0 ≡ get_or s.background c 0
  reached_le : (k : ℕ) → k < n → reached n k (t.thread k) ≤ end_index n k

-- A write puts the next generation at its index, whatever stood there.
write_cell-get :
    (i c : ℕ) (f b : List ℕ)
    → i < length b
    → get_or (write_cell i f b) c 0 ≡ (if i == c then next_cell f c else get_or b c 0)
unfolding write_cell
write_cell-get i c f b h = elim (ℕ_discrete i c) [
  | yes e ↦ rw (e, ==-refl) (get_or-set_self b c (next_cell f c) 0 (omega arith))
  | no e ↦ rw (≢→== i c e) (get_or-set_ne b i c _ 0 e)
]

length-write_cell : (i : ℕ) (f b : List ℕ) → length (write_cell i f b) ≡ length b
unfolding write_cell
length-write_cell i f b = length-set b i _

Work-Inv : {n : ℕ} {s t u : Board} → Work n t u → Inv n s t → Inv n s u
Work-Inv {n} {s} {t} (write k {i} lt at room) inv =
    let bound : i < length t.background =
      omega (arith, end_index-le n k lt, shares-le n, inv.size) in
    let get = λ (c : ℕ). write_cell-get i c t.foreground t.background bound in
    record {
      kept = inv.kept;
      size = length-write_cell i t.foreground t.background ∙ inv.size;
      written = λ j c hj from to.
          ground (arith, get c, inv.written j c hj from, ap (λ f. next_cell f c) inv.kept);
      outside = λ c h. get c ∙ rw (≢→== i c (omega (arith, end_index-le n k lt))) (inv.outside c h);
      reached_le = λ j hj. ground (arith, inv.reached_le j hj);
    }
Work-Inv {n} {s} {t} (rest k {i} lt at over) inv = record {
  kept = inv.kept;
  size = inv.size;
  written = λ j c hj from to.
      ground (arith, inv.written j c hj from, inv.reached_le j hj, inv.written k c);
  outside = inv.outside;
  reached_le = λ j hj. ground (arith, inv.reached_le j hj);
}

start-Inv :
    {n : ℕ} (s : Board)
    → length s.background ≡ cells
    → ((k : ℕ) → k < n → s.thread k ≡ updating (start_index n k))
    → Inv n s s
start-Inv {n} s size started = record {
  kept = refl;
  size = size;
  written = λ k c hk from to. ground (arith, started k hk);
  outside = λ c h. refl;
  reached_le = λ k hk. ground (arith, started k hk, share_le n k);
}
  where
    share_le : (n k : ℕ) → start_index n k ≤ end_index n k
    share_le n k = grind arith

Works-Inv : {n : ℕ} {s t : Board} → Inv n s s → Works n s t → Inv n s t
Works-Inv inv Works.here = inv
Works-Inv inv (Works.next w step) = Work-Inv step (Works-Inv inv w)

-- From a board whose background has 900 cells and whose `n` threads are at the start of their
-- shares, whatever the order of their steps: once all of them pause, each cell of the background
-- below `n` shares holds the next generation of the foreground, each cell beyond holds what it
-- held, and the foreground is unchanged.
pub generation :
    {n : ℕ} {s t : Board}
    → length s.background ≡ cells
    → ((k : ℕ) → k < n → s.thread k ≡ updating (start_index n k))
    → Works n s t
    → ((k : ℕ) → k < n → t.thread k ≡ paused)
    → (c : ℕ)
    → (t.foreground ≡ s.foreground)
      × (get_or t.background c 0 ≡ (
          if ltb c (n * cells_per_thread n)
          then next_cell s.foreground c
          else get_or s.background c 0))
generation {n} {s} {t} size started w quiet c =
    let inv = Works-Inv (start-Inv s size started) w in
    (
      inv.kept,
      elim (dec_lt c (n * cells_per_thread n)) [
        | yes below ↦
            let (k, lt, from, to) = find_share (cells_per_thread n) n c below in
            rw (lt→ltb c (n * cells_per_thread n) below)
              (inv.written k c lt from (ground (arith, quiet k lt)))
        | no beyond ↦
            rw (le→ltb c (n * cells_per_thread n) (omega arith)) (inv.outside c (omega arith))
      ],
    )

-- If moreover the shares make up the grid, the threads compute exactly what `update_grid` does.
pub threads-eq-update_grid :
    {n : ℕ} {s t : Board}
    → n * cells_per_thread n ≡ cells
    → length s.background ≡ cells
    → ((k : ℕ) → k < n → s.thread k ≡ updating (start_index n k))
    → Works n s t
    → ((k : ℕ) → k < n → t.thread k ≡ paused)
    → t.background ≡ update_grid s.foreground s.background
threads-eq-update_grid {n} {s} {t} even size started w quiet =
    let inv = Works-Inv (start-Inv s size started) w in
    list_ext t.background (update_grid s.foreground s.background) 0
      (inv.size ∙ sym (update_grid_lem s.foreground s.background 0 size (omega arith)).0)
      λ c h.
        let h' : c < cells = omega (arith, inv.size) in
        (generation size started w quiet c).1
        ∙ rw (lt→ltb c (n * cells_per_thread n) (omega arith))
            (sym (update_grid_lem s.foreground s.background c size h').1)

-- The two grids agree with `s` at index `c`, possibly swapped.
abbrev pub SameCells : ℕ → Board → Board → Type 0
SameCells c s t =
    (get_or t.foreground c 0 ≡ get_or s.foreground c 0)
      × (get_or t.background c 0 ≡ get_or s.background c 0)
    ⊎ (get_or t.foreground c 0 ≡ get_or s.background c 0)
      × (get_or t.background c 0 ≡ get_or s.foreground c 0)

write_cell-elsewhere :
    (i c : ℕ) (f b : List ℕ) → i ≢ c → get_or (write_cell i f b) c 0 ≡ get_or b c 0
unfolding write_cell
write_cell-elsewhere i c f b h = get_or-set_ne b i c _ 0 h

Work-SameCells :
    {n c : ℕ} (s : Board) {t u : Board}
    → n * cells_per_thread n ≤ c
    → Work n t u
    → SameCells c s t
    → SameCells c s u
Work-SameCells {n} {c} s {t} beyond (write k {i} lt at room) same =
    ground (
      arith,
      write_cell-elsewhere i c t.foreground t.background (omega (arith, end_index-le n k lt)),
    )
Work-SameCells s beyond (rest k lt at over) same = same

-- In no reachable state, through any signals and swaps, has a cell beyond the `n` shares changed:
-- the two grids still hold its two first values.
pub beyond_shares_never_updated :
    {n c : ℕ} {s t : Board} → n * cells_per_thread n ≤ c → Reach n s t → SameCells c s t
beyond_shares_never_updated h Reach.here = inl (refl, refl)
beyond_shares_never_updated {s} h (Reach.next r (work w)) =
    Work-SameCells s h w (beyond_shares_never_updated h r)
beyond_shares_never_updated h (Reach.next r (signal k lt at)) = beyond_shares_never_updated h r
beyond_shares_never_updated h (Reach.next r swap) = elim (beyond_shares_never_updated h r) [
  | inl (f, b) ↦ inr (b, f)
  | inr (f, b) ↦ inl (b, f)
]

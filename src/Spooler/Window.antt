-- ===== src/Spooler/Window.antt =====
-- The jobs that lie in the ring, oldest first, and what a write behind them does.
use systemy_operacyjne_agh.Prelude.{
  ℕ, zero, suc, ◌+◌, ◌%◌, ◌≤◌, ◌<◌, ◌≡◌, refl, ap, ap₂, ◌∙◌, List, [], ◌∷◌, ◌++◌, arith, get_or,
  set, length, get_or-set_self, get_or-set_ne,
}
use systemy_operacyjne_agh.Spooler.Text.{string}

-- The strings at `k` indices of the ring from `h` on, going round at ten.
abbrev pub window : List (List ℕ) → ℕ → ℕ → List (List ℕ)
window tasks h zero = []
window tasks h (suc k) = string (get_or tasks (h % 10) []) ∷ window tasks (h + 1) k

pub length-window : (tasks : List (List ℕ)) (h k : ℕ) → length (window tasks h k) ≡ k
length-window tasks h zero = refl
length-window tasks h (suc k) = ap suc (length-window tasks (h + 1) k)

-- Only the position modulo ten counts.
pub window-mod :
    (tasks : List (List ℕ)) (h h' k : ℕ) → h % 10 ≡ h' % 10 → window tasks h k ≡ window tasks h' k
window-mod tasks h h' zero e = refl
window-mod tasks h h' (suc k) e =
    ap₂ (λ j r. string (get_or tasks j []) ∷ r) e
      (window-mod tasks (h + 1) (h' + 1) k (omega arith))

window-suc :
    (tasks : List (List ℕ)) (h k i : ℕ)
    → i ≡ (h + k) % 10
    → window tasks h (suc k) ≡ window tasks h k ++ (string (get_or tasks i []) ∷ [])
window-suc tasks h zero i e = ap (λ j. string (get_or tasks j []) ∷ []) (omega arith)
window-suc tasks h (suc k) i e =
    ap (λ r. string (get_or tasks (h % 10) []) ∷ r) (window-suc tasks (h + 1) k i (omega arith))

-- `j` is the distance from `h` to the written index.
window-set_beyond :
    (tasks : List (List ℕ)) (h k j i : ℕ) (row : List ℕ)
    → i ≡ (h + j) % 10
    → k ≤ j
    → j < 10
    → window (set tasks i row) h k ≡ window tasks h k
window-set_beyond tasks h zero j i row e l b = refl
window-set_beyond tasks h (suc k) zero i row e l b = absurd (omega arith)
window-set_beyond tasks h (suc k) (suc j) i row e l b =
    ap₂ (λ s r. string s ∷ r) (get_or-set_ne tasks i (h % 10) row [] (omega arith))
      (window-set_beyond tasks (h + 1) k j i row (omega arith) (omega arith) (omega arith))

-- A job written just behind fewer than ten jobs becomes the last of them.
pub window-set :
    (tasks : List (List ℕ)) (h k i : ℕ) (row : List ℕ)
    → length tasks ≡ 10
    → i ≡ (h + k) % 10
    → k < 10
    → window (set tasks i row) h (suc k) ≡ window tasks h k ++ (string row ∷ [])
window-set tasks h k i row size e l =
    window-suc (set tasks i row) h k i e
    ∙ ap₂ (λ r s. r ++ (string s ∷ [])) (window-set_beyond tasks h k k i row e (omega arith) l)
        (get_or-set_self tasks i row [] (omega arith))

-- ===== src/Fs/Pipe/Window.antt =====
-- The bytes that lie in a circular buffer of `pipe_capacity` cells.
use zwei_os.Base.{
  ℕ, zero, suc, ◌+◌, ◌-◌, ◌%◌, ◌≤◌, ◌<◌, ◌≡◌, refl, ap, ap₂, ◌∙◌, List, [], ◌∷◌, ◌++◌, arith,
  length, get_or, set, take, drop, get_or-set_self, get_or-set_ne,
}
use zwei_os.Fs.Pipe.{pipe_capacity}

module _ (buffer : List ℕ) where
  -- The `n` bytes from index `at` on, going round at the capacity.
  abbrev pub window : ℕ → ℕ → List ℕ
  window at zero = []
  window at (suc n) = get_or buffer at 0 ∷ window ((at + 1) % pipe_capacity) n

  pub length-window : (at n : ℕ) → length (window at n) ≡ n
  length-window at zero = refl
  length-window at (suc n) = ap suc (length-window ((at + 1) % pipe_capacity) n)

  pub take-window : (at n k : ℕ) → k ≤ n → take k (window at n) ≡ window at k
  take-window at n zero h = refl
  take-window at zero (suc k) h = elim h [ ]
  take-window at (suc n) (suc k) h =
      ap (λ l. get_or buffer at 0 ∷ l) (take-window ((at + 1) % pipe_capacity) n k (omega arith))

  pub drop-window :
      (at n k : ℕ)
      → at < pipe_capacity
      → k ≤ n
      → drop k (window at n) ≡ window ((at + k) % pipe_capacity) (n - k)
  drop-window at n zero ha h = ap₂ window (omega arith) (omega arith)
  drop-window at zero (suc k) ha h = elim h [ ]
  drop-window at (suc n) (suc k) ha h =
      drop-window ((at + 1) % pipe_capacity) n k (omega arith) (omega arith)
      ∙ ap₂ window (omega arith) (omega arith)

-- Writing just past a window extends it by that byte.
pub window-set :
    (buffer : List ℕ) (x n at i : ℕ)
    → length buffer ≡ pipe_capacity
    → at < pipe_capacity
    → n < pipe_capacity
    → i ≡ (at + n) % pipe_capacity
    → window (set buffer i x) at (suc n) ≡ window buffer at n ++ (x ∷ [])
window-set buffer x zero at i hs ha hn e =
    ap (λ c. c ∷ [])
      (ap (λ j. get_or (set buffer j x) at 0) here ∙ get_or-set_self buffer at x 0 (omega arith))
  where
    here : i ≡ at
    here = omega arith
window-set buffer x (suc n) at i hs ha hn e =
    ap₂ ◌∷◌ (get_or-set_ne buffer i at x 0 (omega arith)) (
      window-set buffer x n ((at + 1) % pipe_capacity) i hs (omega arith) (omega arith)
        (omega arith))

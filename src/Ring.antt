-- ===== src/Ring.antt =====
-- Arrays that are read and written round a ring: the bytes of a pipe, the key buffer and the key events.
use mo_os.Prelude.{
  ℕ, zero, suc, ◌+◌, ◌-◌, ◌%◌, ◌≤◌, ◌<◌, ◌≡◌, refl, sym, ap, ap₂, ◌∙◌, ◌≢◌, List, [], ◌∷◌, ◌++◌,
  arith, length, get_or, set, take, drop, get_or-set_self, get_or-set_ne,
}
use native.Mathlib.Nat.{mod-add-mod, mod-eq_of_lt, mod-eq-sub-mod, mod-lt}
use native.Mathlib.Decide.{dec_lt}

module _ (size : ℕ) where
  -- The `n` items from index `h` on; an index is taken modulo the size.
  unfoldable pub window : List ℕ → ℕ → ℕ → List ℕ
  window buf h zero = []
  window buf h (suc n) = get_or buf (h % size) 0 ∷ window buf (h + 1) n

  pub length-window : (buf : List ℕ) (h n : ℕ) → length (window buf h n) ≡ n
  unfolding window
  length-window buf h zero = refl
  length-window buf h (suc n) = ap suc (length-window buf (h + 1) n)

  next_congruent : (h h' : ℕ) → h % size ≡ h' % size → (h + 1) % size ≡ (h' + 1) % size
  next_congruent h h' e =
      sym (mod-add-mod h size 1) ∙ ap (λ (x : ℕ). (x + 1) % size) e ∙ mod-add-mod h' size 1

  -- Only the index modulo the size counts.
  pub window_congruent :
      (buf : List ℕ) (h h' n : ℕ) → h % size ≡ h' % size → window buf h n ≡ window buf h' n
  unfolding window
  window_congruent buf h h' zero e = refl
  window_congruent buf h h' (suc n) e =
      ap₂ (λ x l. x ∷ l) (ap (λ (i : ℕ). get_or buf i 0) e)
        (window_congruent buf (h + 1) (h' + 1) n (next_congruent h h' e))

  -- Fewer than `size` steps lead to another place.
  step_ne : (h k : ℕ) → 0 < k → k < size → (h + k) % size ≢ h % size
  step_ne h k pos lt =
      let r_lt = mod-lt h {m = size} (omega arith) in
      let from_r = mod-add-mod h size k in
      elim (dec_lt (h % size + k) size) [
        | yes short ↦ omega (arith, mod-eq_of_lt short)
        | no round ↦ omega (
          arith,
          mod-eq-sub-mod {n = h % size + k} {m = size} (omega arith),
          mod-eq_of_lt {n = h % size + k - size} {m = size} (omega arith),
        )
      ]

  -- A write just past the items adds one behind them.
  pub window-set :
      (buf : List ℕ) (h n x i : ℕ)
      → size ≤ length buf
      → n < size
      → i ≡ (h + n) % size
      → window (set buf i x) h (suc n) ≡ window buf h n ++ (x ∷ [])
  unfolding window
  window-set buf h zero x i le lt e =
      let here : i ≡ h % size = e ∙ ap (λ (y : ℕ). y % size) (omega arith) in
      rw (← here) (
        ap (λ (y : ℕ). y ∷ [])
          (get_or-set_self buf i x 0 (let r_lt = mod-lt h {m = size} lt in omega arith)))
  window-set buf h (suc n) x i le lt e =
      ap₂ (λ y l. y ∷ l)
        (get_or-set_ne buf i (h % size) x 0
          (λ same. step_ne h (suc n) (omega arith) lt (sym e ∙ same)))
        (window-set buf (h + 1) n x i le (omega arith) (e ∙ ap (λ (y : ℕ). y % size) (omega arith)))

  -- The first items, and what is behind them.
  pub window-split :
      (buf : List ℕ) (h t n : ℕ)
      → t ≤ n
      → (take t (window buf h n) ≡ window buf h t)
        × (drop t (window buf h n) ≡ window buf (h + t) (n - t))
  unfolding window
  window-split buf h zero n le = (refl, ap₂ (λ y m. window buf y m) (omega arith) (omega arith))
  window-split buf h (suc t) zero le = absurd (omega arith)
  window-split buf h (suc t) (suc n) le =
      let (front, back) = window-split buf (h + 1) t n (omega arith) in
      (
        ap (λ l. get_or buf (h % size) 0 ∷ l) front,
        back ∙ ap₂ (λ y m. window buf y m) (omega arith) (omega arith),
      )

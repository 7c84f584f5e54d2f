-- ===== src/User/Qsort/Swaps.antt =====
-- `qsort` of src/user/libc/stdlib.c does nothing but swap pairs of items.
use mo_os.Prelude.{
  ℕ, zero, suc, ◌+◌, ◌-◌, ◌/◌, ◌≤◌, ◌<◌, inl, inr, ◌&&◌, arith, leb, ◌==◌, Bool-cases,
}
use mo_os.Libc.{Sign}
use mo_os.User.Qsort.{swap_items, is_greater, sift_loop, pass_loop, gap_loop}

module _ {ℓ} {A : Type ℓ} (count : ℕ) where
  -- Items that were swapped in pairs, all below `count`.
  pub data Swaps (items : ℕ → A) : (ℕ → A) → Type ℓ where
    as_before : Swaps items items
    one_more :
        (m : ℕ → A) (a b : ℕ)
        → a < count
        → b < count
        → Swaps items m
        → Swaps items (swap_items a b m)

  sift_loop-Swaps :
      (items m : ℕ → A) (compare : A → A → Sign) (fuel gap j : ℕ)
      → j < count
      → Swaps items m
      → Swaps items (sift_loop fuel compare gap j m)
  unfolding sift_loop
  sift_loop-Swaps items m compare zero gap j lt s = s
  sift_loop-Swaps items m compare (suc fuel) gap j lt s =
      elim (Bool-cases (leb gap j && is_greater (compare (m (j - gap)) (m j)))) [
        | inl h ↦
            rw (h, sift_loop)
              (sift_loop-Swaps items (swap_items (j - gap) j m) compare fuel gap (j - gap)
                (omega arith) (one_more m (j - gap) j (omega arith) lt s))
        | inr h ↦ rw (h, sift_loop) s
      ]

  pass_loop-Swaps :
      (items m : ℕ → A) (compare : A → A → Sign) (rounds gap i : ℕ)
      → i + rounds ≤ count
      → Swaps items m
      → Swaps items (pass_loop rounds compare gap i m)
  unfolding pass_loop
  pass_loop-Swaps items m compare zero gap i le s = s
  pass_loop-Swaps items m compare (suc rounds) gap i le s =
      pass_loop-Swaps items (sift_loop i compare gap i m) compare rounds gap (i + 1) (omega arith)
        (sift_loop-Swaps items m compare i gap i (omega arith) s)

  pub gap_loop-Swaps :
      (items m : ℕ → A) (compare : A → A → Sign) (fuel gap : ℕ)
      → gap ≤ count
      → Swaps items m
      → Swaps items (gap_loop fuel compare gap count m)
  unfolding gap_loop
  gap_loop-Swaps items m compare zero gap le s = s
  gap_loop-Swaps items m compare (suc fuel) gap le s = elim (Bool-cases (gap == 0)) [
    | inl h ↦ rw (h, gap_loop) s
    | inr h ↦
        rw (h, gap_loop)
          (gap_loop-Swaps items (pass_loop (count - gap) compare gap gap m) compare fuel (gap / 2)
            (omega arith) (pass_loop-Swaps items m compare (count - gap) gap gap (omega arith) s))
  ]

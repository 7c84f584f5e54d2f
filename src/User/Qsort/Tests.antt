-- ===== src/User/Qsort/Tests.antt =====
-- Five numbers are sorted.
use mo_os.User.Qsort.Swaps.{Swaps}
use mo_os.Prelude.{
  ℕ, ◌≤◌, ◌≡◌, refl, ◌≢◌, inl, inr, [], ◌∷◌, map, arith, ltb, ◌==◌, if◌then◌else◌, Bool-cases,
  get_or,
}
use mo_os.Libc.{Sign, less, same, greater}
use mo_os.User.Qsort.{sift_loop, pass_loop, gap_loop, qsort}
use mo_os.User.Qsort.Sorted.{InOrder, qsort-InOrder, IsOrder}

abbrev by_size : ℕ → ℕ → Sign
by_size a b = if ltb a b then less else if a == b then same else greater

by_size-le : (a b : ℕ) → by_size a b ≢ greater → a ≤ b
by_size-le a b le = elim (Bool-cases (ltb b a)) [
  | inl h ↦ absurd (le (ground arith))
  | inr h ↦ ground arith
]

by_size-IsOrder : IsOrder by_size
by_size-IsOrder = record {
  total = λ a b e e'. ground arith;
  transitive = λ a b c le le' e.
      let below = by_size-le a b le in let below' = by_size-le b c le' in ground arith;
}

abbrev shuffled : ℕ → ℕ
shuffled i = get_or (3 ∷ 1 ∷ 5 ∷ 1 ∷ 4 ∷ []) i 0

run_qsort : map (qsort by_size shuffled 5) (0 ∷ 1 ∷ 2 ∷ 3 ∷ 4 ∷ []) ≡ 1 ∷ 1 ∷ 3 ∷ 4 ∷ 5 ∷ []
unfolding qsort gap_loop pass_loop sift_loop
run_qsort = refl

qsort-InOrder_example :
    InOrder by_size 5 (qsort by_size shuffled 5) × Swaps 5 shuffled (qsort by_size shuffled 5)
qsort-InOrder_example = qsort-InOrder by_size shuffled 5 by_size-IsOrder

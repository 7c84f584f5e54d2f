-- ===== src/User/Qsort/Sorted.antt =====
-- `qsort` of src/user/libc/stdlib.c sorts.
use mo_os.Prelude.{
  ℕ, zero, suc, ◌+◌, ◌-◌, ◌/◌, ◌≤◌, ◌<◌, ◌≡◌, refl, sym, ap, ap₂, ◌∙◌, ◌≢◌, inl, inr, Bool, true,
  false, ◌&&◌, arith, ltb, leb, ◌==◌, Bool-cases,
}
use mo_os.Libc.{Sign, less, same, greater}
use mo_os.User.Qsort.Swaps.{gap_loop-Swaps, Swaps, as_before}
use mo_os.User.Qsort.{swap_items, is_greater, sift_loop, pass_loop, gap_loop, qsort}

-- Comparisons that are those of a total order.
pub record IsOrder {ℓ} {A : Type ℓ} (compare : A → A → Sign) : Type ℓ where
  pub total : (a b : A) → compare a b ≡ greater → compare b a ≢ greater
  pub transitive :
      (a b c : A) → compare a b ≢ greater → compare b c ≢ greater → compare a c ≢ greater

greater_of : (b : Bool) (s : Sign) → (b && is_greater s) ≡ true → s ≡ greater
greater_of true less e = cc
greater_of true same e = cc
greater_of true greater e = refl
greater_of false s e = cc

module _ {ℓ} {A : Type ℓ} (compare : A → A → Sign) where
  -- The items before `n` are in order.
  abbrev pub InOrder : ℕ → (ℕ → A) → Type 0
  InOrder n m = (k l : ℕ) → k < l → l < n → compare (m k) (m l) ≢ greater

  -- They are, but for the item at `j`, which may be too small for its place.
  abbrev OrderBut : ℕ → ℕ → (ℕ → A) → Type 0
  OrderBut j n m = (k l : ℕ) → k < l → l < n → l ≢ j → compare (m k) (m l) ≢ greater

  not_greater : (a a' b b' : A) → a ≡ a' → b ≡ b' → compare a' b' ≢ greater → compare a b ≢ greater
  not_greater a a' b b' left right le e = le (sym (ap₂ compare left right) ∙ e)

  swap_left : (j : ℕ) (m : ℕ → A) → swap_items j (suc j) m j ≡ m (suc j)
  swap_left j m = let here : (j == j) ≡ true = ground arith in rw here refl

  swap_right : (j : ℕ) (m : ℕ → A) → swap_items j (suc j) m (suc j) ≡ m j
  swap_right j m =
      let other : (suc j == j) ≡ false = ground arith in
      let here : (suc j == suc j) ≡ true = ground arith in rw (other, here) refl

  swap_other : (j x : ℕ) (m : ℕ → A) → x ≢ j → x ≢ suc j → swap_items j (suc j) m x ≡ m x
  swap_other j x m left right =
      let not_left : (x == j) ≡ false = ground arith in
      let not_right : (x == suc j) ≡ false = ground arith in rw (not_left, not_right) refl

  swap-OrderBut :
      (o : IsOrder compare) (j n : ℕ) (m : ℕ → A)
      → suc j < n
      → compare (m j) (m (suc j)) ≡ greater
      → OrderBut (suc j) n m
      → OrderBut j n (swap_items j (suc j) m)
  swap-OrderBut o j n m lt e but k l below inside other = elim (Bool-cases (l == suc j)) [
    | inl at_right ↦
        let is_right : l ≡ suc j = ground arith in
        let moved = ap (swap_items j (suc j) m) is_right ∙ swap_right j m in
        elim (Bool-cases (k == j)) [
          | inl at_left ↦
              let is_left : k ≡ j = ground arith in
              not_greater _ _ _ _ (ap (swap_items j (suc j) m) is_left ∙ swap_left j m) moved
                (o.total (m j) (m (suc j)) e)
          | inr h ↦
              not_greater _ _ _ _ (swap_other j k m (ground arith) (ground arith)) moved
                (but k j (ground arith) (omega arith) (omega arith))
        ]
    | inr apart ↦
        let stays = swap_other j l m other (ground arith) in
        elim (Bool-cases (k == j)) [
          | inl at_left ↦
              let is_left : k ≡ j = ground arith in
              not_greater _ _ _ _ (ap (swap_items j (suc j) m) is_left ∙ swap_left j m) stays
                (but (suc j) l (ground arith) inside (ground arith))
          | inr h ↦ elim (Bool-cases (k == suc j)) [
            | inl at_right ↦
                let is_right : k ≡ suc j = ground arith in
                not_greater _ _ _ _ (ap (swap_items j (suc j) m) is_right ∙ swap_right j m) stays
                  (but j l (omega arith) inside (ground arith))
            | inr h' ↦
                not_greater _ _ _ _ (swap_other j k m (ground arith) (ground arith)) stays
                  (but k l below inside (ground arith))
          ]
        ]
  ]

  -- The item at `j` is in its place when it is not below the one before.
  in_place :
      (o : IsOrder compare) (j n : ℕ) (m : ℕ → A)
      → OrderBut j n m
      → (0 < j → compare (m (j - 1)) (m j) ≢ greater)
      → InOrder n m
  in_place o j n m but before k l below inside = elim (Bool-cases (l == j)) [
    | inr h ↦ but k l below inside (ground arith)
    | inl h ↦
        let here : l ≡ j = ground arith in
        let step = before (omega arith) in
        not_greater _ _ _ _ refl (ap m here) (elim (Bool-cases (k == j - 1)) [
          | inl last ↦
              let is_last : k ≡ j - 1 = ground arith in not_greater _ _ _ _ (ap m is_last) refl step
          | inr earlier ↦
              o.transitive (m k) (m (j - 1)) (m j)
                (but k (j - 1) (ground arith) (omega arith) (omega arith)) step
        ])
  ]

  sift_loop-InOrder :
      (o : IsOrder compare) (fuel j n : ℕ) (m : ℕ → A)
      → j < n
      → j ≤ fuel
      → OrderBut j n m
      → InOrder n (sift_loop fuel compare 1 j m)
  unfolding sift_loop
  sift_loop-InOrder o zero j n m lt enough but =
      in_place o j n m but (λ positive. absurd (omega arith))
  sift_loop-InOrder o (suc fuel) zero n m lt enough but =
      in_place o zero n m but (λ positive. absurd (omega arith))
  sift_loop-InOrder o (suc fuel) (suc j) n m lt enough but =
      let test : leb 1 (suc j) ≡ true = ground arith in
      let one_less : suc j - 1 ≡ j = omega arith in
      elim (Bool-cases (is_greater (compare (m (suc j - 1)) (m (suc j))))) [
        | inl h ↦
            let found =
              ap (λ (x : ℕ). compare (m x) (m (suc j))) (sym one_less) ∙ greater_of true _ h in
            rw (test, sift_loop)
              (rw (h, sift_loop)
                (rw (one_less, sift_loop)
                  (sift_loop-InOrder o fuel j n (swap_items j (suc j) m) (omega arith) (omega arith)
                    (swap-OrderBut o j n m lt found but))))
        | inr h ↦
            rw (test, sift_loop)
              (rw (h, sift_loop)
                (in_place o (suc j) n m but (λ positive e. let bad = ap is_greater e in cc)))
      ]

  pass_loop-InOrder :
      (o : IsOrder compare) (rounds i : ℕ) (m : ℕ → A)
      → InOrder i m
      → InOrder (i + rounds) (pass_loop rounds compare 1 i m)
  unfolding pass_loop
  pass_loop-InOrder o zero i m sorted k l below inside = sorted k l below (omega arith)
  pass_loop-InOrder o (suc rounds) i m sorted k l below inside =
      pass_loop-InOrder o rounds (i + 1) (sift_loop i compare 1 i m)
        (sift_loop-InOrder o i i (i + 1) m (omega arith) (omega arith)
          (λ k' l' below' inside' other. sorted k' l' below' (omega arith)))
        k l below (omega arith)

  gap_loop_done : (fuel count : ℕ) (m : ℕ → A) → gap_loop fuel compare 0 count m ≡ m
  unfolding gap_loop
  gap_loop_done zero count m = refl
  gap_loop_done (suc fuel) count m = refl

  gap_loop-InOrder :
      (o : IsOrder compare) (fuel gap count : ℕ) (m : ℕ → A)
      → 0 < gap
      → gap ≤ fuel
      → gap ≤ count
      → InOrder count (gap_loop fuel compare gap count m)
  unfolding gap_loop
  gap_loop-InOrder o zero gap count m positive enough within = absurd (omega arith)
  gap_loop-InOrder o (suc fuel) gap count m positive enough within =
      let some_gap : (gap == 0) ≡ false = ground arith in
      let passed = pass_loop (count - gap) compare gap gap m in
      rw (some_gap, gap_loop)
        (elim (Bool-cases (gap == 1)) [
          | inl h ↦
              let last : gap ≡ 1 = ground arith in
              let none_left : gap / 2 ≡ 0 = omega arith in
              rw none_left (
                rw last (
                  rw (gap_loop_done fuel count (pass_loop (count - 1) compare 1 1 m))
                    (λ k l below inside.
                      pass_loop-InOrder o (count - 1) 1 m
                        (λ k' l' below' inside'. absurd (omega arith)) k l below (omega arith))))
          | inr h ↦
              gap_loop-InOrder o fuel (gap / 2) count passed (ground arith) (ground arith)
                (ground arith)
        ])

  -- `qsort` with a comparison that is a total order leaves the items below `count` in order, and it
  -- leaves the same items: it only swaps pairs of them.
  pub qsort-InOrder :
      (items : ℕ → A) (count : ℕ)
      → IsOrder compare
      → InOrder count (qsort compare items count) × Swaps count items (qsort compare items count)
  unfolding qsort
  qsort-InOrder items count o = (
    elim (Bool-cases (ltb 0 (count / 2))) [
      | inl h ↦
          gap_loop-InOrder o (count / 2) (count / 2) count items (ground arith) (omega arith)
            (omega arith)
      | inr h ↦ λ k l below inside. absurd (ground arith)
    ],
    gap_loop-Swaps count items items compare (count / 2) (count / 2) (omega arith) as_before,
  )

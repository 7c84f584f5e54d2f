-- ===== src/User/Search/Ordered.antt =====
-- What `bsearch` of src/user/libc/stdlib.c finds in items that are in order.
use mo_os.Prelude.Word.{add32}
use mo_os.Prelude.{
  ℕ, zero, suc, ◌+◌, ◌/◌, ◌^◌, ◌≤◌, ◌<◌, ◌≡◌, refl, ◌≢◌, ◌⊎◌, inl, inr, Option, none, some, arith,
  ltb, Bool-cases,
}
use mo_os.Libc.{Sign, less, same, greater}
use mo_os.User.Search.{search_loop, bsearch}

Sign-cases : (s : Sign) → (s ≡ less) ⊎ ((s ≡ same) ⊎ (s ≡ greater))
Sign-cases less = inl refl
Sign-cases same = inr (inl refl)
Sign-cases greater = inr (inr refl)

-- The result of a search: an item that is equal to the key, or nothing if there is none.
pub data SearchResult {ℓ} {A : Type ℓ} (compare : A → Sign) (items : ℕ → A) (count : ℕ)
    : Option ℕ → Type ℓ where
  at_index :
      (i : ℕ) → i < count → compare (items i) ≡ same → SearchResult compare items count (some i)
  nowhere : ((i : ℕ) → i < count → compare (items i) ≢ same) → SearchResult compare items count none

module _ {ℓ} {A : Type ℓ} (compare : A → Sign) (items : ℕ → A) (count : ℕ) where
  -- A key below an item is below all later ones, and a key above an item is above all earlier ones.
  pub record IsOrdered : Type 0 where
    pub below : (i j : ℕ) → i ≤ j → j < count → compare (items i) ≡ less → compare (items j) ≡ less
    pub above :
        (i j : ℕ) → i ≤ j → j < count → compare (items j) ≡ greater → compare (items i) ≡ greater

  -- The items outside of the range that is left are not equal to the key.
  record Outside (low high : ℕ) : Type 0 where
    pub left : (i : ℕ) → i < low → compare (items i) ≡ greater
    pub right : (i : ℕ) → high ≤ i → i < count → compare (items i) ≡ less

  none_inside :
      (low high : ℕ)
      → high ≤ low
      → Outside low high
      → (i : ℕ) → i < count
      → compare (items i) ≢ same
  none_inside low high crossed out i lt e = elim (Bool-cases (ltb i low)) [
    | inl h ↦ let g : compare (items i) ≡ greater = out.left i (ground arith) in cc
    | inr h ↦ let g : compare (items i) ≡ less = out.right i (ground arith) lt in cc
  ]

  search_loop_lem :
      (fuel low high : ℕ)
      → IsOrdered
      → count ≤ 2 ^ 31
      → high ≤ count
      → high ≤ low + fuel
      → Outside low high
      → SearchResult compare items count (search_loop fuel compare items low high)
  unfolding search_loop
  search_loop_lem zero low high ordered small within enough out =
      nowhere (none_inside low high (omega arith) out)
  search_loop_lem (suc fuel) low high ordered small within enough out =
      elim (Bool-cases (ltb low high)) [
        | inr h ↦ rw (h, search_loop) (nowhere (none_inside low high (ground arith) out))
        | inl h ↦
            let lt : low < high = ground arith in
            let no_wrap : add32 low high ≡ low + high = omega arith in
            let mid = add32 low high / 2 in
            let inside : mid < high = omega arith in
            let behind : low ≤ mid = omega arith in
            elim (Sign-cases (compare (items mid))) [
              | inl e ↦
                  rw (h, search_loop)
                    (rw (e, search_loop)
                      (search_loop_lem fuel low mid ordered small (omega arith) (omega arith)
                        (record {
                          left = out.left;
                          right = λ i from until. ordered.below mid i from until e;
                        })))
              | inr (inl e) ↦
                  rw (h, search_loop) (rw (e, search_loop) (at_index mid (omega arith) e))
              | inr (inr e) ↦
                  rw (h, search_loop)
                    (rw (e, search_loop)
                      (search_loop_lem fuel (mid + 1) high ordered small within (omega arith)
                        (record {
                          left = λ i until. ordered.above i mid (omega arith) (omega arith) e;
                          right = out.right;
                        })))
            ]
      ]

  -- On items that are in order, as many as 2^31 at most, `bsearch` ends with the index of an item that
  -- is equal to the key, or with nothing, and then no item is.
  pub bsearch-SearchResult :
      IsOrdered → count ≤ 2 ^ 31 → SearchResult compare items count (bsearch compare items count)
  unfolding bsearch
  bsearch-SearchResult ordered small =
      search_loop_lem count 0 count ordered small (omega arith) (omega arith) (record {
        left = λ i until. absurd (omega arith);
        right = λ i from until. absurd (omega arith);
      })

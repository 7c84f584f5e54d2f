-- ===== src/User/Search.antt =====
-- `bsearch` of src/user/libc/stdlib.c. `compare` is given the key and tells how it stands to an item; a
-- pointer to an item is its index.
pub mod Ordered
mod Tests
use mo_os.Prelude.{ℕ, zero, suc, ◌+◌, ◌/◌, true, false, Option, none, some, ltb}
use mo_os.Prelude.Word.{add32}
use mo_os.Libc.{Sign, less, same, greater}

-- The loop; each round leaves fewer items, so the fuel is their number.
pub search_loop {ℓ} : {A : Type ℓ} → ℕ → (A → Sign) → (ℕ → A) → ℕ → ℕ → Option ℕ
search_loop zero compare items low high = none
search_loop (suc fuel) compare items low high = elim (ltb low high) [
  | false ↦ none
  | true ↦
      let mid = add32 low high / 2 in
      elim (compare (items mid)) [
        | same ↦ some mid
        | less ↦ search_loop fuel compare items low mid
        | greater ↦ search_loop fuel compare items (mid + 1) high
      ]
]

pub bsearch {ℓ} : {A : Type ℓ} → (A → Sign) → (ℕ → A) → ℕ → Option ℕ
bsearch compare items count = search_loop count compare items 0 count

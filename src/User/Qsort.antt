-- ===== src/User/Qsort.antt =====
-- `qsort` of src/user/libc/stdlib.c, which is a shell sort. The array is the item at each index, and a
-- pointer to an item is its index.
pub mod Swaps
pub mod Sorted
mod Tests
use mo_os.Prelude.{ℕ, zero, suc, ◌+◌, ◌-◌, ◌/◌, Bool, true, false, ◌&&◌, leb, ◌==◌, if◌then◌else◌}
use mo_os.Libc.{Sign, less, same, greater}

-- `swap_bytes` of two items.
abbrev pub swap_items {ℓ} : {A : Type ℓ} → ℕ → ℕ → (ℕ → A) → ℕ → A
swap_items a b items x = if x == a then items b else if x == b then items a else items x

abbrev pub is_greater : Sign → Bool
is_greater less = false
is_greater same = false
is_greater greater = true

-- The innermost loop. A round takes `gap` from `j`, so `j` is fuel enough.
pub sift_loop {ℓ} : {A : Type ℓ} → ℕ → (A → A → Sign) → ℕ → ℕ → (ℕ → A) → ℕ → A
sift_loop zero compare gap j items = items
sift_loop (suc fuel) compare gap j items =
    elim (leb gap j && is_greater (compare (items (j - gap)) (items j))) [
      | false ↦ items
      | true ↦ sift_loop fuel compare gap (j - gap) (swap_items (j - gap) j items)
    ]

-- The loop over `i`, with the rounds that are left.
pub pass_loop {ℓ} : {A : Type ℓ} → ℕ → (A → A → Sign) → ℕ → ℕ → (ℕ → A) → ℕ → A
pass_loop zero compare gap i items = items
pass_loop (suc rounds) compare gap i items =
    pass_loop rounds compare gap (i + 1) (sift_loop i compare gap i items)

-- The loop over the gaps, which are halved; the first one is fuel enough.
pub gap_loop {ℓ} : {A : Type ℓ} → ℕ → (A → A → Sign) → ℕ → ℕ → (ℕ → A) → ℕ → A
gap_loop zero compare gap count items = items
gap_loop (suc fuel) compare gap count items = elim (gap == 0) [
  | true ↦ items
  | false ↦ gap_loop fuel compare (gap / 2) count (pass_loop (count - gap) compare gap gap items)
]

pub qsort {ℓ} : {A : Type ℓ} → (A → A → Sign) → (ℕ → A) → ℕ → ℕ → A
qsort compare items count = gap_loop (count / 2) compare (count / 2) count items

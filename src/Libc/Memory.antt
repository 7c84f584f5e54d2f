-- ===== src/Libc/Memory.antt =====
-- What the memory functions of src/libc/string/string.c leave in memory.
use mo_os.Prelude.{
  ℕ, zero, suc, ◌+◌, ◌-◌, ◌%◌, ◌≤◌, ◌<◌, ◌≡◌, refl, sym, ap, ◌∙◌, ◌≢◌, ◌↔◌, ◌⊎◌, inl, inr, ◌&&◌,
  arith, ltb, leb, ◌==◌, ltb→lt, ==_iff, Bool-cases, ==_refl,
}
use mathlib.Core.Path.{subst}
use mo_os.Libc.{
  Bytes, store, copy_up, copy_down, memcpy, memmove, set_loop, memset, compare_loop, memcmp, same,
}

-- `n` bytes from `src` on were copied to `dest`, as they were before, and all others are as they were.
pub record Copied (dest src n : ℕ) (before after : Bytes) : Type 0 where
  pub inside : (j : ℕ) → j < n → after (dest + j) ≡ before (src + j)
  pub outside : (a : ℕ) → (a < dest) ⊎ (dest + n ≤ a) → after a ≡ before a

store_self : (a v : ℕ) (m : Bytes) → store a v m a ≡ v
store_self a v m = rw (==_refl a) refl

store_ne : (a v b : ℕ) (m : Bytes) → b ≢ a → store a v m b ≡ m b
store_ne a v b m ne = elim (Bool-cases (b == a)) [
  | inl h ↦ absurd (ne ((==_iff b a).0 h))
  | inr h ↦ rw h refl
]

copy_up_outside :
    (r i dest src : ℕ) (m : Bytes) (a : ℕ)
    → (a < dest + i) ⊎ (dest + i + r ≤ a)
    → copy_up r i dest src m a ≡ m a
unfolding copy_up
copy_up_outside zero i dest src m a far = refl
copy_up_outside (suc r) i dest src m a far =
    copy_up_outside r (i + 1) dest src _ a (ground arith)
    ∙ store_ne (dest + i) (m (src + i)) a m (λ e. ground arith)

copy_up_inside :
    (r i dest src : ℕ) (m : Bytes) (j : ℕ)
    → (dest ≤ src) ⊎ (src + (i + r) ≤ dest)
    → i ≤ j
    → j < i + r
    → copy_up r i dest src m (dest + j) ≡ m (src + j)
unfolding copy_up
copy_up_inside zero i dest src m j apart le lt = absurd (omega arith)
copy_up_inside (suc r) i dest src m j apart le lt = elim (Bool-cases (i == j)) [
  | inl h ↦
      let e = (==_iff i j).0 h in
      copy_up_outside r (i + 1) dest src _ (dest + j) (inl (omega arith))
      ∙ rw (← e) (store_self (dest + i) (m (src + i)) m)
  | inr h ↦
      let above : i < j = ground arith in
      copy_up_inside r (i + 1) dest src _ j (ground arith) (omega arith) (omega arith)
      ∙ store_ne (dest + i) (m (src + i)) (src + j) m (λ e. ground arith)
]

copy_down_outside :
    (n dest src : ℕ) (m : Bytes) (a : ℕ)
    → (a < dest) ⊎ (dest + n ≤ a)
    → copy_down n dest src m a ≡ m a
unfolding copy_down
copy_down_outside zero dest src m a far = refl
copy_down_outside (suc n) dest src m a far =
    copy_down_outside n dest src _ a (ground arith)
    ∙ store_ne (dest + n) (m (src + n)) a m (λ e. ground arith)

copy_down_inside :
    (n dest src : ℕ) (m : Bytes) (j : ℕ)
    → src ≤ dest
    → j < n
    → copy_down n dest src m (dest + j) ≡ m (src + j)
unfolding copy_down
copy_down_inside zero dest src m j le lt = absurd (omega arith)
copy_down_inside (suc n) dest src m j le lt = elim (Bool-cases (n == j)) [
  | inl h ↦
      let e = (==_iff n j).0 h in
      copy_down_outside n dest src _ (dest + j) (inr (omega arith))
      ∙ rw (← e) (store_self (dest + n) (m (src + n)) m)
  | inr h ↦
      let below : j < n = ground arith in
      copy_down_inside n dest src _ j le (omega arith)
      ∙ store_ne (dest + n) (m (src + n)) (src + j) m (λ e. omega arith)
]

copy_up-Copied :
    (dest src n : ℕ) (m : Bytes)
    → (dest ≤ src) ⊎ (src + n ≤ dest)
    → Copied dest src n m (copy_up n 0 dest src m)
copy_up-Copied dest src n m apart = record {
  inside = λ j lt. copy_up_inside n 0 dest src m j (ground arith) (omega arith) (omega arith);
  outside = λ a far. copy_up_outside n 0 dest src m a (ground arith);
}

-- `memmove` copies the bytes as they were before, whether or not the two ranges overlap, and changes
-- nothing else.
pub memmove-Copied : (dest src n : ℕ) (m : Bytes) → Copied dest src n m (memmove dest src n m)
unfolding memmove
memmove-Copied dest src n m = elim (Bool-cases (ltb dest src)) [
  | inl h ↦ let below = ltb→lt dest src h in rw h (copy_up-Copied dest src n m (inl (omega arith)))
  | inr h ↦
      let above : src ≤ dest = ground arith in
      rw h (record {
        inside = λ j lt. copy_down_inside n dest src m j above lt;
        outside = λ a far. copy_down_outside n dest src m a far;
      })
]

-- `memcpy` leaves the same bytes as `memmove` where its ranges do not overlap or `dest` is not behind the
-- source; nothing is said of other ranges.
pub memcpy-memmove :
    (dest src n : ℕ) (m : Bytes) (a : ℕ)
    → (dest ≤ src) ⊎ (src + n ≤ dest)
    → memcpy dest src n m a ≡ memmove dest src n m a
unfolding memcpy
memcpy-memmove dest src n m a apart =
    let up = copy_up-Copied dest src n m apart in
    let moved = memmove-Copied dest src n m in
    elim (Bool-cases (leb dest a && ltb a (dest + n))) [
      | inl h ↦
          let le : dest ≤ a = ground arith in
          let lt : a - dest < n = ground arith in
          let here : dest + (a - dest) ≡ a = omega arith in
          subst (λ (x : ℕ). copy_up n 0 dest src m x ≡ memmove dest src n m x) here
            (up.inside (a - dest) lt ∙ sym (moved.inside (a - dest) lt))
      | inr h ↦
          let far : (a < dest) ⊎ (dest + n ≤ a) = ground arith in
          up.outside a far ∙ sym (moved.outside a far)
    ]

-- The bytes at `p` and at `q` agree.
abbrev pub Agree : ℕ → ℕ → ℕ → Bytes → Type 0
Agree n p q m = (j : ℕ) → j < n → m (p + j) ≡ m (q + j)

Agree-next : (n p q : ℕ) (m : Bytes) → Agree (suc n) p q m → Agree n (p + 1) (q + 1) m
Agree-next n p q m all j lt =
    let here = all (j + 1) (omega arith) in
    let left : p + (j + 1) ≡ p + 1 + j = omega arith in
    let right : q + (j + 1) ≡ q + 1 + j = omega arith in sym (ap m left) ∙ here ∙ ap m right

Agree-cons : (n p q : ℕ) (m : Bytes) → m p ≡ m q → Agree n (p + 1) (q + 1) m → Agree (suc n) p q m
Agree-cons n p q m first all zero lt = ap m (omega arith) ∙ first ∙ ap m (omega arith)
Agree-cons n p q m first all (suc j) lt =
    let here = all j (omega arith) in
    let left : p + suc j ≡ p + 1 + j = omega arith in
    let right : q + suc j ≡ q + 1 + j = omega arith in ap m left ∙ here ∙ sym (ap m right)

compare_loop_iff : (n p q : ℕ) (m : Bytes) → (compare_loop n p q m ≡ same) ↔ Agree n p q m
unfolding compare_loop
compare_loop_iff zero p q m = ((λ _ j lt. absurd (omega arith)), λ _. refl)
compare_loop_iff (suc n) p q m =
    let ih = compare_loop_iff n (p + 1) (q + 1) m in
    elim (Bool-cases (m p == m q)) [
      | inl h ↦
          let first = (==_iff (m p) (m q)).0 h in
          (
            (λ e. Agree-cons n p q m first (ih.0 (rw (h, compare_loop) at e))),
            λ all. rw h (ih.1 (Agree-next n p q m all)),
          )
      | inr h ↦ (
        (λ e. elim (Bool-cases (ltb (m q) (m p))) [
          | inl g ↦ cc (rw (h, compare_loop, g) at e)
          | inr g ↦ cc (rw (h, compare_loop, g) at e)
        ]),
        λ all.
            let l : p + 0 ≡ p = omega arith in
            let r : q + 0 ≡ q = omega arith in
            let first : m p ≡ m q = sym (ap m l) ∙ all 0 (omega arith) ∙ ap m r in
            absurd (ground arith),
      )
    ]

-- `memcmp` is 0 exactly if the `n` bytes at `p` and at `q` are the same.
pub memcmp_iff : (n p q : ℕ) (m : Bytes) → (memcmp p q n m ≡ same) ↔ Agree n p q m
unfolding memcmp
memcmp_iff n p q m = elim (Bool-cases (p == q)) [
  | inl h ↦ ((λ _ j lt. ap (λ (x : ℕ). m (x + j)) ((==_iff p q).0 h)), λ _. rw h refl)
  | inr h ↦ rw h (compare_loop_iff n p q m)
]

set_loop_outside :
    (r i p c : ℕ) (m : Bytes) (a : ℕ) → (a < p + i) ⊎ (p + i + r ≤ a) → set_loop r i p c m a ≡ m a
unfolding set_loop
set_loop_outside zero i p c m a far = refl
set_loop_outside (suc r) i p c m a far =
    set_loop_outside r (i + 1) p c _ a (ground arith)
    ∙ store_ne (p + i) (c % 256) a m (λ e. ground arith)

set_loop_inside :
    (r i p c : ℕ) (m : Bytes) (j : ℕ) → i ≤ j → j < i + r → set_loop r i p c m (p + j) ≡ c % 256
unfolding set_loop
set_loop_inside zero i p c m j le lt = absurd (omega arith)
set_loop_inside (suc r) i p c m j le lt = elim (Bool-cases (i == j)) [
  | inl h ↦
      let e = (==_iff i j).0 h in
      set_loop_outside r (i + 1) p c _ (p + j) (inl (omega arith))
      ∙ rw (← e) (store_self (p + i) (c % 256) m)
  | inr h ↦
      let above : i < j = ground arith in
      set_loop_inside r (i + 1) p c _ j (omega arith) (omega arith)
]

-- After `memset` each of the `n` bytes from `p` on is the low byte of `c`, and all others are as before.
pub memset_lem :
    (p c n : ℕ) (m : Bytes)
    → ((j : ℕ) → j < n → memset p c n m (p + j) ≡ c % 256)
      × ((a : ℕ) → (a < p) ⊎ (p + n ≤ a) → memset p c n m a ≡ m a)
unfolding memset
memset_lem p c n m = (
  (λ j lt. set_loop_inside n 0 p c m j (omega arith) (omega arith)),
  λ a far. set_loop_outside n 0 p c m a (ground arith),
)

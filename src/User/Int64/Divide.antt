-- ===== src/User/Int64/Divide.antt =====
-- The loop of src/user/lib/int64.c finds the quotient and the remainder.
use mo_os.Prelude.Numbers.{divmod_of_split}
use native.Mathlib.Nat.{div-div-eq-div-mul, div-le_self, div-add-mod', pow-suc, div-one}
use mo_os.Prelude.{
  ℕ, zero, suc, ◌+◌, ◌-◌, ◌*◌, ◌/◌, ◌%◌, ◌^◌, ◌≤◌, ◌<◌, ◌≡◌, refl, sym, ap, ap₂, ◌∙◌, inl, inr,
  Bool, true, false, some, arith, leb, ◌==◌, if◌then◌else◌, Bool-cases,
}
use mo_os.User.Int64.{
  u64_mod, divide_loop, udivmod, neg64, is_negative, magnitude, differ, divdi3, moddi3,
}

-- The bits from `bit` on are divided: `quot` and `r` are their quotient, in its place, and remainder.
abbrev Divided : ℕ → ℕ → ℕ → ℕ → ℕ → ℕ → Type 0
Divided bit num den q quot r = (num / 2 ^ bit ≡ den * q + r) × (r < den) × (quot ≡ q * 2 ^ bit)

divide_loop_lem :
    (bit num den q quot r : ℕ)
    → num < 2 ^ 64
    → Divided bit num den q quot r
    → divide_loop bit num den quot r ≡ (num / den, num % den)
unfolding divide_loop
divide_loop_lem zero num den q quot r bound (split, less_den, place) =
    let whole : num ≡ den * q + r = sym (div-one num) ∙ split in
    let (quotient, rest) = divmod_of_split den q r less_den in
    ap₂ (λ (x y : ℕ). (x, y)) (omega arith ∙ sym quotient ∙ ap (λ (x : ℕ). x / den) (sym whole))
      (sym rest ∙ ap (λ (x : ℕ). x % den) (sym whole))
divide_loop_lem (suc bit) num den q quot r bound (split, less_den, place) =
    let p = 2 ^ bit in
    let double = pow-suc 2 bit in
    let there : quot ≡ q * (p * 2) = place ∙ ap (λ (x : ℕ). q * x) double in
    let up : num / p / 2 ≡ num / 2 ^ suc bit =
      div-div-eq-div-mul num p 2 ∙ ap (λ (x : ℕ). num / x) (sym double) in
    let small : num / p ≤ num = div-le_self num p in
    let halves = div-add-mod' (num / p) 2 in
    let no_wrap : r * 2 % u64_mod ≡ r * 2 = omega arith in
    elim (Bool-cases (leb den (r * 2 % u64_mod + num / p % 2))) [
      | inl h ↦
          rw (h, divide_loop)
            (divide_loop_lem bit num den (2 * q + 1) (quot + p)
              (r * 2 % u64_mod + num / p % 2 - den) bound (ground arith, ground arith, omega arith))
      | inr h ↦
          rw (h, divide_loop)
            (divide_loop_lem bit num den (2 * q) quot (r * 2 % u64_mod + num / p % 2) bound
              (ground arith, ground arith, omega arith))
    ]

-- A division of 64-bit numbers, where the divisor is not 0, gives the quotient and the remainder.
pub udivmod_lem :
    (num den : ℕ) → num < u64_mod → 0 < den → udivmod num den ≡ some (num / den, num % den)
unfolding udivmod
udivmod_lem num den bound positive =
    let none_left : num / 2 ^ 64 ≡ 0 = omega arith in
    let some_den : (den == 0) ≡ false = ground arith in
    rw some_den
      (ap some (divide_loop_lem 64 num den 0 0 0 bound (none_left ∙ omega arith, positive, refl)))

-- The bit pattern of a number by its sign and its magnitude.
abbrev pub signed64 : Bool → ℕ → ℕ
signed64 negative n = if negative then neg64 n else n

-- The magnitudes of an int64_t: up to 2^63, which only a negative number reaches.
abbrev pub InInt64 : Bool → ℕ → Type 0
InInt64 negative n = if negative then (0 < n) × (n ≤ 2 ^ 63) else n < 2 ^ 63

magnitude-signed64 :
    (s : Bool) (n : ℕ)
    → InInt64 s n
    → (magnitude (signed64 s n) ≡ n) × (is_negative (signed64 s n) ≡ s)
unfolding magnitude is_negative
magnitude-signed64 true n (positive, bound) = (ground arith, ground arith)
magnitude-signed64 false n bound = (ground arith, ground arith)

InInt64-bound : (s : Bool) (n : ℕ) → InInt64 s n → n < u64_mod
InInt64-bound true n (positive, bound) = omega arith
InInt64-bound false n bound = omega arith

divided_by_sizes :
    (x y n d : ℕ) (s t : Bool)
    → (magnitude x ≡ n) × (is_negative x ≡ s)
    → (magnitude y ≡ d) × (is_negative y ≡ t)
    → udivmod n d ≡ some (n / d, n % d)
    → (divdi3 x y ≡ some (signed64 (differ s t) (n / d))) × (moddi3 x y ≡ some (signed64 s (n % d)))
unfolding divdi3 moddi3
divided_by_sizes x y n d s t (size, sign) (size', sign') e = (
  rw (size, divdi3) (rw (size', divdi3) (rw (e, divdi3) (rw (sign, sign') refl))),
  rw (size, moddi3) (rw (size', moddi3) (rw (e, moddi3) (rw sign refl))),
)

-- The division of int64_t numbers, where the divisor is not 0, rounds the quotient towards zero and
-- gives the remainder the sign of the dividend; both are bit patterns, and the quotient of -2^63 by -1
-- is the pattern of -2^63.
pub divdi3_lem :
    (s t : Bool) (n d : ℕ)
    → InInt64 s n
    → InInt64 t d
    → 0 < d
    → (divdi3 (signed64 s n) (signed64 t d) ≡ some (signed64 (differ s t) (n / d)))
      × (moddi3 (signed64 s n) (signed64 t d) ≡ some (signed64 s (n % d)))
divdi3_lem s t n d fits fits' positive =
    divided_by_sizes (signed64 s n) (signed64 t d) n d s t (magnitude-signed64 s n fits)
      (magnitude-signed64 t d fits') (udivmod_lem n d (InInt64-bound s n fits) positive)

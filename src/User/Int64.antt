-- ===== src/User/Int64.antt =====
-- src/user/lib/int64.c: the division of 64-bit numbers on a 32-bit processor. An int64_t is its bit
-- pattern. A division by zero kills the task, which is `none`.
pub mod Divide
mod Tests
use mo_os.Prelude.{
  ℕ, zero, suc, ◌+◌, ◌-◌, ◌*◌, ◌/◌, ◌%◌, ◌^◌, Bool, true, false, not, Option, none, some, leb, ◌==◌,
  if◌then◌else◌,
}

abbrev pub u64_mod : ℕ
u64_mod = 2 ^ 64

-- The loop of `udivmod` for the bits below `bit`. What `|` sets is 0 before, so it adds.
pub divide_loop : ℕ → ℕ → ℕ → ℕ → ℕ → ℕ × ℕ
divide_loop zero num den quot r = (quot, r)
divide_loop (suc bit) num den quot r =
    let shifted = r * 2 % u64_mod + num / 2 ^ bit % 2 in
    divide_loop bit num den (if leb den shifted then quot + 2 ^ bit else quot)
      (if leb den shifted then shifted - den else shifted)

pub udivmod : ℕ → ℕ → Option (ℕ × ℕ)
udivmod num den = if den == 0 then none else some (divide_loop 64 num den 0 0)

pub udivdi3 : ℕ → ℕ → Option ℕ
udivdi3 num den = elim (udivmod num den) [ none ↦ none | some (quot, rem) ↦ some quot ]

pub umoddi3 : ℕ → ℕ → Option ℕ
umoddi3 num den = elim (udivmod num den) [ none ↦ none | some (quot, rem) ↦ some rem ]

-- `-x` of a 64-bit pattern, and `x < 0`.
abbrev pub neg64 : ℕ → ℕ
neg64 x = (u64_mod - x) % u64_mod

pub is_negative : ℕ → Bool
is_negative x = leb (2 ^ 63) x

pub magnitude : ℕ → ℕ
magnitude x = if is_negative x then neg64 x else x

abbrev pub differ : Bool → Bool → Bool
differ true b = not b
differ false b = b

pub divdi3 : ℕ → ℕ → Option ℕ
divdi3 num den = elim (udivmod (magnitude num) (magnitude den)) [
  | none ↦ none
  | some (quot, rem) ↦
      some (if differ (is_negative num) (is_negative den) then neg64 quot else quot)
]

pub moddi3 : ℕ → ℕ → Option ℕ
moddi3 num den = elim (udivmod (magnitude num) (magnitude den)) [
  | none ↦ none
  | some (quot, rem) ↦ some (if is_negative num then neg64 rem else rem)
]

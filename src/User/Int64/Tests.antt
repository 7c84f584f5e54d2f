-- ===== src/User/Int64/Tests.antt =====
-- Divisions, and the theorems applied to them.
use mo_os.Prelude.{◌≡◌, refl, true, false, none, some, arith}
use mo_os.User.Int64.{divide_loop, udivmod, udivdi3, umoddi3, neg64, divdi3, moddi3}
use mo_os.User.Int64.Divide.{divdi3_lem}

run_udivdi3 : udivdi3 0xffffffffffffffff 0x100000001 ≡ some 0xffffffff
unfolding udivdi3 udivmod divide_loop
run_udivdi3 = refl

run_umoddi3 : umoddi3 1000000000007 1000 ≡ some 7
unfolding umoddi3 udivmod divide_loop
run_umoddi3 = refl

-- A task that divides by zero is killed.
run_zero : udivdi3 1 0 ≡ none
unfolding udivdi3 udivmod
run_zero = refl

-- -7 by 2 is -3, and -1 is left.
divdi3_lem_example : (divdi3 (neg64 7) 2 ≡ some (neg64 3)) × (moddi3 (neg64 7) 2 ≡ some (neg64 1))
divdi3_lem_example =
    divdi3_lem true false 7 2 (omega arith, omega arith) (omega arith) (omega arith)

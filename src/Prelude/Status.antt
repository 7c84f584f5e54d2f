-- ===== src/Prelude/Status.antt =====
-- The error codes of src/kernel/config.h, and the results of functions that return a negative one.
use Prim.Native.Nat.{ℕ}
use mathlib.Core.Path.{◌≡◌, ap}

pub data Error : Type 0 where
  io no_memory invalid_arg invalid_path file_handler_overflow invalid_disk : Error
  signature non_permitted_read unimplemented_feature not_directory not_found : Error
  dir_not_empty file_exists broken_pipe : Error

-- The number behind each name.
pub code : Error → ℕ
code io = 1
code no_memory = 2
code invalid_arg = 3
code invalid_path = 4
code file_handler_overflow = 5
code invalid_disk = 6
code signature = 7
code non_permitted_read = 8
code unimplemented_feature = 9
code not_directory = 10
code not_found = 11
code dir_not_empty = 12
code file_exists = 13
code broken_pipe = 14

-- `int32_t` with the convention that a negative value is an error: `OK` is `ok tt`.
pub data Result {ℓ} (A : Type ℓ) : Type ℓ where
  ok : A → Result A
  err : Error → Result A

pub eq_of_ok {ℓ} : {A : Type ℓ} (a b : A) → ok a ≡ ok b → a ≡ b
eq_of_ok a b e = ap (λ r. elim r [ ok x ↦ x | err _ ↦ a ]) e

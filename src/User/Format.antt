-- ===== src/User/Format.antt =====
-- `vsnprintf` of src/user/lib/moos.c. The format is its bytes before the terminator, and the arguments are
-- a list: `none` is an argument that is missing or of another type, which C leaves undefined. What is put
-- does not depend on the buffer, so `format_text` collects the characters that `put_all` then puts; it is
-- `none` also where a number overruns the arrays `reversed` and `digits`. A floating point number is what
-- format_float makes of it.
pub mod Parse
pub mod Text
pub mod Number
pub mod Bounded
pub mod Enough
mod Tests
use mo_os.Prelude.{
  ℕ, zero, suc, ◌+◌, ◌-◌, ◌/◌, ◌%◌, Bool, ◌&&◌, ◌||◌, Option, none, some, List, [], ◌∷◌, ◌++◌, ltb,
  ◌==◌, if◌then◌else◌, length, replicate,
}
use mo_os.Prelude.Word.{add32}

-- `struct format_out`: `stored` is what stands in the buffer.
pub record FormatOut : Type 0 where
  pub size : ℕ
  pub stored : List ℕ
  pub len : ℕ

unfoldable pub format_put : ℕ → FormatOut → FormatOut
format_put c out =
    let next = add32 out.len 1 in
    record out {
      stored = (if ltb next out.size then out.stored ++ (c ∷ []) else out.stored);
      len = next;
    }

unfoldable pub put_all : List ℕ → FormatOut → FormatOut
put_all [] out = out
put_all (c ∷ cs) out = put_all cs (format_put c out)

abbrev pub is_sign : ℕ → Bool
is_sign c = (c == b'-') || (c == b'+')

abbrev pub spread : List ℕ → ℕ → Bool → ℕ → List ℕ
spread str width left pad =
    if left
    then str ++ replicate (width - length str) b' '
    else replicate (width - length str) pad ++ str

-- Zero padding goes behind a sign.
unfoldable pub format_padded : List ℕ → ℕ → Bool → ℕ → List ℕ
format_padded [] width left pad = spread [] width left pad
format_padded (c ∷ str) width left pad =
    if (pad == b'0') && is_sign c
    then c ∷ spread str (width - 1) left pad
    else spread (c ∷ str) width left pad

abbrev pub digit : Bool → ℕ → ℕ
digit upper d = if ltb d 10 then b'0' + d else if upper then b'A' + (d - 10) else b'a' + (d - 10)

-- `reversed`, the lowest digit first: the digits of `num`, and those that are still wanted. The first loop
-- of the code has the same body as the second one. A base of 2 at least needs 64 rounds for the number.
unfoldable pub digit_loop : ℕ → ℕ → ℕ → Bool → ℕ → List ℕ
digit_loop zero num base upper wanted = []
digit_loop (suc fuel) num base upper wanted =
    let rest = digit_loop fuel (num / base) base upper (wanted - 1) in
    if (num == 0) && (wanted == 0) then [] else digit upper (num % base) ∷ rest

abbrev pub sign_of : Bool → Bool → List ℕ
sign_of negative plus = if negative then b'-' ∷ [] else if plus then b'+' ∷ [] else []

unfoldable pub reversed : List ℕ → List ℕ → List ℕ
reversed [] acc = acc
reversed (c ∷ cs) acc = reversed cs (c ∷ acc)

abbrev pub at_least_one : ℕ → ℕ
at_least_one n = if n == 0 then 1 else n

-- The sizes of the arrays `reversed` here and `digits` of the caller.
abbrev pub reversed_size : ℕ
reversed_size = 24

abbrev pub digits_size : ℕ
digits_size = 48

-- `none` is a number of more digits than `reversed` holds, for a precision above 24. The others fit into
-- `digits`, with a sign or `0x` before them.
unfoldable pub format_number : ℕ → ℕ → Bool → Bool → Bool → ℕ → Option (List ℕ)
format_number num base upper negative plus min_digits =
    let wanted = at_least_one min_digits in
    let backwards = digit_loop (64 + wanted) num base upper wanted in
    if ltb reversed_size (length backwards)
    then none
    else some (sign_of negative plus ++ reversed backwards [])

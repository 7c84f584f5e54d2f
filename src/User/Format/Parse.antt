-- ===== src/User/Format/Parse.antt =====
-- The conversions of the format of `vsnprintf` in src/user/lib/moos.c.
use mo_os.User.Int64.{neg64}
use mo_os.User.Format.{format_padded, digits_size, format_number}
use mo_os.Prelude.{
  ℕ, ◌+◌, ◌-◌, ◌%◌, ◌^◌, Bool, true, false, not, ◌&&◌, ◌||◌, Option, none, some, List, [], ◌∷◌,
  ◌++◌, ltb, leb, ◌==◌, if◌then◌else◌, length, take,
}
use mo_os.Prelude.Word.{add32, sub32, mul32}
use mo_os.Libc.{isdigit}

-- An int, a long long, a string, a null pointer to a string, or a number for format_float.
pub data Arg : Type 0 where
  int_arg long_arg : ℕ → Arg
  str_arg : List ℕ → Arg
  null_arg : Arg
  float_arg : (ℕ → Bool → List ℕ) → Arg

-- What stands between `%` and the conversion; the precision is an int as its bit pattern, -1 for none.
pub record Conversion : Type 0 where
  pub left : Bool
  pub plus : Bool
  pub pad : ℕ
  pub width : ℕ
  pub precision : ℕ
  pub longs : ℕ

abbrev pub plain : Conversion
plain = record {
  left = false;
  plus = false;
  pad = b' ';
  width = 0;
  precision = 0xffffffff;
  longs = 0;
}

abbrev pub is_negative32 : ℕ → Bool
is_negative32 n = leb (2 ^ 31) n

abbrev pub neg32 : ℕ → ℕ
neg32 n = sub32 0 n

unfoldable pub read_flags : List ℕ → Conversion → List ℕ × Conversion
read_flags [] c = ([], c)
read_flags (x ∷ xs) c =
    if x == b'-'
    then read_flags xs (record c { left = true })
    else if x == b'+'
    then read_flags xs (record c { plus = true })
    else if x == b'0'
    then read_flags xs (record c { pad = b'0' })
    else if (x == b' ') || (x == b'#')
    then read_flags xs c
    else (x ∷ xs, c)

-- The digits of a width or a precision, behind the value `acc`.
unfoldable pub read_number : List ℕ → ℕ → List ℕ × ℕ
read_number [] acc = ([], acc)
read_number (x ∷ xs) acc =
    let rest = read_number xs (add32 (mul32 acc 10) (x - b'0')) in
    if isdigit x then rest else (x ∷ xs, acc)

-- The characters that are left of the format, the arguments that are left, and what was read.
abbrev pub Reading : Type 0
Reading = Option (List ℕ × List Arg × Conversion)

abbrev pub with_width : List ℕ × ℕ → List Arg → Conversion → Reading
with_width (xs, n) args c = some (xs, args, record c { width = n })

abbrev pub with_precision : List ℕ × ℕ → List Arg → Conversion → Reading
with_precision (xs, n) args c = some (xs, args, record c { precision = n })

abbrev pub star_width : List ℕ → List Arg → Conversion → Reading
star_width xs (int_arg n ∷ args) c =
    with_width (read_number xs (if is_negative32 n then neg32 n else n)) args
      (record c { left = c.left || is_negative32 n })
star_width xs _ c = none

unfoldable pub read_width : List ℕ → List Arg → Conversion → Reading
read_width [] args c = some ([], args, c)
read_width (x ∷ xs) args c =
    if x == b'*' then star_width xs args c else with_width (read_number (x ∷ xs) 0) args c

abbrev pub star_precision : List ℕ → List Arg → Conversion → Reading
star_precision xs (int_arg n ∷ args) c = with_precision (read_number xs n) args c
star_precision xs _ c = none

abbrev pub behind_point : List ℕ → List Arg → Conversion → Reading
behind_point [] args c = some ([], args, record c { precision = 0 })
behind_point (x ∷ xs) args c =
    if x == b'*' then star_precision xs args c else with_precision (read_number (x ∷ xs) 0) args c

unfoldable pub read_precision : List ℕ → List Arg → Conversion → Reading
read_precision [] args c = some ([], args, c)
read_precision (x ∷ xs) args c =
    if x == b'.' then behind_point xs args c else some (x ∷ xs, args, c)

abbrev pub is_modifier : ℕ → Bool
is_modifier x = (x == b'l') || (x == b'h') || (x == b'z') || (x == b'j') || (x == b't')

unfoldable pub read_longs : List ℕ → Conversion → List ℕ × Conversion
read_longs [] c = ([], c)
read_longs (x ∷ xs) c =
    let rest = read_longs xs (record c { longs = (if x == b'l' then c.longs + 1 else c.longs) }) in
    if is_modifier x then rest else (x ∷ xs, c)

-- An integer argument: its magnitude and whether it is negative.
abbrev pub Integer : Type 0
Integer = Option (ℕ × Bool × List Arg)

abbrev pub signed_arg : Conversion → List Arg → Integer
signed_arg c (int_arg n ∷ args) =
    if leb 2 c.longs
    then none
    else some (if is_negative32 n then neg32 n else n, is_negative32 n, args)
signed_arg c (long_arg n ∷ args) =
    if leb 2 c.longs
    then some (if leb (2 ^ 63) n then neg64 n else n, leb (2 ^ 63) n, args)
    else none
signed_arg c _ = none

abbrev pub unsigned_arg : Conversion → List Arg → Integer
unsigned_arg c (int_arg n ∷ args) = if leb 2 c.longs then none else some (n, false, args)
unsigned_arg c (long_arg n ∷ args) = if leb 2 c.longs then some (n, false, args) else none
unsigned_arg c _ = none

-- `precision > 0 ? precision : 1`.
abbrev pub min_digits_of : Conversion → ℕ
min_digits_of c = if (c.precision == 0) || is_negative32 c.precision then 1 else c.precision

abbrev pub padded : Conversion → ℕ → List ℕ → List Arg → Option (List ℕ × List Arg)
padded c pad str args = some (format_padded str c.width c.left pad, args)

abbrev pub prefixed : List ℕ → Conversion → Option (List ℕ) → List Arg → Option (List ℕ × List Arg)
prefixed prefix c none args = none
prefixed prefix c (some str) args = padded c c.pad (prefix ++ str) args

abbrev pub number_text :
    ℕ → Bool → Bool → List ℕ → Conversion → Integer → Option (List ℕ × List Arg)
number_text base upper plus prefix c none = none
number_text base upper plus prefix c (some (num, negative, args)) =
    prefixed prefix c (format_number num base upper negative plus (min_digits_of c)) args

abbrev pub cut_string : Conversion → List ℕ → List ℕ
cut_string c str =
    if not (is_negative32 c.precision) && ltb c.precision (length str)
    then take c.precision str
    else str

abbrev pub string_text : Conversion → List Arg → Option (List ℕ × List Arg)
string_text c (str_arg str ∷ args) = padded c b' ' (cut_string c str) args
string_text c (null_arg ∷ args) =
    padded c b' ' (cut_string c (b'(' ∷ b'n' ∷ b'u' ∷ b'l' ∷ b'l' ∷ b')' ∷ [])) args
string_text c _ = none

abbrev pub char_text : Conversion → List Arg → Option (List ℕ × List Arg)
char_text c (int_arg n ∷ args) = padded c b' ' (n % 256 ∷ []) args
char_text c _ = none

abbrev pub float_text : Conversion → List Arg → Option (List ℕ × List Arg)
float_text c (float_arg f ∷ args) =
    let digits = f (if is_negative32 c.precision then 6 else c.precision) c.plus in
    if ltb digits_size (length digits) then none else padded c c.pad digits args
float_text c _ = none

-- The `switch` on the conversion.
unfoldable pub convert : ℕ → Conversion → List Arg → Option (List ℕ × List Arg)
convert x c args =
    if x == b's'
    then string_text c args
    else if x == b'c'
    then char_text c args
    else if (x == b'd') || (x == b'i')
    then number_text 10 false c.plus [] c (signed_arg c args)
    else if x == b'u'
    then number_text 10 false false [] c (unsigned_arg c args)
    else if x == b'o'
    then number_text 8 false false [] c (unsigned_arg c args)
    else if x == b'x'
    then number_text 16 false false [] c (unsigned_arg c args)
    else if x == b'X'
    then number_text 16 true false [] c (unsigned_arg c args)
    else if x == b'p'
    then number_text 16 false false (b'0' ∷ b'x' ∷ []) c (unsigned_arg c args)
    else if (x == b'f') || (x == b'F') || (x == b'g') || (x == b'e')
    then float_text c args
    else if x == b'%'
    then padded c c.pad (b'%' ∷ []) args
    else padded c c.pad (b'%' ∷ x ∷ []) args

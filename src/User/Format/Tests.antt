-- ===== src/User/Format/Tests.antt =====
-- The theorems on the formats at concrete arguments, and some formats run.
use mo_os.Prelude.{ℕ, ◌≡◌, refl, none, some, List, [], ◌∷◌, arith}
use mo_os.User.Format.{format_padded, digit_loop, reversed, format_number}
use mo_os.User.Format.Parse.{
  read_flags, read_number, read_width, read_precision, read_longs, convert, int_arg, str_arg,
}
use mo_os.User.Format.Text.{conversion, text_loop, format_text, vsnprintf}
use mo_os.User.Format.Number.{atoi, atoi-format_text}
use mo_os.User.Format.Bounded.{vsnprintf_lem}

-- "%5d|"
abbrev wide : List ℕ
wide = b'%' ∷ b'5' ∷ b'd' ∷ b'|' ∷ []

abbrev wide_text : List ℕ
wide_text = b' ' ∷ b' ' ∷ b' ' ∷ b'-' ∷ b'7' ∷ b'|' ∷ []

run_wide : format_text wide (int_arg 0xfffffff9 ∷ []) ≡ some wide_text
unfolding text_loop conversion read_flags read_number read_width read_precision read_longs convert
    digit_loop reversed format_number format_padded
run_wide = refl

-- "%-4s%lx%%"
run_mixed :
    format_text
      (b'%' ∷ b'-' ∷ b'4' ∷ b's' ∷ b'%' ∷ b'l' ∷ b'x' ∷ b'%' ∷ b'%' ∷ [])
      (str_arg (b'a' ∷ b'b' ∷ []) ∷ int_arg 255 ∷ [])
    ≡ some (b'a' ∷ b'b' ∷ b' ' ∷ b' ' ∷ b'f' ∷ b'f' ∷ b'%' ∷ [])
unfolding text_loop conversion read_flags read_number read_width read_precision read_longs convert
    digit_loop reversed format_number format_padded
run_mixed = refl

-- "%.25d" overruns `reversed`.
run_overrun : format_text (b'%' ∷ b'.' ∷ b'2' ∷ b'5' ∷ b'd' ∷ []) (int_arg 7 ∷ []) ≡ none
unfolding text_loop conversion read_flags read_number read_width read_precision read_longs convert
    digit_loop reversed format_number format_padded
run_overrun = refl

vsnprintf_lem_example :
    vsnprintf 4 wide (int_arg 0xfffffff9 ∷ [])
    ≡ some (record {
      out = record { size = 4; stored = b' ' ∷ b' ' ∷ b' ' ∷ []; len = 6 };
      terminator = some 3;
    })
vsnprintf_lem_example =
    vsnprintf_lem 4 wide (int_arg 0xfffffff9 ∷ []) wide_text run_wide (omega arith)

atoi-format_text_example :
    (text : List ℕ) × (format_text (b'%' ∷ b'd' ∷ []) (int_arg 0xfffffff9 ∷ []) ≡ some text)
    × (atoi text ≡ 0xfffffff9)
atoi-format_text_example = atoi-format_text 0xfffffff9 (omega arith)

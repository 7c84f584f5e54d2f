-- ===== src/User/Format/Text.antt =====
-- The loop of `vsnprintf` in src/user/lib/moos.c over the format.
use mo_os.Prelude.{
  ℕ, zero, suc, ◌-◌, true, false, Option, none, some, List, [], ◌∷◌, ◌++◌, ltb, ◌==◌, if◌then◌else◌,
  length,
}
use mo_os.User.Format.{put_all, FormatOut}
use mo_os.User.Format.Parse.{
  plain, read_flags, Reading, read_width, read_precision, read_longs, padded, convert, Arg,
  Conversion,
}

-- One conversion, behind its `%`: its characters, and what is left of the format and the arguments.
abbrev pub Step : Type 0
Step = Option (List ℕ × List ℕ × List Arg)

abbrev pub converted : List ℕ → Option (List ℕ × List Arg) → Step
converted xs none = none
converted xs (some (text, args)) = some (text, xs, args)

-- A format that ends within a conversion shows its `%`.
abbrev pub at_letter : List ℕ × Conversion → List Arg → Step
at_letter ([], c) args = converted [] (padded c c.pad (b'%' ∷ []) args)
at_letter (x ∷ xs, c) args = converted xs (convert x c args)

abbrev pub after_precision : Reading → Step
after_precision none = none
after_precision (some (xs, args, c)) = at_letter (read_longs xs c) args

abbrev pub after_width : Reading → Step
after_width none = none
after_width (some (xs, args, c)) = after_precision (read_precision xs args c)

abbrev pub after_flags : List ℕ × Conversion → List Arg → Step
after_flags (xs, c) args = after_width (read_width xs args c)

unfoldable pub conversion : List ℕ → List Arg → Step
conversion xs args = after_flags (read_flags xs plain) args

abbrev pub before : List ℕ → Option (List ℕ) → Option (List ℕ)
before text none = none
before text (some more) = some (text ++ more)

-- The loop, which takes a character at least in each round.
unfoldable pub text_loop : ℕ → List ℕ → List Arg → Option (List ℕ)
text_loop fuel [] args = some []
text_loop zero (x ∷ xs) args = none
text_loop (suc fuel) (x ∷ xs) args = elim (x == b'%') [
  | false ↦ before (x ∷ []) (text_loop fuel xs args)
  | true ↦ elim (conversion xs args) [
    | none ↦ none
    | some (text, rest, args') ↦ before text (text_loop fuel rest args')
  ]
]

abbrev pub format_text : List ℕ → List Arg → Option (List ℕ)
format_text fmt args = text_loop (length fmt) fmt args

-- What is in the buffer, and where the terminator is written.
pub record Printed : Type 0 where
  pub out : FormatOut
  pub terminator : Option ℕ

abbrev pub terminated : FormatOut → Printed
terminated out = record {
  out = out;
  terminator =
      (if ltb 0 out.size
        then some (if ltb out.len out.size then out.len else out.size - 1)
        else none);
}

abbrev pub vsnprintf : ℕ → List ℕ → List Arg → Option Printed
vsnprintf size fmt args = elim (format_text fmt args) [
  | none ↦ none
  | some text ↦ some (terminated (put_all text (record { size = size; stored = []; len = 0 })))
]

-- ===== src/User/Format/Enough.antt =====
-- The loop of `vsnprintf` in src/user/lib/moos.c ends: each conversion takes from the format.
use mathlib.Core.Path.{subst}
use mo_os.Prelude.Word.{add32, mul32}
use mo_os.Prelude.{
  ℕ, zero, suc, ◌+◌, ◌-◌, ◌≤◌, ◌≡◌, refl, ap, inl, inr, true, ◌||◌, Option, none, some, List, [],
  ◌∷◌, arith, ◌==◌, if◌then◌else◌, Bool-cases, Option-cases, length,
}
use mo_os.Libc.{isdigit}
use mo_os.User.Format.Parse.{
  plain, is_negative32, neg32, read_flags, read_number, Reading, star_width, read_width,
  star_precision, behind_point, read_precision, is_modifier, read_longs, convert, Arg, Conversion,
  int_arg, long_arg, str_arg, null_arg, float_arg,
}
use mo_os.User.Format.Text.{
  Step, converted, at_letter, after_precision, after_width, conversion, before, text_loop,
  format_text,
}

-- What is left of the format has at most `n` characters.
abbrev ReadingWithin : ℕ → Reading → Type 0
ReadingWithin n none = Unit {0}
ReadingWithin n (some (xs, args, c)) = length xs ≤ n

abbrev Within : ℕ → Step → Type 0
Within n none = Unit {0}
Within n (some (text, xs, args)) = length xs ≤ n

shorter_flags : (xs : List ℕ) (c : Conversion) → length (read_flags xs c).0 ≤ length xs
unfolding read_flags
shorter_flags [] c = omega arith
shorter_flags (x ∷ xs) c = elim (Bool-cases (x == b'-')) [
  | inl h ↦ rw h (omega (arith, shorter_flags xs (record c { left = true })))
  | inr h ↦ elim (Bool-cases (x == b'+')) [
    | inl h' ↦ rw (h, h') (omega (arith, shorter_flags xs (record c { plus = true })))
    | inr h' ↦ elim (Bool-cases (x == b'0')) [
      | inl z ↦ rw (h, h', z) (omega (arith, shorter_flags xs (record c { pad = b'0' })))
      | inr z ↦ elim (Bool-cases ((x == b' ') || (x == b'#'))) [
        | inl w ↦ rw (h, h', z, w) (omega (arith, shorter_flags xs c))
        | inr w ↦ rw (h, h', z, w) (omega arith)
      ]
    ]
  ]
]

shorter_number : (xs : List ℕ) (acc : ℕ) → length (read_number xs acc).0 ≤ length xs
unfolding read_number
shorter_number [] acc = omega arith
shorter_number (x ∷ xs) acc = elim (Bool-cases (isdigit x)) [
  | inl h ↦ rw h (omega (arith, shorter_number xs (add32 (mul32 acc 10) (x - b'0'))))
  | inr h ↦ rw h (omega arith)
]

shorter_longs : (xs : List ℕ) (c : Conversion) → length (read_longs xs c).0 ≤ length xs
unfolding read_longs
shorter_longs [] c = omega arith
shorter_longs (x ∷ xs) c = elim (Bool-cases (is_modifier x)) [
  | inl h ↦ rw h (
      omega (
        arith,
        shorter_longs xs (record c { longs = (if x == b'l' then c.longs + 1 else c.longs) }),
      ))
  | inr h ↦ rw h (omega arith)
]

within_width :
    (xs : List ℕ) (args : List Arg) (c : Conversion)
    → ReadingWithin (length xs) (read_width xs args c)
unfolding read_width
within_width [] args c = omega arith
within_width (x ∷ xs) args c = elim (Bool-cases (x == b'*')) [
  | inl h ↦ rw h (starred args)
  | inr h ↦ rw h (shorter_number (x ∷ xs) 0)
]
  where
    starred : (l : List Arg) → ReadingWithin (length (x ∷ xs)) (star_width xs l c)
    starred [] = tt
    starred (int_arg n ∷ l) =
        omega (arith, shorter_number xs (if is_negative32 n then neg32 n else n))
    starred (long_arg n ∷ l) = tt
    starred (str_arg s ∷ l) = tt
    starred (null_arg ∷ l) = tt
    starred (float_arg f ∷ l) = tt

within_point :
    (xs : List ℕ) (args : List Arg) (c : Conversion)
    → ReadingWithin (length xs) (behind_point xs args c)
within_point [] args c = omega arith
within_point (x ∷ xs) args c = elim (Bool-cases (x == b'*')) [
  | inl h ↦ rw h (starred args)
  | inr h ↦ rw h (shorter_number (x ∷ xs) 0)
]
  where
    starred : (l : List Arg) → ReadingWithin (length (x ∷ xs)) (star_precision xs l c)
    starred [] = tt
    starred (int_arg n ∷ l) = omega (arith, shorter_number xs n)
    starred (long_arg n ∷ l) = tt
    starred (str_arg s ∷ l) = tt
    starred (null_arg ∷ l) = tt
    starred (float_arg f ∷ l) = tt

within_more : (m n : ℕ) (r : Reading) → m ≤ n → ReadingWithin m r → ReadingWithin n r
within_more m n none le w = tt
within_more m n (some (xs, args, c)) le w = omega arith

within_precision :
    (xs : List ℕ) (args : List Arg) (c : Conversion)
    → ReadingWithin (length xs) (read_precision xs args c)
unfolding read_precision
within_precision [] args c = omega arith
within_precision (x ∷ xs) args c = elim (Bool-cases (x == b'.')) [
  | inl h ↦ rw h (
      within_more (length xs) (length (x ∷ xs)) (behind_point xs args c) (omega arith)
        (within_point xs args c))
  | inr h ↦ rw h (omega arith)
]

converted-Within :
    (n : ℕ) (xs : List ℕ) (o : Option (List ℕ × List Arg))
    → length xs ≤ n
    → Within n (converted xs o)
converted-Within n xs none le = tt
converted-Within n xs (some (text, args)) le = le

at_letter-Within :
    (n : ℕ) (p : List ℕ × Conversion) (args : List Arg)
    → length p.0 ≤ n
    → Within n (at_letter p args)
at_letter-Within n ([], c) args le = omega arith
at_letter-Within n (x ∷ xs, c) args le = converted-Within n xs (convert x c args) (omega arith)

after_precision-Within : (n : ℕ) (r : Reading) → ReadingWithin n r → Within n (after_precision r)
after_precision-Within n none w = tt
after_precision-Within n (some (xs, args, c)) w =
    at_letter-Within n (read_longs xs c) args (omega (arith, shorter_longs xs c))

after_width-Within : (n : ℕ) (r : Reading) → ReadingWithin n r → Within n (after_width r)
after_width-Within n none w = tt
after_width-Within n (some (xs, args, c)) w =
    after_precision-Within n (read_precision xs args c)
      (within_more (length xs) n (read_precision xs args c) w (within_precision xs args c))

conversion-Within : (xs : List ℕ) (args : List Arg) → Within (length xs) (conversion xs args)
unfolding conversion
conversion-Within xs args =
    let (rest, c) = read_flags xs plain in
    after_width-Within (length xs) (read_width rest args c) (
      within_more (length rest) (length xs) (read_width rest args c) (shorter_flags xs plain)
        (within_width rest args c))

same_loop :
    (f g : ℕ) (xs : List ℕ) (args : List Arg)
    → length xs ≤ f
    → length xs ≤ g
    → text_loop f xs args ≡ text_loop g xs args
unfolding text_loop
same_loop f g [] args le le' = refl
same_loop zero g (x ∷ xs) args le le' = absurd (omega arith)
same_loop (suc f) zero (x ∷ xs) args le le' = absurd (omega arith)
same_loop (suc f) (suc g) (x ∷ xs) args le le' = elim (Bool-cases (x == b'%')) [
  | inr h ↦
      rw (h, text_loop) (ap (before (x ∷ [])) (same_loop f g xs args (omega arith) (omega arith)))
  | inl h ↦ elim (Option-cases (conversion xs args)) [
    | inl missing ↦ rw (h, text_loop) (rw (missing, text_loop) refl)
    | inr ((text, rest, args'), found) ↦
        let shorter : length rest ≤ length xs =
          subst (Within (length xs)) found (conversion-Within xs args) in
        rw (h, text_loop)
          (rw (found, text_loop)
            (ap (before text) (same_loop f g rest args' (omega arith) (omega arith))))
  ]
]

-- More fuel than the format has characters changes nothing: `format_text` has enough.
pub text_loop_enough :
    (fuel : ℕ) (xs : List ℕ) (args : List Arg)
    → length xs ≤ fuel
    → text_loop fuel xs args ≡ format_text xs args
text_loop_enough fuel xs args le = same_loop fuel (length xs) xs args le (omega arith)

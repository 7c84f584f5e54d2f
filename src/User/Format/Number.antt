-- ===== src/User/Format/Number.antt =====
-- The digits of `format_number` in src/user/lib/moos.c, and `atoi`, which reads them.
use mo_os.User.Format.Text.{converted, conversion, before, text_loop, format_text}
use mathlib.Core.Path.{subst}
use native.Mathlib.Nat.{pow-suc}
use mo_os.Prelude.{
  ℕ, zero, suc, ◌+◌, ◌-◌, ◌*◌, ◌/◌, ◌%◌, ◌^◌, ◌≤◌, ◌<◌, ◌≡◌, refl, sym, ap, ◌∙◌, inl, inr, Bool,
  true, false, ◌&&◌, ◌||◌, Option, none, some, List, [], ◌∷◌, ◌++◌, append-nil, arith, ltb, leb,
  ◌==◌, if◌then◌else◌, Bool-cases, length,
}
use mo_os.Prelude.Word.{u32_mod, add32, mul32}
use mo_os.Libc.{isdigit}
use mo_os.User.Format.{format_padded, digit_loop, sign_of, reversed, reversed_size, format_number}
use mo_os.User.Format.Parse.{
  plain, is_negative32, neg32, read_flags, read_number, read_width, read_precision, read_longs,
  prefixed, convert, int_arg,
}

-- The loop of `atoi` over digits, with 32 bits.
unfoldable pub atoi_loop : List ℕ → ℕ → ℕ
atoi_loop [] num = num
atoi_loop (c ∷ cs) num =
    let rest = atoi_loop cs (add32 (mul32 num 10) (c - b'0')) in if isdigit c then rest else num

abbrev pub is_space : ℕ → Bool
is_space c = (c == b' ') || (leb 9 c && leb c 13)

unfoldable pub skip_spaces : List ℕ → List ℕ
skip_spaces [] = []
skip_spaces (c ∷ cs) = let rest = skip_spaces cs in if is_space c then rest else c ∷ cs

abbrev pub after_spaces : List ℕ → ℕ
after_spaces [] = 0
after_spaces (c ∷ cs) =
    if c == b'-'
    then neg32 (atoi_loop cs 0)
    else if c == b'+'
    then atoi_loop cs 0
    else atoi_loop (c ∷ cs) 0

unfoldable pub atoi : List ℕ → ℕ
atoi str = after_spaces (skip_spaces str)

-- The number of digits in base 10, the lowest first.
pub value : List ℕ → ℕ
value [] = 0
value (c ∷ cs) = (c - b'0') + 10 * value cs

abbrev AllDigits : List ℕ → Type 0
AllDigits [] = Unit {0}
AllDigits (c ∷ cs) = (isdigit c ≡ true) × AllDigits cs

digit_loop_lem :
    (fuel num wanted : ℕ)
    → num < 2 ^ fuel
    → (value (digit_loop fuel num 10 false wanted) ≡ num)
      × AllDigits (digit_loop fuel num 10 false wanted)
unfolding digit_loop value
digit_loop_lem zero num wanted bound = (omega arith, tt)
digit_loop_lem (suc fuel) num wanted bound =
    let double = pow-suc 2 fuel in
    let (ih, digits) = digit_loop_lem fuel (num / 10) (wanted - 1) (omega arith) in
    elim (Bool-cases ((num == 0) && (wanted == 0))) [
      | inl h ↦ rw h (ground arith, tt)
      | inr h ↦
          let low : ltb (num % 10) 10 ≡ true = ground arith in
          rw (h, low) (rw ih (omega arith), (ground arith, digits))
    ]

atoi_loop-reversed :
    (cs rest : List ℕ)
    → AllDigits cs
    → value cs < u32_mod
    → atoi_loop (reversed cs rest) 0 ≡ atoi_loop rest (value cs)
unfolding value reversed atoi_loop
atoi_loop-reversed [] rest all bound = refl
atoi_loop-reversed (c ∷ cs) rest (d, all) bound =
    atoi_loop-reversed cs (c ∷ rest) all (omega arith) ∙ rw d (ap (atoi_loop rest) (omega arith))

reversed-AllDigits : (cs acc : List ℕ) → AllDigits cs → AllDigits acc → AllDigits (reversed cs acc)
unfolding reversed
reversed-AllDigits [] acc all more = more
reversed-AllDigits (c ∷ cs) acc (d, all) more = reversed-AllDigits cs (c ∷ acc) all (d, more)

atoi-AllDigits : (cs : List ℕ) → AllDigits cs → atoi cs ≡ atoi_loop cs 0
unfolding atoi skip_spaces atoi_loop
atoi-AllDigits [] all = refl
atoi-AllDigits (c ∷ cs) (d, all) =
    let no_space : is_space c ≡ false = ground arith in
    let no_minus : (c == b'-') ≡ false = ground arith in
    let no_plus : (c == b'+') ≡ false = ground arith in rw (no_space, no_minus, no_plus) refl

atoi_minus : (cs : List ℕ) → atoi (b'-' ∷ cs) ≡ neg32 (atoi_loop cs 0)
unfolding atoi skip_spaces
atoi_minus cs = refl

-- The digits that `format_number` writes for a number below 2^32.
abbrev digits_of : ℕ → List ℕ
digits_of n = reversed (digit_loop 65 n 10 false 1) []

digits_of_lem : (n : ℕ) → n < u32_mod → AllDigits (digits_of n) × (atoi_loop (digits_of n) 0 ≡ n)
digits_of_lem n bound =
    let (number, all) = digit_loop_lem 65 n 1 (omega arith) in
    (
      reversed-AllDigits (digit_loop 65 n 10 false 1) [] all tt,
      atoi_loop-reversed (digit_loop 65 n 10 false 1) [] all
            (subst (λ (x : ℕ). x < u32_mod) (sym number) bound)
          ∙ unfold atoi_loop in number,
    )

-- A number below 10^k has no more digits than `k`, if no more are wanted.
few_digits :
    (fuel num wanted k : ℕ)
    → num < 10 ^ k
    → wanted ≤ k
    → length (digit_loop fuel num 10 false wanted) ≤ k
unfolding digit_loop
few_digits zero num wanted k bound le = omega arith
few_digits (suc fuel) num wanted zero bound le =
    let none_left : ((num == 0) && (wanted == 0)) ≡ true = ground arith in
    rw none_left (omega arith)
few_digits (suc fuel) num wanted (suc k) bound le =
    let power = pow-suc 10 k in
    let ih = few_digits fuel (num / 10) (wanted - 1) k (omega arith) (omega arith) in
    elim (Bool-cases ((num == 0) && (wanted == 0))) [
      | inl h ↦ rw h (omega arith)
      | inr h ↦ rw h (omega arith)
    ]

format_number_small :
    (num : ℕ) (negative : Bool)
    → num < u32_mod
    → format_number num 10 false negative false 1 ≡ some (sign_of negative false ++ digits_of num)
unfolding format_number
format_number_small num negative bound =
    let few = few_digits 65 num 1 10 (omega arith) (omega arith) in
    let fits : ltb reversed_size (length (digit_loop 65 num 10 false 1)) ≡ false = ground arith in
    rw fits refl

abbrev magnitude : ℕ → ℕ
magnitude n = if is_negative32 n then neg32 n else n

abbrev int_text : ℕ → List ℕ
int_text n = sign_of (is_negative32 n) false ++ digits_of (magnitude n)

-- A number by "%d", behind which the format ends.
abbrev shown : Option (List ℕ) → Option (List ℕ)
shown o = elim (converted [] (prefixed [] plain o [])) [
  | none ↦ none
  | some (text, rest, args) ↦ before text (text_loop 1 rest args)
]

decimal_text :
    (n : ℕ)
    → n < u32_mod
    → format_text (b'%' ∷ b'd' ∷ []) (int_arg n ∷ [])
      ≡ some (format_padded (int_text n) 0 false b' ' ++ [])
unfolding text_loop conversion read_flags read_width read_number read_precision read_longs convert
decimal_text n bound =
    let small : magnitude n < u32_mod = ground arith in
    let step : format_text (b'%' ∷ b'd' ∷ []) (int_arg n ∷ [])
        ≡ shown (format_number (magnitude n) 10 false (is_negative32 n) false 1) =
      refl in
    step ∙ ap shown (format_number_small (magnitude n) (is_negative32 n) small)

no_padding : (str : List ℕ) → format_padded str 0 false b' ' ≡ str
unfolding format_padded
no_padding [] = refl
no_padding (c ∷ str) = let none_left : 0 - suc (length str) ≡ 0 = omega arith in rw none_left refl

atoi-int_text : (n : ℕ) → n < u32_mod → atoi (int_text n) ≡ n
atoi-int_text n bound = elim (Bool-cases (is_negative32 n)) [
  | inl h ↦
      let (all, read) = digits_of_lem (neg32 n) (omega arith) in
      rw h (atoi_minus (digits_of (neg32 n)) ∙ ap neg32 read ∙ ground arith)
  | inr h ↦
      let (all, read) = digits_of_lem n bound in rw h (atoi-AllDigits (digits_of n) all ∙ read)
]

-- The text of an int by "%d", a number of 32 bits as its bit pattern, is read back by `atoi`.
pub atoi-format_text :
    (n : ℕ)
    → n < u32_mod
    → (text : List ℕ) × (format_text (b'%' ∷ b'd' ∷ []) (int_arg n ∷ []) ≡ some text)
      × (atoi text ≡ n)
atoi-format_text n bound = (
  int_text n,
  decimal_text n bound ∙ ap some (append-nil _ ∙ no_padding (int_text n)),
  atoi-int_text n bound,
)

-- ===== src/User/Shell/Bytes.antt =====
-- The bytes of a line that sh_tokenize of src/user/sh.c puts into its words.
use mo_os.Prelude.{
  ℕ, ◌≡◌, refl, sym, ap, ◌∙◌, inl, inr, Bool, true, false, not, ◌&&◌, ◌||◌, List, [], ◌∷◌, ◌++◌,
  arith, ◌==◌, if◌then◌else◌, Bool-cases,
}
use mo_os.User.Shell.{is_operator, read_word, read_operator, next_word}

-- The bytes of a line but for the quotes, and the spaces outside of quotes.
abbrev pub bytes_of : Bool → List ℕ → List ℕ
bytes_of quoted [] = []
bytes_of quoted (c ∷ cs) =
    if c == b'"'
    then bytes_of (not quoted) cs
    else if not quoted && (c == b' ')
    then bytes_of quoted cs
    else c ∷ bytes_of quoted cs

abbrev pub joined : List (List ℕ) → List ℕ
joined [] = []
joined (word ∷ words) = word ++ joined words

read_word-bytes_of :
    (quoted : Bool) (cs : List ℕ)
    → (read_word quoted cs).0 ++ bytes_of false (read_word quoted cs).1 ≡ bytes_of quoted cs
unfolding read_word
read_word-bytes_of quoted [] = refl
read_word-bytes_of true (c ∷ cs) = elim (Bool-cases (c == b'"')) [
  | inl q ↦ rw q (read_word-bytes_of false cs)
  | inr q ↦ rw q (ap (λ l. c ∷ l) (read_word-bytes_of true cs))
]
read_word-bytes_of false (c ∷ cs) = elim (Bool-cases ((c == b' ') || is_operator c)) [
  | inl h ↦ rw h refl
  | inr h ↦ elim (Bool-cases (c == b'"')) [
    | inl q ↦ rw (h, q) (read_word-bytes_of true cs)
    | inr q ↦
        let no_space : (c == b' ') ≡ false = ground arith in
        rw (h, q, no_space) (ap (λ l. c ∷ l) (read_word-bytes_of false cs))
  ]
]

operator-bytes_of :
    (c : ℕ) (cs : List ℕ) → is_operator c ≡ true → bytes_of false (c ∷ cs) ≡ c ∷ bytes_of false cs
operator-bytes_of c cs h =
    let no_quote : (c == b'"') ≡ false = ground arith in
    let no_space : (c == b' ') ≡ false = ground arith in rw (no_quote, no_space) refl

read_operator-bytes_of :
    (c : ℕ) (cs : List ℕ)
    → is_operator c ≡ true
    → (read_operator c cs).0 ++ bytes_of false (read_operator c cs).1 ≡ bytes_of false (c ∷ cs)
read_operator-bytes_of c [] h = sym (operator-bytes_of c [] h)
read_operator-bytes_of c (d ∷ cs) h = elim (Bool-cases ((c == b'>') && (d == b'>'))) [
  | inl two ↦
      let second : is_operator d ≡ true = ground arith in
      rw two
        (sym (operator-bytes_of c (d ∷ cs) h ∙ ap (λ l. c ∷ l) (operator-bytes_of d cs second)))
  | inr one ↦ rw one (sym (operator-bytes_of c (d ∷ cs) h))
]

pub next_word-bytes_of :
    (c : ℕ) (cs : List ℕ)
    → (next_word c cs).0 ++ bytes_of false (next_word c cs).1 ≡ bytes_of false (c ∷ cs)
next_word-bytes_of c cs = elim (Bool-cases (is_operator c)) [
  | inl h ↦ rw h (read_operator-bytes_of c cs h)
  | inr h ↦ rw h (read_word-bytes_of false (c ∷ cs))
]

pub space-bytes_of :
    (c : ℕ) (cs : List ℕ) → (c == b' ') ≡ true → bytes_of false (c ∷ cs) ≡ bytes_of false cs
space-bytes_of c cs h = let no_quote : (c == b'"') ≡ false = ground arith in rw (no_quote, h) refl

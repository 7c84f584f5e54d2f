-- ===== src/User/Shell/Line.antt =====
-- The line that a pipeline is written as, and sh_tokenize of src/user/sh.c on it.
use mo_os.Prelude.{
  ℕ, zero, suc, ◌+◌, ◌-◌, ◌≤◌, ◌≡◌, refl, ap, ◌∙◌, inl, inr, true, false, ◌&&◌, List, [], ◌∷◌, ◌++◌,
  arith, ◌==◌, Bool-cases, length, length-append, snoc-append,
}
use mo_os.User.Shell.{
  is_operator, read_word, next_word, word_before, token_loop, sh_tokenize, all_words,
}
use mo_os.User.Shell.Pipeline.{Word, kind_of, argument}

-- An argument or a file name stands in quotes, and a space behind each word.
abbrev pub quoted : Word → Word
quoted word = b'"' ∷ word ++ b'"' ∷ []

abbrev pub printed : Word → Word
printed word = elim (kind_of word) [ argument ↦ quoted word | _ ↦ word ]

abbrev pub line_of : List Word → List ℕ
line_of [] = []
line_of (word ∷ words) = printed word ++ b' ' ∷ line_of words

abbrev pub Unquoted : Word → Type 0
Unquoted [] = Unit
Unquoted (c ∷ cs) = ((c == b'"') ≡ false) × Unquoted cs

abbrev pub AllUnquoted : List Word → Type 0
AllUnquoted [] = Unit
AllUnquoted (word ∷ words) = Unquoted word × AllUnquoted words

inside :
    (word rest : List ℕ)
    → Unquoted word
    → read_word true (word ++ b'"' ∷ b' ' ∷ rest) ≡ (word, b' ' ∷ rest)
unfolding read_word
inside [] rest h = refl
inside (c ∷ cs) rest (other, h) = rw (other, inside cs rest h) refl

-- The next word of a line, and the space behind it.
Next : Word → Word → Type 0
Next text word =
    (fuel : ℕ) (rest : List ℕ) (max : ℕ)
    → 1 ≤ max
    → token_loop (suc (suc fuel)) (text ++ b' ' ∷ rest) max
      ≡ word_before word (token_loop fuel rest (max - 1))

step :
    (c : ℕ) (cs word rest : List ℕ) (fuel max : ℕ)
    → (c == b' ') ≡ false
    → 1 ≤ max
    → next_word c cs ≡ (word, b' ' ∷ rest)
    → token_loop (suc (suc fuel)) (c ∷ cs) max ≡ word_before word (token_loop fuel rest (max - 1))
unfolding token_loop
step c cs word rest fuel max other le found = elim (Bool-cases (max == 0)) [
  | inl full ↦ absurd (grind arith)
  | inr room ↦
      rw (other, token_loop)
        (rw (room, token_loop)
          (ap (λ p. word_before p.0 (token_loop (suc fuel) p.1 (max - 1))) found))
]

quoted-Next : (word : Word) → Unquoted word → Next (quoted word) word
unfolding Next read_word
quoted-Next word h fuel rest max le =
    step b'"' ((word ++ b'"' ∷ []) ++ b' ' ∷ rest) word rest fuel max refl le
      (ap (read_word true) (snoc-append word b'"' (b' ' ∷ rest)) ∙ inside word rest h)

alone :
    (c : ℕ) (rest : List ℕ)
    → is_operator c ≡ true
    → next_word c (b' ' ∷ rest) ≡ (c ∷ [], b' ' ∷ rest)
alone c rest h = elim (Bool-cases (c == b'>')) [ inl q ↦ rw (h, q) refl | inr q ↦ rw (h, q) refl ]

operator-Next : (c : ℕ) → is_operator c ≡ true → Next (c ∷ []) (c ∷ [])
unfolding Next
operator-Next c h fuel rest max le =
    step c (b' ' ∷ rest) (c ∷ []) rest fuel max (grind arith) le (alone c rest h)

append-Next : Next (b'>' ∷ b'>' ∷ []) (b'>' ∷ b'>' ∷ [])
unfolding Next
append-Next fuel rest max le =
    step b'>' (b'>' ∷ b' ' ∷ rest) (b'>' ∷ b'>' ∷ []) rest fuel max refl le refl

raw : (c : ℕ) → is_operator c ≡ true → printed (c ∷ []) ≡ c ∷ []
raw c h = ground arith

framed : (c : ℕ) → is_operator c ≡ false → printed (c ∷ []) ≡ quoted (c ∷ [])
framed c h = ground arith

framed_two :
    (c d : ℕ) → ((c == b'>') && (d == b'>')) ≡ false → printed (c ∷ d ∷ []) ≡ quoted (c ∷ d ∷ [])
framed_two c d h = ground arith

both : (c d : ℕ) → ((c == b'>') && (d == b'>')) ≡ true → (c ≡ b'>') × (d ≡ b'>')
both c d h = ground arith

arrows : (c d : ℕ) → (c ≡ b'>') × (d ≡ b'>') → Next (printed (c ∷ d ∷ [])) (c ∷ d ∷ [])
arrows c d (e, e') = rw (e, e') append-Next

printed-Next : (word : Word) → Unquoted word → Next (printed word) word
printed-Next [] h = quoted-Next [] h
printed-Next (c ∷ []) h = elim (Bool-cases (is_operator c)) [
  | inl q ↦ rw (raw c q) (operator-Next c q)
  | inr q ↦ rw (framed c q) (quoted-Next (c ∷ []) h)
]
printed-Next (c ∷ d ∷ []) h = elim (Bool-cases ((c == b'>') && (d == b'>'))) [
  | inl q ↦ arrows c d (both c d q)
  | inr q ↦ rw (framed_two c d q) (quoted-Next (c ∷ d ∷ []) h)
]
printed-Next (c ∷ d ∷ e ∷ cs) h = quoted-Next (c ∷ d ∷ e ∷ cs) h

not_blank : (word : Word) → 1 ≤ length (printed word)
not_blank [] = omega arith
not_blank (c ∷ []) = grind arith
not_blank (c ∷ d ∷ []) = grind arith
not_blank (c ∷ d ∷ e ∷ cs) = omega arith

printed_length :
    (word : Word) (words : List Word) → 2 + length (line_of words) ≤ length (line_of (word ∷ words))
printed_length word words =
    omega (arith, not_blank word, length-append (printed word) (b' ' ∷ line_of words))

line-tokens :
    (words : List Word) (fuel max : ℕ)
    → AllUnquoted words
    → length words ≤ max
    → length (line_of words) ≤ fuel
    → token_loop fuel (line_of words) max ≡ all_words words
unfolding token_loop Next
line-tokens [] fuel max h few le = refl
line-tokens (word ∷ words) zero max (u, h) few le =
    absurd (omega (arith, printed_length word words))
line-tokens (word ∷ words) (suc zero) max (u, h) few le =
    absurd (omega (arith, printed_length word words))
line-tokens (word ∷ words) (suc (suc fuel)) max (u, h) few le =
    printed-Next word u fuel (line_of words) max (omega arith)
    ∙ ap (word_before word) (
        line-tokens words fuel (max - 1) h (omega arith) (omega (arith, printed_length word words)))

pub sh_tokenize-line_of :
    (words : List Word) (max : ℕ)
    → AllUnquoted words
    → length words ≤ max
    → sh_tokenize (line_of words) max ≡ all_words words
sh_tokenize-line_of words max unquoted few =
    line-tokens words (length (line_of words)) max unquoted few (omega arith)

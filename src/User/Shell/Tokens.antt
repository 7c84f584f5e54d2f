-- ===== src/User/Shell/Tokens.antt =====
-- The words that `sh_tokenize` of src/user/sh.c finds.

use mo_os.User.Shell.Bytes.{bytes_of, joined, next_word-bytes_of, space-bytes_of}
use mo_os.Prelude.{
  ℕ, zero, suc, ◌+◌, ◌-◌, ◌*◌, ◌≤◌, ◌<◌, ◌≡◌, refl, sym, ap, ◌∙◌, inl, inr, Bool, true, false, not,
  ◌&&◌, ◌||◌, List, [], ◌∷◌, ◌++◌, arith, ◌==◌, Bool-cases, length,
}
use mo_os.User.Shell.{
  is_operator, read_word, next_word, word_before, token_loop, sh_tokenize, stored_bytes, Tokenized,
  all_words, too_many,
}

-- Behind a word the line is shorter, and the word has no more bytes than were taken.
abbrev Taken : ℕ → List ℕ × List ℕ → Type 0
Taken n (word, rest) = length word + length rest ≤ n

read_word-Taken : (quoted : Bool) (cs : List ℕ) → Taken (length cs) (read_word quoted cs)
unfolding read_word
read_word-Taken quoted [] = omega arith
read_word-Taken quoted (c ∷ cs) = elim (Bool-cases (not quoted && ((c == b' ') || is_operator c))) [
  | inl h ↦ rw h (omega arith)
  | inr h ↦ elim (Bool-cases (c == b'"')) [
    | inl q ↦ rw (h, q) (omega (arith, read_word-Taken (not quoted) cs))
    | inr q ↦ rw (h, q) (omega (arith, read_word-Taken quoted cs))
  ]
]

-- At a byte that begins a word, one byte at least is taken.
next_word-Taken :
    (c : ℕ) (cs : List ℕ)
    → (c == b' ') ≡ false
    → Taken (length cs + 1) (next_word c cs) × (length (next_word c cs).1 ≤ length cs)
unfolding read_word
next_word-Taken c [] no_space = elim (Bool-cases (is_operator c)) [
  | inl h ↦ rw h (omega arith, omega arith)
  | inr h ↦ elim (Bool-cases (c == b'"')) [
    | inl q ↦ rw (h, no_space, q) (omega arith, omega arith)
    | inr q ↦ rw (h, no_space, q) (omega arith, omega arith)
  ]
]
next_word-Taken c (d ∷ cs) no_space = elim (Bool-cases (is_operator c)) [
  | inl h ↦ elim (Bool-cases ((c == b'>') && (d == b'>'))) [
    | inl two ↦ rw (h, two) (omega arith, omega arith)
    | inr one ↦ rw (h, one) (omega arith, omega arith)
  ]
  | inr h ↦
      let longer = read_word-Taken true (d ∷ cs) in
      let shorter = read_word-Taken false (d ∷ cs) in
      elim (Bool-cases (c == b'"')) [
        | inl q ↦ rw (h, no_space, q) (omega arith, omega arith)
        | inr q ↦ rw (h, no_space, q) (omega arith, omega arith)
      ]
]

-- Words and their bytes with the terminators that fit: `max` words if not all are stored, else at most so
-- many, and twice the line.
abbrev Fits : ℕ → List ℕ → Tokenized → Type 0
Fits max line (all_words words) = (length words ≤ max) × (stored_bytes words ≤ 2 * length line)
Fits max line (too_many words) = (length words ≡ max) × (stored_bytes words ≤ 2 * length line)

-- The words found with little room against those with room for all: the same ones, or the first ones
-- with at least one behind them.
abbrev pub Begins : Tokenized → Tokenized → Type 0
Begins (all_words words) all = all ≡ all_words words
Begins (too_many words) all =
    (rest : List (List ℕ)) × (all ≡ all_words (words ++ rest)) × (0 < length rest)

word_before-Fits :
    (max : ℕ) (word rest : List ℕ) (c : ℕ) (cs : List ℕ) (o : Tokenized)
    → 1 ≤ max
    → length word + length rest ≤ length cs + 1
    → length rest ≤ length cs
    → Fits (max - 1) rest o
    → Fits max (c ∷ cs) (word_before word o)
unfolding stored_bytes
word_before-Fits max word rest c cs (too_many words) room taken shorter (full, fits) =
    (omega arith, omega arith)
word_before-Fits max word rest c cs (all_words words) room taken shorter (few, fits) =
    (omega arith, omega arith)

skip-Fits : (max c : ℕ) (cs : List ℕ) (o : Tokenized) → Fits max cs o → Fits max (c ∷ cs) o
skip-Fits max c cs (too_many words) (full, fits) = (full, omega arith)
skip-Fits max c cs (all_words words) (few, fits) = (few, omega arith)

loop-Fits :
    (fuel : ℕ) (cs : List ℕ) (max : ℕ) → length cs ≤ fuel → Fits max cs (token_loop fuel cs max)
unfolding token_loop stored_bytes
loop-Fits zero [] max le = (omega arith, omega arith)
loop-Fits (suc fuel) [] max le = (omega arith, omega arith)
loop-Fits zero (c ∷ cs) max le = absurd (omega arith)
loop-Fits (suc fuel) (c ∷ cs) max le = elim (Bool-cases (c == b' ')) [
  | inl h ↦
      rw (h, token_loop)
        (skip-Fits max c cs (token_loop fuel cs max) (loop-Fits fuel cs max (omega arith)))
  | inr h ↦ elim (Bool-cases (max == 0)) [
    | inl full ↦ rw (h, token_loop) (rw (full, token_loop) (ground arith, omega arith))
    | inr room ↦
        let (taken, shorter) = next_word-Taken c cs h in
        let rest = (next_word c cs).1 in
        rw (h, token_loop)
          (rw (room, token_loop)
            (word_before-Fits max (next_word c cs).0 rest c cs (token_loop fuel rest (max - 1))
              (grind arith) (omega arith) shorter (loop-Fits fuel rest (max - 1) (omega arith))))
  ]
]

same_loop :
    (f g : ℕ) (cs : List ℕ) (max : ℕ)
    → length cs ≤ f
    → length cs ≤ g
    → token_loop f cs max ≡ token_loop g cs max
unfolding token_loop
same_loop zero zero cs max le le' = refl
same_loop zero (suc g) [] max le le' = refl
same_loop (suc f) zero [] max le le' = refl
same_loop (suc f) (suc g) [] max le le' = refl
same_loop zero (suc g) (x ∷ xs) max le le' = absurd (omega arith)
same_loop (suc f) zero (x ∷ xs) max le le' = absurd (omega arith)
same_loop (suc f) (suc g) (c ∷ cs) max le le' = elim (Bool-cases (c == b' ')) [
  | inl h ↦ rw (h, token_loop) (same_loop f g cs max (omega arith) (omega arith))
  | inr h ↦ elim (Bool-cases (max == 0)) [
    | inl full ↦ rw (h, token_loop) (rw (full, token_loop) refl)
    | inr room ↦
        let (taken, shorter) = next_word-Taken c cs h in
        rw (h, token_loop)
          (rw (room, token_loop)
            (ap (word_before (next_word c cs).0)
              (same_loop f g (next_word c cs).1 (max - 1) (omega arith) (omega arith))))
  ]
]

word_before-Begins :
    (word : List ℕ) (o all : Tokenized)
    → Begins o all
    → Begins (word_before word o) (word_before word all)
word_before-Begins word (all_words words) all e = ap (word_before word) e
word_before-Begins word (too_many words) all (rest, e, more) = (rest, ap (word_before word) e, more)

-- With as much room as the line has bytes, no word is refused, and no byte is lost.
roomy :
    (fuel : ℕ) (cs : List ℕ) (room : ℕ)
    → length cs ≤ fuel
    → length cs ≤ room
    → (words : List (List ℕ)) × (token_loop fuel cs room ≡ all_words words)
      × (joined words ≡ bytes_of false cs)
unfolding token_loop
roomy zero [] room le le' = ([], refl, refl)
roomy (suc fuel) [] room le le' = ([], refl, refl)
roomy zero (c ∷ cs) room le le' = absurd (omega arith)
roomy (suc fuel) (c ∷ cs) room le le' = elim (Bool-cases (c == b' ')) [
  | inl h ↦
      let (words, all, bytes) = roomy fuel cs room (omega arith) (omega arith) in
      (words, rw (h, token_loop) all, bytes ∙ sym (space-bytes_of c cs h))
  | inr h ↦
      let some_room : (room == 0) ≡ false = ground arith in
      let (taken, shorter) = next_word-Taken c cs h in
      let (words, all, bytes) =
        roomy fuel (next_word c cs).1 (room - 1) (omega arith) (omega arith) in
      let word = (next_word c cs).0 in
      (
        word ∷ words,
        rw (h, token_loop) (rw (some_room, token_loop) (ap (word_before word) all)),
        ap (λ l. word ++ l) bytes ∙ next_word-bytes_of c cs,
      )
]

loop-Begins :
    (fuel : ℕ) (cs : List ℕ) (max room : ℕ)
    → length cs ≤ fuel
    → length cs ≤ room
    → Begins (token_loop fuel cs max) (token_loop fuel cs room)
unfolding token_loop
loop-Begins zero [] max room le le' = refl
loop-Begins (suc fuel) [] max room le le' = refl
loop-Begins zero (c ∷ cs) max room le le' = absurd (omega arith)
loop-Begins (suc fuel) (c ∷ cs) max room le le' = elim (Bool-cases (c == b' ')) [
  | inl h ↦ rw (h, token_loop) (loop-Begins fuel cs max room (omega arith) (omega arith))
  | inr h ↦
      let some_room : (room == 0) ≡ false = ground arith in
      let (taken, shorter) = next_word-Taken c cs h in
      let word = (next_word c cs).0 in
      let rest = (next_word c cs).1 in
      elim (Bool-cases (max == 0)) [
        | inl full ↦
            let (words, all, bytes) = roomy fuel rest (room - 1) (omega arith) (omega arith) in
            rw (h, token_loop)
              (rw (full, some_room, token_loop)
                (word ∷ words, ap (word_before word) all, omega arith))
        | inr free ↦
            rw (h, token_loop)
              (rw (free, some_room, token_loop)
                (word_before-Begins word (token_loop fuel rest (max - 1))
                  (token_loop fuel rest (room - 1))
                  (loop-Begins fuel rest (max - 1) (room - 1) (omega arith) (omega arith))))
      ]
]

-- What `sh_tokenize` leaves in `words` and `buf`.
pub record Stored (max : ℕ) (line : List ℕ) (found : Tokenized) : Type 0 where
  fits : Fits max line found
  begins : Begins found (sh_tokenize line (length line))
  whole :
      (words : List (List ℕ)) × (sh_tokenize line (length line) ≡ all_words words)
      × (joined words ≡ bytes_of false line)

-- More fuel than the line has bytes changes nothing. With room for as many words as the line has bytes,
-- all words of the line are stored, and behind each other they are the bytes of the line without the
-- quotes and the spaces outside of quotes. With room for `max` words the same ones are stored if there are no
-- more than `max`; else -1 is returned, and the first `max` of them are stored. In both cases they take at
-- most two bytes of `buf` for a byte of the line, terminators included.
pub sh_tokenize-Stored :
    (fuel : ℕ) (line : List ℕ) (max : ℕ)
    → length line ≤ fuel
    → (token_loop fuel line max ≡ sh_tokenize line max) × Stored max line (sh_tokenize line max)
sh_tokenize-Stored fuel line max le = (
  same_loop fuel (length line) line max le (omega arith),
  record {
    fits = loop-Fits (length line) line max (omega arith);
    begins = loop-Begins (length line) line max (length line) (omega arith) (omega arith);
    whole = roomy (length line) line (length line) (omega arith) (omega arith);
  },
)

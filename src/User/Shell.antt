-- ===== src/User/Shell.antt =====
-- The command line of the shell, src/user/sh.c: its words and the pipeline they stand for. What the shell
-- prints about a line that is wrong is left out.
pub mod Bytes
pub mod Tokens
pub mod Pipeline
pub mod Parse
pub mod RoundTrip
pub mod Line
pub mod Execute
pub mod Prefix
pub mod Launch
pub mod Descriptors
mod Tests
use mo_os.Prelude.{
  ℕ, zero, suc, ◌+◌, ◌-◌, Bool, true, false, not, ◌&&◌, ◌||◌, List, [], ◌∷◌, ◌==◌, if◌then◌else◌,
  length,
}

abbrev pub is_operator : ℕ → Bool
is_operator c = (c == b'|') || (c == b'<') || (c == b'>') || (c == b'&')

-- The bytes of a word up to a space or an operator outside of quotes, and the line behind it.
unfoldable pub read_word : Bool → List ℕ → List ℕ × List ℕ
read_word quoted [] = ([], [])
read_word quoted (c ∷ cs) =
    let (skipped, rest) = read_word (not quoted) cs in
    let (word, rest') = read_word quoted cs in
    if not quoted && ((c == b' ') || is_operator c)
    then ([], c ∷ cs)
    else if c == b'"'
    then (skipped, rest)
    else (c ∷ word, rest')

-- One operator, with the line behind its first byte.
abbrev pub read_operator : ℕ → List ℕ → List ℕ × List ℕ
read_operator c [] = (c ∷ [], [])
read_operator c (d ∷ cs) = if (c == b'>') && (d == b'>') then (c ∷ d ∷ [], cs) else (c ∷ [], d ∷ cs)

abbrev pub next_word : ℕ → List ℕ → List ℕ × List ℕ
next_word c cs = if is_operator c then read_operator c cs else read_word false (c ∷ cs)

-- What is in `words` when all words are counted, and when -1 is returned.
pub data Tokenized : Type 0 where
  all_words : List (List ℕ) → Tokenized
  too_many : List (List ℕ) → Tokenized

abbrev pub word_before : List ℕ → Tokenized → Tokenized
word_before word (all_words words) = all_words (word ∷ words)
word_before word (too_many words) = too_many (word ∷ words)

-- `sh_tokenize` with room for `max` words; a round takes a byte at least.
unfoldable pub token_loop : ℕ → List ℕ → ℕ → Tokenized
token_loop fuel [] max = all_words []
token_loop zero (c ∷ cs) max = too_many []
token_loop (suc fuel) (c ∷ cs) max = elim (c == b' ') [
  | true ↦ token_loop fuel cs max
  | false ↦ elim (max == 0) [
    | true ↦ too_many []
    | false ↦ let (word, rest) = next_word c cs in word_before word (token_loop fuel rest (max - 1))
  ]
]

abbrev pub sh_tokenize : List ℕ → ℕ → Tokenized
sh_tokenize line max = token_loop (length line) line max

-- The bytes that the words take in `buf`, each with its terminator.
pub stored_bytes : List (List ℕ) → ℕ
stored_bytes [] = 0
stored_bytes (word ∷ words) = length word + 1 + stored_bytes words

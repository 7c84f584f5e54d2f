-- ===== src/User/Shell/Parse.antt =====
-- What sh_parse of src/user/sh.c accepts, and how the words of a pipeline come back.
use mo_os.Prelude.{
  ◌+◌, ◌≤◌, ◌≡◌, refl, ◌⊎◌, inl, inr, Bool, true, false, ◌||◌, Option, none, some, List, [], ◌∷◌,
  ◌++◌, arith, ltb, ◌==◌, Bool-cases, length, length-snoc,
}
use mo_os.User.Shell.Pipeline.{
  Word, max_stages, max_args, empty_pipeline, kind_of, is_file_name, is_some, next_stage, read_from,
  write_to, add_argument, last_stage, unless_refused, parse_loop, sh_parse, Pipeline, Parsed, Kind,
  refused, parsed, pipe, from_file, to_file, in_background, argument,
}

abbrev pub Arguments : List Word → Type 0
Arguments [] = Unit
Arguments (word ∷ words) = (kind_of word ≡ argument) × Arguments words

abbrev pub IsStage : List Word → Type 0
IsStage args = (1 ≤ length args) × (length args ≤ max_args) × Arguments args

abbrev pub Stages : List (List Word) → Type 0
Stages [] = Unit
Stages (args ∷ stages) = IsStage args × Stages stages

abbrev pub IsFile : Option Word → Type 0
IsFile none = Unit
IsFile (some name) = is_file_name name ≡ true

-- While a line is read: the last stage may still be empty.
abbrev pub Partial : Pipeline → Type 0
Partial p =
    (length p.complete + 1 ≤ max_stages)
    × (length p.stage ≤ max_args)
    × Arguments p.stage
    × Stages p.complete
    × IsFile p.input
    × IsFile p.output
    × ((is_some p.output ≡ true) ⊎ (p.append ≡ false))

-- What the shell runs: one to eight stages with one to sixteen arguments each, no argument an operator.
abbrev pub IsPipeline : Pipeline → Type 0
IsPipeline p = Partial p × (1 ≤ length p.stage)

abbrev pub Sound : (Pipeline → Type 0) → Parsed → Type 0
Sound P (refused reason) = Unit
Sound P (parsed p) = P p

Arguments-++ : (xs ys : List Word) → Arguments xs → Arguments ys → Arguments (xs ++ ys)
Arguments-++ [] ys h h' = h'
Arguments-++ (x ∷ xs) ys (a, h) h' = (a, Arguments-++ xs ys h h')

Stages-++ : (xs ys : List (List Word)) → Stages xs → Stages ys → Stages (xs ++ ys)
Stages-++ [] ys h h' = h'
Stages-++ (x ∷ xs) ys (a, h) h' = (a, Stages-++ xs ys h h')

unless_refused-Sound :
    (o : Parsed) (f : Pipeline → Parsed)
    → Sound Partial o
    → ((p : Pipeline) → Partial p → Sound IsPipeline (f p))
    → Sound IsPipeline (unless_refused o f)
unless_refused-Sound (refused reason) f h g = tt
unless_refused-Sound (parsed p) f h g = g p h

not_empty : (args : List Word) (b : Bool) → ((length args == 0) || b) ≡ false → 1 ≤ length args
not_empty [] b h = absurd cc
not_empty (x ∷ xs) b h = omega arith

next_stage-Partial : (p : Pipeline) → Partial p → Sound Partial (next_stage p)
next_stage-Partial p (few, short, args, stages, input, output, added) =
    elim (Bool-cases ((length p.stage == 0) || is_some p.output)) [
      | inl h ↦ rw h tt
      | inr h ↦ elim (Bool-cases (length p.complete + 1 == max_stages)) [
        | inl full ↦ rw (h, full) tt
        | inr room ↦
            rw (h, room)
              (
                grind (arith, length-snoc p.complete p.stage),
                omega arith,
                tt,
                Stages-++ p.complete (p.stage ∷ []) stages
                    ((not_empty p.stage (is_some p.output) h, short, args), tt),
                input,
                output,
                added,
              )
      ]
    ]

read_from-Partial : (word : Word) (p : Pipeline) → Partial p → Sound Partial (read_from word p)
read_from-Partial word p (few, short, args, stages, input, output, added) =
    elim (Bool-cases (is_file_name word)) [
      | inr h ↦ rw h tt
      | inl h ↦ elim (Bool-cases (ltb 1 (length p.complete + 1))) [
        | inl q ↦ rw (h, q) tt
        | inr q ↦ rw (h, q) (few, short, args, stages, h, output, added)
      ]
    ]

write_to-Partial :
    (append : Bool) (word : Word) (p : Pipeline)
    → Partial p
    → Sound Partial (write_to append word p)
write_to-Partial append word p (few, short, args, stages, input, output, added) =
    elim (Bool-cases (is_file_name word)) [
      | inr h ↦ rw h tt
      | inl h ↦ rw h (few, short, args, stages, input, h, inl refl)
    ]

add_argument-Partial :
    (word : Word) (p : Pipeline)
    → kind_of word ≡ argument
    → Partial p
    → Sound Partial (add_argument word p)
add_argument-Partial word p k (few, short, args, stages, input, output, added) =
    elim (Bool-cases (length p.stage == max_args)) [
      | inl h ↦ rw h tt
      | inr h ↦ rw h (
        few,
        grind (arith, length-snoc p.stage word),
        Arguments-++ p.stage (word ∷ []) args (k, tt),
        stages,
        input,
        output,
        added,
      )
    ]

last_stage-Sound : (p : Pipeline) → Partial p → Sound IsPipeline (last_stage p)
last_stage-Sound p r = elim (Bool-cases (length p.stage == 0)) [
  | inl h ↦ rw h tt
  | inr h ↦ rw h (r, grind arith)
]

-- The kind of a word, with its equation.
data Seen (word : Word) : Type 0 where
  bar : kind_of word ≡ pipe → Seen word
  less : kind_of word ≡ from_file → Seen word
  greater : (append : Bool) → kind_of word ≡ to_file append → Seen word
  ampersand : kind_of word ≡ in_background → Seen word
  other : kind_of word ≡ argument → Seen word

see : (word : Word) (k : Kind) → kind_of word ≡ k → Seen word
see word pipe e = bar e
see word from_file e = less e
see word (to_file append) e = greater append e
see word in_background e = ampersand e
see word argument e = other e

parse_loop-Sound :
    (words : List Word) (p : Pipeline) → Partial p → Sound IsPipeline (parse_loop words p)
unfolding parse_loop
parse_loop-Sound [] p r = last_stage-Sound p r
parse_loop-Sound (word ∷ []) p r = elim (see word (kind_of word) refl) [
  | bar e ↦
      rw (e, parse_loop)
        (unless_refused-Sound (next_stage p) last_stage (next_stage-Partial p r) last_stage-Sound)
  | less e ↦ rw (e, parse_loop) tt
  | greater append e ↦ rw (e, parse_loop) tt
  | ampersand e ↦ rw (e, parse_loop) (last_stage-Sound (record p { background = true }) r)
  | other e ↦
      rw (e, parse_loop)
        (unless_refused-Sound (add_argument word p) last_stage (add_argument-Partial word p e r)
          last_stage-Sound)
]
parse_loop-Sound (word ∷ next ∷ words) p r = elim (see word (kind_of word) refl) [
  | bar e ↦
      rw (e, parse_loop)
        (unless_refused-Sound (next_stage p) (parse_loop (next ∷ words)) (next_stage-Partial p r)
          (parse_loop-Sound (next ∷ words)))
  | less e ↦
      rw (e, parse_loop)
        (unless_refused-Sound (read_from next p) (parse_loop words) (read_from-Partial next p r)
          (parse_loop-Sound words))
  | greater append e ↦
      rw (e, parse_loop)
        (unless_refused-Sound (write_to append next p) (parse_loop words)
          (write_to-Partial append next p r) (parse_loop-Sound words))
  | ampersand e ↦ rw (e, parse_loop) tt
  | other e ↦
      rw (e, parse_loop)
        (unless_refused-Sound (add_argument word p) (parse_loop (next ∷ words))
          (add_argument-Partial word p e r) (parse_loop-Sound (next ∷ words)))
]

-- Whatever the words are, a pipeline that the shell runs has one to eight stages, each with one to sixteen
-- arguments, none of them an operator, and its file names begin with no operator.
pub sh_parse-IsPipeline : (words : List Word) → Sound IsPipeline (sh_parse words)
sh_parse-IsPipeline words =
    parse_loop-Sound words empty_pipeline (omega arith, omega arith, tt, tt, tt, tt, inr refl)

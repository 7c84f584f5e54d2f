-- ===== src/User/Shell/RoundTrip.antt =====
-- A pipeline that is written as a command line comes back from sh_tokenize and sh_parse of src/user/sh.c.
use mo_os.Prelude.{
  ◌+◌, ◌≤◌, ◌≡◌, refl, sym, ap, ap₂, ◌∙◌, ◌⊎◌, inl, inr, Bool, true, false, Option, none, some,
  List, [], ◌∷◌, ◌++◌, append_assoc, append-nil, arith, ◌==◌, if◌then◌else◌, Bool-cases, suc==zero,
  length, snoc-append, length-snoc,
}
use mo_os.User.Shell.Pipeline.{
  Word, max_stages, max_args, empty_pipeline, kind_of, is_some, next_stage, add_argument,
  last_stage, unless_refused, parse_loop, sh_parse, Pipeline, parsed, argument,
}
use mo_os.User.Shell.Parse.{Arguments, Stages, IsFile, IsPipeline}

-- The words of a pipeline.
abbrev pub file_words : Word → Option Word → List Word
file_words operator none = []
file_words operator (some name) = operator ∷ name ∷ []

abbrev pub stage_words : List (List Word) → List Word
stage_words [] = []
stage_words (args ∷ stages) = args ++ (b'|' ∷ []) ∷ stage_words stages

abbrev pub arrow : Bool → Word
arrow append = if append then b'>' ∷ b'>' ∷ [] else b'>' ∷ []

abbrev pub end_words : Bool → List Word
end_words background = if background then (b'&' ∷ []) ∷ [] else []

abbrev pub words_of : Pipeline → List Word
words_of p =
    file_words (b'<' ∷ []) p.input
    ++ (stage_words p.complete
        ++ (p.stage ++ (file_words (arrow p.append) p.output ++ end_words p.background)))

parse-argument :
    (word : Word) (words : List Word) (p : Pipeline)
    → kind_of word ≡ argument
    → parse_loop (word ∷ words) p ≡ unless_refused (add_argument word p) (parse_loop words)
unfolding parse_loop
parse-argument word [] p e = rw (e, parse_loop) refl
parse-argument word (next ∷ words) p e = rw (e, parse_loop) refl

parse-pipe :
    (words : List Word) (p : Pipeline)
    → parse_loop ((b'|' ∷ []) ∷ words) p ≡ unless_refused (next_stage p) (parse_loop words)
unfolding parse_loop
parse-pipe [] p = refl
parse-pipe (next ∷ words) p = refl

parse-end :
    (background : Bool) (p : Pipeline)
    → p.background ≡ false
    → parse_loop (end_words background) p ≡ last_stage (record p { background = background })
unfolding parse_loop
parse-end true p e = refl
parse-end false p e = ap (λ b. last_stage (record p { background = b })) e

parse-input :
    (input : Option Word) (words : List Word)
    → IsFile input
    → parse_loop (file_words (b'<' ∷ []) input ++ words) empty_pipeline
      ≡ parse_loop words (record empty_pipeline { input = input })
unfolding parse_loop
parse-input none words h = refl
parse-input (some name) words h = rw h refl

parse-output :
    (output : Option Word) (append : Bool) (words : List Word) (p : Pipeline)
    → IsFile output
    → ((is_some output ≡ true) ⊎ (append ≡ false))
    → p.output ≡ none
    → p.append ≡ false
    → parse_loop (file_words (arrow append) output ++ words) p
      ≡ parse_loop words (record p { output = output; append = append })
unfolding parse_loop
parse-output none true words p file added e e' = absurd (both_ways added)
  where
    both_ways : ((false ≡ true) ⊎ (true ≡ false)) → ⊥
    both_ways (inl h) = cc
    both_ways (inr h) = cc
parse-output none false words p file added e e' =
    ap₂ (λ o b. parse_loop words (record p { output = o; append = b })) e e'
parse-output (some name) true words p file added e e' = rw file refl
parse-output (some name) false words p file added e e' = rw file refl

add-room :
    (word : Word) (p : Pipeline)
    → length p.stage + 1 ≤ max_args
    → add_argument word p ≡ parsed (record p { stage = p.stage ++ word ∷ [] })
add-room word p le = elim (Bool-cases (length p.stage == max_args)) [
  | inl h ↦ absurd (grind arith)
  | inr h ↦ rw h refl
]

parse-Arguments :
    (args words : List Word) (p : Pipeline)
    → Arguments args
    → length p.stage + length args ≤ max_args
    → parse_loop (args ++ words) p ≡ parse_loop words (record p { stage = p.stage ++ args })
parse-Arguments [] words p h le =
    ap (λ s. parse_loop words (record p { stage = s })) (sym (append-nil p.stage))
parse-Arguments (arg ∷ args) words p (k, h) le =
    parse-argument arg (args ++ words) p k
    ∙ ap (λ o. unless_refused o (parse_loop (args ++ words))) (add-room arg p (omega arith))
    ∙ parse-Arguments args words (record p { stage = p.stage ++ arg ∷ [] }) h
        (omega (arith, length-snoc p.stage arg))
    ∙ ap (λ s. parse_loop words (record p { stage = s })) (snoc-append p.stage arg args)

-- Behind a bar, or at the beginning of the line.
abbrev between : List (List Word) → Option Word → Pipeline
between complete input = record empty_pipeline { complete = complete; input = input }

pass-bar :
    (complete : List (List Word)) (args : List Word) (input : Option Word)
    → 1 ≤ length args
    → length complete + 2 ≤ max_stages
    → next_stage (record (between complete input) { stage = args })
      ≡ parsed (between (complete ++ args ∷ []) input)
pass-bar complete [] input some_args le = absurd (omega arith)
pass-bar complete (x ∷ xs) input some_args le =
    elim (Bool-cases (length complete + 1 == max_stages)) [
      | inl h ↦ absurd (grind arith)
      | inr h ↦ rw (suc==zero (length xs), h) refl
    ]

parse-Stages :
    (stages : List (List Word)) (words : List Word) (complete : List (List Word))
    (input : Option Word)
    → Stages stages
    → length complete + length stages + 1 ≤ max_stages
    → parse_loop (stage_words stages ++ words) (between complete input)
      ≡ parse_loop words (between (complete ++ stages) input)
parse-Stages [] words complete input h le =
    ap (λ c. parse_loop words (between c input)) (sym (append-nil complete))
parse-Stages (args ∷ stages) words complete input ((nonempty, short, a), h) le =
    let rest = stage_words stages ++ words in
    ap (λ ws. parse_loop ws (between complete input))
      (append_assoc args ((b'|' ∷ []) ∷ stage_words stages) words)
    ∙ parse-Arguments args ((b'|' ∷ []) ∷ rest) (between complete input) a (omega arith)
    ∙ parse-pipe rest (record (between complete input) { stage = args })
    ∙ ap (λ o. unless_refused o (parse_loop rest))
        (pass-bar complete args input nonempty (omega arith))
    ∙ parse-Stages stages words (complete ++ args ∷ []) input h
        (omega (arith, length-snoc complete args))
    ∙ ap (λ c. parse_loop words (between c input)) (snoc-append complete args stages)

last_stage-parsed : (p : Pipeline) → 1 ≤ length p.stage → last_stage p ≡ parsed p
last_stage-parsed p le = elim (Bool-cases (length p.stage == 0)) [
  | inl h ↦ absurd (grind arith)
  | inr h ↦ rw h refl
]

pub sh_parse-words_of : (p : Pipeline) → IsPipeline p → sh_parse (words_of p) ≡ parsed p
sh_parse-words_of p ((few, short, args, stages, input, output, added), nonempty) =
    let ending = file_words (arrow p.append) p.output ++ end_words p.background in
    let read = record (between p.complete p.input) { stage = p.stage } in
    parse-input p.input (stage_words p.complete ++ (p.stage ++ ending)) input
    ∙ parse-Stages p.complete (p.stage ++ ending) [] p.input stages (omega arith)
    ∙ parse-Arguments p.stage ending (between p.complete p.input) args (omega arith)
    ∙ parse-output p.output p.append (end_words p.background) read output added refl refl
    ∙ parse-end p.background (record read { output = p.output; append = p.append }) refl
    ∙ last_stage-parsed p nonempty

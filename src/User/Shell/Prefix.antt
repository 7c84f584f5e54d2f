-- ===== src/User/Shell/Prefix.antt =====
-- What sh_execute_line of src/user/sh.c does with the line of a pipeline, with a prefix or without one.
use mo_os.User.Shell.{all_words}
use mo_os.User.Shell.Parse.{IsPipeline}
use mo_os.User.Shell.RoundTrip.{words_of, sh_parse-words_of}
use mo_os.User.Shell.Line.{line_of, AllUnquoted, sh_tokenize-line_of}
use mo_os.Prelude.{
  ℕ, ◌+◌, ◌≤◌, ◌≡◌, refl, sym, ap, ap₂, ◌∙◌, ◌≢◌, inl, inr, Bool, true, false, not, ◌&&◌, ◌||◌,
  Option, none, some, List, [], ◌∷◌, ◌++◌, arith, ltb, ◌==◌, ==_iff, Bool-cases, ==_refl, length,
}
use mo_os.User.Shell.Pipeline.{Word, is_some, parse_loop, sh_parse, Pipeline, parsed}
use mo_os.User.Shell.Execute.{
  line_max, prio_default, run_word, prio_word, commands, same_word, is_command, first_stage,
  name_of, first_name, is_alone, command_or_program, parsed_action, is_priority, prefix_loop,
  words_action, sh_execute_line, Action, programs_only, run_command, run_pipeline,
}
use mo_os.User.Format.Number.{atoi}

pub data Prefix : Type 0 where
  unprefixed : Prefix
  forced : Prefix
  prioritized : Word → Prefix

abbrev pub prefix_words : Prefix → List Word
prefix_words unprefixed = []
prefix_words forced = run_word ∷ []
prefix_words (prioritized text) = prio_word ∷ text ∷ []

-- The text of a priority is one.
abbrev pub IsPrefix : Prefix → List Word → Type 0
IsPrefix unprefixed words = Unit
IsPrefix forced words = Unit
IsPrefix (prioritized text) words = is_priority text words ≡ true

abbrev pub takes_prefix : List Word → Bool
takes_prefix words = same_word (name_of words) run_word || same_word (name_of words) prio_word

-- What the code does with the words behind a prefix.
abbrev action_of : Prefix → Pipeline → Action
action_of unprefixed p = command_or_program p prio_default
action_of forced p = run_pipeline p prio_default
action_of (prioritized text) p = run_pipeline p (atoi text)

-- The name stands in a list, or it does not.
pub data Named (name : Word) : List Word → Type 0 where
  here : (command : Word) (rest : List Word) → name ≡ command → Named name (command ∷ rest)
  there : (command : Word) (rest : List Word) → Named name rest → Named name (command ∷ rest)

abbrev pub NotNamed : Word → List Word → Type 0
NotNamed name [] = Unit
NotNamed name (command ∷ rest) = (name ≢ command) × NotNamed name rest

-- One program, with no file and not in the background.
abbrev pub Alone : Pipeline → Type 0
Alone p = (p.complete ≡ []) × (p.input ≡ none) × (p.output ≡ none) × (p.background ≡ false)

-- What is to be done with a pipeline behind a prefix.
pub data Acts (p : Pipeline) : Prefix → Action → Type 0 where
  runs_command :
      Named (first_name p) commands → Alone p → Acts p unprefixed (run_command (first_stage p))
  refuses_command : Named (first_name p) commands → ¬ Alone p → Acts p unprefixed programs_only
  runs_programs : NotNamed (first_name p) commands → Acts p unprefixed (run_pipeline p prio_default)
  forces_programs : Acts p forced (run_pipeline p prio_default)
  gives_priority : (text : Word) → Acts p (prioritized text) (run_pipeline p (atoi text))

same_word_same : (a b : Word) → same_word a b ≡ true → a ≡ b
same_word_same [] [] h = refl
same_word_same [] (d ∷ ds) h = absurd cc
same_word_same (c ∷ cs) [] h = absurd cc
same_word_same (c ∷ cs) (d ∷ ds) h = elim (Bool-cases (c == d)) [
  | inl e ↦
      let tail : same_word cs ds ≡ true = sym (rw e refl) ∙ h in
      ap₂ (λ (x : ℕ) (l : List ℕ). x ∷ l) ((==_iff c d).0 e) (same_word_same cs ds tail)
  | inr e ↦
      let clash : (c == d) && same_word cs ds ≡ false = rw e refl in absurd (cc (sym clash ∙ h))
]

same_word_refl : (a : Word) → same_word a a ≡ true
same_word_refl [] = refl
same_word_refl (c ∷ cs) = rw (==_refl c) (same_word_refl cs)

different : (a b : Word) → same_word a b ≡ false → a ≢ b
different a b h e = cc (sym (same_word_refl a) ∙ ap (same_word a) e ∙ h)

or_false : (a b : Bool) → (a || b) ≡ false → (a ≡ false) × (b ≡ false)
or_false true b h = absurd cc
or_false false b h = (refl, h)

is_command-Named : (name : Word) (cs : List Word) → is_command name cs ≡ true → Named name cs
is_command-Named name [] h = absurd cc
is_command-Named name (c ∷ cs) h = elim (Bool-cases (same_word name c)) [
  | inl e ↦ here c cs (same_word_same name c e)
  | inr e ↦
      let tail : is_command name cs ≡ true = sym (rw e refl) ∙ h in
      there c cs (is_command-Named name cs tail)
]

is_command-NotNamed : (name : Word) (cs : List Word) → is_command name cs ≡ false → NotNamed name cs
is_command-NotNamed name [] h = tt
is_command-NotNamed name (c ∷ cs) h =
    let (differs, none_left) = or_false (same_word name c) (is_command name cs) h in
    (different name c differs, is_command-NotNamed name cs none_left)

no_prefix :
    (words : List Word) (priority : ℕ) (force_program : Bool)
    → takes_prefix words ≡ false
    → prefix_loop words priority force_program
      ≡ parsed_action (sh_parse words) priority force_program
unfolding prefix_loop
no_prefix [] priority force_program h = refl
no_prefix (word ∷ []) priority force_program h = refl
no_prefix (word ∷ next ∷ words) priority force_program h =
    let (no_run, no_prio) = or_false (same_word word run_word) (same_word word prio_word) h in
    rw (no_run, prefix_loop) (rw (no_prio, prefix_loop) refl)

words-action :
    (prefix : Prefix) (words : List Word) (p : Pipeline)
    → sh_parse words ≡ parsed p
    → takes_prefix words ≡ false
    → IsPrefix prefix words
    → words_action (all_words (prefix_words prefix ++ words)) ≡ action_of prefix p
unfolding prefix_loop parse_loop
words-action prefix [] p e h valid = absurd cc
words-action unprefixed (word ∷ words) p e h valid =
    no_prefix (word ∷ words) prio_default false h ∙ ap (λ o. parsed_action o prio_default false) e
words-action forced (word ∷ words) p e h valid =
    no_prefix (word ∷ words) prio_default true h ∙ ap (λ o. parsed_action o prio_default true) e
words-action (prioritized text) (word ∷ words) p e h valid =
    rw (valid, words_action, prefix_loop)
      (no_prefix (word ∷ words) (atoi text) true h ∙ ap (λ o. parsed_action o (atoi text) true) e)

alone_parts :
    (stages : List (List Word)) (input output : Option Word) (background : Bool)
    → not (((ltb 1 (length stages + 1) || is_some input) || is_some output) || background) ≡ true
    → (stages ≡ []) × (input ≡ none) × (output ≡ none) × (background ≡ false)
alone_parts [] none none false h = (refl, refl, refl, refl)
alone_parts [] none none true h = absurd cc
alone_parts [] none (some word) background h = absurd cc
alone_parts [] (some word) output background h = absurd cc
alone_parts (args ∷ stages) input output background h =
    let more : ltb 1 (length (args ∷ stages) + 1) ≡ true = ground arith in
    let piped : not
          (((ltb 1 (length (args ∷ stages) + 1) || is_some input) || is_some output) || background)
        ≡ false =
      rw more refl in
    absurd (cc (sym piped ∙ h))

is_alone-Alone : (p : Pipeline) → is_alone p ≡ true → Alone p
is_alone-Alone p h = alone_parts p.complete p.input p.output p.background h

not-Alone : (p : Pipeline) → is_alone p ≡ false → ¬ Alone p
not-Alone p h (no_pipe, no_input, no_output, waits) =
    let alone : is_alone p ≡ true = rw (no_pipe, no_input, no_output, waits) refl in
    cc (sym alone ∙ h)

action_of-Acts : (prefix : Prefix) (p : Pipeline) → Acts p prefix (action_of prefix p)
action_of-Acts forced p = forces_programs
action_of-Acts (prioritized text) p = gives_priority text
action_of-Acts unprefixed p = elim (Bool-cases (is_command (first_name p) commands)) [
  | inr h ↦ rw h (runs_programs (is_command-NotNamed (first_name p) commands h))
  | inl h ↦
      let named = is_command-Named (first_name p) commands h in
      elim (Bool-cases (is_alone p)) [
        | inl alone ↦ rw (h, alone) (runs_command named (is_alone-Alone p alone))
        | inr more ↦ rw (h, more) (refuses_command named (not-Alone p more))
      ]
]

-- A pipeline of one to eight stages with one to sixteen arguments each is written as a line with its
-- arguments and file names in quotes and its operators bare, behind no prefix, `run`, or `prio` and a text
-- that is a priority. If no word of the line holds a quote, there are at most 128 words, and the first word
-- of the pipeline is no prefix, then `sh_execute_line` parses the line to this same pipeline. With a prefix
-- it runs it as programs, with the priority given or the default. Without one, a first name of the table of
-- commands runs the command if there is no pipe, no file and no ampersand, and is refused otherwise; with
-- any other first name the pipeline is run as programs of the default priority.
pub sh_execute_line-line_of :
    (prefix : Prefix) (p : Pipeline)
    → IsPipeline p
    → AllUnquoted (prefix_words prefix ++ words_of p)
    → length (prefix_words prefix ++ words_of p) ≤ line_max
    → takes_prefix (words_of p) ≡ false
    → IsPrefix prefix (words_of p)
    → Acts p prefix (sh_execute_line (line_of (prefix_words prefix ++ words_of p)))
sh_execute_line-line_of prefix p valid unquoted few program is_prefix =
    let words = prefix_words prefix ++ words_of p in
    rw
      (ap words_action (sh_tokenize-line_of words line_max unquoted few)
        ∙ words-action prefix (words_of p) p (sh_parse-words_of p valid) program is_prefix)
      (action_of-Acts prefix p)

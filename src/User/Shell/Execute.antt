-- ===== src/User/Shell/Execute.antt =====
-- What the shell does with a line: sh_execute_line of src/user/sh.c. The commands themselves and the start
-- of the programs are the actions that come out.
use mo_os.Prelude.{
  ℕ, ◌+◌, Bool, true, false, not, ◌&&◌, ◌||◌, List, [], ◌∷◌, ltb, leb, ◌==◌, if◌then◌else◌, length,
}
use mo_os.Libc.{isdigit}
use mo_os.User.Shell.{sh_tokenize, Tokenized, all_words, too_many}
use mo_os.User.Shell.Pipeline.{Word, is_some, sh_parse, Pipeline, Refusal, Parsed, refused, parsed}
use mo_os.User.Format.Number.{atoi, value}

abbrev pub line_max : ℕ
line_max = 128

abbrev pub prio_min : ℕ
prio_min = 1

abbrev pub prio_max : ℕ
prio_max = 29

abbrev pub prio_default : ℕ
prio_default = 10

abbrev pub run_word : Word
run_word = (b'r' ∷ b'u' ∷ b'n' ∷ [])

abbrev pub prio_word : Word
prio_word = (b'p' ∷ b'r' ∷ b'i' ∷ b'o' ∷ [])

-- The names of the table `commands`.
abbrev pub commands : List Word
commands =
    (b'h' ∷ b'e' ∷ b'l' ∷ b'p' ∷ [])
    ∷ (b'c' ∷ b'l' ∷ b'e' ∷ b'a' ∷ b'r' ∷ [])
    ∷ (b'c' ∷ b'd' ∷ [])
    ∷ (b'p' ∷ b'w' ∷ b'd' ∷ [])
    ∷ (b't' ∷ b'o' ∷ b'u' ∷ b'c' ∷ b'h' ∷ [])
    ∷ (b'r' ∷ b'm' ∷ [])
    ∷ (b'm' ∷ b'k' ∷ b'd' ∷ b'i' ∷ b'r' ∷ [])
    ∷ (b'r' ∷ b'u' ∷ b'n' ∷ [])
    ∷ (b'p' ∷ b's' ∷ [])
    ∷ (b'k' ∷ b'i' ∷ b'l' ∷ b'l' ∷ [])
    ∷ (b's' ∷ b'c' ∷ b'h' ∷ b'e' ∷ b'd' ∷ [])
    ∷ (b'p' ∷ b'r' ∷ b'i' ∷ b'o' ∷ [])
    ∷ (b'm' ∷ b'e' ∷ b'm' ∷ [])
    ∷ (b'u' ∷ b'p' ∷ b't' ∷ b'i' ∷ b'm' ∷ b'e' ∷ [])
    ∷ (b's' ∷ b'l' ∷ b'e' ∷ b'e' ∷ b'p' ∷ [])
    ∷ (b'r' ∷ b'e' ∷ b'b' ∷ b'o' ∷ b'o' ∷ b't' ∷ [])
    ∷ (b'e' ∷ b'x' ∷ b'i' ∷ b't' ∷ [])
    ∷ []

-- Is `strcmp` zero?
abbrev pub same_word : Word → Word → Bool
same_word [] [] = true
same_word [] (d ∷ ds) = false
same_word (c ∷ cs) [] = false
same_word (c ∷ cs) (d ∷ ds) = (c == d) && same_word cs ds

abbrev pub is_command : Word → List Word → Bool
is_command name [] = false
is_command name (command ∷ rest) = same_word name command || is_command name rest

pub data Action : Type 0 where
  nothing : Action
  prio_usage : Action
  refuse : Refusal → Action
  programs_only : Action
  run_command : List Word → Action
  run_pipeline : Pipeline → ℕ → Action

-- The arguments of the first program.
abbrev pub first_stage : Pipeline → List Word
first_stage p = elim p.complete [ [] ↦ p.stage | args ∷ stages ↦ args ]

abbrev pub name_of : List Word → Word
name_of [] = []
name_of (word ∷ words) = word

-- `argv[0]` of the first program.
abbrev pub first_name : Pipeline → Word
first_name p = name_of (first_stage p)

-- Is there neither a pipe nor a file nor the ampersand?
abbrev pub is_alone : Pipeline → Bool
is_alone p =
    not (((ltb 1 (length p.complete + 1) || is_some p.input) || is_some p.output) || p.background)

abbrev pub command_or_program : Pipeline → ℕ → Action
command_or_program p priority =
    if is_command (first_name p) commands
    then if is_alone p then run_command (first_stage p) else programs_only
    else run_pipeline p priority

abbrev pub parsed_action : Parsed → ℕ → Bool → Action
parsed_action (refused reason) priority force_program = refuse reason
parsed_action (parsed p) priority force_program =
    if force_program then run_pipeline p priority else command_or_program p priority

-- With at least one word behind the value, is it a priority?
abbrev pub is_priority : Word → List Word → Bool
is_priority value [] = false
is_priority [] (word ∷ words) = false
is_priority (c ∷ cs) (word ∷ words) =
    isdigit c && (leb prio_min (atoi (c ∷ cs)) && leb (atoi (c ∷ cs)) prio_max)

-- The loop over the prefixes, and what follows it.
unfoldable pub prefix_loop : List Word → ℕ → Bool → Action
prefix_loop [] priority force_program = parsed_action (sh_parse []) priority force_program
prefix_loop (word ∷ []) priority force_program =
    parsed_action (sh_parse (word ∷ [])) priority force_program
prefix_loop (word ∷ next ∷ words) priority force_program = elim (same_word word run_word) [
  | true ↦ prefix_loop (next ∷ words) priority true
  | false ↦ elim (same_word word prio_word) [
    | true ↦ elim (is_priority next words) [
      | true ↦ prefix_loop words (atoi next) true
      | false ↦ prio_usage
    ]
    | false ↦ parsed_action (sh_parse (word ∷ next ∷ words)) priority force_program
  ]
]

abbrev pub words_action : Tokenized → Action
words_action (too_many words) = nothing
words_action (all_words []) = nothing
words_action (all_words (word ∷ words)) = prefix_loop (word ∷ words) prio_default false

abbrev pub sh_execute_line : List ℕ → Action
sh_execute_line line = words_action (sh_tokenize line line_max)

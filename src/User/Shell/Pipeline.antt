-- ===== src/User/Shell/Pipeline.antt =====
-- The pipeline of a command line: struct sh_stage, struct sh_pipeline and sh_parse of src/user/sh.c. A line
-- that is refused keeps the reason, where the source prints it.

use mo_os.Prelude.{
  ℕ, ◌+◌, Bool, true, false, not, ◌&&◌, ◌||◌, Option, none, some, List, [], ◌∷◌, ◌++◌, ltb, ◌==◌,
  if◌then◌else◌, length,
}
use mo_os.User.Shell.{is_operator}

abbrev pub Word : Type 0
Word = List ℕ

abbrev pub max_stages : ℕ
max_stages = 8

abbrev pub max_args : ℕ
max_args = 16

-- A stage is the list of its arguments. The stage that is being read stands behind the complete ones.
pub record Pipeline : Type 0 where
  pub complete : List (List Word)
  pub stage : List Word
  pub input : Option Word
  pub output : Option Word
  pub append : Bool
  pub background : Bool

abbrev pub empty_pipeline : Pipeline
empty_pipeline = record {
  complete = [];
  stage = [];
  input = none;
  output = none;
  append = false;
  background = false;
}

pub data Refusal : Type 0 where
  invalid_pipe : Refusal
  missing_file_name : Refusal
  not_first : Refusal
  not_at_end : Refusal
  too_many_arguments : Refusal

pub data Parsed : Type 0 where
  refused : Refusal → Parsed
  parsed : Pipeline → Parsed

-- The words that sh_parse compares with.
pub data Kind : Type 0 where
  pipe : Kind
  from_file : Kind
  to_file : Bool → Kind
  in_background : Kind
  argument : Kind

abbrev pub kind_of : Word → Kind
kind_of [] = argument
kind_of (c ∷ []) =
    if c == b'|'
    then pipe
    else if c == b'<'
    then from_file
    else if c == b'>'
    then to_file false
    else if c == b'&'
    then in_background
    else argument
kind_of (c ∷ d ∷ []) = if (c == b'>') && (d == b'>') then to_file true else argument
kind_of (c ∷ d ∷ e ∷ cs) = argument

-- Is `strchr ("|<>&", word[0])` null? The terminator of the empty word is found.
abbrev pub is_file_name : Word → Bool
is_file_name [] = false
is_file_name (c ∷ cs) = not (is_operator c)

abbrev pub is_some : Option Word → Bool
is_some none = false
is_some (some word) = true

abbrev pub next_stage : Pipeline → Parsed
next_stage p =
    if ((length p.stage == 0) || is_some p.output) || (length p.complete + 1 == max_stages)
    then refused invalid_pipe
    else parsed (record p { complete = p.complete ++ p.stage ∷ []; stage = [] })

abbrev pub read_from : Word → Pipeline → Parsed
read_from word p =
    if is_file_name word
    then if ltb 1 (length p.complete + 1)
      then refused not_first
      else parsed (record p { input = some word })
    else refused missing_file_name

abbrev pub write_to : Bool → Word → Pipeline → Parsed
write_to append word p =
    if is_file_name word
    then parsed (record p { output = some word; append = append })
    else refused missing_file_name

abbrev pub add_argument : Word → Pipeline → Parsed
add_argument word p =
    if length p.stage == max_args
    then refused too_many_arguments
    else parsed (record p { stage = p.stage ++ word ∷ [] })

-- The test behind the loop.
abbrev pub last_stage : Pipeline → Parsed
last_stage p = if length p.stage == 0 then refused invalid_pipe else parsed p

-- What is done with the words behind, unless this one is refused.
abbrev pub unless_refused : Parsed → (Pipeline → Parsed) → Parsed
unless_refused (refused reason) f = refused reason
unless_refused (parsed p) f = f p

unfoldable pub parse_loop : List Word → Pipeline → Parsed
parse_loop [] p = last_stage p
parse_loop (word ∷ []) p = elim (kind_of word) [
  | pipe ↦ unless_refused (next_stage p) last_stage
  | from_file ↦ refused missing_file_name
  | to_file append ↦ refused missing_file_name
  | in_background ↦ last_stage (record p { background = true })
  | argument ↦ unless_refused (add_argument word p) last_stage
]
parse_loop (word ∷ next ∷ words) p = elim (kind_of word) [
  | pipe ↦ unless_refused (next_stage p) (parse_loop (next ∷ words))
  | from_file ↦ unless_refused (read_from next p) (parse_loop words)
  | to_file append ↦ unless_refused (write_to append next p) (parse_loop words)
  | in_background ↦ refused not_at_end
  | argument ↦ unless_refused (add_argument word p) (parse_loop (next ∷ words))
]

abbrev pub sh_parse : List Word → Parsed
sh_parse words = parse_loop words empty_pipeline

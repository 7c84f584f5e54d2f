-- ===== src/User/Shell/Launch.antt =====
-- The start of the programs of a pipeline: sh_run_pipeline of src/user/sh.c, as the sequence of what it
-- does. What the kernel answers is a parameter; the texts that are printed are left out.
use mo_os.Prelude.{
  ℕ, zero, suc, ◌+◌, Bool, true, ◌&&◌, Option, none, some, List, [], ◌∷◌, ◌++◌, ◌==◌, if◌then◌else◌,
  length,
}
use mo_os.User.Shell.Pipeline.{Word, Pipeline}
use mo_os.User.Shell.Execute.{name_of}

pub data Mode : Type 0 where
  read_mode : Mode
  write_mode : Mode
  append_mode : Mode

-- Is there such a program, the descriptor of an open file, the two ends of the pipe behind a stage, and
-- does the program of a stage start?
pub record Answers : Type 0 where
  pub finds : Word → Bool
  pub opens : Word → Mode → Option ℕ
  pub pipes : ℕ → Option (ℕ × ℕ)
  pub starts : ℕ → Bool

-- A stage is started with its standard input and output.
pub data Event : Type 0 where
  opened : ℕ → Event
  closed : ℕ → Event
  started : ℕ → Option ℕ → Option ℕ → Event
  waited : ℕ → Event

abbrev pub close_fd : Option ℕ → List Event
close_fd none = []
close_fd (some fd) = closed fd ∷ []

-- The output of a stage is closed unless it is the file of the whole pipeline.
abbrev pub close_output : Option ℕ → ℕ → List Event
close_output none fd = closed fd ∷ []
close_output (some output) fd = if fd == output then [] else closed fd ∷ []

-- A stage with no pipe behind it, and one with it.
abbrev pub start_last : Option ℕ → ℕ → Option ℕ → List Event
start_last output i next_input = started i next_input output ∷ close_fd next_input

abbrev pub start_piped : Option ℕ → ℕ → Option ℕ → ℕ → ℕ → List Event
start_piped output i next_input reader writer =
    opened reader
    ∷ opened writer
    ∷ started i next_input (some writer)
    ∷ (close_fd next_input ++ close_output output writer)

-- The loop over the stages, `left` of them from the stage `i` on.
unfoldable pub stage_loop : Answers → Option ℕ → ℕ → ℕ → Option ℕ → List Event
stage_loop kernel output zero i next_input = []
stage_loop kernel output (suc zero) i next_input = start_last output i next_input
stage_loop kernel output (suc (suc left)) i next_input = elim (kernel.pipes i) [
  | none ↦ start_last output i next_input ++ stage_loop kernel output (suc left) (suc i) none
  | some (reader, writer) ↦
      start_piped output i next_input reader writer
      ++ stage_loop kernel output (suc left) (suc i) (some reader)
]

abbrev pub wait_loop : Answers → ℕ → ℕ → List Event
wait_loop kernel zero i = []
wait_loop kernel (suc left) i =
    (if kernel.starts i then waited i ∷ [] else []) ++ wait_loop kernel left (suc i)

abbrev pub all_found : Answers → List (List Word) → Bool
all_found kernel [] = true
all_found kernel (args ∷ stages) = kernel.finds (name_of args) && all_found kernel stages

-- With both files open. A pipeline in the background is not waited for.
abbrev pub run_stages : Answers → Option ℕ → Option ℕ → ℕ → Bool → List Event
run_stages kernel input output count background =
    stage_loop kernel output count 0 input
    ++ (close_fd output ++ (if background then [] else wait_loop kernel count 0))

abbrev pub with_output : Answers → Option ℕ → Pipeline → List Event
with_output kernel input p = elim p.output [
  | none ↦ run_stages kernel input none (length p.complete + 1) p.background
  | some name ↦ elim (kernel.opens name (if p.append then append_mode else write_mode)) [
    | none ↦ close_fd input
    | some fd ↦ opened fd ∷ run_stages kernel input (some fd) (length p.complete + 1) p.background
  ]
]

abbrev pub with_input : Answers → Pipeline → List Event
with_input kernel p = elim p.input [
  | none ↦ with_output kernel none p
  | some name ↦ elim (kernel.opens name read_mode) [
    | none ↦ []
    | some fd ↦ opened fd ∷ with_output kernel (some fd) p
  ]
]

abbrev pub sh_run_pipeline : Answers → Pipeline → List Event
sh_run_pipeline kernel p =
    if all_found kernel (p.complete ++ p.stage ∷ []) then with_input kernel p else []

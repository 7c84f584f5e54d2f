-- ===== src/Handles/Tests.antt =====
-- A file that a task opens and passes on to a new task, and that both close.
use mo_os.Prelude.{
  ℕ, zero, suc, ◌+◌, ◌<◌, ◌≡◌, refl, Option, none, some, List, [], ◌∷◌, ◌++◌, arith, replicate,
}
use mo_os.Prelude.Status.{ok}
use mo_os.Prelude.Word.{u32_mod}
use mo_os.Handles.{task_fd_close, step, Handles, handle_terminal, handle_file, open_op, inherit_op}
use mo_os.Handles.Count.{uses, Counted, none_held}
use mo_os.Handles.Steps.{Kept, IsHandles}
use mo_os.Handles.Reach.{step-IsHandles}

abbrev no_fds : List (Option ℕ)
no_fds = replicate 16 none

abbrev start : Handles
start = record {
  handles = some (record { handle_type = handle_terminal; refs = 1 }) ∷ [];
  tables = no_fds ∷ no_fds ∷ [];
}

start-IsHandles : IsHandles start
start-IsHandles = record {
  counted = start-Counted;
  has_terminal = (record { handle_type = handle_terminal; refs = 1 }, refl);
}
  where
    start-Counted : Counted none_held start
    start-Counted zero other = absurd cc
    start-Counted (suc h) other = refl

abbrev opened : Handles
opened = record {
  handles = start.handles ++ some (record { handle_type = handle_file 7; refs = 1 }) ∷ [];
  tables = (some 1 ∷ replicate 15 none) ∷ no_fds ∷ [];
}

opened-IsHandles : IsHandles opened
unfolding step
opened-IsHandles = step-IsHandles (open_op 0 (handle_file 7)) start start-IsHandles tt

step-IsHandles_example : Kept (step (inherit_op 0 0 1 1) opened)
step-IsHandles_example =
    step-IsHandles (inherit_op 0 0 1 1) opened opened-IsHandles (refl, omega arith, few)
  where
    few : (h : ℕ) → uses h opened.tables + 1 < u32_mod
    few h = ground arith

abbrev shared : Handles
shared = record {
  handles = start.handles ++ some (record { handle_type = handle_file 7; refs = 2 }) ∷ [];
  tables = (some 1 ∷ replicate 15 none) ∷ (none ∷ some 1 ∷ replicate 14 none) ∷ [];
}

run_inherit : step (inherit_op 0 0 1 1) opened ≡ some shared
unfolding step
run_inherit = refl

-- The first close releases nothing, the last one the file.
run_close :
    task_fd_close 0 0 shared
    ≡ some (
      ok [],
      record {
        handles = start.handles ++ some (record { handle_type = handle_file 7; refs = 1 }) ∷ [];
        tables = no_fds ∷ (none ∷ some 1 ∷ replicate 14 none) ∷ [];
      },
    )
run_close = refl

run_last_close :
    task_fd_close 0 0 opened
    ≡ some (
      ok (handle_file 7 ∷ []),
      record { handles = start.handles ++ none ∷ []; tables = no_fds ∷ no_fds ∷ [] },
    )
run_last_close = refl

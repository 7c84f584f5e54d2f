-- ===== src/Handles.antt =====
-- The reference counted handles of src/kernel/task/handle.c and the descriptors of the tasks that share
-- them, in src/kernel/task/task.c. A handle is its place in a list: place 0 is the terminal, a new handle
-- is put at the end, and a handle that is freed leaves its place empty. Where the code would reach a handle
-- that is freed, the result is `none`.
pub mod Count
pub mod Fresh
pub mod Steps
pub mod Reach
mod Tests
use mo_os.Prelude.{
  ℕ, zero, suc, ◌+◌, Option, none, some, List, [], ◌∷◌, ◌++◌, ltb, ◌==◌, if◌then◌else◌, length,
  get_or, set,
}
use mo_os.Prelude.Status.{Result, invalid_arg, ok, err}
use mo_os.Prelude.Word.{add32, sub32}

-- A file with its kernel descriptor, or an end of a pipe.
pub data HandleType : Type 0 where
  handle_terminal : HandleType
  handle_file : ℕ → HandleType
  handle_pipe_read : ℕ → HandleType
  handle_pipe_write : ℕ → HandleType

pub record Handle : Type 0 where
  pub handle_type : HandleType
  pub refs : ℕ

-- Each task has a table of descriptors.
pub record Handles : Type 0 where
  pub handles : List (Option Handle)
  pub tables : List (List (Option ℕ))

abbrev pub max_fds : ℕ
max_fds = 16

-- With a new file or pipe end, unless there is no memory.
abbrev pub handle_new : HandleType → Handles → ℕ × Handles
handle_new type d = (
  length d.handles,
  record d { handles = d.handles ++ some (record { handle_type = type; refs = 1 }) ∷ [] },
)

abbrev pub handle_ref : ℕ → Handles → Option Handles
handle_ref h d = elim (get_or d.handles h none) [
  | none ↦ none
  | some x ↦
      some (record d { handles = set d.handles h (some (record x { refs = add32 x.refs 1 })) })
]

-- What the last close releases.
abbrev pub release_ref : ℕ → Handle → Handles → List HandleType × Handles
release_ref h x d =
    if ltb 0 (sub32 x.refs 1)
    then ([], record d { handles = set d.handles h (some (record x { refs = sub32 x.refs 1 })) })
    else (x.handle_type ∷ [], record d { handles = set d.handles h none })

abbrev pub handle_close : ℕ → Handles → Option (List HandleType × Handles)
handle_close h d =
    if h == 0
    then some ([], d)
    else elim (get_or d.handles h none) [ none ↦ none | some x ↦ some (release_ref h x d) ]

abbrev pub table_of : ℕ → Handles → List (Option ℕ)
table_of task d = get_or d.tables task []

abbrev pub put_fd : ℕ → ℕ → Option ℕ → Handles → Handles
put_fd task fd h d = record d { tables = set d.tables task (set (table_of task d) fd h) }

-- The first descriptor that is free.
abbrev pub free_fd : List (Option ℕ) → ℕ → Option ℕ
free_fd [] i = none
free_fd (none ∷ fds) i = some i
free_fd (some h ∷ fds) i = free_fd fds (suc i)

abbrev pub task_fd_install : ℕ → ℕ → Handles → Option ℕ × Handles
task_fd_install task h d = elim (free_fd (table_of task d) 0) [
  | none ↦ (none, d)
  | some fd ↦ (some fd, put_fd task fd (some h) d)
]

-- For the descriptors of user tasks.
abbrev pub task_fd_get : ℕ → ℕ → Handles → Option ℕ
task_fd_get task fd d = if ltb fd max_fds then get_or (table_of task d) fd none else none

abbrev pub task_fd_close : ℕ → ℕ → Handles → Option (Result (List HandleType) × Handles)
task_fd_close task fd d = elim (task_fd_get task fd d) [
  | none ↦ some (err invalid_arg, d)
  | some h ↦ elim (handle_close h (put_fd task fd none d)) [
    | none ↦ none
    | some closed ↦ some (ok closed.0, closed.1)
  ]
]

-- A handle of its own for a descriptor of a new task.
abbrev pub give_fd : ℕ → ℕ → ℕ → Handles → Option Handles
give_fd task fd h d = elim (handle_ref h d) [
  | none ↦ none
  | some d' ↦ some (put_fd task fd (some h) d')
]

-- The end of sys_open: the new handle is closed if the task has no descriptor left. `none` as a descriptor
-- is -FILE_HANDLER_OVERFLOW.
abbrev pub or_close : ℕ → Option ℕ × Handles → Option (Option ℕ × Handles)
or_close h (some fd, d) = some (some fd, d)
or_close h (none, d) = elim (handle_close h d) [ none ↦ none | some r ↦ some (none, r.1) ]

abbrev pub open_handle : ℕ → HandleType → Handles → Option (Option ℕ × Handles)
open_handle task type d = let (h, d') = handle_new type d in or_close h (task_fd_install task h d')

-- The loop of task_exit over the descriptors, `left` of them from `fd` on.
unfoldable pub exit_loop : ℕ → ℕ → ℕ → Handles → Option Handles
exit_loop zero task fd d = some d
exit_loop (suc left) task fd d = elim (get_or (table_of task d) fd none) [
  | none ↦ exit_loop left task (fd + 1) d
  | some h ↦ elim (handle_close h d) [
    | none ↦ none
    | some r ↦ exit_loop left task (fd + 1) (put_fd task fd none r.1)
  ]
]

-- The handle of a descriptor, or the terminal.
abbrev pub task_inherit_fd : ℕ → ℕ → Handles → ℕ
task_inherit_fd task fd d = elim (task_fd_get task fd d) [ none ↦ 0 | some h ↦ h ]

-- What tasks do with their descriptors: a file or a pipe end is opened, a descriptor is closed, a task
-- exits, and a new task is given one of its parent.
pub data Op : Type 0 where
  open_op : ℕ → HandleType → Op
  close_op : ℕ → ℕ → Op
  exit_op : ℕ → Op
  inherit_op : ℕ → ℕ → ℕ → ℕ → Op

abbrev pub second {ℓ} : {A : Type ℓ} → Option (A × Handles) → Option Handles
second none = none
second (some (a, d)) = some d

unfoldable pub step : Op → Handles → Option Handles
step (open_op task type) d = second (open_handle task type d)
step (close_op task fd) d = second (task_fd_close task fd d)
step (exit_op task) d = exit_loop max_fds task 0 d
step (inherit_op parent from child to) d = give_fd child to (task_inherit_fd parent from d) d

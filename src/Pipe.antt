-- ===== src/Pipe.antt =====
-- src/kernel/task/pipe.c: a byte stream between tasks. A loop that blocks is cut at `task_block_on`; a
-- `struct pipe *` is the number that also names its channel. Freeing the pipe is its count of ends.
pub mod Stream
pub mod Read
pub mod Write
mod Tests
use mo_os.Prelude.Status.{Result, broken_pipe, ok, err}
use mo_os.Prelude.{
  ℕ, zero, suc, ◌+◌, ◌%◌, Bool, not, ◌&&◌, Option, none, some, List, [], ◌∷◌, ltb, ◌==◌,
  if◌then◌else◌, length, get_or, set, replicate,
}
use mo_os.Prelude.Word.{add32, sub32}
use mo_os.Kernel.{task_at, Kernel, pipe_channel}
use mo_os.Task.{task_block_on, task_wake_channel}

abbrev pub pipe_size : ℕ
pipe_size = 4096

pub record Pipe : Type 0 where
  pub buffer : List ℕ
  pub head : ℕ
  pub count : ℕ
  pub readers : ℕ
  pub writers : ℕ

pub pipe_new : Pipe
pipe_new = record { buffer = replicate pipe_size 0; head = 0; count = 0; readers = 1; writers = 1 }

abbrev pub killed_now : Kernel → Bool
killed_now k = (task_at k k.current).killed

-- The copy loop of `pipe_read`: the bytes, and the head behind them.
pub read_loop : ℕ → List ℕ → ℕ → List ℕ × ℕ
read_loop zero buffer head = ([], head)
read_loop (suc rounds) buffer head =
    let (bytes, end) = read_loop rounds buffer ((head + 1) % pipe_size) in
    (get_or buffer head 0 ∷ bytes, end)

pub data ReadOutcome : Type 0 where
  read_waits read_killed : ReadOutcome
  received : List ℕ → ReadOutcome

-- `pipe_read` from the test of its loop on; it starts here again behind `task_block_on`.
pub pipe_read : ℕ → ℕ → Pipe → Kernel → ReadOutcome × Pipe × Kernel
pipe_read id len p k =
    let total = if ltb len p.count then len else p.count in
    let (bytes, head) = read_loop total p.buffer p.head in
    if (p.count == 0) && ltb 0 p.writers && not (killed_now k)
    then (read_waits, p, task_block_on (pipe_channel id) k)
    else if killed_now k
    then (read_killed, p, k)
    else (
      received bytes,
      record p { head = head; count = sub32 p.count total },
      task_wake_channel (pipe_channel id) k,
    )

-- The copy loop of `pipe_write`: the bytes that are left, and the pipe with the others in it.
pub write_loop : ℕ → List ℕ → Pipe → List ℕ × Pipe
write_loop zero bytes p = (bytes, p)
write_loop (suc rounds) [] p = ([], p)
write_loop (suc rounds) (b ∷ bytes) p = write_loop rounds bytes (record p {
  buffer = set p.buffer (add32 p.head p.count % pipe_size) b;
  count = add32 p.count 1;
})

-- One round of the outer loop of `pipe_write`, for the bytes that are left.
pub data WriteOutcome : Type 0 where
  write_waits write_killed write_broken write_done : WriteOutcome
  write_on : List ℕ → WriteOutcome

pub write_round : ℕ → List ℕ → Pipe → Kernel → WriteOutcome × Pipe × Kernel
write_round id [] p k = (write_done, p, k)
write_round id (b ∷ bytes) p k =
    let space = sub32 pipe_size p.count in
    let left = length (b ∷ bytes) in
    let (rest, filled) = write_loop (if ltb left space then left else space) (b ∷ bytes) p in
    if (p.count == pipe_size) && ltb 0 p.readers && not (killed_now k)
    then (write_waits, p, task_block_on (pipe_channel id) k)
    else if killed_now k
    then (write_killed, p, k)
    else if p.readers == 0
    then (write_broken, p, k)
    else (write_on rest, filled, task_wake_channel (pipe_channel id) k)

-- What `pipe_write` returns when `written` bytes are in the pipe, and `none` while it goes on. A task that
-- was killed gets the bytes that it wrote, 0 too.
abbrev pub pipe_write_result : ℕ → WriteOutcome → Option (Result ℕ)
pipe_write_result written write_done = some (ok written)
pipe_write_result written write_killed = some (ok written)
pipe_write_result written write_broken =
    some (if ltb 0 written then ok written else err broken_pipe)
pipe_write_result written write_waits = none
pipe_write_result written (write_on bytes) = none

-- Closing an end wakes the other side; the last one frees the pipe, `none`.
abbrev pub free_if_unused : Pipe → Option Pipe
free_if_unused p = if (p.readers == 0) && (p.writers == 0) then none else some p

pub pipe_close_reader : ℕ → Pipe → Kernel → Option Pipe × Kernel
pipe_close_reader id p k = (
  free_if_unused (record p { readers = sub32 p.readers 1 }),
  task_wake_channel (pipe_channel id) k,
)

pub pipe_close_writer : ℕ → Pipe → Kernel → Option Pipe × Kernel
pipe_close_writer id p k = (
  free_if_unused (record p { writers = sub32 p.writers 1 }),
  task_wake_channel (pipe_channel id) k,
)

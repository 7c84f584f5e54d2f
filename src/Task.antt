-- ===== src/Task.antt =====
-- src/kernel/task/task.c: waiting and waking, the end of a task, its heap, its period and its priority.
-- A function that blocks is cut at `schedule`: the part before it, and the test after it.
pub mod User
pub mod Break
pub mod Channels
pub mod Period
mod Tests
use mo_os.Prelude.{
  ℕ, ◌+◌, ◌-◌, ◌*◌, ◌/◌, ◌^◌, Bool, true, false, not, ◌&&◌, ◌||◌, Option, none, some, List, [], ◌∷◌,
  ltb, leb, ◌==◌, if◌then◌else◌,
}
use mo_os.Prelude.Word.{u32_mod, add32, sub32, mul32}
use mo_os.Prelude.Status.{Error, Result, ok, err}
use mo_os.Kernel.{
  priority_max, blank, task_at, put_task, update_task, is_state, before_tick, for_tasks, Channel,
  Task, Kernel, unused, loading, sleeping, waiting_key, waiting_child, blocked, zombie,
  pipe_channel, mutex_channel,
}
use mo_os.Sched.{task_free, sched_wake}
use mo_os.Mutex.{is_owner, mutex_update_priority, block_on, mutex_release_all}

-- `USER_CODE_ADDR`, `USER_STACK_TOP`, `USER_HEAP_LIMIT` and `TASK_KILLED` as a bit pattern.
abbrev pub user_code_addr : ℕ
user_code_addr = 0x40000000

abbrev pub user_stack_top : ℕ
user_stack_top = user_code_addr + 16 * 1024 * 4096

abbrev pub user_heap_limit : ℕ
user_heap_limit = user_stack_top - 16 * 1024 - 4096

abbrev pub task_killed : ℕ
task_killed = u32_mod - 1

-- `pit_ms_to_ticks` of src/drivers/timer/pit.c.
pub pit_ms_to_ticks : ℕ → ℕ
pit_ms_to_ticks ms = add32 (mul32 ms 100) 999 / 1000

-- The first index from `i` on at which the test holds.
pub find_task : (Task → Bool) → List Task → ℕ → Option ℕ
find_task p [] i = none
find_task p (t ∷ ts) i = let rest = find_task p ts (i + 1) in if p t then some i else rest

abbrev pub is_found : ℕ → Bool → Task → Bool
is_found pid zombies t =
    (t.pid == pid)
    && not (is_state t.state unused)
    && not (is_state t.state loading)
    && (zombies || not (is_state t.state zombie))

-- The slot of the task with this pid.
pub task_find : ℕ → Bool → Kernel → Option ℕ
task_find pid zombies k = find_task (is_found pid zombies) k.tasks 0

-- `task_alloc`: a free slot, reset, with the next pid.
pub new_task : ℕ → ℕ → Bool → Task
new_task pid priority is_kernel = record blank {
  pid = pid;
  state = loading;
  priority = priority;
  base_priority = priority;
  is_kernel = is_kernel;
  wait_pid = none;
}

pub task_alloc : ℕ → Bool → Kernel → Option ℕ × Kernel
task_alloc priority is_kernel k = elim (find_task (λ t. is_state t.state unused) k.tasks 0) [
  | none ↦ (none, k)
  | some i ↦ (
    some i,
    record (put_task k i (new_task k.next_pid priority is_kernel)) {
      next_pid = add32 k.next_pid 1;
    },
  )
]

-- The running task before and after `schedule` in `task_block_on`.
pub task_block_on : Channel → Kernel → Kernel
task_block_on c k = update_task k k.current (block_on c)

pub end_block : Task → Task
end_block t = record t { wait_channel = none }

pub task_block_resume : Kernel → Kernel
task_block_resume k = update_task k k.current end_block

abbrev pub same_channel : Channel → Option Channel → Bool
same_channel c none = false
same_channel (pipe_channel p) (some (pipe_channel q)) = p == q
same_channel (pipe_channel p) (some (mutex_channel q)) = false
same_channel (mutex_channel p) (some (pipe_channel q)) = false
same_channel (mutex_channel p) (some (mutex_channel q)) = p == q

abbrev pub waits_on : Channel → Task → Bool
waits_on c t = is_state t.state blocked && same_channel c t.wait_channel

pub wake_waiter : Channel → ℕ → Kernel → Kernel
wake_waiter c i k = if waits_on c (task_at k i) then sched_wake i k else k

pub task_wake_channel : Channel → Kernel → Kernel
task_wake_channel c k = for_tasks (wake_waiter c) k

abbrev pub waits_for_key : Task → Bool
waits_for_key t = t.foreground && is_state t.state waiting_key

pub wake_reader : ℕ → Kernel → Kernel
wake_reader i k = if waits_for_key (task_at k i) then sched_wake i k else k

pub task_on_keyboard_input : Kernel → Kernel
task_on_keyboard_input k = for_tasks wake_reader k

pub mark_killed : Task → Task
mark_killed t = record t { killed = true; priority = priority_max }

abbrev pub is_interruptible : Task → Bool
is_interruptible t =
    is_state t.state sleeping || is_state t.state waiting_key || is_state t.state blocked

pub task_kill : ℕ → Kernel → Result (Unit {0}) × Kernel
task_kill pid k = elim (task_find pid false k) [
  | none ↦ (err Error.invalid_arg, k)
  | some i ↦
      let marked = update_task k i mark_killed in
      if (task_at k i).is_kernel
      then (err Error.invalid_arg, k)
      else (ok tt, if is_interruptible (task_at marked i) then sched_wake i marked else marked)
]

abbrev pub is_foreground_victim : Task → Bool
is_foreground_victim t =
    t.foreground
    && not t.is_kernel
    && not t.is_shell
    && not (is_state t.state unused)
    && not (is_state t.state zombie)

-- The loop of `task_kill_foreground`; the keyboard flush and the message behind it are left out.
pub kill_victim : ℕ → Kernel → Kernel
kill_victim i k =
    if is_foreground_victim (task_at k i) then (task_kill (task_at k i).pid k).1 else k

pub task_kill_foreground : Kernel → Kernel
task_kill_foreground k = for_tasks kill_victim k

-- `task_exit`, without the files and the screen that it gives back: the mutexes, the state, the
-- children, and the parent that waits. `schedule` follows.
pub become_zombie : ℕ → Task → Task
become_zombie exit_code t = record t { state = zombie; exit_code = exit_code }

pub adopt : ℕ → Task → Task
adopt init t = record t { parent = some init; detached = true }

pub orphan_child : ℕ → ℕ → Kernel → Kernel
orphan_child dead i k =
    let t = task_at k i in
    if not (is_state t.state unused) && is_owner t.parent dead
    then update_task k i (adopt k.init_thread)
    else k

abbrev pub waits_for_child : Task → ℕ → Bool
waits_for_child t pid = is_state t.state waiting_child && is_owner t.wait_pid pid

pub wake_parent : Option ℕ → ℕ → Kernel → Kernel
wake_parent none pid k = k
wake_parent (some p) pid k = if waits_for_child (task_at k p) pid then sched_wake p k else k

pub task_exit : ℕ → Kernel → Kernel
task_exit exit_code k =
    let released = mutex_release_all k.current k in
    let dead = update_task released k.current (become_zombie exit_code) in
    let orphaned = for_tasks (orphan_child k.current) dead in
    wake_parent (task_at orphaned k.current).parent (task_at orphaned k.current).pid orphaned

pub data WaitOutcome : Type 0 where
  no_child must_wait_child : WaitOutcome
  collected : ℕ → WaitOutcome

pub note_wait : ℕ → Task → Task
note_wait pid t = record t { wait_pid = some pid; state = waiting_child }

pub end_child_wait : Task → Task
end_child_wait t = record t { wait_pid = none }

-- The loop test of `task_wait` for the child in slot `i`; it runs again after `schedule`.
pub wait_test : ℕ → ℕ → Kernel → WaitOutcome × Kernel
wait_test pid i k =
    if is_state (task_at k i).state zombie
    then (
      collected (task_at k i).exit_code,
      update_task (update_task k k.current end_child_wait) i task_free,
    )
    else (must_wait_child, update_task k k.current (note_wait pid))

pub task_wait : ℕ → Kernel → WaitOutcome × Kernel
task_wait pid k = elim (task_find pid true k) [
  | none ↦ (no_child, k)
  | some i ↦
      if not (is_owner (task_at k i).parent k.current) || (task_at k i).detached
      then (no_child, k)
      else wait_test pid i k
]

pub go_to_sleep : ℕ → Task → Task
go_to_sleep tick t = record t { wake_tick = tick; state = sleeping }

-- One round of `task_sleep_until_tick`: true if the task sleeps on and `schedule` follows.
pub task_sleep_until_tick : ℕ → Kernel → Bool × Kernel
task_sleep_until_tick tick k =
    let left = sub32 tick k.ticks in
    if not (left == 0) && ltb left (2 ^ 31) && not (task_at k k.current).killed
    then (true, update_task k k.current (go_to_sleep tick))
    else (false, k)

pub task_sleep_ms : ℕ → Kernel → Bool × Kernel
task_sleep_ms ms k = task_sleep_until_tick (add32 k.ticks (pit_ms_to_ticks ms)) k

pub start_period : ℕ → ℕ → Task → Task
start_period period deadline t = record t {
  period_ticks = period;
  deadline = deadline;
  jobs = 0;
  deadline_misses = 0;
}

pub task_set_period : ℕ → Kernel → Result (Unit {0}) × Kernel
task_set_period ms k =
    let period = pit_ms_to_ticks ms in
    let started = update_task k k.current (start_period period (add32 k.ticks period)) in
    if (task_at k k.current).is_kernel
    then (err Error.invalid_arg, k)
    else (ok tt, record started { need_resched = true })

pub end_job : Bool → Task → Task
end_job missed t = record t {
  jobs = add32 t.jobs 1;
  deadline_misses = add32 t.deadline_misses (if missed then 1 else 0);
  deadline = add32 t.deadline t.period_ticks;
}

-- `task_wait_period` up to its sleep: whether the deadline was missed, and the tick to sleep until.
pub task_wait_period : Kernel → Result (Bool × ℕ) × Kernel
task_wait_period k =
    let t = task_at k k.current in
    let missed = not (before_tick k.ticks t.deadline) in
    if t.period_ticks == 0
    then (err Error.invalid_arg, k)
    else (ok (missed, t.deadline), update_task k k.current (end_job missed))

pub set_base_priority : ℕ → Task → Task
set_base_priority p t = record t { base_priority = p }

pub task_set_priority : ℕ → ℕ → Kernel → Result (Unit {0}) × Kernel
task_set_priority pid priority k =
    elim (if pid == 0 then some k.current else task_find pid false k) [
      | none ↦ (err Error.invalid_arg, k)
      | some i ↦
          if (task_at k i).is_kernel || (task_at k i).killed
          then (err Error.invalid_arg, k)
          else (ok tt, mutex_update_priority i (update_task k i (set_base_priority priority)))
    ]

-- `increment` is an int32_t as its bit pattern; `mapped` tells whether the pages between two addresses
-- could be mapped. 0 is `none`.
pub set_brk : ℕ → Task → Task
set_brk b t = record t { brk = b }

pub task_sbrk : (ℕ → ℕ → Bool) → ℕ → Kernel → Option ℕ × Kernel
task_sbrk mapped increment k =
    let t = task_at k k.current in
    let new_brk = add32 t.brk increment in
    if not (increment == 0) && ltb increment (2 ^ 31) && ltb new_brk t.brk
      || ltb new_brk t.brk_start
      || ltb user_heap_limit new_brk
    then (none, k)
    else if ltb t.brk new_brk && not (mapped t.brk new_brk)
    then (none, k)
    else (some t.brk, update_task k k.current (set_brk new_brk))

pub task_user_range_valid : ℕ → ℕ → Kernel → Bool
task_user_range_valid start len k =
    let end = add32 start len in
    not (task_at k k.current).is_kernel
    && leb user_code_addr start
    && leb start end
    && leb end user_stack_top

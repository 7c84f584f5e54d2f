-- ===== src/Kernel.antt =====
-- The state that the kernel's task modules share: `struct task` of src/kernel/task/task.h, the task table
-- and the variables of task.c, sched.c and mutex.c. A `struct task *` is an index into the table.
-- Saved registers, stacks and page directories are not part of it.
use mo_os.Prelude.{
  ℕ, zero, suc, ◌+◌, ◌^◌, Bool, true, false, Option, none, some, List, [], leb, get_or, set,
}
use mo_os.Prelude.Word.{sub32}
pub mod Table

pub data TaskState : Type 0 where
  unused loading ready running sleeping waiting_key waiting_child blocked zombie : TaskState

pub data Policy : Type 0 where
  round_robin real_time edf : Policy

-- What a task in `TASK_BLOCKED` waits for.
pub data Channel : Type 0 where
  pipe_channel : ℕ → Channel
  mutex_channel : ℕ → Channel

-- `mutexes` is the bit mask by its bits; `slice` is an int32_t as its bit pattern.
pub record Task : Type 0 where
  pub pid : ℕ
  pub state : TaskState
  pub priority : ℕ
  pub base_priority : ℕ
  pub is_kernel : Bool
  pub background : Bool
  pub foreground : Bool
  pub detached : Bool
  pub is_shell : Bool
  pub killed : Bool
  pub brk_start : ℕ
  pub brk : ℕ
  pub wake_tick : ℕ
  pub period_ticks : ℕ
  pub deadline : ℕ
  pub jobs : ℕ
  pub deadline_misses : ℕ
  pub slice : ℕ
  pub cpu_ticks : ℕ
  pub parent : Option ℕ
  pub wait_pid : Option ℕ
  pub wait_channel : Option Channel
  pub wait_mutex : Option ℕ
  pub mutexes : ℕ → Bool
  pub exit_code : ℕ

-- `struct mutex` of src/kernel/task/mutex.c.
pub record Mutex : Type 0 where
  pub name : List ℕ
  pub refs : ℕ
  pub inherit : Bool
  pub owner : Option ℕ

-- `ticks` is what `pit_ticks` returns.
pub record Kernel : Type 0 where
  pub tasks : List Task
  pub current : ℕ
  pub idle : ℕ
  pub init_thread : ℕ
  pub next_pid : ℕ
  pub policy : Policy
  pub need_resched : Bool
  pub ticks : ℕ
  pub locks : List Mutex

abbrev pub max_tasks : ℕ
max_tasks = 16

abbrev pub max_mutexes : ℕ
max_mutexes = 32

abbrev pub quantum_ticks : ℕ
quantum_ticks = 5

abbrev pub priority_max : ℕ
priority_max = 31

abbrev pub priority_shell : ℕ
priority_shell = 30

-- A task slot and a mutex slot after `memset`; `wait_pid` is -1 in a new task only.
abbrev pub blank : Task
blank = record {
  pid = 0;
  state = unused;
  priority = 0;
  base_priority = 0;
  is_kernel = false;
  background = false;
  foreground = false;
  detached = false;
  is_shell = false;
  killed = false;
  brk_start = 0;
  brk = 0;
  wake_tick = 0;
  period_ticks = 0;
  deadline = 0;
  jobs = 0;
  deadline_misses = 0;
  slice = 0;
  cpu_ticks = 0;
  parent = none;
  wait_pid = some 0;
  wait_channel = none;
  wait_mutex = none;
  mutexes = λ _. false;
  exit_code = 0;
}

abbrev pub blank_mutex : Mutex
blank_mutex = record { name = []; refs = 0; inherit = false; owner = none }

abbrev pub task_at : Kernel → ℕ → Task
task_at k i = get_or k.tasks i blank

-- A write through the pointer to task `i`.
abbrev pub put_task : Kernel → ℕ → Task → Kernel
put_task k i t = record k { tasks = set k.tasks i t }

abbrev pub update_task : Kernel → ℕ → (Task → Task) → Kernel
update_task k i f = put_task k i (f (task_at k i))

abbrev pub mutex_at : Kernel → ℕ → Mutex
mutex_at k i = get_or k.locks i blank_mutex

abbrev pub put_mutex : Kernel → ℕ → Mutex → Kernel
put_mutex k i m = record k { locks = set k.locks i m }

abbrev pub is_state : TaskState → TaskState → Bool
is_state unused unused = true
is_state loading loading = true
is_state ready ready = true
is_state running running = true
is_state sleeping sleeping = true
is_state waiting_key waiting_key = true
is_state waiting_child waiting_child = true
is_state blocked blocked = true
is_state zombie zombie = true
is_state _ _ = false

abbrev pub is_round_robin : Policy → Bool
is_round_robin round_robin = true
is_round_robin _ = false

-- `(int32_t)(a - b) < 0` and `(int32_t)(a - b) >= 0` for uint32_t ticks.
abbrev pub before_tick : ℕ → ℕ → Bool
before_tick a b = leb (2 ^ 31) (sub32 a b)

-- `for (i = 0; i < MAX_TASKS; i++)` with a body that changes the kernel.
unfoldable pub for_from : (ℕ → Kernel → Kernel) → ℕ → ℕ → Kernel → Kernel
for_from step zero i k = k
for_from step (suc rounds) i k = for_from step rounds (i + 1) (step i k)

abbrev pub for_tasks : (ℕ → Kernel → Kernel) → Kernel → Kernel
for_tasks step k = for_from step max_tasks 0 k

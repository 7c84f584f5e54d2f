-- ===== src/Task/Tests.antt =====
-- A user task in a small table: runs of the code, and the theorems at it.
use mo_os.Prelude.{◌+◌, ◌≤◌, ◌≡◌, refl, ◌↔◌, true, false, some, [], ◌∷◌, arith, replicate}
use mo_os.Kernel.{blank, Task, Kernel, running, sleeping, blocked, round_robin, pipe_channel}
use mo_os.Task.{user_code_addr, user_stack_top, task_user_range_valid}
use mo_os.Task.User.{task_user_range_valid_iff}

abbrev user_task : Task
user_task = record blank {
  pid = 2;
  state = running;
  brk_start = 0x40010000;
  brk = 0x40010000;
  period_ticks = 5;
  deadline = 105;
}

abbrev sleeper : Task
sleeper = record blank { pid = 3; state = sleeping; wake_tick = 100 }

abbrev reader : Task
reader = record blank { pid = 4; state = blocked; wait_channel = some (pipe_channel 7) }

abbrev small : Kernel
small = record {
  tasks = blank ∷ user_task ∷ sleeper ∷ reader ∷ replicate 12 blank;
  current = 1;
  idle = 0;
  init_thread = 1;
  next_pid = 5;
  policy = round_robin;
  need_resched = false;
  ticks = 100;
  locks = [];
}

task_user_range_valid_iff_example : (task_user_range_valid 0x43fffff0 0x20 small ≡ true) ↔ (
    (user_task.is_kernel ≡ false)
    × (user_code_addr ≤ 0x43fffff0)
    × (0x43fffff0 + 0x20 ≤ user_stack_top))
task_user_range_valid_iff_example =
    task_user_range_valid_iff small 0x43fffff0 0x20 (omega arith) (omega arith)

range_refused : task_user_range_valid 0x43fffff0 0x20 small ≡ false
unfolding task_user_range_valid
range_refused = refl

-- ===== src/Task/Channels.antt =====
-- `task_wake_channel` of src/kernel/task/task.c.
use mo_os.Prelude.{ℕ, ◌<◌, ◌≡◌, ◌∙◌, inl, inr, arith, ◌==◌, if◌then◌else◌, Bool-cases, length}
use mo_os.Kernel.{max_tasks, task_at, Channel, Task, Kernel}
use mo_os.Kernel.Table.{for_tasks_entry}
use mo_os.Sched.{mark_ready}
use mo_os.Sched.Wake.{length-sched_wake, task_at-sched_wake}
use mo_os.Task.{waits_on, wake_waiter, task_wake_channel}

abbrev pub woken_on : Channel → Task → Task
woken_on c t = if waits_on c t then mark_ready t else t

abbrev IsTable : Kernel → Type 0
IsTable k = length k.tasks ≡ max_tasks

wake_waiter-IsTable :
    (c : Channel) (i : ℕ) (k : Kernel) → IsTable k → i < max_tasks → IsTable (wake_waiter c i k)
unfolding wake_waiter
wake_waiter-IsTable c i k len lt = elim (Bool-cases (waits_on c (task_at k i))) [
  | inl h ↦ rw h (length-sched_wake i k ∙ len)
  | inr h ↦ rw h len
]

wake_waiter_own :
    (c : Channel) (i j : ℕ) (k : Kernel)
    → IsTable k
    → i < max_tasks
    → task_at (wake_waiter c i k) j ≡ (if i == j then woken_on c (task_at k j) else task_at k j)
unfolding wake_waiter
wake_waiter_own c i j k len lt =
    let il : i < length k.tasks = omega arith in
    elim (Bool-cases (waits_on c (task_at k i))) [
      | inl h ↦ rw h (
          task_at-sched_wake i j k il ∙ elim (Bool-cases (i == j)) [
            | inl g ↦ let same : i ≡ j = ground arith in rw (g, ← same, h)
            | inr g ↦ rw g
          ])
      | inr h ↦ rw h (elim (Bool-cases (i == j)) [
        | inl g ↦ let same : i ≡ j = ground arith in rw (g, ← same, h)
        | inr g ↦ rw g
      ])
    ]

-- Waking a channel makes ready exactly the tasks that are blocked on it, and changes no other task.
pub task_at-task_wake_channel :
    (c : Channel) (k : Kernel) (j : ℕ)
    → length k.tasks ≡ max_tasks
    → j < max_tasks
    → task_at (task_wake_channel c k) j ≡ woken_on c (task_at k j)
unfolding task_wake_channel
task_at-task_wake_channel c k j len lt =
    for_tasks_entry IsTable (woken_on c) (wake_waiter c) (wake_waiter-IsTable c) (wake_waiter_own c)
      j k len lt

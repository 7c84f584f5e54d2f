-- ===== src/Sched/Wake.antt =====
-- `sched_wake` of src/kernel/task/sched.c.
use mo_os.Kernel.Table.{task_at-update_task, length-update_task, state-update_task, for_tasks_entry}
use mo_os.Prelude.{
  ℕ, ◌<◌, ◌≡◌, refl, ap, ◌∙◌, inl, inr, not, ◌&&◌, arith, ◌==◌, if◌then◌else◌, Bool-cases, length,
}
use mo_os.Kernel.{
  max_tasks, task_at, update_task, is_state, before_tick, for_tasks, Task, Kernel, sleeping,
}
use mo_os.Sched.{
  mark_ready, preempts, sched_wake, wake_sleeper, count_tick, spend_slice, slice_over,
  charge_running, sched_tick,
}

pub locks-sched_wake : (i : ℕ) (k : Kernel) → (sched_wake i k).locks ≡ k.locks
unfolding sched_wake
locks-sched_wake i k =
    let woken : Kernel = update_task k i mark_ready in
    elim (Bool-cases (preempts woken (task_at woken i))) [ inl h ↦ rw h | inr h ↦ rw h ]

pub length-sched_wake : (i : ℕ) (k : Kernel) → length (sched_wake i k).tasks ≡ length k.tasks
unfolding sched_wake
length-sched_wake i k =
    let woken : Kernel = update_task k i mark_ready in
    elim (Bool-cases (preempts woken (task_at woken i))) [
      | inl h ↦ rw h (length-update_task k i mark_ready)
      | inr h ↦ rw h (length-update_task k i mark_ready)
    ]

pub ticks-sched_wake : (i : ℕ) (k : Kernel) → (sched_wake i k).ticks ≡ k.ticks
unfolding sched_wake
ticks-sched_wake i k =
    let woken : Kernel = update_task k i mark_ready in
    elim (Bool-cases (preempts woken (task_at woken i))) [ inl h ↦ rw h | inr h ↦ rw h ]

pub task_at-sched_wake :
    (i j : ℕ) (k : Kernel)
    → i < length k.tasks
    → task_at (sched_wake i k) j ≡ (if i == j then mark_ready (task_at k j) else task_at k j)
unfolding sched_wake
task_at-sched_wake i j k lt =
    let woken : Kernel = update_task k i mark_ready in
    elim (Bool-cases (preempts woken (task_at woken i))) [
      | inl h ↦ rw h (task_at-update_task k i j mark_ready lt)
      | inr h ↦ rw h (task_at-update_task k i j mark_ready lt)
    ]

-- The task that the loop of `sched_tick` leaves at tick `now`.
abbrev pub woken_at : ℕ → Task → Task
woken_at now t =
    if is_state t.state sleeping && not (before_tick now t.wake_tick) then mark_ready t else t

abbrev AtTick : ℕ → Kernel → Type 0
AtTick now k = (length k.tasks ≡ max_tasks) × (k.ticks ≡ now)

wake_sleeper-AtTick :
    (now i : ℕ) (k : Kernel) → AtTick now k → i < max_tasks → AtTick now (wake_sleeper i k)
unfolding wake_sleeper
wake_sleeper-AtTick now i k (len, e) lt =
    elim (Bool-cases (
      is_state (task_at k i).state sleeping && not (before_tick k.ticks (task_at k i).wake_tick))) [
        | inl h ↦ rw h (length-sched_wake i k ∙ len, ticks-sched_wake i k ∙ e)
        | inr h ↦ rw h (len, e)
      ]

wake_sleeper_own :
    (now i j : ℕ) (k : Kernel)
    → AtTick now k
    → i < max_tasks
    → task_at (wake_sleeper i k) j ≡ (if i == j then woken_at now (task_at k j) else task_at k j)
unfolding wake_sleeper
wake_sleeper_own now i j k (len, e) lt =
    let il : i < length k.tasks = omega arith in
    elim (Bool-cases (
      is_state (task_at k i).state sleeping && not (before_tick k.ticks (task_at k i).wake_tick))) [
        | inl h ↦ rw h (
            task_at-sched_wake i j k il ∙ elim (Bool-cases (i == j)) [
              | inl g ↦ let same : i ≡ j = ground arith in rw (g, ← same, ← e, h)
              | inr g ↦ rw g
            ])
        | inr h ↦ rw h (elim (Bool-cases (i == j)) [
          | inl g ↦ let same : i ≡ j = ground arith in rw (g, ← same, ← e, h)
          | inr g ↦ rw g
        ])
      ]

state-count_tick : (t : Task) → (count_tick t).state ≡ t.state
unfolding count_tick
state-count_tick t = refl

state-spend_slice : (t : Task) → (spend_slice t).state ≡ t.state
unfolding spend_slice
state-spend_slice t = refl

state-charge_running :
    (k : Kernel) (j : ℕ) → (task_at (charge_running k) j).state ≡ (task_at k j).state
unfolding charge_running
state-charge_running k j =
    let counted : Kernel = update_task k k.current count_tick in
    let first = state-update_task count_tick state-count_tick k k.current j in
    let second = state-update_task spend_slice state-spend_slice counted k.current j in
    elim (Bool-cases (k.current == k.idle)) [
      | inl h ↦ rw h first
      | inr h ↦
          elim (Bool-cases
            (slice_over (task_at (update_task counted k.current spend_slice) k.current).slice)) [
              | inl g ↦ rw (h, g) (second ∙ first)
              | inr g ↦ rw (h, g) (second ∙ first)
            ]
    ]

-- The timer tick makes ready exactly the sleeping tasks whose tick has come, by the signed distance of
-- the 32-bit counters, and changes the state of no other task.
pub state-sched_tick :
    (k : Kernel) (j : ℕ)
    → length k.tasks ≡ max_tasks
    → j < max_tasks
    → (task_at (sched_tick k) j).state ≡ (woken_at k.ticks (task_at k j)).state
unfolding sched_tick
state-sched_tick k j len lt =
    state-charge_running (for_tasks wake_sleeper k) j
    ∙ ap (λ (t : Task). t.state)
        (for_tasks_entry (AtTick k.ticks) (woken_at k.ticks) wake_sleeper
          (wake_sleeper-AtTick k.ticks) (wake_sleeper_own k.ticks) j k (len, refl) lt)

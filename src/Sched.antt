-- ===== src/Sched.antt =====
-- src/kernel/task/sched.c: the choice of the next task under three policies, the switch, the timer tick.
pub mod Pick
pub mod Rank
pub mod Policies
pub mod Switch
pub mod Wake
mod Tests
use mo_os.Prelude.{
  ℕ, zero, suc, ◌+◌, ◌%◌, ◌^◌, Bool, true, false, not, ◌&&◌, ◌||◌, Option, none, some, ltb, leb,
  ◌==◌, if◌then◌else◌,
}
use mo_os.Prelude.Word.{add32, sub32}
use mo_os.Kernel.{
  max_tasks, quantum_ticks, priority_shell, task_at, update_task, is_state, is_round_robin,
  before_tick, for_tasks, Policy, Task, Kernel, unused, ready, running, sleeping, zombie,
  round_robin, real_time, edf,
}

pub sched_set_policy : Policy → Kernel → Kernel
sched_set_policy p k = record k { policy = p; need_resched = true }

-- `sched_edf_class`: the shell and killed tasks, then periodic tasks, then the rest.
abbrev pub sched_edf_class : Task → ℕ
sched_edf_class t =
    if leb priority_shell t.priority then 0 else if not (t.period_ticks == 0) then 1 else 2

-- True if task `a` should run before task `b`.
pub sched_runs_before : Policy → Task → Task → Bool
sched_runs_before edf a b =
    let class_a = sched_edf_class a in
    let class_b = sched_edf_class b in
    if not (class_a == class_b)
    then ltb class_a class_b
    else if class_a == 1
    then before_tick a.deadline b.deadline
    else ltb b.priority a.priority
sched_runs_before round_robin a b = ltb b.priority a.priority
sched_runs_before real_time a b = ltb b.priority a.priority

abbrev pub task_runnable : Kernel → ℕ → Bool
task_runnable k i =
    is_state (task_at k i).state ready || ((i == k.current) && is_state (task_at k i).state running)

-- The task that the loop looks at in round `n`.
abbrev pub candidate : Kernel → ℕ → ℕ
candidate k n = (k.current + n) % max_tasks

abbrev pub eligible : Kernel → ℕ → Bool
eligible k i = not (i == k.idle) && task_runnable k i

-- Whether the loop takes task `i` over the best so far.
abbrev pub better : Kernel → ℕ → Option ℕ → Bool
better k i none = true
better k i (some best) = sched_runs_before k.policy (task_at k i) (task_at k best)

-- The loop of `sched_pick_next` from round `n` on, with the rounds that are left.
pub pick_loop : Kernel → ℕ → ℕ → Option ℕ → Option ℕ
pick_loop k zero n best = best
pick_loop k (suc rounds) n best =
    let i = candidate k n in
    let skip = pick_loop k rounds (n + 1) best in
    let take_it = pick_loop k rounds (n + 1) (some i) in
    if not (eligible k i)
    then skip
    else if is_round_robin k.policy
    then some i
    else if better k i best
    then take_it
    else skip

abbrev pub or_idle : Kernel → Option ℕ → ℕ
or_idle k none = k.idle
or_idle k (some i) = i

pub sched_pick_next : Kernel → ℕ
sched_pick_next k = or_idle k (pick_loop k max_tasks 1 none)

-- What the scheduler writes into a task.
pub refill : Task → Task
refill t = record t { slice = quantum_ticks }

pub mark_running : Task → Task
mark_running t = record t { state = running }

pub mark_ready : Task → Task
mark_ready t = record t { state = ready }

pub demote : Task → Task
demote t = if is_state t.state running then record t { state = ready } else t

-- `task_free` of task.c, without the memory that it returns to the heap.
pub task_free : Task → Task
task_free t = record t { state = unused }

-- `task_reap_zombies` of task.c.
pub reap_loop : ℕ → ℕ → Kernel → Kernel
reap_loop zero i k = k
reap_loop (suc rounds) i k =
    let t = task_at k i in
    reap_loop rounds (i + 1) (
      if is_state t.state zombie && t.detached && not (i == k.current)
      then update_task k i task_free
      else k)

pub task_reap_zombies : Kernel → Kernel
task_reap_zombies k = reap_loop max_tasks 0 k

-- `schedule` up to `context_switch`, for the choice `next`.
pub switch_to : Kernel → ℕ → Kernel
switch_to k next =
    let calm = record k { need_resched = false } in
    let filled = update_task calm next refill in
    if next == k.current
    then update_task filled k.current mark_running
    else record (update_task (update_task filled k.current demote) next mark_running) {
      current = next;
    }

-- The whole of `schedule`, up to the end of the call in the task that runs next. A task that `resumes`
-- behind its own switch frees the zombies; one that runs for the first time starts elsewhere.
pub schedule : Bool → Kernel → Kernel
schedule resumes k =
    let next = sched_pick_next k in
    let switched = switch_to k next in
    if (next == k.current) || not resumes then switched else task_reap_zombies switched

-- True if the wake-up of a task asks for a switch.
abbrev pub preempts : Kernel → Task → Bool
preempts k t =
    (k.current == k.idle)
    || (not (is_round_robin k.policy) && sched_runs_before k.policy t (task_at k k.current))

pub sched_wake : ℕ → Kernel → Kernel
sched_wake i k =
    let woken = update_task k i mark_ready in
    if preempts woken (task_at woken i) then record woken { need_resched = true } else woken

-- The loop of `sched_tick` over the table.
pub wake_sleeper : ℕ → Kernel → Kernel
wake_sleeper i k =
    let t = task_at k i in
    if is_state t.state sleeping && not (before_tick k.ticks t.wake_tick) then sched_wake i k else k

pub count_tick : Task → Task
count_tick t = record t { cpu_ticks = add32 t.cpu_ticks 1 }

pub spend_slice : Task → Task
spend_slice t = record t { slice = sub32 t.slice 1 }

-- `--slice <= 0` as a signed test.
abbrev pub slice_over : ℕ → Bool
slice_over s = (s == 0) || leb (2 ^ 31) s

-- What `sched_tick` takes from the running task.
pub charge_running : Kernel → Kernel
charge_running k =
    let counted = update_task k k.current count_tick in
    let spent = update_task counted k.current spend_slice in
    if k.current == k.idle
    then counted
    else if slice_over (task_at spent k.current).slice
    then record spent { need_resched = true }
    else spent

pub sched_tick : Kernel → Kernel
sched_tick k = charge_running (for_tasks wake_sleeper k)

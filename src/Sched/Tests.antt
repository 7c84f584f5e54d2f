-- ===== src/Sched/Tests.antt =====
-- A task table with an idle task, a running task and two ready ones.
use mo_os.Prelude.{
  ℕ, zero, suc, ◌<◌, ◌≡◌, refl, sym, ap, ◌∙◌, ◌≢◌, Bool, true, false, ◌&&◌, List, [], ◌∷◌, arith,
  ltb, if◌then◌else◌, get_or, replicate,
}
use mo_os.Kernel.{
  blank, task_at, is_state, TaskState, Policy, Task, Kernel, ready, running, round_robin, real_time,
  edf,
}
use mo_os.Sched.{sched_runs_before, eligible, pick_loop, sched_pick_next, schedule}
use mo_os.Sched.Pick.{sched_pick_next-IsRun, IsRun}
use mo_os.Sched.Rank.{Choice}
use mo_os.Sched.Policies.{sched_pick_next-real_time, edf_rank, sched_pick_next-edf, InWindow}
use mo_os.Sched.Switch.{schedule-Scheduled, IsSwitchable, Scheduled}

abbrev task_with : TaskState → ℕ → ℕ → Task
task_with s p d = record blank { state = s; priority = p; deadline = d; period_ticks = d }

abbrev table : List Task
table =
    task_with ready 0 0
    ∷ task_with running 10 0
    ∷ task_with ready 12 700
    ∷ task_with ready 20 900
    ∷ replicate 12 blank

abbrev kernel_under : Policy → Kernel
kernel_under p = record {
  tasks = table;
  current = 1;
  idle = 0;
  init_thread = 1;
  next_pid = 4;
  policy = p;
  need_resched = true;
  ticks = 500;
  locks = [];
}

picks :
    (sched_pick_next (kernel_under round_robin) ≡ 2)
    × (sched_pick_next (kernel_under real_time) ≡ 3)
    × (sched_pick_next (kernel_under edf) ≡ 2)
unfolding sched_pick_next pick_loop sched_runs_before
picks = (refl, refl, refl)

-- Three tasks that take turns.
abbrev turns : ℕ → ℕ
turns zero = 1
turns (suc zero) = 2
turns (suc (suc zero)) = 3
turns (suc (suc (suc n))) = turns n

abbrev rotation : ℕ → Kernel
rotation n = record (kernel_under round_robin) {
  tasks =
      task_with ready 0 0
      ∷ task_with ready 10 0
      ∷ task_with ready 12 700
      ∷ task_with ready 20 900
      ∷ replicate 12 blank;
  current = turns n;
}

rotation-IsRun : IsRun rotation 3
unfolding sched_pick_next pick_loop
rotation-IsRun = record { rotates = λ n. refl; current_in = inside; waiting = waiting; next = next }
  where
    inside : (n : ℕ) → turns n < 16
    inside zero = omega arith
    inside (suc zero) = omega arith
    inside (suc (suc zero)) = omega arith
    inside (suc (suc (suc n))) = inside n

    waiting : (n : ℕ) → n < 16 → eligible (rotation n) 3 ≡ true
    waiting n lt = refl

    next : (n : ℕ) → turns (suc n) ≡ sched_pick_next (rotation n)
    next zero = refl
    next (suc zero) = refl
    next (suc (suc zero)) = refl
    next (suc (suc (suc n))) = next n

sched_pick_next-IsRun_example : (m : ℕ) × (m < 16) × (sched_pick_next (rotation m) ≡ 3)
sched_pick_next-IsRun_example = sched_pick_next-IsRun rotation 3 (omega arith) rotation-IsRun

sched_pick_next-real_time_example :
    Choice
      (kernel_under real_time)
      (λ i. (task_at (kernel_under real_time) i).priority)
      (sched_pick_next (kernel_under real_time))
sched_pick_next-real_time_example =
    sched_pick_next-real_time (kernel_under real_time) refl (omega arith)

all_small : List Task → Bool
all_small [] = true
all_small (t ∷ ts) =
    let rest = all_small ts in if ltb t.deadline 1000 && ltb t.priority 100 then rest else false

all_small_at :
    (ts : List Task) (i : ℕ)
    → all_small ts ≡ true
    → ((get_or ts i blank).deadline < 1000) × ((get_or ts i blank).priority < 100)
unfolding all_small
all_small_at [] i h = omega arith
all_small_at (t ∷ ts) zero h = ground arith
all_small_at (t ∷ ts) (suc i) h = all_small_at ts i (ground arith)

table-all_small : all_small table ≡ true
unfolding all_small
table-all_small = refl

deadlines-InWindow : InWindow (kernel_under edf) 0
deadlines-InWindow = record {
  deadlines = λ i _. let small = all_small_at table i table-all_small in omega arith;
  base_in = omega arith;
  priorities = λ i _. let small = all_small_at table i table-all_small in omega arith;
}

sched_pick_next-edf_example :
    Choice
      (kernel_under edf)
      (λ i. edf_rank 0 (task_at (kernel_under edf) i))
      (sched_pick_next (kernel_under edf))
sched_pick_next-edf_example =
    sched_pick_next-edf (kernel_under edf) 0 refl (omega arith) deadlines-InWindow

none_running : (n j : ℕ) → is_state (get_or (replicate n blank) j blank).state running ≡ false
none_running zero j = refl
none_running (suc n) zero = refl
none_running (suc n) (suc j) = none_running n j

table_alone : (j : ℕ) → j ≢ 1 → (get_or table j blank).state ≢ running
table_alone zero ne e = cc
table_alone (suc zero) ne e = ne refl
table_alone (suc (suc zero)) ne e = cc
table_alone (suc (suc (suc zero))) ne e = cc
table_alone (suc (suc (suc (suc j)))) ne e =
    cc (sym (none_running 12 j) ∙ ap (λ s. is_state s running) e)

table-IsSwitchable : IsSwitchable (kernel_under real_time)
table-IsSwitchable = record {
  size = refl;
  current_in = omega arith;
  idle_in = omega arith;
  alone = table_alone;
}

schedule-Scheduled_example :
    Scheduled (kernel_under real_time) (schedule true (kernel_under real_time))
schedule-Scheduled_example = schedule-Scheduled true (kernel_under real_time) table-IsSwitchable

-- ===== src/Sched/Policies.antt =====
-- The real time and the deadline policy of src/kernel/task/sched.c as rankings.
use mo_os.Prelude.{ℕ, ◌+◌, ◌-◌, ◌^◌, ◌<◌, ◌≡◌, ap, ◌∙◌, arith, ltb, ◌==◌, if◌then◌else◌}
use mo_os.Prelude.Word.{u8_mod, u32_mod, sub32}
use mo_os.Kernel.{max_tasks, task_at, is_round_robin, Task, Kernel, real_time, edf}
use mo_os.Sched.{sched_edf_class, sched_runs_before, sched_pick_next}
use mo_os.Sched.Rank.{sched_pick_next-Choice, Choice}

-- Real time: the task that is chosen may run and has the highest priority of all that may, and the
-- idle task is chosen only when no other may run.
pub sched_pick_next-real_time :
    (k : Kernel)
    → k.policy ≡ real_time
    → k.current < max_tasks
    → Choice k (λ i. (task_at k i).priority) (sched_pick_next k)
unfolding sched_runs_before
sched_pick_next-real_time k rt c =
    sched_pick_next-Choice k (λ i. (task_at k i).priority)
      (λ a b _ _. ap (λ p. sched_runs_before p (task_at k a) (task_at k b)) rt)
      (ap is_round_robin rt) c

-- The deadlines of the periodic tasks lie less than 2^31 ticks after `base`, so the wrap-around of the
-- tick counter does not reverse their order.
pub record InWindow (k : Kernel) (base : ℕ) : Type 0 where
  pub deadlines :
      (i : ℕ)
      → i < max_tasks
      → ((task_at k i).deadline < u32_mod) × (sub32 (task_at k i).deadline base < 2 ^ 31)
  pub base_in : base < u32_mod
  pub priorities : (i : ℕ) → i < max_tasks → (task_at k i).priority < u8_mod

-- The shell and killed tasks by priority, then periodic tasks by their deadline, then the others by
-- priority.
abbrev pub edf_rank : ℕ → Task → ℕ
edf_rank base t =
    if sched_edf_class t == 0
    then 2 ^ 40 + t.priority
    else if sched_edf_class t == 1
    then 2 ^ 36 - sub32 t.deadline base
    else t.priority

runs_before-edf_rank :
    (base : ℕ) (a b : Task)
    → a.deadline < u32_mod
    → b.deadline < u32_mod
    → base < u32_mod
    → sub32 a.deadline base < 2 ^ 31
    → sub32 b.deadline base < 2 ^ 31
    → a.priority < u8_mod
    → b.priority < u8_mod
    → sched_runs_before edf a b ≡ ltb (edf_rank base b) (edf_rank base a)
unfolding sched_runs_before
runs_before-edf_rank base a b ad bd bi aw bw ap_ bp = ground arith

-- Earliest deadline first: with the deadlines in a window of 2^31 ticks the task that is chosen may
-- run and is first by class, then by deadline or priority, among all that may.
pub sched_pick_next-edf :
    (k : Kernel) (base : ℕ)
    → k.policy ≡ edf
    → k.current < max_tasks
    → InWindow k base
    → Choice k (λ i. edf_rank base (task_at k i)) (sched_pick_next k)
sched_pick_next-edf k base e c w =
    sched_pick_next-Choice k (λ i. edf_rank base (task_at k i))
      (λ a b al bl.
        ap (λ p. sched_runs_before p (task_at k a) (task_at k b)) e
        ∙ runs_before-edf_rank base (task_at k a) (task_at k b) (w.deadlines a al).0
            (w.deadlines b bl).0 w.base_in (w.deadlines a al).1 (w.deadlines b bl).1
            (w.priorities a al) (w.priorities b bl))
      (ap is_round_robin e) c

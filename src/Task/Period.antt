-- ===== src/Task/Period.antt =====
-- Periodic tasks in src/kernel/task/task.c, and the conversion of src/drivers/timer/pit.c.
use mo_os.Prelude.{
  ℕ, suc, ◌+◌, ◌*◌, ◌%◌, ◌≤◌, ◌<◌, ◌≡◌, refl, sym, ap, ◌∙◌, ◌≢◌, Bool, false, not, List, [], ◌∷◌,
  arith, ◌==◌, ==_refl, length,
}
use mo_os.Prelude.Word.{u32_mod, add32}
use mo_os.Kernel.{task_at, before_tick, Task, Kernel}
use mo_os.Kernel.Table.{task_at-update_task, length-update_task}
use mo_os.Task.{pit_ms_to_ticks, end_job, task_wait_period}

-- A time in milliseconds is rounded up to ticks of 10 ms, as long as the product fits 32 bits.
pub pit_ms_to_ticks_bounds :
    (ms : ℕ)
    → ms * 100 + 999 < u32_mod
    → (ms ≤ pit_ms_to_ticks ms * 10) × (pit_ms_to_ticks ms * 10 < ms + 10)
unfolding pit_ms_to_ticks
pit_ms_to_ticks_bounds ms lt = omega arith

-- A period of time from 42949673 ms on comes out shorter than it is, by 42949662 ms at least.
pub pit_ms_to_ticks_wraps :
    (ms : ℕ) → ms < u32_mod → u32_mod ≤ ms * 100 → pit_ms_to_ticks ms * 10 + 42949662 ≤ ms
unfolding pit_ms_to_ticks
pit_ms_to_ticks_wraps ms lt big = omega arith

-- Each job ends at some tick of the clock.
abbrev pub run_jobs : List ℕ → Kernel → Kernel
run_jobs [] k = k
run_jobs (now ∷ later) k = run_jobs later (task_wait_period (record k { ticks = now })).1

wait_period_task :
    (k : Kernel) (now : ℕ)
    → k.current < length k.tasks
    → (task_at k k.current).period_ticks ≢ 0
    → let t = task_at k k.current in
      let k' = (task_wait_period (record k { ticks = now })).1 in
      (k'.current ≡ k.current)
      × (length k'.tasks ≡ length k.tasks)
      × (task_at k' k.current ≡ end_job (not (before_tick now t.deadline)) t)
unfolding task_wait_period
wait_period_task k now cl periodic =
    let t = task_at k k.current in
    let h : (t.period_ticks == 0) ≡ false = ground arith in
    let missed = not (before_tick now t.deadline) in
    let now_k : Kernel = record k { ticks = now } in
    rw h (
      refl,
      length-update_task now_k k.current (end_job missed),
      task_at-update_task now_k k.current k.current (end_job missed) cl ∙ rw (==_refl k.current),
    )

-- What a job changes of its task: the deadline moves by one period, and the job is counted.
end_job_fields :
    (missed : Bool) (t : Task)
    → ((end_job missed t).period_ticks ≡ t.period_ticks)
      × ((end_job missed t).deadline ≡ add32 t.deadline t.period_ticks)
      × ((end_job missed t).jobs ≡ add32 t.jobs 1)
unfolding end_job
end_job_fields missed t = (refl, refl, refl)

next_release :
    (a b d d' n p p' : ℕ)
    → a % u32_mod ≡ (d' + n * p') % u32_mod
    → p' ≡ p
    → d' ≡ add32 d p
    → a ≡ b
    → b % u32_mod ≡ (d + suc n * p) % u32_mod
next_release a b d d' n p p' e same next at =
    let product : n * p' ≡ n * p = ap (λ (x : ℕ). n * x) same in omega arith

-- However late its jobs end, after n of them the deadline of a periodic task is n periods further and
-- n jobs are counted, in 32 bits: no period is skipped and there is no drift.
pub run_jobs_release :
    (times : List ℕ) (k : Kernel)
    → k.current < length k.tasks
    → (task_at k k.current).period_ticks ≢ 0
    → let t = task_at k k.current in
      let t' = task_at (run_jobs times k) k.current in
      (t'.period_ticks ≡ t.period_ticks)
      × (t'.deadline % u32_mod ≡ (t.deadline + length times * t.period_ticks) % u32_mod)
      × (t'.jobs % u32_mod ≡ (t.jobs + length times) % u32_mod)
run_jobs_release [] k cl periodic = (refl, omega arith, omega arith)
run_jobs_release (now ∷ times) k cl periodic =
    let t = task_at k k.current in
    let k' : Kernel = (task_wait_period (record k { ticks = now })).1 in
    let (same, len, entry) = wait_period_task k now cl periodic in
    let (p_same, d_next, j_next) = end_job_fields (not (before_tick now t.deadline)) t in
    let here : task_at k' k'.current ≡ end_job (not (before_tick now t.deadline)) t =
      ap (task_at k') same ∙ entry in
    let p_is : (task_at k' k'.current).period_ticks ≡ t.period_ticks =
      ap (λ (x : Task). x.period_ticks) here ∙ p_same in
    let d_is : (task_at k' k'.current).deadline ≡ add32 t.deadline t.period_ticks =
      ap (λ (x : Task). x.deadline) here ∙ d_next in
    let j_is : (task_at k' k'.current).jobs ≡ add32 t.jobs 1 =
      ap (λ (x : Task). x.jobs) here ∙ j_next in
    let (ih_p, ih_d, ih_j) =
      run_jobs_release times k' (rw (same, len) cl) (λ e. periodic (sym p_is ∙ e)) in
    let at_end : task_at (run_jobs times k') k'.current ≡ task_at (run_jobs times k') k.current =
      ap (task_at (run_jobs times k')) same in
    (
      sym (ap (λ (x : Task). x.period_ticks) at_end) ∙ ih_p ∙ p_is,
      next_release _ _ t.deadline (task_at k' k'.current).deadline (length times) t.period_ticks
          (task_at k' k'.current).period_ticks ih_d p_is d_is
          (ap (λ (x : Task). x.deadline) at_end),
      (let e = ap (λ (x : Task). x.jobs) at_end in omega arith),
    )

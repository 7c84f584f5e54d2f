-- ===== src/Sched/Switch.antt =====
-- `schedule` of src/kernel/task/sched.c: the tasks in the running state.
use mo_os.Prelude.{
  ℕ, zero, suc, ◌+◌, ◌≤◌, ◌<◌, ◌≡◌, refl, sym, ◌∙◌, ◌≢◌, inl, inr, Bool, false, not, ◌&&◌, ◌||◌,
  Option, none, some, arith, ◌==◌, if◌then◌else◌, Bool-cases, ==_refl, length, length-set,
}
use mo_os.Kernel.{
  max_tasks, task_at, update_task, is_state, is_round_robin, Task, Kernel, running, zombie,
}
use mo_os.Kernel.Table.{task_at-update_task, length-update_task}
use mo_os.Sched.{
  candidate, eligible, better, pick_loop, or_idle, sched_pick_next, refill, mark_running, demote,
  task_free, reap_loop, task_reap_zombies, switch_to, schedule,
}

-- A task after the switch to `next`.
abbrev switched_entry : Kernel → ℕ → ℕ → Task
switched_entry k next j =
    if next == j
    then mark_running (refill (task_at k j))
    else if k.current == j
    then demote (task_at k j)
    else task_at k j

task_at-switch_to :
    (k : Kernel) (next j : ℕ)
    → k.current < length k.tasks
    → next < length k.tasks
    → task_at (switch_to k next) j ≡ switched_entry k next j
unfolding switch_to
task_at-switch_to k next j cl nl =
    let calm : Kernel = record k { need_resched = false } in
    let filled : Kernel = update_task calm next refill in
    let filled_len : length filled.tasks ≡ length k.tasks = length-update_task calm next refill in
    let prev_len : length (update_task filled k.current demote).tasks ≡ length k.tasks =
      length-update_task filled k.current demote ∙ filled_len in
    elim (Bool-cases (next == k.current)) [
      | inl same ↦
          let e : next ≡ k.current = ground arith in
          rw
            (
              same,
              task_at-update_task filled k.current j mark_running (omega arith),
              task_at-update_task calm next j refill nl,
              e,
            )
            (elim (Bool-cases (k.current == j)) [ inl h ↦ rw h | inr h ↦ rw h ])
      | inr other ↦
          let demoted : Kernel = update_task filled k.current demote in
          rw
            (
              other,
              task_at-update_task demoted next j mark_running (omega arith),
              task_at-update_task filled k.current j demote (omega arith),
              task_at-update_task calm next j refill nl,
            )
            (elim (Bool-cases (next == j)) [
              | inl h ↦ let away : (k.current == j) ≡ false = ground arith in rw (h, away)
              | inr h ↦ elim (Bool-cases (k.current == j)) [ inl g ↦ rw (h, g) | inr g ↦ rw (h, g) ]
            ])
    ]

-- Exactly the current task is in the running state.
pub record OneRunning (k : Kernel) : Type 0 where
  pub size : length k.tasks ≡ max_tasks
  pub current_in : k.current < max_tasks
  pub runs : (task_at k k.current).state ≡ running
  pub alone : (j : ℕ) → j ≢ k.current → (task_at k j).state ≢ running

-- What `schedule` needs: the current task may have left the running state, no other is in it.
pub record IsSwitchable (k : Kernel) : Type 0 where
  pub size : length k.tasks ≡ max_tasks
  pub current_in : k.current < max_tasks
  pub idle_in : k.idle < max_tasks
  pub alone : (j : ℕ) → j ≢ k.current → (task_at k j).state ≢ running

demote_not_running : (t : Task) → (demote t).state ≢ running
unfolding demote
demote_not_running t = ground arith

mark_running-running : (t : Task) → (mark_running t).state ≡ running
unfolding mark_running
mark_running-running t = refl

current-switch_to : (k : Kernel) (next : ℕ) → (switch_to k next).current ≡ next
unfolding switch_to
current-switch_to k next = ground arith

length-switch_to : (k : Kernel) (next : ℕ) → length (switch_to k next).tasks ≡ length k.tasks
unfolding switch_to
length-switch_to k next = elim (Bool-cases (next == k.current)) [
  | inl h ↦ rw h (simp length-set)
  | inr h ↦ rw h (simp length-set)
]

switched_entry-state :
    (k : Kernel) (next j : ℕ)
    → ((j : ℕ) → j ≢ k.current → (task_at k j).state ≢ running)
    → j ≢ next
    → (switched_entry k next j).state ≢ running
switched_entry-state k next j alone ne = elim (Bool-cases (k.current == j)) [
  | inl h ↦
      let away : (next == j) ≡ false = ground arith in
      rw (away, h) (demote_not_running (task_at k j))
  | inr h ↦ let away : (next == j) ≡ false = ground arith in rw (away, h) (alone j (ground arith))
]

switch_to-OneRunning :
    (k : Kernel) (next : ℕ) → IsSwitchable k → next < max_tasks → OneRunning (switch_to k next)
switch_to-OneRunning k next w lt =
    let cl : k.current < length k.tasks = omega arith in
    let nl : next < length k.tasks = omega arith in
    record {
      size = length-switch_to k next ∙ w.size;
      current_in = rw (current-switch_to k next) lt;
      runs = rw (
        current-switch_to k next,
        task_at-switch_to k next next cl nl,
        ==_refl next,
        mark_running-running,
      );
      alone = λ j ne.
          rw (task_at-switch_to k next j cl nl)
            (switched_entry-state k next j w.alone (λ e. ne (e ∙ sym (current-switch_to k next))));
    }

task_free_not_running : (t : Task) → (task_free t).state ≢ running
unfolding task_free
task_free_not_running t = cc

reap-OneRunning :
    (k : Kernel) (i : ℕ)
    → OneRunning k
    → i < max_tasks
    → i ≢ k.current
    → OneRunning (update_task k i task_free)
reap-OneRunning k i w lt ne =
    let il : i < length k.tasks = omega (arith, w.size) in
    let away : (i == k.current) ≡ false = ground arith in
    record {
      size = length-update_task k i task_free ∙ w.size;
      current_in = w.current_in;
      runs = rw (task_at-update_task k i k.current task_free il, away) w.runs;
      alone = λ j other. rw (task_at-update_task k i j task_free il) (elim (Bool-cases (i == j)) [
        | inl h ↦ rw h (task_free_not_running (task_at k j))
        | inr h ↦ rw h (w.alone j other)
      ]);
    }

reap_loop-OneRunning :
    (rounds i : ℕ) (k : Kernel)
    → OneRunning k
    → i + rounds ≤ max_tasks
    → OneRunning (reap_loop rounds i k)
unfolding reap_loop
reap_loop-OneRunning zero i k w le = w
reap_loop-OneRunning (suc rounds) i k w le =
    elim (Bool-cases
      (is_state (task_at k i).state zombie && (task_at k i).detached && not (i == k.current))) [
        | inl h ↦ rw h (
            reap_loop-OneRunning rounds (i + 1) (update_task k i task_free)
              (reap-OneRunning k i w (omega arith) (ground arith)) (omega arith))
        | inr h ↦ rw h (reap_loop-OneRunning rounds (i + 1) k w (omega arith))
      ]

pick_loop_in :
    (k : Kernel) (rounds n : ℕ) (best : Option ℕ)
    → k.idle < max_tasks
    → or_idle k best < max_tasks
    → or_idle k (pick_loop k rounds n best) < max_tasks
unfolding pick_loop
pick_loop_in k zero n best idle lt = lt
pick_loop_in k (suc rounds) n best idle lt =
    let c = candidate k n in
    elim (Bool-cases (eligible k c)) [
      | inr out ↦ rw out (pick_loop_in k rounds (n + 1) best idle lt)
      | inl fits ↦ elim (Bool-cases (is_round_robin k.policy)) [
        | inl rr ↦ rw (fits, rr) (omega arith)
        | inr other ↦ elim (Bool-cases (better k c best)) [
          | inl up ↦
              rw (fits, other, up) (pick_loop_in k rounds (n + 1) (some c) idle (omega arith))
          | inr down ↦ rw (fits, other, down) (pick_loop_in k rounds (n + 1) best idle lt)
        ]
      ]
    ]

current-reap_loop : (rounds i : ℕ) (k : Kernel) → (reap_loop rounds i k).current ≡ k.current
unfolding reap_loop
current-reap_loop zero i k = refl
current-reap_loop (suc rounds) i k =
    elim (Bool-cases
      (is_state (task_at k i).state zombie && (task_at k i).detached && not (i == k.current))) [
        | inl h ↦ rw (h, reap_loop) (current-reap_loop rounds (i + 1) (update_task k i task_free))
        | inr h ↦ rw (h, reap_loop) (current-reap_loop rounds (i + 1) k)
      ]

-- One task runs, and it is the one that was chosen.
pub record Scheduled (k r : Kernel) : Type 0 where
  pub one_running : OneRunning r
  pub chosen : r.current ≡ sched_pick_next k

-- When no task but the current one is in the running state, `schedule` leaves the table with exactly one
-- task in the running state, the current one, which is the one that `sched_pick_next` chose, whether the
-- task that runs next resumes or starts.
pub schedule-Scheduled :
    (resumes : Bool) (k : Kernel) → IsSwitchable k → Scheduled k (schedule resumes k)
unfolding schedule task_reap_zombies
schedule-Scheduled resumes k w =
    let next = sched_pick_next k in
    let in_table : next < max_tasks =
      unfold sched_pick_next in pick_loop_in k max_tasks 1 none w.idle_in w.idle_in in
    let after = switch_to-OneRunning k next w in_table in
    let current = current-switch_to k next in
    elim (Bool-cases ((next == k.current) || not resumes)) [
      | inl h ↦ rw h (record { one_running = after; chosen = current })
      | inr h ↦ rw h (record {
        one_running = reap_loop-OneRunning max_tasks 0 (switch_to k next) after (omega arith);
        chosen = current-reap_loop max_tasks 0 (switch_to k next) ∙ current;
      })
    ]

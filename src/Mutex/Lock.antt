-- ===== src/Mutex/Lock.antt =====
-- The wait in src/kernel/task/mutex.c: who leaves mutex_lock with the mutex, and who is blocked.
use mo_os.Prelude.{
  ℕ, zero, suc, ◌<◌, ◌≡◌, refl, ap, ◌∙◌, ◌≢◌, inl, inr, Bool, true, false, Option, none, some, List,
  [], ◌∷◌, arith, leb, ◌==◌, if◌then◌else◌, Bool-cases, Option-cases, ==_refl, length, get_or, set,
  get_or-set_self,
}
use mo_os.Kernel.{
  blank, blank_mutex, task_at, update_task, mutex_at, Task, Mutex, Kernel, blocked, mutex_channel,
}
use mo_os.Kernel.Table.{task_at-update_task, length-update_task}
use mo_os.Mutex.{
  set_priority, next_owner, boost_loop, mutex_boost, mutex_update_priority, begin_wait, block_on,
  lock_test, LockOutcome, locked, must_wait, was_killed,
}

-- A task that is blocked on the channel of the mutex, and is marked to wait for it.
abbrev pub BlockedOn : ℕ → Task → Type 0
BlockedOn m t =
    (t.state ≡ blocked) × (t.wait_channel ≡ some (mutex_channel m)) × (t.wait_mutex ≡ some m)

-- The outcomes of the test in `mutex_lock`, for mutex `m` and the running task.
pub data Tested (k : Kernel) (m : ℕ) : LockOutcome × Kernel → Type 0 where
  got :
      (r : Kernel)
      → (mutex_at k m).owner ≡ none
      → (mutex_at r m).owner ≡ some k.current
      → r.tasks ≡ k.tasks
      → Tested k m (locked, r)
  given : (mutex_at k m).owner ≡ some k.current → Tested k m (locked, k)
  gave_up :
      (o : ℕ)
      → (mutex_at k m).owner ≡ some o
      → o ≢ k.current
      → (task_at k k.current).killed ≡ true
      → Tested k m (was_killed, mutex_update_priority o k)
  waits :
      (o : ℕ) (r : Kernel)
      → (mutex_at k m).owner ≡ some o
      → o ≢ k.current
      → (task_at k k.current).killed ≡ false
      → r.locks ≡ k.locks
      → BlockedOn m (task_at r k.current)
      → Tested k m (must_wait, r)

-- What the boost leaves of a task and of the table.
record Boosts (k r : Kernel) : Type 0 where
  locks : r.locks ≡ k.locks
  current : r.current ≡ k.current
  size : length r.tasks ≡ length k.tasks
  wait_mutex : (j : ℕ) → (task_at r j).wait_mutex ≡ (task_at k j).wait_mutex

-- A write that keeps what a task waits for.
wait_mutex-set :
    (f : Task → Task) (keeps : (t : Task) → (f t).wait_mutex ≡ t.wait_mutex) (xs : List Task)
    (i j : ℕ)
    → (get_or (set xs i (f (get_or xs i blank))) j blank).wait_mutex
      ≡ (get_or xs j blank).wait_mutex
wait_mutex-set f keeps [] i j = refl
wait_mutex-set f keeps (x ∷ xs) zero zero = keeps x
wait_mutex-set f keeps (x ∷ xs) zero (suc j) = refl
wait_mutex-set f keeps (x ∷ xs) (suc i) zero = refl
wait_mutex-set f keeps (x ∷ xs) (suc i) (suc j) = wait_mutex-set f keeps xs i j

priority-Boosts : (k : Kernel) (o p : ℕ) → Boosts k (update_task k o (set_priority p))
unfolding set_priority
priority-Boosts k o p = record {
  locks = refl;
  current = refl;
  size = length-update_task k o (set_priority p);
  wait_mutex = λ j. wait_mutex-set (set_priority p) (λ t. refl) k.tasks o j;
}

boost_loop-Boosts :
    (depth : ℕ) (owner : Option ℕ) (p : ℕ) (k : Kernel) → Boosts k (boost_loop depth owner p k)
unfolding boost_loop
boost_loop-Boosts zero owner p k = record {
  locks = refl;
  current = refl;
  size = refl;
  wait_mutex = λ j. refl;
}
boost_loop-Boosts (suc depth) none p k = record {
  locks = refl;
  current = refl;
  size = refl;
  wait_mutex = λ j. refl;
}
boost_loop-Boosts (suc depth) (some o) p k = elim (Bool-cases (leb p (task_at k o).priority)) [
  | inl h ↦
      rw (h, boost_loop)
        (record { locks = refl; current = refl; size = refl; wait_mutex = λ j. refl })
  | inr h ↦
      let next = update_task k o (set_priority p) in
      let a = priority-Boosts k o p in
      let b = boost_loop-Boosts depth (next_owner next o) p next in
      rw (h, boost_loop)
        (record {
          locks = b.locks ∙ a.locks;
          current = b.current ∙ a.current;
          size = b.size ∙ a.size;
          wait_mutex = λ j. b.wait_mutex j ∙ a.wait_mutex j;
        })
]

same-Boosts : (k : Kernel) → Boosts k k
same-Boosts k = record { locks = refl; current = refl; size = refl; wait_mutex = λ j. refl }

lend-Boosts :
    (k : Kernel) (m : ℕ) (lends : Bool) (p : ℕ) (waiting : Kernel)
    → Boosts waiting (if lends then mutex_boost (mutex_at k m).owner p waiting else waiting)
unfolding mutex_boost
lend-Boosts k m true p waiting = boost_loop-Boosts 16 (mutex_at k m).owner p waiting
lend-Boosts k m false p waiting = same-Boosts waiting

-- The task that begins to wait is blocked on the mutex.
blocks :
    (k boosted : Kernel) (m : ℕ)
    → k.current < length k.tasks
    → Boosts (update_task k k.current (begin_wait m)) boosted
    → BlockedOn m
        (task_at (update_task boosted boosted.current (block_on (mutex_channel m))) k.current)
unfolding block_on begin_wait
blocks k boosted m lt b =
    let waiting = update_task k k.current (begin_wait m) in
    let size = b.size ∙ length-update_task k k.current (begin_wait m) in
    let inside : k.current < length boosted.tasks = omega arith in
    let marked : (task_at boosted k.current).wait_mutex ≡ some m =
      b.wait_mutex k.current
      ∙ rw (task_at-update_task k k.current k.current (begin_wait m) lt, ==_refl k.current) refl in
    rw
      (
        b.current,
        task_at-update_task boosted k.current k.current (block_on (mutex_channel m)) inside,
        ==_refl k.current,
      )
      (refl, refl, marked)

-- A task leaves `lock_test` with the mutex only if it was free or had been handed to it, and it is the
-- owner then. While another task owns it, the task gives up when it was killed, and else it is blocked on
-- the mutex, with all mutexes as before.
pub lock_test-Tested :
    (k : Kernel) (m : ℕ)
    → m < length k.locks
    → k.current < length k.tasks
    → Tested k m (lock_test m k)
unfolding lock_test
lock_test-Tested k m lt inside = elim (Option-cases (mutex_at k m).owner) [
  | inl free ↦
      rw (free, lock_test)
        (got _ free
          (ap (λ (x : Mutex). x.owner)
            (get_or-set_self k.locks m (record (mutex_at k m) { owner = some k.current })
              blank_mutex lt))
          refl)
  | inr (o, owned) ↦ elim (Bool-cases (o == k.current)) [
    | inl mine ↦
        let same : o ≡ k.current = ground arith in
        rw (owned, lock_test) (rw mine (given (owned ∙ ap some same)))
    | inr other ↦ elim (Bool-cases (task_at k k.current).killed) [
      | inl dead ↦ rw (owned, lock_test) (rw (other, dead) (gave_up o owned (ground arith) dead))
      | inr alive ↦
          let waiting = update_task k k.current (begin_wait m) in
          let b =
            lend-Boosts k m (mutex_at k m).inherit (task_at waiting waiting.current).priority
              waiting in
          rw (owned, lock_test)
            (rw (other, alive)
              (waits o _ owned (ground arith) alive b.locks (blocks k _ m inside b)))
    ]
  ]
]

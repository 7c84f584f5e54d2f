-- ===== src/Mutex/Tests.antt =====
-- Three tasks and one mutex that the first of them owns and the second waits for.
use mo_os.Mutex.Priority.{mutex_update_priority-Inherits, Inherits, OwnersIn}
use mo_os.Mutex.HandOver.{mutex_unlock-Unlock, Unlock}
use mo_os.Mutex.Lock.{lock_test-Tested, Tested}
use mo_os.Prelude.{
  ℕ, zero, suc, ◌<◌, ◌≡◌, refl, Bool, true, false, none, some, [], ◌∷◌, arith, ◌==◌, get_or,
  replicate,
}
use mo_os.Kernel.{
  blank, blank_mutex, task_at, mutex_at, Task, Mutex, Kernel, running, blocked, real_time,
  mutex_channel,
}
use mo_os.Mutex.{
  set_priority, boost_loop, mutex_boost, inherited, mutex_update_priority, lock_test, mutex_unlock,
}

abbrev opened : ℕ → Bool
opened n = n == 0

abbrev owner_task : Task
owner_task = record blank { state = running; priority = 10; base_priority = 10; mutexes = opened }

abbrev waiting_task : Task
waiting_task = record blank {
  state = blocked;
  priority = 20;
  base_priority = 20;
  wait_mutex = some 0;
  wait_channel = some (mutex_channel 0);
  mutexes = opened;
}

abbrev lock : Mutex
lock = record { name = 0x6d ∷ []; refs = 2; inherit = true; owner = some 1 }

abbrev contended : Kernel
contended = record {
  tasks = blank ∷ owner_task ∷ waiting_task ∷ replicate 13 blank;
  current = 1;
  idle = 0;
  init_thread = 1;
  next_pid = 3;
  policy = real_time;
  need_resched = false;
  ticks = 0;
  locks = lock ∷ replicate 31 blank_mutex;
}

boosted : (task_at (mutex_boost (some 1) 20 contended) 1).priority ≡ 20
unfolding mutex_boost boost_loop set_priority
boosted = refl

blank_owner : (n m : ℕ) → (get_or (replicate n blank_mutex) m blank_mutex).owner ≡ none
blank_owner zero m = refl
blank_owner (suc n) zero = refl
blank_owner (suc n) (suc m) = blank_owner n m

contended_owner : (m o : ℕ) → (mutex_at contended m).owner ≡ some o → o < 16
contended_owner zero o e = ground arith
contended_owner (suc m) o e = cc (blank_owner 31 m)

contended-OwnersIn : OwnersIn contended
contended-OwnersIn = record { owner_in = contended_owner }

inherits_twenty : inherited contended 1 16 0 10 ≡ 20
unfolding inherited
inherits_twenty = refl

mutex_update_priority-Inherits_example :
    let k' = mutex_update_priority 1 contended in
    let r = inherited contended 1 16 0 10 in
    (owner_task.killed ≡ true → k' ≡ contended)
    × (owner_task.killed ≡ false
        → Inherits contended 1 0 16 10 r
          × (task_at k' 1 ≡ set_priority r owner_task)
          × (k'.need_resched ≡ true))
mutex_update_priority-Inherits_example = mutex_update_priority-Inherits contended 1 1 (omega arith)

mutex_unlock-Unlock_example : Unlock contended 0 (mutex_unlock 0 contended)
mutex_unlock-Unlock_example = mutex_unlock-Unlock contended 0 refl

lock_test-Tested_example : Tested contended 0 (lock_test 0 contended)
lock_test-Tested_example = lock_test-Tested contended 0 (omega arith) (omega arith)

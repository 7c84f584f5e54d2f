-- ===== src/Mutex.antt =====
-- src/kernel/task/mutex.c: named mutexes with priority inheritance. A `struct mutex *` is an index into
-- `locks`; an id is an int32_t as its bit pattern, so a negative one is out of range. `mutex_lock` is
-- cut where it blocks: what `schedule` does in between is for the other tasks.
pub mod Priority
pub mod HandOver
pub mod Lock
mod Tests
use mo_os.Prelude.{
  ℕ, zero, suc, ◌+◌, ◌-◌, Bool, true, false, not, ◌&&◌, ◌||◌, Option, none, some, List, [], ◌∷◌,
  ltb, leb, ◌==◌, if◌then◌else◌, length,
}
use mo_os.Prelude.Status.{Error, Result, ok, err}
use mo_os.Kernel.{
  max_tasks, max_mutexes, task_at, update_task, mutex_at, put_mutex, is_state, Channel, Task, Mutex,
  Kernel, blocked, pipe_channel, mutex_channel,
}
use mo_os.Sched.{sched_wake}

abbrev pub name_len : ℕ
name_len = 16

abbrev pub is_owner : Option ℕ → ℕ → Bool
is_owner none i = false
is_owner (some j) i = i == j

-- The mutex of an id that the running task has open.
pub mutex_get : Kernel → ℕ → Option ℕ
mutex_get k id =
    if leb max_mutexes id || (mutex_at k id).refs == 0 || not ((task_at k k.current).mutexes id)
    then none
    else some id

-- `strcmp (a, b) == 0` for the characters of two strings.
pub same_name : List ℕ → List ℕ → Bool
same_name [] [] = true
same_name (a ∷ as_) (b ∷ bs) = let rest = same_name as_ bs in if a == b then rest else false
same_name _ _ = false

-- The search of `mutex_open`: the id of the name, else the first free slot.
pub open_loop : List ℕ → Kernel → ℕ → ℕ → Option ℕ → Option ℕ × Option ℕ
open_loop name k zero i free_id = (none, free_id)
open_loop name k (suc rounds) i free_id =
    let m = mutex_at k i in
    let kept = open_loop name k rounds (i + 1) free_id in
    let freed =
      open_loop name k rounds (i + 1) (elim free_id [ none ↦ some i | some f ↦ some f ]) in
    if not (m.refs == 0) && same_name m.name name
    then (some i, free_id)
    else if m.refs == 0
    then freed
    else kept

abbrev pub set_bit : ℕ → Bool → (ℕ → Bool) → ℕ → Bool
set_bit id b mask n = if n == id then b else mask n

pub note_open : ℕ → Task → Task
note_open id t = record t { mutexes = set_bit id true t.mutexes }

pub note_closed : ℕ → Task → Task
note_closed id t = record t { mutexes = set_bit id false t.mutexes }

-- The running task opens slot `id` unless it has it open.
pub open_slot : ℕ → Kernel → Kernel
open_slot id k =
    let m = mutex_at k id in
    if (task_at k k.current).mutexes id
    then k
    else update_task (put_mutex k id (record m { refs = m.refs + 1 })) k.current (note_open id)

pub mutex_open : List ℕ → Bool → Kernel → Result ℕ × Kernel
mutex_open name inherit k =
    if leb name_len (length name)
    then (err Error.invalid_arg, k)
    else let (id, free_id) = open_loop name k max_mutexes 0 none in
      elim id [
        | some i ↦ (ok i, open_slot i k)
        | none ↦ elim free_id [
          | none ↦ (err Error.no_memory, k)
          | some i ↦ (
            ok i,
            open_slot i
                (put_mutex k i (record { name = name; refs = 0; inherit = inherit; owner = none })),
          )
        ]
      ]

pub set_priority : ℕ → Task → Task
set_priority p t = record t { priority = p }

-- The owner that an owner waits for in turn, if that mutex inherits priorities.
abbrev pub inheriting_owner : Kernel → Option ℕ → Option ℕ
inheriting_owner k none = none
inheriting_owner k (some m) = if (mutex_at k m).inherit then (mutex_at k m).owner else none

abbrev pub next_owner : Kernel → ℕ → Option ℕ
next_owner k owner = inheriting_owner k (task_at k owner).wait_mutex

-- The loop of `mutex_boost`, with the depth that is left.
pub boost_loop : ℕ → Option ℕ → ℕ → Kernel → Kernel
boost_loop zero owner priority k = k
boost_loop (suc depth) none priority k = k
boost_loop (suc depth) (some owner) priority k =
    let raised = update_task k owner (set_priority priority) in
    let further = boost_loop depth (next_owner raised owner) priority raised in
    if leb priority (task_at k owner).priority then k else further

pub mutex_boost : Option ℕ → ℕ → Kernel → Kernel
mutex_boost owner priority k = boost_loop max_tasks owner priority k

abbrev pub holds_up : Kernel → ℕ → Option ℕ → Bool
holds_up k i none = false
holds_up k i (some m) = is_owner (mutex_at k m).owner i && (mutex_at k m).inherit

-- Task `w` waits for a mutex with inheritance that task `i` owns.
abbrev pub waits_for : Kernel → ℕ → ℕ → Bool
waits_for k i w = is_state (task_at k w).state blocked && holds_up k i (task_at k w).wait_mutex

-- The loop of `mutex_update_priority` over the table.
pub inherited : Kernel → ℕ → ℕ → ℕ → ℕ → ℕ
inherited k i zero w priority = priority
inherited k i (suc rounds) w priority = inherited k i rounds (w + 1) (
    if waits_for k i w && ltb priority (task_at k w).priority
    then (task_at k w).priority
    else priority)

pub mutex_update_priority : ℕ → Kernel → Kernel
mutex_update_priority i k =
    if (task_at k i).killed
    then k
    else let priority = inherited k i max_tasks 0 (task_at k i).base_priority in
      record (update_task k i (set_priority priority)) { need_resched = true }

pub data LockOutcome : Type 0 where
  refused locked must_wait was_killed : LockOutcome

-- What the running task writes before it blocks on mutex `m`, and after it runs again.
pub begin_wait : ℕ → Task → Task
begin_wait m t = record t { wait_mutex = some m }

pub block_on : Channel → Task → Task
block_on c t = record t { wait_channel = some c; state = blocked }

pub end_wait : Task → Task
end_wait t = record t { wait_channel = none; wait_mutex = none }

-- The test of the loop of `mutex_lock`, what follows the loop, and its body up to `schedule`.
pub lock_test : ℕ → Kernel → LockOutcome × Kernel
lock_test m k =
    let mutex = mutex_at k m in
    let waiting = update_task k k.current (begin_wait m) in
    let boosted =
      if mutex.inherit
      then mutex_boost mutex.owner (task_at waiting waiting.current).priority waiting
      else waiting in
    elim mutex.owner [
      | none ↦ (locked, put_mutex k m (record mutex { owner = some k.current }))
      | some owner ↦
          if owner == k.current
          then (locked, k)
          else if (task_at k k.current).killed
          then (was_killed, mutex_update_priority owner k)
          else (must_wait, update_task boosted boosted.current (block_on (mutex_channel m)))
    ]

pub mutex_lock : ℕ → Kernel → LockOutcome × Kernel
mutex_lock id k = elim (mutex_get k id) [
  | none ↦ (refused, k)
  | some m ↦ if is_owner (mutex_at k m).owner k.current then (refused, k) else lock_test m k
]

-- The running task goes on behind `task_block_on`.
pub mutex_lock_resume : ℕ → Kernel → LockOutcome × Kernel
mutex_lock_resume m k = lock_test m (update_task k k.current end_wait)

abbrev pub is_mutex_channel : ℕ → Option Channel → Bool
is_mutex_channel m none = false
is_mutex_channel m (some (pipe_channel p)) = false
is_mutex_channel m (some (mutex_channel n)) = m == n

abbrev pub is_waiter : Kernel → ℕ → ℕ → Bool
is_waiter k m w =
    is_state (task_at k w).state blocked && is_mutex_channel m (task_at k w).wait_channel

abbrev pub above : Kernel → ℕ → Option ℕ → Bool
above k w none = true
above k w (some best) = ltb (task_at k best).priority (task_at k w).priority

-- The loop of `mutex_hand_over` over the table.
pub best_waiter : Kernel → ℕ → ℕ → ℕ → Option ℕ → Option ℕ
best_waiter k m zero w best = best
best_waiter k m (suc rounds) w best =
    best_waiter k m rounds (w + 1) (if is_waiter k m w && above k w best then some w else best)

pub wake_next : Option ℕ → Kernel → Kernel
wake_next none k = k
wake_next (some i) k = sched_wake i k

pub drop_priority : Option ℕ → Kernel → Kernel
drop_priority none k = k
drop_priority (some i) k = mutex_update_priority i k

pub mutex_hand_over : ℕ → Kernel → Kernel
mutex_hand_over m k =
    let mutex = mutex_at k m in
    let next = best_waiter k m max_tasks 0 none in
    drop_priority mutex.owner (wake_next next (put_mutex k m (record mutex { owner = next })))

pub mutex_unlock : ℕ → Kernel → Result (Unit {0}) × Kernel
mutex_unlock id k = elim (mutex_get k id) [
  | none ↦ (err Error.invalid_arg, k)
  | some m ↦
      if is_owner (mutex_at k m).owner k.current
      then (ok tt, mutex_hand_over m k)
      else (err Error.invalid_arg, k)
]

pub drop_ref : Mutex → Mutex
drop_ref m = record m { refs = m.refs - 1 }

pub mutex_close_task : ℕ → ℕ → Kernel → Kernel
mutex_close_task i id k =
    let released = if is_owner (mutex_at k id).owner i then mutex_hand_over id k else k in
    let noted = update_task released i (note_closed id) in
    put_mutex noted id (drop_ref (mutex_at noted id))

pub mutex_close : ℕ → Kernel → Result (Unit {0}) × Kernel
mutex_close id k = elim (mutex_get k id) [
  | none ↦ (err Error.invalid_arg, k)
  | some m ↦ (ok tt, mutex_close_task k.current m k)
]

pub release_loop : ℕ → ℕ → ℕ → Kernel → Kernel
release_loop i zero id k = k
release_loop i (suc rounds) id k =
    release_loop i rounds (id + 1) (if (task_at k i).mutexes id then mutex_close_task i id k else k)

pub mutex_release_all : ℕ → Kernel → Kernel
mutex_release_all i k = release_loop i max_mutexes 0 k

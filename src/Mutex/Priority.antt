-- ===== src/Mutex/Priority.antt =====
-- Priority inheritance in src/kernel/task/mutex.c.
use mo_os.Kernel.Table.{task_at-update_task, length-update_task}
use mo_os.Prelude.{
  ℕ, zero, suc, ◌+◌, ◌≤◌, ◌<◌, ◌≡◌, refl, sym, ◌∙◌, ◌⊎◌, inl, inr, true, false, ◌&&◌, Option, none,
  some, arith, ltb, leb, ◌==◌, if◌then◌else◌, ltb→lt, Bool-cases, ==_refl, length,
}
use mo_os.Kernel.{max_tasks, task_at, update_task, mutex_at, Task, Kernel}
use mo_os.Mutex.{
  set_priority, inheriting_owner, next_owner, boost_loop, mutex_boost, waits_for, inherited,
  mutex_update_priority,
}

-- What the loop over the waiters returns: the least priority that is as high as `p` and as that of
-- every waiter.
pub record Inherits (k : Kernel) (i w rounds p r : ℕ) : Type 0 where
  pub kept : p ≤ r
  pub covers :
      (j : ℕ) → w ≤ j → j < w + rounds → waits_for k i j ≡ true → (task_at k j).priority ≤ r
  pub source :
      (r ≡ p)
      ⊎ ((j : ℕ) × (w ≤ j)
          × (j < w + rounds)
          × (waits_for k i j ≡ true)
          × ((task_at k j).priority ≡ r))

abbrev raised : Kernel → ℕ → ℕ → ℕ → ℕ
raised k i w p =
    if waits_for k i w && ltb p (task_at k w).priority then (task_at k w).priority else p

raised_lem :
    (k : Kernel) (i w p : ℕ)
    → (p ≤ raised k i w p)
      × (waits_for k i w ≡ true → (task_at k w).priority ≤ raised k i w p)
      × ((raised k i w p ≡ p)
          ⊎ ((waits_for k i w ≡ true) × ((task_at k w).priority ≡ raised k i w p)))
raised_lem k i w p = elim (Bool-cases (waits_for k i w)) [
  | inl h ↦ elim (Bool-cases (ltb p (task_at k w).priority)) [
    | inl g ↦
        rw (h, g)
          (
            let lt : p < (task_at k w).priority = ltb→lt p _ g in omega arith,
            λ _. omega arith,
            inr (refl, refl),
          )
    | inr g ↦
        rw (h, g)
          (omega arith, λ _. (let le : (task_at k w).priority ≤ p = ground arith in le), inl refl)
  ]
  | inr h ↦ rw h (omega arith, λ e. cc, inl refl)
]

inherited-Inherits :
    (k : Kernel) (i rounds w p : ℕ) → Inherits k i w rounds p (inherited k i rounds w p)
unfolding inherited
inherited-Inherits k i zero w p = record {
  kept = omega arith;
  covers = λ j le lt. absurd (omega arith);
  source = inl refl;
}
inherited-Inherits k i (suc rounds) w p =
    let q = raised k i w p in
    let (up, seen, came_from) = raised_lem k i w p in
    let ih = inherited-Inherits k i rounds (w + 1) q in
    record {
      kept = omega (arith, ih.kept);
      covers = λ j le lt waits. elim (Bool-cases (j == w)) [
        | inl h ↦
            let same : j ≡ w = ground arith in
            rw same (omega (arith, ih.kept, seen (rw same at waits)))
        | inr h ↦ ih.covers j (ground arith) (omega arith) waits
      ];
      source = elim ih.source [
        | inl e ↦ elim came_from [
          | inl f ↦ inl (e ∙ f)
          | inr (waits, f) ↦ inr (w, omega arith, omega arith, waits, f ∙ sym e)
        ]
        | inr (j, le, lt, waits, f) ↦ inr (j, omega arith, omega arith, waits, f)
      ];
    }

-- `mutex_update_priority` on a task that is not killed sets its priority to the least one that is as
-- high as its base priority and as that of every task that waits for a mutex with inheritance that it
-- owns; it leaves all other tasks alone and asks for a switch. A killed task is left as it is.
pub mutex_update_priority-Inherits :
    (k : Kernel) (i j : ℕ)
    → i < length k.tasks
    → let k' = mutex_update_priority i k in
      let r = inherited k i max_tasks 0 (task_at k i).base_priority in
      ((task_at k i).killed ≡ true → k' ≡ k)
      × ((task_at k i).killed ≡ false
          → Inherits k i 0 max_tasks (task_at k i).base_priority r
            × (task_at k' j ≡ (if i == j then set_priority r (task_at k j) else task_at k j))
            × (k'.need_resched ≡ true))
unfolding mutex_update_priority
mutex_update_priority-Inherits k i j lt =
    let r = inherited k i max_tasks 0 (task_at k i).base_priority in
    (
      λ h. rw h,
      λ h. rw h (
        inherited-Inherits k i max_tasks 0 (task_at k i).base_priority,
        task_at-update_task k i j (set_priority r) lt,
        refl,
      ),
    )

priority-set_priority : (p : ℕ) (t : Task) → (set_priority p t).priority ≡ p
unfolding set_priority
priority-set_priority p t = refl

-- Raising one task lowers none, if it was lower.
raise_mono :
    (k : Kernel) (o j p : ℕ)
    → o < length k.tasks
    → (task_at k o).priority < p
    → (task_at k j).priority ≤ (task_at (update_task k o (set_priority p)) j).priority
raise_mono k o j p ol lt = elim (Bool-cases (o == j)) [
  | inl h ↦
      let same : o ≡ j = ground arith in
      rw (task_at-update_task k o j (set_priority p) ol, h, priority-set_priority, ← same)
        (omega arith)
  | inr h ↦ rw (task_at-update_task k o j (set_priority p) ol, h) (omega arith)
]

-- Owners are entries of the table.
pub record OwnersIn (k : Kernel) : Type 0 where
  pub owner_in : (m o : ℕ) → (mutex_at k m).owner ≡ some o → o < length k.tasks

inheriting_owner_in :
    (k : Kernel) (m : Option ℕ) (q : ℕ)
    → OwnersIn k
    → inheriting_owner k m ≡ some q
    → q < length k.tasks
inheriting_owner_in k none q w e = cc
inheriting_owner_in k (some m) q w e = elim (Bool-cases (mutex_at k m).inherit) [
  | inl g ↦ w.owner_in m q (rw g at e)
  | inr g ↦ cc (rw g at e)
]

boost_loop_mono :
    (depth : ℕ) (owner : Option ℕ) (p : ℕ) (k : Kernel) (j : ℕ)
    → OwnersIn k
    → ((o : ℕ) → owner ≡ some o → o < length k.tasks)
    → (task_at k j).priority ≤ (task_at (boost_loop depth owner p k) j).priority
unfolding boost_loop
boost_loop_mono zero owner p k j w lt = omega arith
boost_loop_mono (suc depth) none p k j w lt = omega arith
boost_loop_mono (suc depth) (some o) p k j w lt = elim (Bool-cases (leb p (task_at k o).priority)) [
  | inl h ↦ rw h (omega arith)
  | inr h ↦
      let ol = lt o refl in
      let low : (task_at k o).priority < p = ground arith in
      let k' : Kernel = update_task k o (set_priority p) in
      let len : length k'.tasks ≡ length k.tasks = length-update_task k o (set_priority p) in
      let up = raise_mono k o j p ol low in
      let rest =
        boost_loop_mono depth (next_owner k' o) p k' j
          (record { owner_in = λ m q e. rw len (w.owner_in m q e) })
          (λ q e.
            inheriting_owner_in k' (task_at k' o).wait_mutex q
              (record { owner_in = λ m q e. rw len (w.owner_in m q e) }) e) in
      rw h (omega arith)
]

some_in : (o q n : ℕ) → o < n → some o ≡ some q → q < n
some_in o q n lt e = ground arith

boost_loop-lifts :
    (depth o p : ℕ) (k : Kernel)
    → OwnersIn k
    → o < length k.tasks
    → p ≤ (task_at (boost_loop (suc depth) (some o) p k) o).priority
unfolding boost_loop
boost_loop-lifts depth o p k w lt = elim (Bool-cases (leb p (task_at k o).priority)) [
  | inl h ↦ rw h (ground arith)
  | inr h ↦
      let k' : Kernel = update_task k o (set_priority p) in
      let len : length k'.tasks ≡ length k.tasks = length-update_task k o (set_priority p) in
      let w' : OwnersIn k' = record { owner_in = λ m q e. rw len (w.owner_in m q e) } in
      let raised_to : (task_at k' o).priority ≡ p =
        rw (task_at-update_task k o o (set_priority p) lt, ==_refl o)
          (priority-set_priority p (task_at k o)) in
      let rest =
        boost_loop_mono depth (next_owner k' o) p k' o w'
          (λ q e. inheriting_owner_in k' (task_at k' o).wait_mutex q w' e) in
      rw h (omega arith)
]

-- `mutex_boost` lifts the owner to the given priority at least, and lowers no task.
pub mutex_boost_lem :
    (k : Kernel) (o p : ℕ)
    → OwnersIn k
    → o < length k.tasks
    → (p ≤ (task_at (mutex_boost (some o) p k) o).priority)
      × ((j : ℕ) → (task_at k j).priority ≤ (task_at (mutex_boost (some o) p k) j).priority)
unfolding mutex_boost
mutex_boost_lem k o p w lt = (
  boost_loop-lifts 15 o p k w lt,
  λ j. boost_loop_mono 16 (some o) p k j w (λ q e. some_in o q (length k.tasks) lt e),
)

-- ===== src/Mutex/HandOver.antt =====
-- Ownership in src/kernel/task/mutex.c: who gets a mutex, and who may lock and unlock it.
use mo_os.Prelude.Status.{Error, Result, ok, err}
use mo_os.Prelude.{
  ℕ, zero, suc, ◌+◌, ◌≤◌, ◌<◌, ◌≡◌, refl, sym, ap, ◌∙◌, ◌⊎◌, inl, inr, Bool, true, false, not, ◌&&◌,
  ◌||◌, Option, none, some, List, arith, ltb, leb, ◌==◌, Bool-cases, length, get_or,
  get_or-set_self,
}
use mo_os.Kernel.{max_tasks, max_mutexes, blank_mutex, task_at, mutex_at, put_mutex, Mutex, Kernel}
use mo_os.Sched.Wake.{locks-sched_wake}
use mo_os.Mutex.{
  is_owner, mutex_get, mutex_update_priority, is_waiter, above, best_waiter, wake_next,
  drop_priority, mutex_hand_over, mutex_unlock,
}

-- What the loop over the waiters finds: nobody if no task waits, else a waiter that no waiter exceeds
-- in priority.
pub data NextOwner (k : Kernel) (m w rounds : ℕ) : Option ℕ → Type 0 where
  nobody :
      ((j : ℕ) → w ≤ j → j < w + rounds → is_waiter k m j ≡ false) → NextOwner k m w rounds none
  highest :
      (i : ℕ)
      → i < w + rounds
      → is_waiter k m i ≡ true
      → ((j : ℕ)
          → w ≤ j
          → j < w + rounds
          → is_waiter k m j ≡ true
          → (task_at k j).priority ≤ (task_at k i).priority)
      → NextOwner k m w rounds (some i)

best_waiter-kept :
    (k : Kernel) (m rounds w b : ℕ)
    → b < w
    → is_waiter k m b ≡ true
    → (i : ℕ) × (best_waiter k m rounds w (some b) ≡ some i)
      × (i < w + rounds)
      × (is_waiter k m i ≡ true)
      × ((task_at k b).priority ≤ (task_at k i).priority)
      × ((j : ℕ)
          → w ≤ j
          → j < w + rounds
          → is_waiter k m j ≡ true
          → (task_at k j).priority ≤ (task_at k i).priority)
unfolding best_waiter
best_waiter-kept k m zero w b lt waits =
    (b, refl, omega arith, waits, omega arith, λ j le ls. absurd (omega arith))
best_waiter-kept k m (suc rounds) w b lt waits =
    elim (Bool-cases (is_waiter k m w && above k w (some b))) [
      | inl h ↦
          let here : is_waiter k m w ≡ true = ground arith in
          let up : (task_at k b).priority < (task_at k w).priority = ground arith in
          let (i, e, i_lt, i_waits, le, top) =
            best_waiter-kept k m rounds (w + 1) w (omega arith) here in
          (
            i,
            rw h e,
            omega arith,
            i_waits,
            omega arith,
            λ j jl jr jw. elim (Bool-cases (j == w)) [
              | inl g ↦ let same : j ≡ w = ground arith in rw same le
              | inr g ↦ top j (ground arith) (omega arith) jw
            ],
          )
      | inr h ↦
          let (i, e, i_lt, i_waits, le, top) =
            best_waiter-kept k m rounds (w + 1) b (omega arith) waits in
          (
            i,
            rw h e,
            omega arith,
            i_waits,
            le,
            λ j jl jr jw. elim (Bool-cases (j == w)) [
              | inl g ↦
                  let same : j ≡ w = ground arith in
                  let low : (task_at k w).priority ≤ (task_at k b).priority =
                    not_above (task_at k w).priority (task_at k b).priority (is_waiter k m w) h
                      (rw same at jw) in
                  rw same (omega arith)
              | inr g ↦ top j (ground arith) (omega arith) jw
            ],
          )
    ]
  where
    not_above : (a c : ℕ) (b : Bool) → (b && ltb c a) ≡ false → b ≡ true → a ≤ c
    not_above a c b h e = ground arith

NextOwner-later :
    (k : Kernel) (m w rounds : ℕ) {r : Option ℕ}
    → is_waiter k m w ≡ false
    → NextOwner k m (w + 1) rounds r
    → NextOwner k m w (suc rounds) r
NextOwner-later k m w rounds h (nobody all) = nobody (λ j le lt. elim (Bool-cases (j == w)) [
  | inl g ↦ let same : j ≡ w = ground arith in rw same h
  | inr g ↦ all j (ground arith) (omega arith)
])
NextOwner-later k m w rounds h (highest i i_lt waits top) =
    highest i (omega arith) waits (λ j jl jr jw. elim (Bool-cases (j == w)) [
      | inl g ↦ let same : j ≡ w = ground arith in cc (sym h ∙ rw same at jw)
      | inr g ↦ top j (ground arith) (omega arith) jw
    ])

best_waiter-NextOwner :
    (k : Kernel) (m rounds w : ℕ) → NextOwner k m w rounds (best_waiter k m rounds w none)
unfolding best_waiter
best_waiter-NextOwner k m zero w = nobody (λ j le lt. absurd (omega arith))
best_waiter-NextOwner k m (suc rounds) w = elim (Bool-cases (is_waiter k m w)) [
  | inl h ↦
      let (i, e, i_lt, i_waits, le, top) = best_waiter-kept k m rounds (w + 1) w (omega arith) h in
      rw (h, e)
        (highest i (omega arith) i_waits (λ j jl jr jw. elim (Bool-cases (j == w)) [
          | inl g ↦ let same : j ≡ w = ground arith in rw same le
          | inr g ↦ top j (ground arith) (omega arith) jw
        ]))
  | inr h ↦ rw h (NextOwner-later k m w rounds h (best_waiter-NextOwner k m rounds (w + 1)))
]

locks-wake_next : (next : Option ℕ) (k : Kernel) → (wake_next next k).locks ≡ k.locks
unfolding wake_next
locks-wake_next none k = refl
locks-wake_next (some i) k = locks-sched_wake i k

locks-drop_priority : (owner : Option ℕ) (k : Kernel) → (drop_priority owner k).locks ≡ k.locks
unfolding drop_priority mutex_update_priority
locks-drop_priority none k = refl
locks-drop_priority (some i) k = elim (Bool-cases (task_at k i).killed) [
  | inl h ↦ rw h
  | inr h ↦ rw h
]

owner-mutex_hand_over :
    (k : Kernel) (m : ℕ)
    → m < length k.locks
    → (mutex_at (mutex_hand_over m k) m).owner ≡ best_waiter k m max_tasks 0 none
unfolding mutex_hand_over
owner-mutex_hand_over k m lt =
    let next = best_waiter k m max_tasks 0 none in
    let given : Kernel = put_mutex k m (record (mutex_at k m) { owner = next }) in
    ap (λ (l : List Mutex). (get_or l m blank_mutex).owner)
      (locks-drop_priority (mutex_at k m).owner (wake_next next given) ∙ locks-wake_next next given)
    ∙ ap (λ (x : Mutex). x.owner)
        (get_or-set_self k.locks m (record (mutex_at k m) { owner = next }) blank_mutex lt)

is_owner→eq : (o : Option ℕ) (i : ℕ) → is_owner o i ≡ true → o ≡ some i
is_owner→eq none i h = cc
is_owner→eq (some j) i h = ground arith

mutex_get-cases :
    (k : Kernel) (id : ℕ)
    → (mutex_get k id ≡ none) ⊎ ((mutex_get k id ≡ some id) × (id < max_mutexes))
unfolding mutex_get
mutex_get-cases k id =
    elim (Bool-cases
      (leb max_mutexes id || (mutex_at k id).refs == 0 || not ((task_at k k.current).mutexes id))) [
        | inl h ↦ inl (rw h)
        | inr h ↦ inr (rw h, ground arith)
      ]

-- The outcomes of `mutex_unlock`.
pub data Unlock (k : Kernel) (id : ℕ) : Result (Unit {0}) × Kernel → Type 0 where
  handed_over :
      (r : Kernel)
      → mutex_get k id ≡ some id
      → (mutex_at k id).owner ≡ some k.current
      → NextOwner k id 0 max_tasks (mutex_at r id).owner
      → Unlock k id (ok tt, r)
  not_owned :
      (mutex_get k id ≡ none) ⊎ (is_owner (mutex_at k id).owner k.current ≡ false)
      → Unlock k id (err Error.invalid_arg, k)

-- Only the owner unlocks a mutex, with an id that it has open; the mutex then goes to the waiter of the
-- highest priority, or to nobody when no task waits. Any other call is an error and changes nothing.
pub mutex_unlock-Unlock :
    (k : Kernel) (id : ℕ) → length k.locks ≡ max_mutexes → Unlock k id (mutex_unlock id k)
unfolding mutex_unlock
mutex_unlock-Unlock k id len = elim (mutex_get-cases k id) [
  | inl closed ↦ rw (closed, mutex_unlock) (not_owned (inl closed))
  | inr (opened, lt) ↦ elim (Bool-cases (is_owner (mutex_at k id).owner k.current)) [
    | inr other ↦ rw (opened, mutex_unlock) (rw other (not_owned (inr other)))
    | inl mine ↦
        rw (opened, mutex_unlock)
          (rw mine (
            handed_over (mutex_hand_over id k) opened
              (is_owner→eq (mutex_at k id).owner k.current mine)
              (rw (owner-mutex_hand_over k id (omega arith))
                (best_waiter-NextOwner k id max_tasks 0))))
  ]
]

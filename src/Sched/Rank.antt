-- ===== src/Sched/Rank.antt =====
-- `sched_pick_next` of src/kernel/task/sched.c under the real time and the deadline policy: the choice has
-- the highest rank.
use mo_os.Sched.Pick.{NoneEligible, NoneEligible-at, turn, candidate-turn}
use mo_os.Prelude.{
  ℕ, zero, suc, ◌+◌, ◌≤◌, ◌<◌, ◌≡◌, refl, ◌⊎◌, inl, inr, true, false, none, some, arith, ltb,
  ltb→lt, Bool-cases,
}
use mo_os.Kernel.{max_tasks, task_at, is_round_robin, Kernel}
use mo_os.Sched.{sched_runs_before, candidate, eligible, pick_loop, sched_pick_next}

module _ (k : Kernel) (rank : ℕ → ℕ) where
  -- Candidates that may run have rank `m` at most.
  abbrev pub AtMost : ℕ → ℕ → ℕ → Type 0
  AtMost m n zero = Unit {0}
  AtMost m n (suc rounds) =
      (eligible k (candidate k n) ≡ true → rank (candidate k n) ≤ m) × AtMost m (n + 1) rounds

  AtMost-at :
      (m n rounds j : ℕ)
      → AtMost m n rounds
      → j < rounds
      → eligible k (candidate k (n + j)) ≡ true
      → rank (candidate k (n + j)) ≤ m
  AtMost-at m n zero j all lt fits = absurd (omega arith)
  AtMost-at m n (suc rounds) zero all lt fits =
      let here : n + 0 ≡ n = omega arith in rw here (all.0 (rw here at fits))
  AtMost-at m n (suc rounds) (suc j) all lt fits =
      let shift : n + 1 + j ≡ n + suc j = omega arith in
      rw (← shift) (AtMost-at m (n + 1) rounds j all.1 (omega arith) (rw (← shift) at fits))

  -- The policy prefers the higher rank.
  abbrev pub Ranks : Type 0
  Ranks =
      (a b : ℕ)
      → a < max_tasks
      → b < max_tasks
      → sched_runs_before k.policy (task_at k a) (task_at k b) ≡ ltb (rank b) (rank a)

  -- Task `i` may run, and no candidate that may run has a higher rank.
  pub record Best (n rounds i : ℕ) : Type 0 where
    pub fits : eligible k i ≡ true
    pub top : AtMost (rank i) n rounds

  pick_loop-kept :
      (law : Ranks) (preferring : is_round_robin k.policy ≡ false) (rounds n b : ℕ)
      → b < max_tasks
      → eligible k b ≡ true
      → (i : ℕ) × (pick_loop k rounds n (some b) ≡ some i) × (rank b ≤ rank i) × Best n rounds i
  unfolding pick_loop
  pick_loop-kept law preferring zero n b lt fits =
      (b, refl, omega arith, record { fits = fits; top = tt })
  pick_loop-kept law preferring (suc rounds) n b lt fits =
      let c = candidate k n in
      elim (Bool-cases (eligible k c)) [
        | inr out ↦
            let (i, e, le, best) = pick_loop-kept law preferring rounds (n + 1) b lt fits in
            (i, rw out e, le, record { fits = best.fits; top = (λ h. cc, best.top) })
        | inl good ↦ elim (Bool-cases (ltb (rank b) (rank c))) [
          | inl up ↦
              let (i, e, le, best) =
                pick_loop-kept law preferring rounds (n + 1) c (omega arith) good in
              let lower : rank b < rank c = ltb→lt (rank b) (rank c) up in
              (
                i,
                rw (good, preferring, law c b (omega arith) lt, up) e,
                omega arith,
                record { fits = best.fits; top = (λ _. le, best.top) },
              )
          | inr down ↦
              let (i, e, le, best) = pick_loop-kept law preferring rounds (n + 1) b lt fits in
              let upper : rank c ≤ rank b = ground arith in
              (
                i,
                rw (good, preferring, law c b (omega arith) lt, down) e,
                le,
                record { fits = best.fits; top = (λ _. omega arith, best.top) },
              )
        ]
      ]

  -- The loop finds nobody only if no candidate may run.
  pick_loop-Best :
      (law : Ranks) (preferring : is_round_robin k.policy ≡ false) (rounds n : ℕ)
      → ((pick_loop k rounds n none ≡ none) × NoneEligible k n rounds)
        ⊎ ((i : ℕ) × (pick_loop k rounds n none ≡ some i) × Best n rounds i)
  unfolding pick_loop
  pick_loop-Best law preferring zero n = inl (refl, tt)
  pick_loop-Best law preferring (suc rounds) n =
      let c = candidate k n in
      elim (Bool-cases (eligible k c)) [
        | inr out ↦ elim (pick_loop-Best law preferring rounds (n + 1)) [
          | inl (e, all) ↦ inl (rw out e, (out, all))
          | inr (i, e, best) ↦
              inr (i, rw out e, record { fits = best.fits; top = (λ h. cc, best.top) })
        ]
        | inl good ↦
            let (i, e, le, best) =
              pick_loop-kept law preferring rounds (n + 1) c (omega arith) good in
            inr (i, rw (good, preferring) e, record { fits = best.fits; top = (λ _. le, best.top) })
      ]

  -- The choice over the whole table: a task that may run and has the highest rank, or the idle task
  -- when no task may run.
  pub data Choice : ℕ → Type 0 where
    idling : ((j : ℕ) → j < max_tasks → eligible k j ≡ false) → Choice k.idle
    chosen :
        (i : ℕ)
        → eligible k i ≡ true
        → ((j : ℕ) → j < max_tasks → eligible k j ≡ true → rank j ≤ rank i)
        → Choice i

  pub sched_pick_next-Choice :
      Ranks → is_round_robin k.policy ≡ false → k.current < max_tasks → Choice (sched_pick_next k)
  unfolding sched_pick_next
  sched_pick_next-Choice law preferring c = elim (pick_loop-Best law preferring max_tasks 1) [
    | inl (e, all) ↦ rw e (
        idling (λ j lt.
          rw (← candidate-turn k j c lt)
            (NoneEligible-at k 1 max_tasks (turn k.current j) all (omega arith))))
    | inr (i, e, best) ↦ rw e (
        chosen i best.fits (λ j lt fits. rw (← candidate-turn k j c lt) (
          AtMost-at (rank i) 1 max_tasks (turn k.current j) best.top (omega arith)
            (rw (candidate-turn k j c lt) fits))))
  ]

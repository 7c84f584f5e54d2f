-- ===== src/Sched/Pick.antt =====
-- `sched_pick_next` of src/kernel/task/sched.c: which task it chooses.
use mo_os.Prelude.{
  ℕ, zero, suc, ◌+◌, ◌-◌, ◌%◌, ◌≤◌, ◌<◌, ◌≡◌, ap, ◌⊎◌, inl, inr, true, false, Option, none, some,
  arith, ltb, ◌==◌, Bool-cases,
}
use mo_os.Kernel.{max_tasks, is_round_robin, Kernel, round_robin}
use mo_os.Sched.{candidate, eligible, pick_loop, or_idle, sched_pick_next}

-- No candidate of rounds `n` to `n + rounds - 1` may run.
abbrev pub NoneEligible : Kernel → ℕ → ℕ → Type 0
NoneEligible k n zero = Unit {0}
NoneEligible k n (suc rounds) = (eligible k (candidate k n) ≡ false) × NoneEligible k (n + 1) rounds

-- What the loop of the round robin policy returns from round `n` on.
pub data FirstFrom (k : Kernel) (n rounds : ℕ) : Option ℕ → Type 0 where
  nobody : NoneEligible k n rounds → FirstFrom k n rounds none
  first :
      (d : ℕ)
      → d < rounds
      → NoneEligible k n d
      → eligible k (candidate k (n + d)) ≡ true
      → FirstFrom k n rounds (some (candidate k (n + d)))

FirstFrom-later :
    (k : Kernel) (n rounds : ℕ) {r : Option ℕ}
    → eligible k (candidate k n) ≡ false
    → FirstFrom k (n + 1) rounds r
    → FirstFrom k n (suc rounds) r
FirstFrom-later k n rounds out (nobody all) = nobody (out, all)
FirstFrom-later k n rounds out (first d lt all fits) =
    let shift : n + 1 + d ≡ n + suc d = omega arith in
    rw shift (first (suc d) (omega arith) (out, all) (rw (← shift) fits))

pick_loop-FirstFrom :
    (k : Kernel) (rounds n : ℕ)
    → k.policy ≡ round_robin
    → FirstFrom k n rounds (pick_loop k rounds n none)
unfolding pick_loop
pick_loop-FirstFrom k zero n rr = nobody tt
pick_loop-FirstFrom k (suc rounds) n rr = elim (Bool-cases (eligible k (candidate k n))) [
  | inl fits ↦
      let here : n + 0 ≡ n = omega arith in
      rw (fits, ap is_round_robin rr)
        (rw (← ap (candidate k) here) (first 0 (omega arith) tt (rw here fits)))
  | inr out ↦ rw out (FirstFrom-later k n rounds out (pick_loop-FirstFrom k rounds (n + 1) rr))
]

pub NoneEligible-at :
    (k : Kernel) (n rounds j : ℕ)
    → NoneEligible k n rounds
    → j < rounds
    → eligible k (candidate k (n + j)) ≡ false
NoneEligible-at k n zero j all lt = absurd (omega arith)
NoneEligible-at k n (suc rounds) zero all lt = let here : n + 0 ≡ n = omega arith in rw here all.0
NoneEligible-at k n (suc rounds) (suc j) all lt =
    let shift : n + 1 + j ≡ n + suc j = omega arith in
    rw (← shift) (NoneEligible-at k (n + 1) rounds j all.1 (omega arith))

-- The rounds after which the loop, started at task `c`, comes to task `i`.
abbrev pub turn : ℕ → ℕ → ℕ
turn c i = (i + 15 - c) % max_tasks

pub candidate-turn :
    (k : Kernel) (i : ℕ)
    → k.current < max_tasks
    → i < max_tasks
    → candidate k (1 + turn k.current i) ≡ i
candidate-turn k i c lt = omega arith

FirstFrom-turn :
    (k : Kernel) (i : ℕ) {r : Option ℕ}
    → k.current < max_tasks
    → i < max_tasks
    → eligible k i ≡ true
    → FirstFrom k 1 max_tasks r
    → (or_idle k r ≡ i) ⊎ (turn (or_idle k r) i < turn k.current i)
FirstFrom-turn k i c lt fits (nobody all) = cc (
  NoneEligible-at k 1 max_tasks (turn k.current i) all (omega arith),
  ap (eligible k) (candidate-turn k i c lt),
)
FirstFrom-turn k i c lt fits (first d d_lt all d_fits) =
    elim (Bool-cases (ltb (turn k.current i) d)) [
      | inl early ↦ cc (
        NoneEligible-at k 1 d (turn k.current i) all (ground arith),
        ap (eligible k) (candidate-turn k i c lt),
      )
      | inr late ↦ elim (Bool-cases (d == turn k.current i)) [
        | inl same ↦ inl (ground arith)
        | inr later ↦ inr (ground arith)
      ]
    ]

-- Round robin: a task that may run is chosen, or its turn comes nearer.
sched_pick_next-turn :
    (k : Kernel) (i : ℕ)
    → k.policy ≡ round_robin
    → k.current < max_tasks
    → i < max_tasks
    → eligible k i ≡ true
    → (sched_pick_next k ≡ i) ⊎ (turn (sched_pick_next k) i < turn k.current i)
unfolding sched_pick_next
sched_pick_next-turn k i rr c lt fits =
    FirstFrom-turn k i c lt fits (pick_loop-FirstFrom k max_tasks 1 rr)

-- The kernel at one choice after the other: the task that is chosen is the current one at the next
-- choice, the policy is round robin, and task `i` may run.
pub record IsRun (run : ℕ → Kernel) (i : ℕ) : Type 0 where
  pub rotates : (n : ℕ) → (run n).policy ≡ round_robin
  pub current_in : (n : ℕ) → (run n).current < max_tasks
  pub waiting : (n : ℕ) → n < max_tasks → eligible (run n) i ≡ true
  pub next : (n : ℕ) → (run (suc n)).current ≡ sched_pick_next (run n)

chosen_from :
    (run : ℕ → Kernel) (i : ℕ)
    → i < max_tasks
    → IsRun run i
    → (bound n : ℕ) → turn (run n).current i < bound
    → n + bound ≤ max_tasks
    → (m : ℕ) × (m < max_tasks) × (sched_pick_next (run m) ≡ i)
chosen_from run i lt w zero n near room = absurd (omega arith)
chosen_from run i lt w (suc bound) n near room =
    elim (sched_pick_next-turn (run n) i (w.rotates n) (w.current_in n) lt
      (w.waiting n (omega arith))) [
        | inl chosen ↦ (n, omega arith, chosen)
        | inr nearer ↦
            let next = ap (λ (c : ℕ). turn c i) (w.next n) in
            chosen_from run i lt w bound (suc n) (omega arith) (omega arith)
      ]

-- Round robin: when a task may run at each of 16 choices in a row, where the task that is chosen is the
-- current one at the next choice, it is chosen at one of them.
pub sched_pick_next-IsRun :
    (run : ℕ → Kernel) (i : ℕ)
    → i < max_tasks
    → IsRun run i
    → (m : ℕ) × (m < max_tasks) × (sched_pick_next (run m) ≡ i)
sched_pick_next-IsRun run i lt w = chosen_from run i lt w max_tasks 0 (omega arith) (omega arith)

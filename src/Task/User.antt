-- ===== src/Task/User.antt =====
-- The user address space in src/kernel/task/task.c: pointers from user space and the user heap.
use mo_os.Prelude.{
  ℕ, ◌+◌, ◌-◌, ◌^◌, ◌≤◌, ◌<◌, ◌≡◌, ◌↔◌, ◌⊎◌, inl, inr, Bool, true, false, not, ◌&&◌, ◌||◌, Option,
  none, some, arith, ltb, ◌==◌, if◌then◌else◌, Bool-cases, length,
}
use mo_os.Prelude.Word.{u32_mod, add32}
use mo_os.Kernel.{task_at, update_task, Task, Kernel}
use mo_os.Kernel.Table.{task_at-update_task}
use mo_os.Task.{
  user_code_addr, user_stack_top, user_heap_limit, set_brk, task_sbrk, task_user_range_valid,
}

-- A range from user space is accepted exactly when the running task is a user task and the range lies
-- in the user address space; the 32-bit sum of start and length cannot deceive the test.
pub task_user_range_valid_iff :
    (k : Kernel) (start len : ℕ)
    → start < u32_mod
    → len < u32_mod
    → (task_user_range_valid start len k ≡ true) ↔ (
        ((task_at k k.current).is_kernel ≡ false)
        × (user_code_addr ≤ start)
        × (start + len ≤ user_stack_top))
unfolding task_user_range_valid
task_user_range_valid_iff k start len sl ll =
    (λ h. (ground arith, ground arith, ground arith), λ h. ground arith)

-- The break lies between the end of the program and the guard page of the stack.
pub record HasHeap (t : Task) : Type 0 where
  pub above : user_code_addr ≤ t.brk_start
  pub grown : t.brk_start ≤ t.brk
  pub below : t.brk ≤ user_heap_limit

-- The new break is the old one plus a signed 32-bit increment, as integers.
abbrev pub SignedSum : ℕ → ℕ → ℕ → Type 0
SignedSum old increment new =
    ((increment < 2 ^ 31) × (new ≡ old + increment))
    ⊎ ((2 ^ 31 ≤ increment) × (new + (u32_mod - increment) ≡ old))

-- The tests of `task_sbrk` on the new break.
abbrev out_of_heap : Task → ℕ → Bool
out_of_heap t increment =
    let new_brk = add32 t.brk increment in
    not (increment == 0) && ltb increment (2 ^ 31) && ltb new_brk t.brk
    || ltb new_brk t.brk_start
    || ltb user_heap_limit new_brk

in_heap_sum :
    (t : Task) (increment : ℕ)
    → HasHeap t
    → increment < u32_mod
    → out_of_heap t increment ≡ false
    → SignedSum t.brk increment (add32 t.brk increment)
      × (t.brk_start ≤ add32 t.brk increment)
      × (add32 t.brk increment ≤ user_heap_limit)
in_heap_sum t increment w lt h = (ground arith, ground arith, ground arith)

-- The outcomes of `task_sbrk`.
pub data Sbrk (k : Kernel) (increment : ℕ) : Option ℕ × Kernel → Type 0 where
  moved :
      (new : ℕ) (r : Kernel)
      → SignedSum (task_at k k.current).brk increment new
      → (task_at k k.current).brk_start ≤ new
      → new ≤ user_heap_limit
      → ((j : ℕ)
          → task_at r j ≡ (if k.current == j then set_brk new (task_at k j) else task_at k j))
      → Sbrk k increment (some (task_at k k.current).brk, r)
  kept : Sbrk k increment (none, k)

-- `task_sbrk` either fails and changes nothing, or returns the old break and moves the break of the
-- running task by the signed increment to a place between the end of the program and the stack guard.
pub task_sbrk-Sbrk :
    (mapped : ℕ → ℕ → Bool) (k : Kernel) (increment : ℕ)
    → k.current < length k.tasks
    → HasHeap (task_at k k.current)
    → increment < u32_mod
    → Sbrk k increment (task_sbrk mapped increment k)
unfolding task_sbrk
task_sbrk-Sbrk mapped k increment cl w lt =
    let t = task_at k k.current in
    let new = add32 t.brk increment in
    elim (Bool-cases (out_of_heap t increment)) [
      | inl h ↦ rw h kept
      | inr h ↦ elim (Bool-cases (ltb t.brk new && not (mapped t.brk new))) [
        | inl g ↦ rw (h, g) kept
        | inr g ↦
            let (sum, low, high) = in_heap_sum t increment w lt h in
            rw (h, g)
              (moved new (update_task k k.current (set_brk new)) sum low high
                (λ j. task_at-update_task k k.current j (set_brk new) cl))
      ]
    ]

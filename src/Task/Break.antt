-- ===== src/Task/Break.antt =====
-- The end of the heap of the running task in src/kernel/task/task.c, as the allocator of
-- src/user/lib/moos.c uses it.
use mathlib.Core.Path.{subst}
use mo_os.Prelude.{
  ℕ, ◌+◌, ◌^◌, ◌≤◌, ◌<◌, ◌≡◌, refl, sym, ap, ◌∙◌, inl, inr, Bool, true, not, ◌&&◌, ◌||◌, some,
  arith, ltb, ◌==◌, Bool-cases, length,
}
use mo_os.Prelude.Word.{u32_mod, add32}
use mo_os.Kernel.{task_at, update_task, Task, Kernel}
use mo_os.Kernel.Table.{task_at-update_task, length-update_task}
use mo_os.Task.{user_heap_limit, set_brk, task_sbrk}
use mo_os.Task.User.{HasHeap}
use mo_os.User.Malloc.Grow.{Moves, Break, stays, moves}

abbrev pub break_of : Kernel → ℕ
break_of k = (task_at k k.current).brk

abbrev pub CanGrow : Kernel → Type 0
CanGrow k = (k.current < length k.tasks) × HasHeap (task_at k k.current)

moved_break :
    (k : Kernel) (n : ℕ)
    → CanGrow k
    → break_of k + n ≤ user_heap_limit
    → Moves break_of CanGrow n k
        (some (break_of k), update_task k k.current (set_brk (add32 (break_of k) n)))
moved_break k n (inside, heap) room =
    let sum : add32 (break_of k) n ≡ break_of k + n = omega arith in
    let above = heap.above in
    let grown = heap.grown in
    let after = task_at-update_task k k.current k.current (set_brk (add32 (break_of k) n)) inside in
    let here : (k.current == k.current) ≡ true = ground arith in
    let task : task_at (update_task k k.current (set_brk (add32 (break_of k) n))) k.current
        ≡ set_brk (add32 (break_of k) n) (task_at k k.current) =
      after ∙ rw here refl in
    let grown_brk : break_of (update_task k k.current (set_brk (add32 (break_of k) n)))
        ≡ break_of k + n =
      ap (λ (t : Task). t.brk) task ∙ unfold set_brk in sum in
    moves (update_task k k.current (set_brk (add32 (break_of k) n)))
      (
        omega (arith, length-update_task k k.current (set_brk (add32 (break_of k) n))),
        subst HasHeap (sym task) (
            unfold set_brk in
            record { above = heap.above; grown = omega arith; below = omega arith }),
      )
      grown_brk (subst (λ (x : ℕ). x < u32_mod) (sym grown_brk) (omega arith))

-- `task_sbrk` moves the end of the heap by a positive amount, or leaves everything.
pub kernel_break_grows :
    (mapped : ℕ → ℕ → Bool) (k : Kernel) (n : ℕ)
    → CanGrow k
    → 0 < n
    → n < 2 ^ 31
    → Moves break_of CanGrow n k (task_sbrk mapped n k)
unfolding task_sbrk
kernel_break_grows mapped k n (inside, heap) some_n small =
    let t = task_at k k.current in
    let above = heap.above in
    let grown = heap.grown in
    let below = heap.below in
    let sum : add32 t.brk n ≡ t.brk + n = omega arith in
    elim (Bool-cases (
      not (n == 0) && ltb n (2 ^ 31) && ltb (add32 t.brk n) t.brk
      || ltb (add32 t.brk n) t.brk_start
      || ltb user_heap_limit (add32 t.brk n))) [
        | inl h ↦ rw h stays
        | inr h ↦
            elim (Bool-cases (ltb t.brk (add32 t.brk n) && not (mapped t.brk (add32 t.brk n)))) [
              | inl g ↦ rw (h, g) stays
              | inr g ↦ rw (h, g) (moved_break k n (inside, heap) (ground arith))
            ]
      ]

abbrev pub kernel_break : (ℕ → ℕ → Bool) → Break Kernel
kernel_break mapped = record {
  brk = break_of;
  sbrk = task_sbrk mapped;
  Valid = CanGrow;
  grows = kernel_break_grows mapped;
}

-- ===== src/Loader/HeapStart.antt =====
-- The heap of a program that elf_load has loaded, in task_load of src/kernel/task/task.c.
use mathlib.Core.Path.{subst}
use mo_os.Prelude.{ℕ, ◌≤◌, ◌<◌, ◌≡◌, some, List, arith, length}
use mo_os.Prelude.Status.{ok}
use mo_os.Prelude.Word.{u32_mod}
use mo_os.Kernel.{Task}
use mo_os.Task.{user_code_addr, user_heap_limit}
use mo_os.Task.User.{HasHeap}
use mo_os.Loader.{Copy, elf_load, set_image}
use mo_os.Loader.Safe.{AllBytes, Loaded, elf_load-Fine}

set_image-HasHeap :
    (t : Task) (end : ℕ) → user_code_addr ≤ end → end ≤ user_heap_limit → HasHeap (set_image end t)
set_image-HasHeap t end low high = record {
  above = ground arith;
  grown = omega arith;
  below = ground arith;
}

-- For a file of bytes below 4 GB that `elf_load` accepts, the user heap of the task begins at the end of
-- the image or above it, lies in the user address space below the guard page of the stack, and the entry
-- lies below the end of the image.
pub elf_load-HasHeap {ℓ} :
    {S : Type ℓ} (copy : Copy S) (buf : List ℕ) (s : S) (t : Task) (entry end : ℕ)
    → AllBytes buf
    → length buf < u32_mod
    → (elf_load copy buf user_code_addr user_heap_limit s).0 ≡ some (ok (entry, end))
    → HasHeap (set_image end t) × (end ≤ (set_image end t).brk_start) × (entry < end)
elf_load-HasHeap copy buf s t entry end all bound e =
    let (p, loaded) =
      elf_load-Fine copy (λ s. Unit {0}) buf user_code_addr user_heap_limit all bound (omega arith)
        (λ v src len w s a b i p. tt) s tt (omega arith) in
    let (low, inside, high) : Loaded user_code_addr user_heap_limit (some (ok (entry, end))) =
      subst (Loaded user_code_addr user_heap_limit) e loaded in
    (set_image-HasHeap t end (omega arith) high, ground arith, inside)

-- ===== src/KernelHeap/Tests.antt =====
-- A kernel heap of four blocks, of which one is taken.
use mo_os.Prelude.{refl, [], ◌∷◌, arith}
use mo_os.Heap.Segments.{gap, run}
use mo_os.Heap.Malloc.{IsHeap}
use mo_os.KernelHeap.{kcalloc, KernelHeap}
use mo_os.KernelHeap.Zeroed.{kcalloc-Callocated, Callocated}

abbrev used_heap : KernelHeap
used_heap = record {
  heap = record { addr = 0x10000; entries = 0x41 ∷ 0 ∷ 0 ∷ 0 ∷ [] };
  memory = λ a. 7;
}

used_heap-IsHeap : IsHeap used_heap.heap (run 0 ∷ gap ∷ gap ∷ gap ∷ [])
used_heap-IsHeap = record { table = refl; aligned = refl; fits = omega arith }

kcalloc-Callocated_example :
    Callocated used_heap (run 0 ∷ gap ∷ gap ∷ gap ∷ []) 5000 (kcalloc 5000 used_heap)
kcalloc-Callocated_example =
    kcalloc-Callocated used_heap (run 0 ∷ gap ∷ gap ∷ gap ∷ []) 5000 used_heap-IsHeap (omega arith)

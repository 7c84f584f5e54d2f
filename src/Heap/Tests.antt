-- ===== src/Heap/Tests.antt =====
-- A heap of four blocks: runs of the code on it, and the theorems at it.
use mo_os.Prelude.{◌≡◌, refl, none, some, List, [], ◌∷◌, arith, replicate}
use mo_os.Prelude.Status.{Error, err}
use mo_os.Heap.{heap_malloc, heap_free, HeapDesc}
use mo_os.Heap.Segments.{Segment, gap, run}
use mo_os.Heap.Malloc.{heap_malloc-Malloc, IsHeap, Malloc}
use mo_os.Heap.Free.{heap_free-Free, Free}

abbrev empty_heap : HeapDesc
empty_heap = record { addr = 0x10000; entries = 0 ∷ 0 ∷ 0 ∷ 0 ∷ [] }

abbrev busy_heap : HeapDesc
busy_heap = record { addr = 0x10000; entries = 0x41 ∷ 0xc1 ∷ 0x01 ∷ 0 ∷ [] }

abbrev busy_row : List Segment
busy_row = run 0 ∷ run 1 ∷ gap ∷ []

busy_heap-IsHeap : IsHeap busy_heap busy_row
busy_heap-IsHeap = record { table = refl; aligned = refl; fits = omega arith }

empty_heap-IsHeap : IsHeap empty_heap (replicate 4 gap)
empty_heap-IsHeap = record { table = refl; aligned = refl; fits = omega arith }

malloc_two :
    heap_malloc empty_heap 5000
    ≡ (some 0x10000, record empty_heap { entries = 0xc1 ∷ 0x01 ∷ 0 ∷ 0 ∷ [] })
unfolding heap_malloc
malloc_two = refl

malloc_full : heap_malloc busy_heap 5000 ≡ (none, busy_heap)
unfolding heap_malloc
malloc_full = refl

free_middle : heap_free busy_heap 0x12000 ≡ (err Error.invalid_arg, busy_heap)
unfolding heap_free
free_middle = refl

heap_malloc-Malloc_example : Malloc busy_heap busy_row 5000 (heap_malloc busy_heap 5000)
heap_malloc-Malloc_example =
    heap_malloc-Malloc busy_heap busy_row 5000 busy_heap-IsHeap (omega arith)

heap_free-Free_example : Free busy_heap busy_row 0x11000 (heap_free busy_heap 0x11000)
heap_free-Free_example = heap_free-Free busy_heap busy_row 0x11000 busy_heap-IsHeap (omega arith)

-- ===== src/KernelHeap/Zeroed.antt =====
-- What `kcalloc` of src/kernel/kmem/kheap.c returns.
use mo_os.Prelude.Word.{u32_mod}
use mo_os.Prelude.{ℕ, suc, ◌+◌, ◌*◌, ◌≤◌, ◌<◌, ◌≡◌, ◌⊎◌, inl, inr, Option, none, some, List, arith}
use mo_os.Heap.{block_size, heap_malloc, HeapDesc}
use mo_os.Heap.Segments.{Segment}
use mo_os.Heap.Malloc.{heap_malloc-Malloc, IsHeap, Takes, Malloc, refused, full, fit}
use mo_os.Libc.{memset}
use mo_os.Libc.Memory.{memset_lem}
use mo_os.KernelHeap.{kmalloc, zeroed, kcalloc, KernelHeap}

-- Nothing, as the heap has it, or a new block of whole blocks that begins with `size` zeros; the bytes
-- outside of that block are as before.
pub data Callocated (s : KernelHeap) (ss : List Segment) (size : ℕ)
    : Option ℕ × KernelHeap → Type 0 where
  failed :
      (h : HeapDesc)
      → Malloc s.heap ss size (none, h)
      → Callocated s ss size (none, record s { heap = h })
  cleared :
      (k p : ℕ) (t : KernelHeap)
      → Takes s.heap ss k p t.heap
      → ((j : ℕ) → j < size → t.memory (p + j) ≡ 0)
      → ((a : ℕ) → (a < p) ⊎ (p + block_size * suc k ≤ a) → t.memory a ≡ s.memory a)
      → Callocated s ss size (some p, t)

zeroed-Callocated :
    (s : KernelHeap) (ss : List Segment) (size : ℕ) (r : Option ℕ × HeapDesc)
    → Malloc s.heap ss size r
    → Callocated s ss size (zeroed size (r.0, record s { heap = r.1 }))
zeroed-Callocated s ss size _ (refused why) = failed s.heap (refused why)
zeroed-Callocated s ss size _ (full k above below missing) =
    failed s.heap (full k above below missing)
zeroed-Callocated s ss size _ (fit k p h above below taken) =
    let (inside, outside) = memset_lem p 0x00 size s.memory in
    cleared k p (record s { heap = h; memory = memset p 0x00 size s.memory }) taken inside
      (λ a far. outside a (elim far [ inl before ↦ inl before | inr behind ↦ inr (omega arith) ]))

-- On a well-formed heap and for a size of 32 bits `kcalloc` returns a null pointer exactly as the allocator does, with the memory
-- as before; or a block that the allocator took, whose first `size` bytes are 0, and no byte outside of
-- that block changes.
pub kcalloc-Callocated :
    (s : KernelHeap) (ss : List Segment) (size : ℕ)
    → IsHeap s.heap ss
    → size < u32_mod
    → Callocated s ss size (kcalloc size s)
unfolding kcalloc kmalloc
kcalloc-Callocated s ss size w bound =
    zeroed-Callocated s ss size (heap_malloc s.heap size)
      (heap_malloc-Malloc s.heap ss size w bound)

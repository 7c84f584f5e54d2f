-- ===== src/KernelHeap.antt =====
-- src/kernel/kmem/kheap.c: the kernel heap with the bytes in its blocks. A null pointer is `none`; the
-- message of kfree about a pointer that is not valid is left out.
pub mod Zeroed
mod Tests
use mo_os.Prelude.Status.{Result}
use mo_os.Prelude.{ℕ, ◌+◌, ◌/◌, Option, none, some, replicate}
use mo_os.Heap.{block_size, heap_desc_init, heap_malloc, heap_free, heap_stats, HeapDesc, HeapStats}
use mo_os.Libc.{Bytes, memset}

pub record KernelHeap : Type 0 where
  pub heap : HeapDesc
  pub memory : Bytes

abbrev pub heap_size_byte : ℕ
heap_size_byte = 104857600

abbrev pub heap_address : ℕ
heap_address = 0x01000000

-- What the storage of the table held before is not read.
pub kernel_heap_init : Result HeapDesc
kernel_heap_init =
    heap_desc_init heap_address (heap_address + heap_size_byte)
      (replicate (heap_size_byte / block_size) 0)

pub kmalloc : ℕ → KernelHeap → Option ℕ × KernelHeap
kmalloc size s = let (ptr, heap) = heap_malloc s.heap size in (ptr, record s { heap = heap })

abbrev pub zeroed : ℕ → Option ℕ × KernelHeap → Option ℕ × KernelHeap
zeroed size (none, s) = (none, s)
zeroed size (some ptr, s) = (some ptr, record s { memory = memset ptr 0x00 size s.memory })

pub kcalloc : ℕ → KernelHeap → Option ℕ × KernelHeap
kcalloc size s = zeroed size (kmalloc size s)

pub kfree : Option ℕ → KernelHeap → KernelHeap
kfree none s = s
kfree (some addr) s = record s { heap = (heap_free s.heap addr).1 }

pub kheap_stats : KernelHeap → HeapStats
kheap_stats s = heap_stats s.heap

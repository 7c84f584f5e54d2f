-- ===== src/User/Malloc/Tests.antt =====
-- A program that has allocated two payloads of 24 and 8 bytes and released the first.
use mo_os.Prelude.{ℕ, ◌+◌, ◌≡◌, refl, Bool, true, false, none, some, [], ◌∷◌, arith, replicate}
use mo_os.Kernel.{blank, Kernel, round_robin}
use mo_os.Task.Break.{CanGrow, kernel_break}
use mo_os.User.Malloc.{fit_loop, malloc, free, Heap}
use mo_os.User.Malloc.Blocks.{taken, IsHeap}
use mo_os.User.Malloc.Grow.{malloc-Malloc, Malloc}
use mo_os.User.Malloc.Release.{Merged, free-Merged}

abbrev heap_start : ℕ
heap_start = 0x40010000

abbrev two_blocks : Heap
two_blocks = record {
  blocks =
      record { addr = heap_start; size = 24; free = true }
      ∷ record { addr = heap_start + 40; size = 8; free = false }
      ∷ [];
  tail = some (heap_start + 40);
}

abbrev program : Kernel
program = record {
  tasks =
      blank
      ∷ record blank { is_kernel = false; brk_start = heap_start; brk = heap_start + 64 }
      ∷ replicate 14 blank;
  current = 1;
  idle = 0;
  init_thread = 0;
  next_pid = 2;
  policy = round_robin;
  need_resched = false;
  ticks = 0;
  locks = [];
}

abbrev all_mapped : ℕ → ℕ → Bool
all_mapped start end = true

two_blocks-IsHeap : IsHeap heap_start (heap_start + 64) two_blocks
two_blocks-IsHeap = record {
  tiled = (refl, refl, (refl, refl, refl));
  last = refl;
  aligned = refl;
  in_memory = omega arith;
}

program-CanGrow : CanGrow program
program-CanGrow =
    (omega arith, record { above = omega arith; grown = omega arith; below = omega arith })

malloc-Malloc_example :
    Malloc
      (kernel_break all_mapped)
      heap_start
      100
      two_blocks
      program
      (malloc (kernel_break all_mapped).sbrk 100 two_blocks program)
malloc-Malloc_example =
    malloc-Malloc (kernel_break all_mapped) heap_start 100 two_blocks program program-CanGrow
      two_blocks-IsHeap (omega arith)

free-Merged_example :
    (taken (free (some (heap_start + 56)) two_blocks).blocks ≡ [])
    × Merged (free (some (heap_start + 56)) two_blocks).blocks
    × IsHeap heap_start (heap_start + 64) (free (some (heap_start + 56)) two_blocks)
free-Merged_example =
    free-Merged heap_start (heap_start + 64) (heap_start + 56) 8 two_blocks [] [] two_blocks-IsHeap
      refl

-- The 8 bytes that are left of the first block are too few for a header.
run_first_fit :
    fit_loop 16 two_blocks.blocks two_blocks.tail
    ≡ some (
      heap_start + 16,
      record two_blocks {
        blocks =
            record { addr = heap_start; size = 24; free = false }
            ∷ record { addr = heap_start + 40; size = 8; free = false }
            ∷ [];
      },
    )
unfolding fit_loop
run_first_fit = refl

-- A size that is rounded past 2^32 is rounded to 0, and any free block is enough for it.
run_wrapped : malloc {S = ℕ} (λ n s. (none, s)) 0xffffffff two_blocks 0 ≡ (
  some (heap_start + 16),
  record {
    blocks =
        record { addr = heap_start; size = 0; free = false }
        ∷ record { addr = heap_start + 16; size = 8; free = true }
        ∷ record { addr = heap_start + 40; size = 8; free = false }
        ∷ [];
    tail = some (heap_start + 40);
  },
  0,
)
unfolding malloc fit_loop
run_wrapped = refl

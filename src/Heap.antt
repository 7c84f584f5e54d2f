-- ===== src/Heap.antt =====
-- src/kernel/memory/heap/heap.c: block allocation over a table with one byte for each 4 KB block.
-- The array `entries` with its `total_entries` is one list. A pointer is its address.
pub mod Segments
pub mod Find
pub mod Mark
pub mod Malloc
pub mod Free
pub mod RoundTrip
mod Tests
use mo_os.Prelude.{
  ℕ, zero, suc, ◌+◌, ◌-◌, ◌/◌, ◌%◌, bit_and, bit_or, Bool, not, ◌||◌, Option, none, some, List, [],
  ◌∷◌, ltb, leb, ◌==◌, if◌then◌else◌, length, get_or, set, replicate,
}
use mo_os.Prelude.Word.{add32, sub32, mul32}
use mo_os.Prelude.Status.{Error, Result, invalid_arg, ok, err}

abbrev pub block_size : ℕ
block_size = 4096

-- `HEAP_BLOCK_TABLE_ENTRY_FREE`, `_TAKEN`, `HEAP_BLOCK_HAS_NEXT` and `HEAP_BLOCK_IS_FIRST`
abbrev pub free_entry : ℕ
free_entry = 0x00

abbrev pub taken_entry : ℕ
taken_entry = 0x01

abbrev pub has_next : ℕ
has_next = 0x80

abbrev pub is_first : ℕ
is_first = 0x40

pub record HeapDesc : Type 0 where
  pub addr : ℕ
  pub entries : List ℕ

pub record HeapStats : Type 0 where
  pub total_blocks : ℕ
  pub used_blocks : ℕ

abbrev pub total_entries : HeapDesc → ℕ
total_entries h = length h.entries

abbrev pub is_free : ℕ → Bool
is_free entry = bit_and entry 0x0f == free_entry

abbrev pub tests_bit : ℕ → ℕ → Bool
tests_bit entry bit = not (bit_and entry bit == 0)

-- `table_entries` stands for the storage behind the table.
pub heap_desc_init : ℕ → ℕ → List ℕ → Result HeapDesc
heap_desc_init start end table_entries =
    if not (start % block_size == 0) || not (end % block_size == 0)
    then err Error.invalid_arg
    else if not (length table_entries == sub32 end start / block_size)
    then err Error.invalid_arg
    else ok (record { addr = start; entries = replicate (length table_entries) free_entry })

-- The loop of `find_free_block` at index `i`: `start_block` is `none` for -1.
abbrev pub start_or : Option ℕ → ℕ → ℕ
start_or none i = i
start_or (some s) i = s

pub find_loop : ℕ → List ℕ → ℕ → ℕ → Option ℕ → Option ℕ
find_loop total [] i current start_block = none
find_loop total (e ∷ es) i current start_block =
    let begun = start_or start_block i in
    let further = find_loop total es (i + 1) (current + 1) (some begun) in
    let restart = find_loop total es (i + 1) 0 none in
    if is_free e then if current + 1 == total then some begun else further else restart

-- `none` is -NO_MEMORY_ERROR.
pub find_free_block : HeapDesc → ℕ → Option ℕ
unfolding find_loop
find_free_block desc total_blocks = find_loop total_blocks desc.entries 0 0 none

-- The loop of `mark_taken_blocks`, with the rounds that are left.
pub mark_loop : ℕ → ℕ → ℕ → ℕ → List ℕ → List ℕ
mark_loop zero i end_block entry entries = entries
mark_loop (suc rounds) i end_block entry entries =
    let next_entry =
      if not (i == sub32 end_block 1) then bit_or taken_entry has_next else taken_entry in
    mark_loop rounds (i + 1) end_block next_entry (set entries i entry)

pub mark_taken_blocks : HeapDesc → ℕ → ℕ → HeapDesc
unfolding mark_loop
mark_taken_blocks heap start_block total_blocks =
    let end_block = sub32 (add32 start_block total_blocks) 1 in
    let first = bit_or taken_entry is_first in
    let entry = if ltb 1 total_blocks then bit_or first has_next else first in
    record heap {
      entries = mark_loop (end_block + 1 - start_block) start_block end_block entry heap.entries;
    }

-- A null pointer is `none`.
pub heap_malloc_blocks : HeapDesc → ℕ → Option ℕ × HeapDesc
unfolding find_free_block mark_taken_blocks
heap_malloc_blocks heap total_blocks = elim (find_free_block heap total_blocks) [
  | none ↦ (none, heap)
  | some start_block ↦ (
    some (add32 heap.addr (mul32 block_size start_block)),
    mark_taken_blocks heap start_block total_blocks,
  )
]

-- `size` rounded up to whole blocks, in 32 bits.
pub round_up : ℕ → ℕ
round_up size =
    if ltb 0 (size % block_size) then add32 (size - size % block_size) block_size else size

pub heap_malloc : HeapDesc → ℕ → Option ℕ × HeapDesc
unfolding round_up heap_malloc_blocks
heap_malloc heap size =
    let total_blocks = round_up size / block_size in
    if total_blocks == 0 then (none, heap) else heap_malloc_blocks heap total_blocks

-- The loop of `heap_free_blocks`, with the rounds that are left.
pub free_loop : ℕ → ℕ → List ℕ → List ℕ
free_loop zero i entries = entries
free_loop (suc rounds) i entries =
    let cleared = set entries i free_entry in
    let rest = free_loop rounds (i + 1) cleared in
    if tests_bit (get_or entries i 0) has_next then rest else cleared

pub heap_free_blocks : HeapDesc → ℕ → HeapDesc
unfolding free_loop
heap_free_blocks desc p =
    let block_number = sub32 p desc.addr / block_size in
    record desc {
      entries = free_loop (total_entries desc - block_number) block_number desc.entries;
    }

pub heap_free : HeapDesc → ℕ → Result (Unit {0}) × HeapDesc
unfolding heap_free_blocks
heap_free heap p =
    if ltb p heap.addr
      || leb (add32 heap.addr (mul32 (total_entries heap) block_size)) p
      || not (sub32 p heap.addr % block_size == 0)
    then (err Error.invalid_arg, heap)
    else if not (tests_bit (get_or heap.entries (sub32 p heap.addr / block_size) 0) is_first)
    then (err Error.invalid_arg, heap)
    else (ok tt, heap_free_blocks heap p)

pub count_used : List ℕ → ℕ
count_used [] = 0
count_used (e ∷ es) =
    let used = count_used es in if bit_and e 0x0f == taken_entry then used + 1 else used

pub heap_stats : HeapDesc → HeapStats
unfolding count_used
heap_stats heap = record {
  total_blocks = total_entries heap;
  used_blocks = count_used heap.entries;
}

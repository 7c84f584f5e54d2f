-- ===== src/User/Malloc.antt =====
-- The allocator of src/user/lib/moos.c: first fit over blocks in the order of their addresses. The list of
-- blocks is the chain from heap_head on; `tail` is heap_tail, by its address. A null pointer is `none`.
pub mod Blocks
pub mod Take
pub mod Mark
pub mod Release
pub mod Grow
mod Tests
use mo_os.Prelude.{
  ℕ, ◌+◌, ◌-◌, ◌*◌, ◌/◌, Bool, true, false, not, ◌&&◌, ◌||◌, Option, none, some, List, [], ◌∷◌, ltb,
  leb, ◌==◌, if◌then◌else◌,
}
use mo_os.Prelude.Word.{add32, sub32}

-- `struct block` with its own address.
pub record Block : Type 0 where
  pub addr : ℕ
  pub size : ℕ
  pub free : Bool

pub record Heap : Type 0 where
  pub blocks : List Block
  pub tail : Option ℕ

abbrev pub header_size : ℕ
header_size = 16

abbrev pub min_split : ℕ
min_split = header_size + 8

abbrev pub block_payload : Block → ℕ
block_payload b = b.addr + header_size

abbrev pub round_size : ℕ → ℕ
round_size size = add32 size 7 / 8 * 8

abbrev pub is_at : Option ℕ → ℕ → Bool
is_at none a = false
is_at (some t) a = t == a

-- The tail of a block of which only the first `size` bytes are taken.
abbrev pub rest_of : ℕ → Block → Block
rest_of size b = record {
  addr = block_payload b + size;
  size = sub32 (sub32 b.size size) header_size;
  free = true;
}

abbrev pub behind : Block → Option (ℕ × Heap) → Option (ℕ × Heap)
behind b none = none
behind b (some (p, h)) = some (p, record h { blocks = b ∷ h.blocks })

abbrev pub split_block : ℕ → Block → List Block → Option ℕ → ℕ × Heap
split_block size b bs tail = (
  block_payload b,
  record {
    blocks = record b { size = size; free = false } ∷ rest_of size b ∷ bs;
    tail = (if is_at tail b.addr then some (rest_of size b).addr else tail);
  },
)

-- The loop of `malloc` over the blocks.
pub fit_loop : ℕ → List Block → Option ℕ → Option (ℕ × Heap)
fit_loop size [] tail = none
fit_loop size (b ∷ bs) tail =
    let later = fit_loop size bs tail in
    if not b.free || ltb b.size size
    then behind b later
    else if leb (add32 size min_split) b.size
    then some (split_block size b bs tail)
    else some (block_payload b, record { blocks = record b { free = false } ∷ bs; tail = tail })

-- `heap_tail->next = block`: what was behind the tail is no longer in the chain.
pub link_after : ℕ → Block → List Block → List Block
link_after tail block [] = []
link_after tail block (b ∷ bs) =
    let later = link_after tail block bs in if tail == b.addr then b ∷ block ∷ [] else b ∷ later

abbrev pub link_block : Option ℕ → Block → List Block → List Block
link_block none block bs = block ∷ []
link_block (some tail) block bs = link_after tail block bs

abbrev pub append_block : Block → Heap → Heap
append_block block h = record { blocks = link_block h.tail block h.blocks; tail = some block.addr }

abbrev pub new_block : ℕ → ℕ → Block
new_block addr size = record { addr = addr; size = size; free = false }

-- `sbrk` is the system call, which also changes the state of the kernel.
module _ {ℓ} {S : Type ℓ} (sbrk : ℕ → S → Option ℕ × S) where
  abbrev pub with_block : ℕ → Heap → Option ℕ × S → Option ℕ × Heap × S
  with_block size h (none, s) = (none, h, s)
  with_block size h (some addr, s) =
      (some (block_payload (new_block addr size)), append_block (new_block addr size) h, s)

  pub malloc : ℕ → Heap → S → Option ℕ × Heap × S
  malloc size h s =
      let rounded = round_size size in
      if size == 0 then (none, h, s) else elim (fit_loop rounded h.blocks h.tail) [
        | some (p, h') ↦ (some p, h', s)
        | none ↦ with_block rounded h (sbrk (add32 header_size rounded) s)
      ]

-- `payload_block (ptr)->free = 1`.
pub set_free : ℕ → List Block → List Block
set_free addr [] = []
set_free addr (b ∷ bs) = (if b.addr == addr then record b { free = true } else b) ∷ set_free addr bs

-- The loops of `free` from block `b` on.
pub merge_loop : Block → List Block → Option ℕ → Heap
merge_loop b [] tail = record { blocks = b ∷ []; tail = tail }
merge_loop b (next ∷ bs) tail = elim (b.free && next.free) [
  | true ↦
      merge_loop (record b { size = add32 b.size (add32 header_size next.size) }) bs
        (if is_at tail next.addr then some b.addr else tail)
  | false ↦ let h = merge_loop next bs tail in record h { blocks = b ∷ h.blocks }
]

abbrev pub merge_blocks : List Block → Option ℕ → Heap
merge_blocks [] tail = record { blocks = []; tail = tail }
merge_blocks (b ∷ bs) tail = merge_loop b bs tail

pub free : Option ℕ → Heap → Heap
free none h = h
free (some ptr) h = merge_blocks (set_free (ptr - header_size) h.blocks) h.tail

-- ===== src/Heap/Malloc.antt =====
-- `heap_malloc` of src/kernel/memory/heap/heap.c against rows of segments.
use mo_os.Prelude.{
  ℕ, suc, ◌+◌, ◌-◌, ◌*◌, ◌/◌, ◌%◌, ◌≤◌, ◌<◌, ◌≡◌, sym, ap, ◌∙◌, ◌⊎◌, inl, inr, ◌||◌, Option, none,
  some, List, ◌∷◌, ◌++◌, arith, ltb, ◌==◌, Bool-cases, Option-cases, suc==zero, length, replicate,
  length-replicate,
}
use mo_os.Prelude.Word.{u32_mod, add32, mul32}
use mo_os.Heap.{
  block_size, find_loop, find_free_block, mark_taken_blocks, heap_malloc_blocks, round_up,
  heap_malloc, HeapDesc,
}
use mo_os.Heap.Segments.{
  run_entries, encode, blocks, length-encode, encode-append, blocks-append, blocks-replicate,
  encode-replicate, Segment, gap, run,
}
use mo_os.Heap.Find.{AllFree, Fit, find_loop_sound, find_loop_complete}
use mo_os.Heap.Mark.{mark_taken_blocks-run}

-- The table of `h` is the row `ss`, and the blocks lie in the 32-bit address space.
pub record IsHeap (h : HeapDesc) (ss : List Segment) : Type 0 where
  pub table : h.entries ≡ encode ss
  pub aligned : h.addr % block_size ≡ 0
  pub fits : h.addr + block_size * blocks ss < u32_mod

pub encode-fit :
    (k : ℕ) (pre post : List Segment)
    → encode (pre ++ (replicate k gap ++ post)) ≡ encode pre ++ (replicate k 0x00 ++ encode post)
encode-fit k pre post =
    encode-append pre (replicate k gap ++ post)
    ∙ ap (λ l. encode pre ++ l) (encode-append (replicate k gap) post)
    ∙ ap (λ l. encode pre ++ (l ++ encode post)) (encode-replicate k)

pub blocks-fit :
    (k : ℕ) (pre post : List Segment)
    → blocks (pre ++ (replicate k gap ++ post)) ≡ blocks pre + k + blocks post
blocks-fit k pre post = omega (
  arith,
  blocks-append pre (replicate k gap ++ post),
  blocks-append (replicate k gap) post,
  blocks-replicate k,
)

-- What a request for `k + 1` blocks takes.
pub record Takes (h : HeapDesc) (ss : List Segment) (k p : ℕ) (h' : HeapDesc) : Type 0 where
  pub pre : List Segment
  pub post : List Segment
  pub was_free : ss ≡ pre ++ (replicate (suc k) gap ++ post)
  pub now : IsHeap h' (pre ++ (run k ∷ post))
  pub same_addr : h'.addr ≡ h.addr
  pub at : p ≡ h.addr + block_size * blocks pre

mark-Takes :
    (h : HeapDesc) (ss : List Segment) (k s : ℕ)
    → IsHeap h ss
    → Fit (suc k) ss 0 s
    → Takes h ss k (add32 h.addr (mul32 block_size s)) (mark_taken_blocks h s (suc k))
mark-Takes h ss k s w (pre, post, split, at) =
    let split_table : h.entries ≡ encode pre ++ (replicate (suc k) 0x00 ++ encode post) =
      w.table ∙ ap encode split ∙ encode-fit (suc k) pre post in
    let total : blocks ss ≡ blocks pre + suc k + blocks post =
      ap blocks split ∙ blocks-fit (suc k) pre post in
    let start : s ≡ length (encode pre) = omega (arith, length-encode pre) in
    let marked : mark_taken_blocks h s (suc k)
        ≡ record h { entries = encode pre ++ (run_entries k ++ encode post) } =
      ap (λ (i : ℕ). mark_taken_blocks h i (suc k)) start
      ∙ mark_taken_blocks-run h k (encode pre) (replicate (suc k) 0x00) (encode post) split_table
          (length-replicate (suc k) 0x00) (omega (arith, length-encode pre)) in
    record {
      pre = pre;
      post = post;
      was_free = split;
      now = record {
        table = ap (λ (d : HeapDesc). d.entries) marked ∙ sym (encode-append pre (run k ∷ post));
        aligned = ap (λ (d : HeapDesc). d.addr % block_size) marked ∙ w.aligned;
        fits =
            rw (ap (λ (d : HeapDesc). d.addr) marked)
              (omega (arith, blocks-append pre (run k ∷ post)));
      };
      same_addr = ap (λ (d : HeapDesc). d.addr) marked;
      at = omega arith;
    }

-- No `k + 1` free blocks of the table stand in a row.
abbrev pub NoRoom : HeapDesc → ℕ → Type 0
NoRoom h n =
    (pre row post : List ℕ) → h.entries ≡ pre ++ (row ++ post) → n ≤ length row → AllFree row → ⊥

-- A size in bytes and its rounding to blocks: nothing for 0 and for what no 32-bit size can hold.
round_up-none :
    (size : ℕ)
    → size < u32_mod
    → (size ≡ 0) ⊎ (u32_mod - block_size < size)
    → round_up size / block_size ≡ 0
unfolding round_up
round_up-none size lt h = ground arith

round_up-some :
    (size : ℕ)
    → 0 < size
    → size ≤ u32_mod - block_size
    → round_up size / block_size ≡ suc ((size - 1) / block_size)
unfolding round_up
round_up-some size pos le = ground arith

-- The three outcomes of `heap_malloc`.
pub data Malloc (h : HeapDesc) (ss : List Segment) (size : ℕ) : Option ℕ × HeapDesc → Type 0 where
  refused : (size ≡ 0) ⊎ (u32_mod - block_size < size) → Malloc h ss size (none, h)
  full :
      (k : ℕ)
      → block_size * k < size
      → size ≤ block_size * suc k
      → NoRoom h (suc k)
      → Malloc h ss size (none, h)
  fit :
      (k p : ℕ) (h' : HeapDesc)
      → block_size * k < size
      → size ≤ block_size * suc k
      → Takes h ss k p h'
      → Malloc h ss size (some p, h')

heap_malloc_blocks-Malloc :
    (h : HeapDesc) (ss : List Segment) (size k : ℕ)
    → IsHeap h ss
    → block_size * k < size
    → size ≤ block_size * suc k
    → Malloc h ss size (heap_malloc_blocks h (suc k))
unfolding heap_malloc_blocks
heap_malloc_blocks-Malloc h ss size k w above below =
    elim (Option-cases (find_free_block h (suc k))) [
      | inl missing ↦ rw (missing, heap_malloc_blocks) (full k above below (no_room missing))
      | inr (s, found) ↦
          rw (found, heap_malloc_blocks)
            (fit k (add32 h.addr (mul32 block_size s)) (mark_taken_blocks h s (suc k)) above below
              (mark-Takes h ss k s w (find-Fit s found)))
    ]
  where
    no_room : find_free_block h (suc k) ≡ none → NoRoom h (suc k)
    no_room e pre row post split le free =
        find_loop_complete (suc k) pre row post 0 0 none (omega arith) le free
          (sym (ap (λ l. find_loop (suc k) l 0 0 none) split) ∙ unfold find_free_block in e)

    find-Fit : (s : ℕ) → find_free_block h (suc k) ≡ some s → Fit (suc k) ss 0 s
    find-Fit s e =
        find_loop_sound (suc k) ss 0 0 (omega arith) (omega arith)
          (sym (ap (λ l. find_loop (suc k) l 0 0 none) w.table) ∙ unfold find_free_block in e)

-- `heap_malloc` refuses a size of 0 and one that no rounding fits, and changes nothing then; else it
-- takes the blocks that the size needs out of free ones that stand in a row, and returns the address
-- of the first; and when it fails, with nothing changed, no row of that length is free.
pub heap_malloc-Malloc :
    (h : HeapDesc) (ss : List Segment) (size : ℕ)
    → IsHeap h ss
    → size < u32_mod
    → Malloc h ss size (heap_malloc h size)
unfolding heap_malloc
heap_malloc-Malloc h ss size w lt =
    elim (Bool-cases (size == 0 || ltb (u32_mod - block_size) size)) [
      | inl refuse ↦ rw (round_up-none size lt (ground arith)) (refused (ground arith))
      | inr take_some ↦
          rw (round_up-some size (ground arith) (ground arith), suc==zero)
            (heap_malloc_blocks-Malloc h ss size ((size - 1) / block_size) w (ground arith)
              (ground arith))
    ]

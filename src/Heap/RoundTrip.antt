-- ===== src/Heap/RoundTrip.antt =====
-- src/kernel/memory/heap/heap.c: what is allocated and released again, and what the statistics count.
use mo_os.Prelude.{
  ℕ, suc, ◌+◌, ◌*◌, ◌<◌, ◌≡◌, refl, sym, ap, ◌∙◌, Option, some, List, ◌∷◌, ◌++◌, arith, length,
  replicate,
}
use mo_os.Prelude.Word.{u32_mod}
use mo_os.Prelude.Status.{ok}
use mo_os.Heap.{
  block_size, heap_desc_init, heap_malloc, heap_free, count_used, heap_stats, HeapDesc,
}
use mo_os.Heap.Segments.{
  encode, blocks, used, length-encode, encode-append, blocks-replicate, encode-replicate,
  count_used-encode, Segment, gap, run,
}
use mo_os.Heap.Mark.{heap_free_blocks-run}
use mo_os.Heap.Malloc.{encode-fit, heap_malloc-Malloc, IsHeap, Takes, Malloc, refused, full, fit}
use mo_os.Heap.Free.{heap_free-accepts, start_bounds, IsStart→accepts, IsStart}
use mathlib.Core.Path.{subst₂}

Malloc-Takes :
    {h : HeapDesc} {ss : List Segment} {size : ℕ} {r : Option ℕ × HeapDesc} (p : ℕ) (h' : HeapDesc)
    → Malloc h ss size r
    → r ≡ (some p, h')
    → (k : ℕ) × Takes h ss k p h'
Malloc-Takes p h' (refused why) e = cc
Malloc-Takes p h' (full k above below missing) e = cc
Malloc-Takes {h} {ss} p h' (fit k p' h'' above below taken) e =
    (k, subst₂ (λ q d. Takes h ss k q d) (cc) (cc) taken)

-- A block that `heap_malloc` returned can be released, and `heap_free` then leaves the heap as it was
-- before the allocation.
pub heap_free-heap_malloc :
    (h : HeapDesc) (ss : List Segment) (size p : ℕ) {h' : HeapDesc}
    → IsHeap h ss
    → size < u32_mod
    → heap_malloc h size ≡ (some p, h')
    → heap_free h' p ≡ (ok tt, h)
heap_free-heap_malloc h ss size p {h'} w lt e =
    let (k, t) = Malloc-Takes p h' (heap_malloc-Malloc h ss size w lt) e in
    let start : IsStart h' (t.pre ++ (run k ∷ t.post)) p = record {
      pre = t.pre;
      k = k;
      post = t.post;
      split = refl;
      at = rw t.same_addr t.at;
    } in
    let bounds = start_bounds t.now start in
    let cleared =
      heap_free_blocks-run h' k p (encode t.pre) (encode t.post)
        (t.now.table ∙ encode-append t.pre (run k ∷ t.post)) (omega (arith, length-encode t.pre)) in
    let restored : encode t.pre ++ (replicate (suc k) 0x00 ++ encode t.post) ≡ h.entries =
      sym (w.table ∙ ap encode t.was_free ∙ encode-fit (suc k) t.pre t.post) in
    rw (heap_free-accepts, IsStart→accepts t.now start)
      (ap (λ (d : HeapDesc). (ok tt, d))
        (cleared ∙ (λ i. record { addr = t.same_addr i; entries = restored i })))

-- `heap_stats` counts the blocks of the table and those of the allocations in it.
pub heap_stats-IsHeap :
    (h : HeapDesc) (ss : List Segment)
    → IsHeap h ss
    → ((heap_stats h).total_blocks ≡ blocks ss) × ((heap_stats h).used_blocks ≡ used ss)
unfolding heap_stats
heap_stats-IsHeap h ss w =
    (ap length w.table ∙ length-encode ss, ap count_used w.table ∙ count_used-encode ss)

-- `heap_desc_init` accepts exactly block-aligned ends with a table of one entry for each block, and
-- every block is then free.
pub heap_desc_init-IsHeap :
    (start end : ℕ) (entries : List ℕ) (h : HeapDesc)
    → start < end
    → end < u32_mod
    → heap_desc_init start end entries ≡ ok h
    → IsHeap h (replicate (length entries) gap)
      × (h.addr ≡ start)
      × (start + block_size * length entries ≡ end)
unfolding heap_desc_init
heap_desc_init-IsHeap start end entries h lt fits e =
    let size : start + block_size * length entries ≡ end = ground arith in
    let made : record { addr = start; entries = replicate (length entries) 0x00 } ≡ h =
      ground arith in
    (
      record {
        table =
            ap (λ (d : HeapDesc). d.entries) (sym made) ∙ sym (encode-replicate (length entries));
        aligned = ground arith;
        fits = ground (arith, blocks-replicate (length entries));
      },
      ap (λ (d : HeapDesc). d.addr) (sym made),
      size,
    )

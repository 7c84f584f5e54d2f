-- ===== src/Heap/Mark.antt =====
-- `mark_taken_blocks` and `heap_free_blocks` of src/kernel/memory/heap/heap.c: the entries that they leave.
use mo_os.Prelude.{
  ℕ, zero, suc, ◌+◌, ◌-◌, ◌/◌, ◌≤◌, ◌<◌, ◌≡◌, refl, ap, ◌∙◌, not, List, [], ◌∷◌, ◌++◌, arith,
  add-one, ltb, ◌==◌, if◌then◌else◌, length, replicate, length-append, set-append, get_or-append,
  snoc-append, length-snoc,
}
use mo_os.Prelude.Word.{u32_mod, add32, sub32}
use mo_os.Heap.{
  block_size, has_next, tests_bit, mark_loop, mark_taken_blocks, free_loop, heap_free_blocks,
  HeapDesc,
}
use mo_os.Heap.Segments.{body, run_entries, length-run_entries}

-- The entry that the loop carries into a round with `j` rounds after it.
abbrev carried : ℕ → ℕ
carried zero = 0x01
carried (suc j) = 0x81

-- One round writes just past the prefix.
mark_loop-step :
    (r e entry : ℕ) (a : List ℕ) (x : ℕ) (b : List ℕ)
    → mark_loop (suc r) (length a) e entry (a ++ (x ∷ b))
      ≡ mark_loop r
          (length (a ++ (entry ∷ [])))
          e
          (if not (length a == sub32 e 1) then 0x81 else 0x01)
          ((a ++ (entry ∷ [])) ++ b)
unfolding mark_loop
mark_loop-step r e entry a x b =
    rw (set-append a x b entry, length-snoc a entry, snoc-append a entry b, add-one (length a))

carried_next :
    (i j e : ℕ)
    → i + suc j ≡ e
    → e < u32_mod
    → (if not (i == sub32 e 1) then 0x81 else 0x01) ≡ carried j
carried_next i zero e at lt = ground arith
carried_next i (suc j) e at lt = ground arith

-- The rounds behind the first write the rest of an allocation.
mark_loop-body :
    (j e : ℕ) (a g b : List ℕ)
    → length g ≡ suc j
    → length a + j ≡ e
    → e < u32_mod
    → mark_loop (suc j) (length a) e (carried j) (a ++ (g ++ b)) ≡ a ++ (body j ++ b)
unfolding mark_loop
mark_loop-body j e a [] b h at lt = absurd (omega (arith, h))
mark_loop-body zero e a (x ∷ []) b h at lt = set-append a x b 0x01
mark_loop-body zero e a (x ∷ y ∷ g) b h at lt = absurd (omega (arith, h))
mark_loop-body (suc j) e a (x ∷ g) b h at lt =
    mark_loop-step (suc j) e 0x81 a x (g ++ b)
    ∙ ap
        (λ entry.
          mark_loop (suc j) (length (a ++ (0x81 ∷ []))) e entry ((a ++ (0x81 ∷ [])) ++ (g ++ b)))
        (carried_next (length a) j e at lt)
    ∙ mark_loop-body j e (a ++ (0x81 ∷ [])) g b (omega (arith, h))
        (omega (arith, length-snoc a 0x81)) lt
    ∙ snoc-append a 0x81 (body j ++ b)

-- The entry of the first block.
abbrev first_entry : ℕ → ℕ
first_entry zero = 0x41
first_entry (suc j) = 0xc1

first_entry_lem : (k : ℕ) → (if ltb 1 (suc k) then 0xc1 else 0x41) ≡ first_entry k
first_entry_lem zero = refl
first_entry_lem (suc j) = ground arith

-- The whole loop writes the entries of an allocation over `k + 1` blocks.
mark_loop-run :
    (k e : ℕ) (a g b : List ℕ)
    → length g ≡ suc k
    → length a + k ≡ e
    → e < u32_mod
    → mark_loop (suc k) (length a) e (first_entry k) (a ++ (g ++ b)) ≡ a ++ (run_entries k ++ b)
unfolding mark_loop
mark_loop-run k e a [] b h at lt = absurd (omega (arith, h))
mark_loop-run zero e a (x ∷ []) b h at lt = set-append a x b 0x41
mark_loop-run zero e a (x ∷ y ∷ g) b h at lt = absurd (omega (arith, h))
mark_loop-run (suc j) e a (x ∷ g) b h at lt =
    mark_loop-step (suc j) e 0xc1 a x (g ++ b)
    ∙ ap
        (λ entry.
          mark_loop (suc j) (length (a ++ (0xc1 ∷ []))) e entry ((a ++ (0xc1 ∷ [])) ++ (g ++ b)))
        (carried_next (length a) j e at lt)
    ∙ mark_loop-body j e (a ++ (0xc1 ∷ [])) g b (omega (arith, h))
        (omega (arith, length-snoc a 0xc1)) lt
    ∙ snoc-append a 0xc1 (body j ++ b)

-- `mark_taken_blocks` turns `k + 1` entries into an allocation and leaves the others.
pub mark_taken_blocks-run :
    (h : HeapDesc) (k : ℕ) (a g b : List ℕ)
    → h.entries ≡ a ++ (g ++ b)
    → length g ≡ suc k
    → length a + suc k < u32_mod
    → mark_taken_blocks h (length a) (suc k) ≡ record h { entries = a ++ (run_entries k ++ b) }
unfolding mark_taken_blocks
mark_taken_blocks-run h k a g b split len lt =
    let end_block : ℕ = sub32 (add32 (length a) (suc k)) 1 in
    let end_is : end_block ≡ length a + k = omega arith in
    let rounds_is : end_block + 1 - length a ≡ suc k = omega arith in
    let written : mark_loop (suc k) (length a) (length a + k) (first_entry k) (a ++ (g ++ b))
        ≡ a ++ (run_entries k ++ b) =
      mark_loop-run k (length a + k) a g b len refl (omega arith) in
    ap (λ (es : List ℕ). record h { entries = es }) (cc (first_entry_lem k))

-- One round of the loop of `heap_free_blocks` clears the entry just past the prefix.
free_loop-step :
    (r : ℕ) (a : List ℕ) (x : ℕ) (b : List ℕ)
    → free_loop (suc r) (length a) (a ++ (x ∷ b)) ≡ (
        if tests_bit x has_next
        then free_loop r (length (a ++ (0x00 ∷ []))) ((a ++ (0x00 ∷ [])) ++ b)
        else a ++ (0x00 ∷ b))
unfolding free_loop
free_loop-step r a x b = rw (
  get_or-append a x b 0,
  set-append a x b 0x00,
  length-snoc a 0x00,
  snoc-append a 0x00 b,
  add-one (length a),
)

free_loop-body :
    (j r : ℕ) (a b : List ℕ)
    → suc j ≤ r
    → free_loop r (length a) (a ++ (body j ++ b)) ≡ a ++ (replicate (suc j) 0x00 ++ b)
free_loop-body j zero a b le = absurd (omega arith)
free_loop-body zero (suc r) a b le = free_loop-step r a 0x01 b
free_loop-body (suc j) (suc r) a b le =
    free_loop-step r a 0x81 (body j ++ b)
    ∙ free_loop-body j r (a ++ (0x00 ∷ [])) b (omega arith)
    ∙ snoc-append a 0x00 (replicate (suc j) 0x00 ++ b)

free_loop-run :
    (k r : ℕ) (a b : List ℕ)
    → suc k ≤ r
    → free_loop r (length a) (a ++ (run_entries k ++ b)) ≡ a ++ (replicate (suc k) 0x00 ++ b)
free_loop-run k zero a b le = absurd (omega arith)
free_loop-run zero (suc r) a b le = free_loop-step r a 0x41 b
free_loop-run (suc j) (suc r) a b le =
    free_loop-step r a 0xc1 (body j ++ b)
    ∙ free_loop-body j r (a ++ (0x00 ∷ [])) b (omega arith)
    ∙ snoc-append a 0x00 (replicate (suc j) 0x00 ++ b)

-- `heap_free_blocks` at the first block of an allocation clears its blocks and leaves the others.
pub heap_free_blocks-run :
    (h : HeapDesc) (k p : ℕ) (a b : List ℕ)
    → h.entries ≡ a ++ (run_entries k ++ b)
    → sub32 p h.addr / block_size ≡ length a
    → heap_free_blocks h p ≡ record h { entries = a ++ (replicate (suc k) 0x00 ++ b) }
unfolding heap_free_blocks
heap_free_blocks-run h k p a b split at =
    let total : length h.entries ≡ length a + (suc k + length b) = rw split (
      omega (
        arith,
        length-append a (run_entries k ++ b),
        length-append (run_entries k) b,
        length-run_entries k,
      )) in
    let cleared = free_loop-run k (length h.entries - length a) a b (omega arith) in
    ap (λ (es : List ℕ). record h { entries = es }) (cc)

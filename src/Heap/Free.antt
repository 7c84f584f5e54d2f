-- ===== src/Heap/Free.antt =====
-- `heap_free` of src/kernel/memory/heap/heap.c against rows of segments.
use mo_os.Prelude.{
  ℕ, zero, suc, ◌+◌, ◌*◌, ◌/◌, ◌%◌, ◌≤◌, ◌<◌, ◌≡◌, refl, sym, ap, ◌∙◌, inl, inr, Bool, true, false,
  not, ◌&&◌, ◌||◌, List, [], ◌∷◌, ◌++◌, arith, ltb, leb, ◌==◌, if◌then◌else◌, Bool-cases, length,
  get_or, replicate, get_or-append,
}
use mo_os.Prelude.Word.{u32_mod, add32, sub32, mul32}
use mo_os.Prelude.Status.{Error, Result, ok, err}
use mo_os.Heap.{
  block_size, is_first, total_entries, tests_bit, heap_free_blocks, heap_free, HeapDesc,
}
use mo_os.Heap.Segments.{
  body, run_entries, blocks_of, encode, blocks, length-encode, encode-append, blocks-append,
  Segment, gap, run,
}
use mo_os.Heap.Mark.{heap_free_blocks-run}
use mo_os.Heap.Malloc.{encode-fit, blocks-fit, IsHeap}

-- `p` is the address of the first block of an allocation of `k + 1` blocks.
pub record IsStart (h : HeapDesc) (ss : List Segment) (p : ℕ) : Type 0 where
  pub pre : List Segment
  pub k : ℕ
  pub post : List Segment
  pub split : ss ≡ pre ++ (run k ∷ post)
  pub at : p ≡ h.addr + block_size * blocks pre

abbrev pub first_at : List ℕ → ℕ → Bool
first_at es i = tests_bit (get_or es i 0) is_first

-- No block inside an allocation has the first bit.
first_at-body :
    (j : ℕ) (es : List ℕ) (i : ℕ)
    → first_at (body j ++ es) i ≡ true
    → (i' : ℕ) × (i ≡ suc j + i') × (first_at es i' ≡ true)
first_at-body zero es zero h = cc
first_at-body zero es (suc i) h = (i, omega arith, h)
first_at-body (suc j) es zero h = cc
first_at-body (suc j) es (suc i) h =
    let (i', at, found) = first_at-body j es i h in (i', omega (arith, at), found)

-- What follows the first block of an allocation, and the table after it.
first_at-rest :
    (k : ℕ) (es : List ℕ) (i : ℕ)
    → first_at (run_entries k ++ es) (suc i) ≡ true
    → (i' : ℕ) × (i ≡ k + i') × (first_at es i' ≡ true)
first_at-rest zero es i h = (i, omega arith, h)
first_at-rest (suc j) es i h = first_at-body j es i h

abbrev StartsAt : List Segment → ℕ → Type 0
StartsAt ss i =
    (pre : List Segment) × (k : ℕ) × (post : List Segment) × (ss ≡ pre ++ (run k ∷ post))
    × (i ≡ blocks pre)

StartsAt-cons :
    (s : Segment) (ss : List Segment) (i i' : ℕ)
    → i ≡ blocks_of s + i'
    → StartsAt ss i'
    → StartsAt (s ∷ ss) i
StartsAt-cons s ss i i' at (pre, k, post, split, at') =
    (s ∷ pre, k, post, ap (λ l. s ∷ l) split, omega (arith, at, at'))

first_at-encode : (ss : List Segment) (i : ℕ) → first_at (encode ss) i ≡ true → StartsAt ss i
first_at-encode [] i h = cc
first_at-encode (gap ∷ ss) zero h = cc
first_at-encode (gap ∷ ss) (suc i) h =
    StartsAt-cons gap ss (suc i) i (omega arith) (first_at-encode ss i h)
first_at-encode (run k ∷ ss) zero h = ([], k, ss, refl, refl)
first_at-encode (run k ∷ ss) (suc i) h =
    let (i', at, found) = first_at-rest k (encode ss) i h in
    StartsAt-cons (run k) ss (suc i) i' (omega (arith, at)) (first_at-encode ss i' found)

encode-start :
    (pre : List Segment) (k : ℕ) (post : List Segment)
    → first_at (encode (pre ++ (run k ∷ post))) (blocks pre) ≡ true
encode-start pre k post =
    rw (encode-append pre (run k ∷ post), ← length-encode pre) (at_run k (encode pre))
  where
    at_run : (k : ℕ) (a : List ℕ) → first_at (a ++ (run_entries k ++ encode post)) (length a) ≡ true
    at_run zero a = rw (get_or-append a 0x41 (encode post) 0)
    at_run (suc j) a = rw (get_or-append a 0xc1 (body j ++ encode post) 0)

-- The tests of `heap_free` together.
abbrev pub accepts : HeapDesc → ℕ → Bool
accepts h p =
    not (
      ltb p h.addr
      || leb (add32 h.addr (mul32 (total_entries h) block_size)) p
      || not (sub32 p h.addr % block_size == 0))
    && first_at h.entries (sub32 p h.addr / block_size)

join_tests {ℓ} :
    {A : Type ℓ} (c d : Bool) (x y : A)
    → (if c then x else if not d then x else y) ≡ (if not c && d then y else x)
join_tests true d x y = refl
join_tests false true x y = refl
join_tests false false x y = refl

pub heap_free-accepts :
    (h : HeapDesc) (p : ℕ)
    → heap_free h p
      ≡ (if accepts h p then (ok tt, heap_free_blocks h p) else (err Error.invalid_arg, h))
unfolding heap_free
heap_free-accepts h p =
    join_tests
      (ltb p h.addr
        || leb (add32 h.addr (mul32 (total_entries h) block_size)) p
        || not (sub32 p h.addr % block_size == 0))
      (first_at h.entries (sub32 p h.addr / block_size)) (err Error.invalid_arg, h)
      (ok tt, heap_free_blocks h p)

accepts_bounds :
    (h : HeapDesc) (p : ℕ)
    → accepts h p ≡ true
    → (h.addr ≤ p)
      × (sub32 p h.addr % block_size ≡ 0)
      × (first_at h.entries (sub32 p h.addr / block_size) ≡ true)
accepts_bounds h p e = ground arith

accepts→IsStart :
    {h : HeapDesc} {ss : List Segment} (p : ℕ)
    → IsHeap h ss
    → p < u32_mod
    → accepts h p ≡ true
    → IsStart h ss p
accepts→IsStart {h} {ss} p w lt e =
    let (above, aligned, first) = accepts_bounds h p e in
    let (pre, k, post, split, at) =
      first_at-encode ss (sub32 p h.addr / block_size)
        (ap (λ l. first_at l (sub32 p h.addr / block_size)) (sym w.table) ∙ first) in
    record { pre = pre; k = k; post = post; split = split; at = omega (arith, w.fits) }

-- The first block of an allocation lies in the heap.
pub start_bounds :
    {h : HeapDesc} {ss : List Segment} {p : ℕ}
    → IsHeap h ss
    → (s : IsStart h ss p)
    → (h.addr ≤ p)
      × (p < h.addr + block_size * length h.entries)
      × (h.addr + block_size * length h.entries < u32_mod)
      × (sub32 p h.addr ≡ block_size * blocks s.pre)
start_bounds {h} {ss} w s =
    let total : length h.entries ≡ blocks ss = ap length w.table ∙ length-encode ss in
    let parts : blocks ss ≡ blocks s.pre + (suc s.k + blocks s.post) =
      ap blocks s.split ∙ blocks-append s.pre (run s.k ∷ s.post) in
    omega (arith, w.fits, s.at)

start_first :
    {h : HeapDesc} {ss : List Segment} {p : ℕ}
    → IsHeap h ss
    → (s : IsStart h ss p) → first_at h.entries (blocks s.pre) ≡ true
start_first w s =
    ap (λ l. first_at l (blocks s.pre)) (w.table ∙ ap encode s.split)
    ∙ encode-start s.pre s.k s.post

pub IsStart→accepts :
    {h : HeapDesc} {ss : List Segment} {p : ℕ} → IsHeap h ss → IsStart h ss p → accepts h p ≡ true
IsStart→accepts {h} {p = p} w s =
    let bounds = start_bounds w s in
    let block : sub32 p h.addr / block_size ≡ blocks s.pre = omega arith in
    let first : first_at h.entries (sub32 p h.addr / block_size) ≡ true =
      ap (first_at h.entries) block ∙ start_first w s in
    ground arith

-- The two outcomes of `heap_free`.
pub data Free (h : HeapDesc) (ss : List Segment) (p : ℕ)
    : Result (Unit {0}) × HeapDesc → Type 0 where
  released :
      (s : IsStart h ss p) (h' : HeapDesc)
      → IsHeap h' (s.pre ++ (replicate (suc s.k) gap ++ s.post))
      → h'.addr ≡ h.addr
      → Free h ss p (ok tt, h')
  rejected : ¬ IsStart h ss p → Free h ss p (err Error.invalid_arg, h)

free_blocks-IsHeap :
    {h : HeapDesc} {ss : List Segment} (p : ℕ)
    → IsHeap h ss
    → (s : IsStart h ss p)
    → IsHeap (heap_free_blocks h p) (s.pre ++ (replicate (suc s.k) gap ++ s.post))
      × ((heap_free_blocks h p).addr ≡ h.addr)
free_blocks-IsHeap {h} {ss} p w s =
    let bounds = start_bounds w s in
    let cleared =
      heap_free_blocks-run h s.k p (encode s.pre) (encode s.post)
        (w.table ∙ ap encode s.split ∙ encode-append s.pre (run s.k ∷ s.post))
        (omega (arith, length-encode s.pre)) in
    (
      record {
        table = ap (λ (d : HeapDesc). d.entries) cleared ∙ sym (encode-fit (suc s.k) s.pre s.post);
        aligned = ap (λ (d : HeapDesc). d.addr % block_size) cleared ∙ w.aligned;
        fits = rw (ap (λ (d : HeapDesc). d.addr) cleared) (
            omega (
              arith,
              w.fits,
              ap blocks s.split,
              blocks-append s.pre (run s.k ∷ s.post),
              blocks-fit (suc s.k) s.pre s.post,
            ));
      },
      ap (λ (d : HeapDesc). d.addr) cleared,
    )

-- `heap_free` releases exactly the pointers to the first block of an allocation: their blocks become
-- free and no other block changes. Any other pointer is an error and changes nothing.
pub heap_free-Free :
    (h : HeapDesc) (ss : List Segment) (p : ℕ)
    → IsHeap h ss
    → p < u32_mod
    → Free h ss p (heap_free h p)
heap_free-Free h ss p w lt = elim (Bool-cases (accepts h p)) [
  | inl good ↦
      let s = accepts→IsStart p w lt good in
      let (after, same) = free_blocks-IsHeap p w s in
      rw (heap_free-accepts, good) (released s (heap_free_blocks h p) after same)
  | inr bad ↦ rw (heap_free-accepts, bad) (rejected (λ s. cc (IsStart→accepts w s)))
]

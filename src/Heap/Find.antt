-- ===== src/Heap/Find.antt =====
-- `find_free_block` of src/kernel/memory/heap/heap.c: the blocks that it finds.
use mo_os.Prelude.{
  ℕ, zero, suc, ◌+◌, ◌-◌, ◌≤◌, ◌<◌, ◌≡◌, refl, sym, ap, ◌∙◌, ◌≢◌, inl, inr, true, Option, none,
  some, List, [], ◌∷◌, ◌++◌, append_assoc, arith, ◌==◌, if◌then◌else◌, Bool-cases, length,
  replicate, replicate-snoc,
}
use mo_os.Heap.{is_free, start_or, find_loop}
use mo_os.Heap.Segments.{
  body, run_entries, encode, blocks, blocks-append, blocks-replicate, Segment, gap, run,
}

-- The value of `start_block` after `current` free blocks before block `i`.
abbrev begun_at : ℕ → ℕ → Option ℕ
begun_at i zero = none
begun_at i (suc c) = some (i - suc c)

begun_at-start_or : (i c : ℕ) → c ≤ i → start_or (begun_at i c) i ≡ i - c
begun_at-start_or i zero h = omega arith
begun_at-start_or i (suc c) h = refl

-- The blocks of an allocation start the search again.
find_loop-body :
    (n : ℕ) (j i c : ℕ) (st : Option ℕ) (es : List ℕ)
    → find_loop n (body j ++ es) i c st ≡ find_loop n es (i + suc j) 0 none
unfolding find_loop
find_loop-body n zero i c st es = refl
find_loop-body n (suc j) i c st es =
    find_loop-body n j (i + 1) 0 none es ∙ ap (λ k. find_loop n es k 0 none) (omega arith)

find_loop-run :
    (n k i c : ℕ) (st : Option ℕ) (es : List ℕ)
    → find_loop n (run_entries k ++ es) i c st ≡ find_loop n es (i + suc k) 0 none
unfolding find_loop
find_loop-run n zero i c st es = refl
find_loop-run n (suc j) i c st es =
    find_loop-body n j (i + 1) 0 none es ∙ ap (λ k. find_loop n es k 0 none) (omega arith)

abbrev pub AllFree : List ℕ → Type 0
AllFree [] = Unit {0}
AllFree (e ∷ es) = (is_free e ≡ true) × AllFree es

find_loop-gap :
    (n i c : ℕ) (es : List ℕ)
    → c ≤ i
    → find_loop n (0x00 ∷ es) i c (begun_at i c) ≡ (
        if c + 1 == n
        then some (i - c)
        else find_loop n es (i + 1) (suc c) (begun_at (i + 1) (suc c)))
unfolding find_loop
find_loop-gap n i zero es h = ground arith
find_loop-gap n i (suc c) es h = ground arith

find_loop-nil : (n i c : ℕ) (st : Option ℕ) → find_loop n [] i c st ≡ none
unfolding find_loop
find_loop-nil n i c st = refl

-- What the search finds from block `i` on, after `c` free blocks: `n` free blocks in a row.
abbrev pub Fit : ℕ → List Segment → ℕ → ℕ → Type 0
Fit n ss b s =
    (pre : List Segment) × (post : List Segment) × (ss ≡ pre ++ (replicate n gap ++ post))
    × (s ≡ b + blocks pre)

Fit-run :
    (n : ℕ) (ss : List Segment) (k i c s : ℕ)
    → c ≤ i
    → Fit n ss (i + suc k - 0) s
    → Fit n (replicate c gap ++ (run k ∷ ss)) (i - c) s
Fit-run n ss k i c s le (pre, post, split, at) = (
  replicate c gap ++ (run k ∷ pre),
  post,
  rw (split, append_assoc (replicate c gap) (run k ∷ pre) (replicate n gap ++ post)),
  omega (arith, at, blocks-append (replicate c gap) (run k ∷ pre), blocks-replicate c),
)

pub find_loop_sound :
    (n : ℕ) (ss : List Segment) (i c : ℕ) {s : ℕ}
    → c < n
    → c ≤ i
    → find_loop n (encode ss) i c (begun_at i c) ≡ some s
    → Fit n (replicate c gap ++ ss) (i - c) s
find_loop_sound n [] i c lt le e = cc (find_loop-nil n i c (begun_at i c))
find_loop_sound n (gap ∷ ss) i c {s} lt le e = elim (Bool-cases (c + 1 == n)) [
  | inl full ↦
      let step = find_loop-gap n i c (encode ss) le in
      let here : i - c ≡ s = ground (arith, step) in
      let n_is : suc c ≡ n = ground arith in
      ([], ss, rw (← n_is) (replicate-snoc c gap ss), omega (arith, here))
  | inr more ↦
      let step = find_loop-gap n i c (encode ss) le in
      let (pre, post, split, at) =
        find_loop_sound n ss (i + 1) (suc c) {s = s} (ground arith) (omega arith)
          (ground (arith, step)) in
      (pre, post, replicate-snoc c gap ss ∙ split, omega (arith, at))
]
find_loop_sound n (run k ∷ ss) i c {s} lt le e = Fit-run n ss k i c s le (
    find_loop_sound n ss (i + suc k) 0 (omega arith) (omega arith)
      (sym (find_loop-run n k i c (begun_at i c) (encode ss)) ∙ e))

-- Where `n` free entries stand in a row the search does not fail.
find_loop-row :
    (n : ℕ) (row es : List ℕ) (i c : ℕ) (st : Option ℕ)
    → c < n
    → n ≤ c + length row
    → AllFree row
    → find_loop n (row ++ es) i c st ≢ none
unfolding find_loop
find_loop-row n [] es i c st lt le free = absurd (omega arith)
find_loop-row n (e ∷ row) es i c st lt le free =
    ground (arith, find_loop-row n row es (i + 1) (c + 1) (some (start_or st i)))

pub find_loop_complete :
    (n : ℕ) (pre row post : List ℕ) (i c : ℕ) (st : Option ℕ)
    → c < n
    → n ≤ length row
    → AllFree row
    → find_loop n (pre ++ (row ++ post)) i c st ≢ none
unfolding find_loop
find_loop_complete n [] row post i c st lt le free =
    find_loop-row n row post i c st lt (omega arith) free
find_loop_complete n (e ∷ pre) row post i c st lt le free = ground (
  arith,
  find_loop_complete n pre row post (i + 1) (c + 1) (some (start_or st i)),
  find_loop_complete n pre row post (i + 1) 0 none,
)

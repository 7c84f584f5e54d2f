-- ===== src/Heap/Segments.antt =====
-- The abstract view of a heap table: a row of segments, each a free block or an allocation.
use mo_os.Prelude.{
  ℕ, zero, suc, ◌+◌, ◌≡◌, refl, sym, ap, List, [], ◌∷◌, ◌++◌, append_assoc, arith, length,
  replicate, length-append,
}
use mo_os.Heap.{count_used}

-- `run k` is an allocation of `k + 1` blocks.
pub data Segment : Type 0 where
  gap : Segment
  run : ℕ → Segment

-- What follows the first block of an allocation: `j` blocks with a successor, and the last.
abbrev pub body : ℕ → List ℕ
body zero = 0x01 ∷ []
body (suc j) = 0x81 ∷ body j

abbrev pub run_entries : ℕ → List ℕ
run_entries zero = 0x41 ∷ []
run_entries (suc j) = 0xc1 ∷ body j

abbrev pub segment_entries : Segment → List ℕ
segment_entries gap = 0x00 ∷ []
segment_entries (run k) = run_entries k

abbrev pub blocks_of : Segment → ℕ
blocks_of gap = 1
blocks_of (run k) = suc k

-- The table that a row of segments stands for, and its length in blocks.
abbrev pub encode : List Segment → List ℕ
encode [] = []
encode (s ∷ ss) = segment_entries s ++ encode ss

abbrev pub blocks : List Segment → ℕ
blocks [] = 0
blocks (s ∷ ss) = blocks_of s + blocks ss

-- Blocks in allocations.
abbrev pub used : List Segment → ℕ
used [] = 0
used (gap ∷ ss) = used ss
used (run k ∷ ss) = suc k + used ss

length-body : (j : ℕ) → length (body j) ≡ suc j
length-body zero = refl
length-body (suc j) = ap suc (length-body j)

pub length-run_entries : (k : ℕ) → length (run_entries k) ≡ suc k
length-run_entries zero = refl
length-run_entries (suc j) = ap suc (length-body j)

pub length-encode : (ss : List Segment) → length (encode ss) ≡ blocks ss
length-encode [] = refl
length-encode (gap ∷ ss) = omega (arith, length-encode ss)
length-encode (run k ∷ ss) =
    omega (arith, length-append (run_entries k) (encode ss), length-run_entries k, length-encode ss)

pub encode-append : (ss ts : List Segment) → encode (ss ++ ts) ≡ encode ss ++ encode ts
encode-append [] ts = refl
encode-append (s ∷ ss) ts =
    rw (encode-append ss ts) (sym (append_assoc (segment_entries s) (encode ss) (encode ts)))

pub blocks-append : (ss ts : List Segment) → blocks (ss ++ ts) ≡ blocks ss + blocks ts
blocks-append [] ts = omega arith
blocks-append (s ∷ ss) ts = omega (arith, blocks-append ss ts)

pub used-append : (ss ts : List Segment) → used (ss ++ ts) ≡ used ss + used ts
used-append [] ts = omega arith
used-append (gap ∷ ss) ts = used-append ss ts
used-append (run k ∷ ss) ts = omega (arith, used-append ss ts)

pub used-replicate : (n : ℕ) → used (replicate n gap) ≡ 0
used-replicate zero = refl
used-replicate (suc n) = used-replicate n

pub blocks-replicate : (n : ℕ) → blocks (replicate n gap) ≡ n
blocks-replicate zero = refl
blocks-replicate (suc n) = omega (arith, blocks-replicate n)

pub encode-replicate : (n : ℕ) → encode (replicate n gap) ≡ replicate n 0x00
encode-replicate zero = refl
encode-replicate (suc n) = ap (λ l. 0x00 ∷ l) (encode-replicate n)

-- `count_used` adds up the allocations.
count_used-body : (j : ℕ) (es : List ℕ) → count_used (body j ++ es) ≡ suc j + count_used es
unfolding count_used
count_used-body zero es = omega arith
count_used-body (suc j) es = omega (arith, count_used-body j es)

pub count_used-encode : (ss : List Segment) → count_used (encode ss) ≡ used ss
unfolding count_used
count_used-encode [] = refl
count_used-encode (gap ∷ ss) = count_used-encode ss
count_used-encode (run zero ∷ ss) = omega (arith, count_used-encode ss)
count_used-encode (run (suc j) ∷ ss) =
    omega (arith, count_used-body j (encode ss), count_used-encode ss)

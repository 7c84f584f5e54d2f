-- ===== src/User/Malloc/Take.antt =====
-- `malloc` of src/user/lib/moos.c on the blocks that are there.
use mathlib.Core.Path.{subst}
use mo_os.Prelude.{
  ℕ, ◌+◌, ◌-◌, ◌%◌, ◌^◌, ◌≤◌, ◌<◌, ◌≡◌, refl, sym, ap, ◌∙◌, inl, inr, true, false, not, ◌||◌,
  Option, none, some, List, [], ◌∷◌, ◌++◌, arith, ltb, leb, ◌==◌, if◌then◌else◌, Bool-cases,
}
use mo_os.Prelude.Word.{u32_mod, add32, sub32}
use mo_os.User.Malloc.{
  header_size, min_split, block_payload, is_at, rest_of, behind, split_block, fit_loop, Block, Heap,
}
use mo_os.User.Malloc.Blocks.{Tiled, last_addr, taken, Tiled-le, last_addr-cons, is_at-last_addr}

-- The payload `p` of at least `size` bytes is in use in the second list, and nothing else changed.
abbrev pub Adds : ℕ → ℕ → List (ℕ × ℕ) → List (ℕ × ℕ) → Type 0
Adds p size before after =
    (pre : List (ℕ × ℕ)) × (post : List (ℕ × ℕ)) × (n : ℕ) × (size ≤ n)
    × (before ≡ pre ++ post)
    × (after ≡ pre ++ ((p, n) ∷ post))

Adds-cons :
    (p size : ℕ) (r : ℕ × ℕ) (before after : List (ℕ × ℕ))
    → Adds p size before after
    → Adds p size (r ∷ before) (r ∷ after)
Adds-cons p size r before after (pre, post, n, le, e, e') =
    (r ∷ pre, post, n, le, ap (λ l. r ∷ l) e, ap (λ l. r ∷ l) e')

Adds-taken :
    (p size : ℕ) (b : Block) (bs bs' : List Block)
    → Adds p size (taken bs) (taken bs')
    → Adds p size (taken (b ∷ bs)) (taken (b ∷ bs'))
Adds-taken p size b bs bs' a = elim (Bool-cases (b.free)) [
  | inl h ↦ rw h a
  | inr h ↦ rw h (Adds-cons p size (block_payload b, b.size) (taken bs) (taken bs') a)
]

-- What the search finds in the last blocks of a chain.
pub record Fits (start end size : ℕ) (bs : List Block) (p : ℕ) (h : Heap) : Type 0 where
  pub tiled : Tiled start h.blocks end
  pub last : h.tail ≡ last_addr h.blocks
  pub adds : Adds p size (taken bs) (taken h.blocks)
  pub some_block : (b : Block) × (r : List Block) × (h.blocks ≡ b ∷ r)

-- Every free block is too small.
abbrev pub NoRoom : ℕ → List Block → Type 0
NoRoom size [] = Unit {0}
NoRoom size (b ∷ bs) = (b.free ≡ true → b.size < size) × NoRoom size bs

pub data Fit (start end size : ℕ) (bs : List Block) : Option (ℕ × Heap) → Type 0 where
  no_fit : NoRoom size bs → Fit start end size bs none
  fits : (p : ℕ) (h : Heap) → Fits start end size bs p h → Fit start end size bs (some (p, h))

behind-Fit :
    (start end size : ℕ) (b c : Block) (bs : List Block) (o : Option (ℕ × Heap))
    → Tiled start (b ∷ c ∷ bs) end
    → (b.free ≡ true → b.size < size)
    → Fit (start + header_size + b.size) end size (c ∷ bs) o
    → Fit start end size (b ∷ c ∷ bs) (behind b o)
behind-Fit start end size b c bs none t skip (no_fit small) = no_fit (skip, small)
behind-Fit start end size b c bs (some _) (at, whole, rest) skip (fits p h f) =
    let (d, r, e) = f.some_block in
    fits p (record h { blocks = b ∷ h.blocks })
      (record {
        tiled = (at, whole, f.tiled);
        last =
            f.last
            ∙ ap last_addr e
            ∙ sym (last_addr-cons b d r)
            ∙ ap (λ l. last_addr (b ∷ l)) (sym e);
        adds = Adds-taken p size b (c ∷ bs) h.blocks f.adds;
        some_block = (b, h.blocks, refl);
      })

last_addr_same :
    (b b' : Block) (bs : List Block) → b.addr ≡ b'.addr → last_addr (b ∷ bs) ≡ last_addr (b' ∷ bs)
last_addr_same b b' [] e = ap some e
last_addr_same b b' (c ∷ bs) e = refl

split_last :
    (start end : ℕ) (b rest : Block) (bs : List Block) (tail : Option ℕ)
    → Tiled start (b ∷ bs) end
    → tail ≡ last_addr (b ∷ bs)
    → (if is_at tail b.addr then some rest.addr else tail) ≡ last_addr (rest ∷ bs)
split_last start end b rest [] tail t last =
    rw last (let here : (b.addr == b.addr) ≡ true = ground arith in rw here refl)
split_last start end b rest (c ∷ bs) tail t last =
    let other = is_at-last_addr start b c bs end t in rw last (rw other refl)

split_block-Fits :
    (start end size : ℕ) (b : Block) (bs : List Block) (tail : Option ℕ)
    → size % 8 ≡ 0
    → end < u32_mod
    → Tiled start (b ∷ bs) end
    → tail ≡ last_addr (b ∷ bs)
    → b.free ≡ true
    → size + min_split ≤ b.size
    → Fits start end size (b ∷ bs) (split_block size b bs tail).0 (split_block size b bs tail).1
split_block-Fits start end size b bs tail whole bound (at, whole_b, rest) last is_free room =
    let below = Tiled-le (start + header_size + b.size) bs end rest in
    let left : sub32 (sub32 b.size size) header_size ≡ b.size - size - header_size = omega arith in
    let next : start + header_size + b.size
        ≡ start + header_size + size + header_size + sub32 (sub32 b.size size) header_size =
      omega arith in
    record {
      tiled = (at, whole, (omega arith, omega arith, subst (λ (x : ℕ). Tiled x bs end) next rest));
      last = split_last start end b (rest_of size b) bs tail (at, whole_b, rest) last;
      adds = ([], taken bs, size, omega arith, rw is_free refl, refl);
      some_block = (_, _, refl);
    }

whole_block-Fits :
    (start end size : ℕ) (b : Block) (bs : List Block) (tail : Option ℕ)
    → Tiled start (b ∷ bs) end
    → tail ≡ last_addr (b ∷ bs)
    → b.free ≡ true
    → size ≤ b.size
    → Fits start end size
        (b ∷ bs)
        (block_payload b)
        (record { blocks = record b { free = false } ∷ bs; tail = tail })
whole_block-Fits start end size b bs tail (at, whole_b, rest) last is_free room = record {
  tiled = (at, whole_b, rest);
  last = last ∙ last_addr_same b (record b { free = false }) bs refl;
  adds = ([], taken bs, b.size, room, rw is_free refl, refl);
  some_block = (_, _, refl);
}

-- The search at one block, when `later` is what it finds behind it.
test-Fit :
    (size start end : ℕ) (b : Block) (bs : List Block) (tail : Option ℕ) (later : Option (ℕ × Heap))
    → size < 2 ^ 31
    → size % 8 ≡ 0
    → end < u32_mod
    → Tiled start (b ∷ bs) end
    → tail ≡ last_addr (b ∷ bs)
    → ((b.free ≡ true → b.size < size) → Fit start end size (b ∷ bs) (behind b later))
    → Fit start end size (b ∷ bs) (
        if not b.free || ltb b.size size
        then behind b later
        else if leb (add32 size min_split) b.size
        then some (split_block size b bs tail)
        else some
            (block_payload b, record { blocks = record b { free = false } ∷ bs; tail = tail }))
test-Fit size start end b bs tail later small whole bound t last skipped =
    let below = Tiled-le (start + header_size + b.size) bs end t.2 in
    elim (Bool-cases (not b.free || ltb b.size size)) [
      | inl h ↦ rw h (skipped (λ is_free. ground arith))
      | inr h ↦ elim (Bool-cases (leb (add32 size min_split) b.size)) [
        | inl g ↦
            rw (h, g)
              (fits _ _ (
                split_block-Fits start end size b bs tail whole bound t last (ground arith)
                  (ground arith)))
        | inr g ↦
            rw (h, g)
              (fits _ _
                (whole_block-Fits start end size b bs tail t last (ground arith) (ground arith)))
      ]
    ]

pub fit_loop-Fit :
    (size start end : ℕ) (bs : List Block) (tail : Option ℕ)
    → size < 2 ^ 31
    → size % 8 ≡ 0
    → end < u32_mod
    → Tiled start bs end
    → tail ≡ last_addr bs
    → Fit start end size bs (fit_loop size bs tail)
unfolding fit_loop
fit_loop-Fit size start end [] tail small whole bound t last = no_fit tt
fit_loop-Fit size start end (b ∷ []) tail small whole bound t last =
    test-Fit size start end b [] tail none small whole bound t last (λ skip. no_fit (skip, tt))
fit_loop-Fit size start end (b ∷ c ∷ bs) tail small whole bound t last =
    test-Fit size start end b (c ∷ bs) tail _ small whole bound t last (λ skip.
      behind-Fit start end size b c bs (fit_loop size (c ∷ bs) tail) t skip (
        fit_loop-Fit size (start + header_size + b.size) end (c ∷ bs) tail small whole bound t.2
          last))

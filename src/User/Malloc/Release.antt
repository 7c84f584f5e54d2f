-- ===== src/User/Malloc/Release.antt =====
-- `free` of src/user/lib/moos.c.
use mathlib.Core.Path.{subst}
use mo_os.Prelude.{
  ℕ, ◌+◌, ◌-◌, ◌%◌, ◌<◌, ◌≡◌, refl, sym, ap, ◌∙◌, inl, inr, true, false, ◌&&◌, Option, some, List,
  [], ◌∷◌, ◌++◌, arith, ◌==◌, if◌then◌else◌, Bool-cases,
}
use mo_os.Prelude.Word.{u32_mod, add32}
use mo_os.User.Malloc.{
  header_size, block_payload, is_at, set_free, merge_loop, merge_blocks, free, Block, Heap,
}
use mo_os.User.Malloc.Mark.{set_free-Tiled, last_addr-set_free, taken-set_free}
use mo_os.User.Malloc.Blocks.{Tiled, last_addr, taken, Tiled-le, is_at-last_addr, IsHeap}

-- No two free blocks are neighbours.
abbrev pub Merged : List Block → Type 0
Merged [] = Unit {0}
Merged (b ∷ []) = Unit {0}
Merged (b ∷ c ∷ bs) = ((b.free && c.free) ≡ false) × Merged (c ∷ bs)

-- What merging leaves of a row that begins with block `b`.
pub record Merges (start end : ℕ) (b : Block) (bs : List Block) (h : Heap) : Type 0 where
  pub tiled : Tiled start h.blocks end
  pub last : h.tail ≡ last_addr h.blocks
  pub in_use : taken h.blocks ≡ taken (b ∷ bs)
  pub merged : Merged h.blocks
  pub first : (size : ℕ) × (r : List Block) × (h.blocks ≡ record b { size = size } ∷ r)

taken_same :
    (b : Block) (bs cs : List Block) → taken bs ≡ taken cs → taken (b ∷ bs) ≡ taken (b ∷ cs)
taken_same b bs cs e =
    ap (λ (l : List (ℕ × ℕ)). if b.free then l else (block_payload b, b.size) ∷ l) e

merged_tail :
    (start end : ℕ) (b c : Block) (bs : List Block) (tail : Option ℕ) (size : ℕ)
    → Tiled (start + header_size + b.size) (c ∷ bs) end
    → tail ≡ last_addr (c ∷ bs)
    → (if is_at tail c.addr then some b.addr else tail) ≡ last_addr (record b { size = size } ∷ bs)
merged_tail start end b c [] tail size t last =
    rw last (let here : (c.addr == c.addr) ≡ true = ground arith in rw here refl)
merged_tail start end b c (d ∷ bs) tail size t last =
    let other = is_at-last_addr (start + header_size + b.size) c d bs end t in
    rw last (rw other refl)

-- A block before a merged row that it does not merge with.
before-Merges :
    (start end : ℕ) (b c : Block) (bs : List Block) (h : Heap)
    → (b.addr ≡ start) × (b.size % 8 ≡ 0)
    → (b.free && c.free) ≡ false
    → Merges (start + header_size + b.size) end c bs h
    → Merges start end b (c ∷ bs) (record h { blocks = b ∷ h.blocks })
before-Merges start end b c bs h (at, whole) apart m =
    let (size, r, e) = m.first in
    record {
      tiled = (at, whole, m.tiled);
      last = m.last ∙ ap last_addr e ∙ ap (λ l. last_addr (b ∷ l)) (sym e);
      in_use = taken_same b h.blocks (c ∷ bs) m.in_use;
      merged = subst (λ l. Merged (b ∷ l)) (sym e) (apart, subst Merged e m.merged);
      first = (b.size, h.blocks, refl);
    }

pub merge_loop-Merges :
    (start end : ℕ) (b : Block) (bs : List Block) (tail : Option ℕ)
    → end < u32_mod
    → Tiled start (b ∷ bs) end
    → tail ≡ last_addr (b ∷ bs)
    → Merges start end b bs (merge_loop b bs tail)
unfolding merge_loop
merge_loop-Merges start end b [] tail bound t last = record {
  tiled = t;
  last = last;
  in_use = refl;
  merged = tt;
  first = (b.size, [], refl);
}
merge_loop-Merges start end b (c ∷ bs) tail bound (at, whole, (at_c, whole_c, rest)) last =
    elim (Bool-cases (b.free && c.free)) [
      | inl h ↦
          let below = Tiled-le (start + header_size + b.size + header_size + c.size) bs end rest in
          let size = add32 b.size (add32 header_size c.size) in
          let next : start + header_size + b.size + header_size + c.size
              ≡ start + header_size + size =
            omega arith in
          let m =
            merge_loop-Merges start end (record b { size = size }) bs
              (if is_at tail c.addr then some b.addr else tail) bound
              (at, omega arith, subst (λ (x : ℕ). Tiled x bs end) next rest)
              (merged_tail start end b c bs tail size (at_c, whole_c, rest) last) in
          let free_b : b.free ≡ true = ground arith in
          let free_c : c.free ≡ true = ground arith in
          rw (h, merge_loop)
            (record {
              tiled = m.tiled;
              last = m.last;
              in_use = m.in_use ∙ rw (free_b, free_c) refl;
              merged = m.merged;
              first = m.first;
            })
      | inr h ↦
          rw (h, merge_loop)
            (before-Merges start end b c bs (merge_loop c bs tail) (at, whole) h
              (merge_loop-Merges (start + header_size + b.size) end c bs tail bound
                (at_c, whole_c, rest) last))
    ]

merge_blocks_lem :
    (start end : ℕ) (bs : List Block) (tail : Option ℕ)
    → end < u32_mod
    → Tiled start bs end
    → tail ≡ last_addr bs
    → (taken (merge_blocks bs tail).blocks ≡ taken bs)
      × Merged (merge_blocks bs tail).blocks
      × Tiled start (merge_blocks bs tail).blocks end
      × ((merge_blocks bs tail).tail ≡ last_addr (merge_blocks bs tail).blocks)
merge_blocks_lem start end [] tail bound t last = (refl, tt, t, last)
merge_blocks_lem start end (b ∷ bs) tail bound t last =
    let m = merge_loop-Merges start end b bs tail bound t last in
    (m.in_use, m.merged, m.tiled, m.last)

-- `free` of a payload that is in use leaves all others in use, no two free blocks beside each other, and
-- the blocks a row without gaps over the same addresses.
pub free-Merged :
    (start end p n : ℕ) (h : Heap) (pre post : List (ℕ × ℕ))
    → IsHeap start end h
    → taken h.blocks ≡ pre ++ ((p, n) ∷ post)
    → (taken (free (some p) h).blocks ≡ pre ++ post)
      × Merged (free (some p) h).blocks
      × IsHeap start end (free (some p) h)
unfolding free
free-Merged start end p n h pre post w e =
    let marked = set_free (p - header_size) h.blocks in
    let tiled = set_free-Tiled start h.blocks end (p - header_size) w.tiled in
    let last = w.last ∙ sym (last_addr-set_free h.blocks (p - header_size)) in
    let (in_use, merged, tiled', last') =
      merge_blocks_lem start end marked h.tail w.in_memory tiled last in
    (
      in_use ∙ taken-set_free start h.blocks end p n pre post w.tiled e,
      merged,
      record { tiled = tiled'; last = last'; aligned = w.aligned; in_memory = w.in_memory },
    )

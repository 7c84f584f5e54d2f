-- ===== src/User/Malloc/Blocks.antt =====
-- The blocks of the allocator of src/user/lib/moos.c as a row without gaps.
use mathlib.Core.Path.{subst}
use mo_os.Prelude.{
  ℕ, ◌+◌, ◌%◌, ◌≤◌, ◌<◌, ◌≡◌, refl, inl, inr, false, Option, none, some, List, [], ◌∷◌, arith, ◌==◌,
  if◌then◌else◌, Bool-cases,
}
use mo_os.Prelude.Word.{u32_mod}
use mo_os.User.Malloc.{header_size, block_payload, is_at, Block, Heap}

-- The blocks lie one behind the other from `start` to `end`, and the payloads are of whole units.
abbrev pub Tiled : ℕ → List Block → ℕ → Type 0
Tiled start [] end = start ≡ end
Tiled start (b ∷ bs) end =
    (b.addr ≡ start) × (b.size % 8 ≡ 0) × Tiled (start + header_size + b.size) bs end

-- The address of the last block.
abbrev pub last_addr : List Block → Option ℕ
last_addr [] = none
last_addr (b ∷ []) = some b.addr
last_addr (b ∷ c ∷ bs) = last_addr (c ∷ bs)

pub record IsHeap (start end : ℕ) (h : Heap) : Type 0 where
  pub tiled : Tiled start h.blocks end
  pub last : h.tail ≡ last_addr h.blocks
  pub aligned : start % 8 ≡ 0
  pub in_memory : end < u32_mod

-- The payloads that are in use, as their addresses and sizes.
abbrev pub taken : List Block → List (ℕ × ℕ)
taken [] = []
taken (b ∷ bs) = if b.free then taken bs else (block_payload b, b.size) ∷ taken bs

pub taken_of :
    (b : Block) (bs : List Block)
    → taken (b ∷ bs) ≡ (if b.free then taken bs else (block_payload b, b.size) ∷ taken bs)
taken_of b bs = refl

-- Ranges that lie one behind the other between two addresses, on whole units.
abbrev pub Spaced : ℕ → List (ℕ × ℕ) → ℕ → Type 0
Spaced start [] end = start ≤ end
Spaced start ((p, n) ∷ rs) end = (start < p) × (p % 8 ≡ 0) × Spaced (p + n) rs end

pub Tiled-le : (start : ℕ) (bs : List Block) (end : ℕ) → Tiled start bs end → start ≤ end
Tiled-le start [] end e = omega arith
Tiled-le start (b ∷ bs) end (at, whole, rest) =
    omega (arith, Tiled-le (start + header_size + b.size) bs end rest)

Spaced-from :
    (start later : ℕ) (rs : List (ℕ × ℕ)) (end : ℕ)
    → start ≤ later
    → Spaced later rs end
    → Spaced start rs end
Spaced-from start later [] end le s = omega arith
Spaced-from start later ((p, n) ∷ rs) end le (before, whole, rest) = (omega arith, whole, rest)

-- What is in use does not overlap.
pub taken-Spaced :
    (start : ℕ) (bs : List Block) (end : ℕ)
    → start % 8 ≡ 0
    → Tiled start bs end
    → Spaced start (taken bs) end
taken-Spaced start [] end aligned t = omega arith
taken-Spaced start (b ∷ bs) end aligned (at, whole, rest) =
    let ih = taken-Spaced (start + header_size + b.size) bs end (omega arith) rest in
    elim (Bool-cases (b.free)) [
      | inl h ↦
          rw h (Spaced-from start (start + header_size + b.size) (taken bs) end (omega arith) ih)
      | inr h ↦
          let next : start + header_size + b.size ≡ block_payload b + b.size = omega arith in
          rw h (omega arith, omega arith, subst (λ (x : ℕ). Spaced x (taken bs) end) next ih)
    ]

pub last_addr-cons : (b c : Block) (bs : List Block) → last_addr (b ∷ c ∷ bs) ≡ last_addr (c ∷ bs)
last_addr-cons b c bs = refl

-- The last block of a row is not below its start.
pub last_addr_above :
    (start : ℕ) (b : Block) (bs : List Block) (end : ℕ)
    → Tiled start (b ∷ bs) end
    → (a : ℕ) × (last_addr (b ∷ bs) ≡ some a) × (start ≤ a)
last_addr_above start b [] end (at, whole, rest) = (b.addr, refl, omega arith)
last_addr_above start b (c ∷ bs) end (at, whole, rest) =
    let (a, e, above) = last_addr_above (start + header_size + b.size) c bs end rest in
    (a, e, omega arith)

-- `heap_tail` is a block exactly if nothing is behind it.
pub is_at-last_addr :
    (start : ℕ) (b c : Block) (bs : List Block) (end : ℕ)
    → Tiled start (b ∷ c ∷ bs) end
    → is_at (last_addr (b ∷ c ∷ bs)) b.addr ≡ false
is_at-last_addr start b c bs end (at, whole, rest) =
    let (a, e, above) = last_addr_above (start + header_size + b.size) c bs end rest in
    let other : (a == b.addr) ≡ false = ground arith in rw e other

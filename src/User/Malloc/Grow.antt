-- ===== src/User/Malloc/Grow.antt =====
-- `malloc` of src/user/lib/moos.c with the system call that moves the end of the heap.
use mo_os.User.Malloc.Take.{Adds, NoRoom, fit_loop-Fit, Fit, no_fit, fits}
use mathlib.Core.Path.{subst}
use mo_os.Prelude.{
  ℕ, ◌+◌, ◌%◌, ◌^◌, ◌≤◌, ◌<◌, ◌≡◌, refl, sym, ap, ◌∙◌, ◌⊎◌, inl, inr, true, false, Option, none,
  some, List, [], ◌∷◌, ◌++◌, append-nil, arith, ◌==◌, Bool-cases, eq_of_some,
}
use mo_os.Prelude.Word.{u32_mod, add32}
use mo_os.User.Malloc.{
  header_size, block_payload, round_size, is_at, fit_loop, link_after, link_block, append_block,
  new_block, with_block, malloc, Block, Heap,
}
use mo_os.User.Malloc.Blocks.{
  Tiled, last_addr, taken, Spaced, taken-Spaced, last_addr_above, is_at-last_addr, IsHeap,
}

-- A state with an end of the heap that moves by `n` bytes, or not at all.
pub data Moves {ℓ} {S : Type ℓ} (brk : S → ℕ) (Valid : S → Type 0) (n : ℕ) (s : S)
    : Option ℕ × S → Type ℓ where
  stays : Moves brk Valid n s (none, s)
  moves :
      (t : S)
      → Valid t
      → brk t ≡ brk s + n
      → brk t < u32_mod
      → Moves brk Valid n s (some (brk s), t)

pub record Break {ℓ} (S : Type ℓ) : Type (ℓ + 1) where
  pub brk : S → ℕ
  pub sbrk : ℕ → S → Option ℕ × S
  pub Valid : S → Type 0
  pub grows : (s : S) (n : ℕ) → Valid s → 0 < n → n < 2 ^ 31 → Moves brk Valid n s (sbrk n s)

link_after-append :
    (start : ℕ) (b : Block) (bs : List Block) (end tail : ℕ) (new : Block)
    → Tiled start (b ∷ bs) end
    → some tail ≡ last_addr (b ∷ bs)
    → link_after tail new (b ∷ bs) ≡ (b ∷ bs) ++ (new ∷ [])
unfolding link_after
link_after-append start b [] end tail new t last =
    let here : (tail == b.addr) ≡ true = ground (arith, eq_of_some tail b.addr last) in rw here refl
link_after-append start b (c ∷ bs) end tail new t last =
    let other : (tail == b.addr) ≡ false =
      ap (λ o. is_at o b.addr) last ∙ is_at-last_addr start b c bs end t in
    rw other (
      ap (λ l. b ∷ l) (link_after-append (start + header_size + b.size) c bs end tail new t.2 last))

-- The chain with a new block at the end.
link_block-append :
    (start : ℕ) (bs : List Block) (end : ℕ) (tail : Option ℕ) (new : Block)
    → Tiled start bs end
    → tail ≡ last_addr bs
    → link_block tail new bs ≡ bs ++ (new ∷ [])
link_block-append start [] end none new t last = refl
link_block-append start [] end (some a) new t last = cc
link_block-append start (b ∷ bs) end none new t last =
    let (a, e, above) = last_addr_above start b bs end t in cc
link_block-append start (b ∷ bs) end (some a) new t last =
    link_after-append start b bs end a new t last

Tiled-append :
    (start : ℕ) (bs : List Block) (end size : ℕ)
    → Tiled start bs end
    → size % 8 ≡ 0
    → Tiled start (bs ++ (new_block end size ∷ [])) (end + (header_size + size))
Tiled-append start [] end size e whole = (sym e, whole, omega arith)
Tiled-append start (b ∷ bs) end size (at, whole_b, rest) whole =
    (at, whole_b, Tiled-append (start + header_size + b.size) bs end size rest whole)

last_addr-append : (bs : List Block) (new : Block) → last_addr (bs ++ (new ∷ [])) ≡ some new.addr
last_addr-append [] new = refl
last_addr-append (b ∷ []) new = refl
last_addr-append (b ∷ c ∷ bs) new = last_addr-append (c ∷ bs) new

taken-append :
    (bs : List Block) (end size : ℕ)
    → taken (bs ++ (new_block end size ∷ [])) ≡ taken bs ++ ((end + header_size, size) ∷ [])
taken-append [] end size = refl
taken-append (b ∷ bs) end size = elim (Bool-cases (b.free)) [
  | inl h ↦ rw h (taken-append bs end size)
  | inr h ↦ rw h (ap (λ l. (block_payload b, b.size) ∷ l) (taken-append bs end size))
]

module _ {ℓ} {S : Type ℓ} (m : Break S) where
  -- The outcomes of `malloc`.
  pub data Malloc (start size : ℕ) (h : Heap) (s : S) : Option ℕ × Heap × S → Type ℓ where
    refused :
        (size ≡ 0)
          ⊎ (NoRoom (round_size size) h.blocks
              × ((m.sbrk (header_size + round_size size) s).0 ≡ none))
        → Malloc start size h s (none, h, s)
    given :
        (p : ℕ) (h' : Heap) (t : S)
        → m.Valid t
        → IsHeap start (m.brk t) h'
        → Adds p size (taken h.blocks) (taken h'.blocks)
        → Spaced start (taken h'.blocks) (m.brk t)
        → Malloc start size h s (some p, h', t)

  with_block-Malloc :
      (start size : ℕ) (h : Heap) (s : S) (r : Option ℕ × S)
      → IsHeap start (m.brk s) h
      → size + 32 ≤ 2 ^ 31
      → NoRoom (round_size size) h.blocks
      → r ≡ m.sbrk (header_size + round_size size) s
      → Moves m.brk m.Valid (header_size + round_size size) s r
      → Malloc start size h s (with_block m.sbrk (round_size size) h r)
  with_block-Malloc start size h s _ w small no_room e stays =
      refused (inr (no_room, sym (ap (λ (r : Option ℕ × S). r.0) e)))
  with_block-Malloc start size h s _ w small no_room e (moves t valid moved bound) =
      let n = round_size size in
      let fits : (size ≤ n) × (n % 8 ≡ 0) = (omega arith, omega arith) in
      let new = new_block (m.brk s) n in
      let chain = link_block-append start h.blocks (m.brk s) h.tail new w.tiled w.last in
      let tiled =
        subst (λ l. Tiled start l (m.brk t)) (sym chain)
          (subst (λ (x : ℕ). Tiled start (h.blocks ++ (new ∷ [])) x) (sym moved)
            (Tiled-append start h.blocks (m.brk s) n w.tiled fits.1)) in
      given (block_payload new) (append_block new h) t valid
        (record {
          tiled = tiled;
          last = sym (ap last_addr chain ∙ last_addr-append h.blocks new);
          aligned = w.aligned;
          in_memory = bound;
        })
        (
          taken h.blocks,
          [],
          n,
          fits.0,
          sym (append-nil (taken h.blocks)),
          ap taken chain ∙ taken-append h.blocks (m.brk s) n,
        )
        (taken-Spaced start (link_block h.tail new h.blocks) (m.brk t) w.aligned tiled)

  at_least :
      (p size n : ℕ) (before after : List (ℕ × ℕ))
      → size ≤ n
      → Adds p n before after
      → Adds p size before after
  at_least p size n before after le (pre, post, k, le', e, e') = (pre, post, k, omega arith, e, e')

  found-Malloc :
      (start size : ℕ) (h : Heap) (s : S) (o : Option (ℕ × Heap))
      → m.Valid s
      → IsHeap start (m.brk s) h
      → size + 32 ≤ 2 ^ 31
      → Fit start (m.brk s) (round_size size) h.blocks o
      → Malloc start size h s (elim o [
        | some (p, h') ↦ (some p, h', s)
        | none ↦
            with_block m.sbrk (round_size size) h (m.sbrk (add32 header_size (round_size size)) s)
      ])
  found-Malloc start size h s _ valid w small (no_fit no_room) =
      let n = round_size size in
      let sum : add32 header_size n ≡ header_size + n = omega arith in
      rw sum (
        with_block-Malloc start size h s (m.sbrk (header_size + n) s) w small no_room refl
          (m.grows s (header_size + n) valid (omega arith) (omega arith)))
  found-Malloc start size h s _ valid w small (fits p h' f) =
      given p h' s valid
        (record { tiled = f.tiled; last = f.last; aligned = w.aligned; in_memory = w.in_memory })
        (at_least p size (round_size size) (taken h.blocks) (taken h'.blocks) (omega arith) f.adds)
        (taken-Spaced start h'.blocks (m.brk s) w.aligned f.tiled)

  -- `malloc` of a size of at most 2^31 - 32 on a chain of blocks without gaps up to the end of the heap.
  -- It returns a null pointer, with nothing changed, only for the size 0, or when every free block is too
  -- small and the heap does not grow. Else it returns the address of a payload of that size at least that
  -- was not in use, all others stay in use, the payloads are aligned to 8 bytes and do not overlap, and
  -- the blocks are again without gaps.
  pub malloc-Malloc :
      (start size : ℕ) (h : Heap) (s : S)
      → m.Valid s
      → IsHeap start (m.brk s) h
      → size + 32 ≤ 2 ^ 31
      → Malloc start size h s (malloc m.sbrk size h s)
  unfolding malloc
  malloc-Malloc start size h s valid w small = elim (Bool-cases (size == 0)) [
    | inl h' ↦ rw h' (refused (inl (ground arith)))
    | inr h' ↦ rw h' (
        found-Malloc start size h s (fit_loop (round_size size) h.blocks h.tail) valid w small (
          fit_loop-Fit (round_size size) start (m.brk s) h.blocks h.tail (omega arith) (omega arith)
            w.in_memory w.tiled w.last))
  ]

-- ===== src/User/Malloc/Mark.antt =====
-- The block that `free` of src/user/lib/moos.c marks.
use mo_os.Prelude.{
  ℕ, ◌+◌, ◌-◌, ◌≤◌, ◌<◌, ◌≡◌, refl, sym, ap, ◌∙◌, ◌⊎◌, inl, inr, true, false, List, [], ◌∷◌, ◌++◌,
  arith, ◌==◌, Bool-cases,
}
use mo_os.User.Malloc.{header_size, block_payload, set_free, Block}
use mo_os.User.Malloc.Blocks.{Tiled, last_addr, taken}

pub set_free-Tiled :
    (start : ℕ) (bs : List Block) (end addr : ℕ)
    → Tiled start bs end
    → Tiled start (set_free addr bs) end
unfolding set_free
set_free-Tiled start [] end addr t = t
set_free-Tiled start (b ∷ bs) end addr (at, whole, rest) =
    let ih = set_free-Tiled (start + header_size + b.size) bs end addr rest in
    elim (Bool-cases (b.addr == addr)) [
      | inl h ↦ rw h (at, whole, ih)
      | inr h ↦ rw h (at, whole, ih)
    ]

pub last_addr-set_free : (bs : List Block) (addr : ℕ) → last_addr (set_free addr bs) ≡ last_addr bs
unfolding set_free
last_addr-set_free [] addr = refl
last_addr-set_free (b ∷ []) addr = elim (Bool-cases (b.addr == addr)) [
  | inl h ↦ rw h refl
  | inr h ↦ rw h refl
]
last_addr-set_free (b ∷ c ∷ bs) addr = last_addr-set_free (c ∷ bs) addr

set_free_above :
    (start : ℕ) (bs : List Block) (end addr : ℕ)
    → addr < start
    → Tiled start bs end
    → set_free addr bs ≡ bs
unfolding set_free
set_free_above start [] end addr lt t = refl
set_free_above start (b ∷ bs) end addr lt (at, whole, rest) =
    let other : (b.addr == addr) ≡ false = ground arith in
    rw other (
      ap (λ l. b ∷ l)
        (set_free_above (start + header_size + b.size) bs end addr (omega arith) rest))

taken-free : (b : Block) (bs : List Block) → b.free ≡ true → taken (b ∷ bs) ≡ taken bs
taken-free b bs h = rw h refl

taken_used :
    (b : Block) (bs : List Block)
    → b.free ≡ false
    → taken (b ∷ bs) ≡ (block_payload b, b.size) ∷ taken bs
taken_used b bs h = rw h refl

-- Where the first element of a list stands.
abbrev Front : ℕ × ℕ → List (ℕ × ℕ) → List (ℕ × ℕ) → ℕ × ℕ → List (ℕ × ℕ) → Type 0
Front r l pre x post =
    ((pre ≡ []) × (r ≡ x) × (l ≡ post))
    ⊎ ((pre' : List (ℕ × ℕ)) × (pre ≡ r ∷ pre') × (l ≡ pre' ++ (x ∷ post)))

front :
    (r : ℕ × ℕ) (l pre : List (ℕ × ℕ)) (x : ℕ × ℕ) (post : List (ℕ × ℕ))
    → r ∷ l ≡ pre ++ (x ∷ post)
    → Front r l pre x post
front r l [] x post e = inl (refl, cc, cc)
front r l (q ∷ pre) x post e = inr (pre, ap (λ y. y ∷ pre) cc, cc)

taken_above :
    (start : ℕ) (bs : List Block) (end p n : ℕ) (pre post : List (ℕ × ℕ))
    → Tiled start bs end
    → taken bs ≡ pre ++ ((p, n) ∷ post)
    → start + header_size ≤ p
taken_above start [] end p n [] post t e = cc
taken_above start [] end p n (r ∷ pre) post t e = cc
taken_above start (b ∷ bs) end p n pre post (at, whole, rest) e =
    let up = taken_above (start + header_size + b.size) bs end p n in
    elim (Bool-cases (b.free)) [
      | inl h ↦ omega (arith, up pre post rest (sym (taken-free b bs h) ∙ e))
      | inr h ↦
          elim (front (block_payload b, b.size) (taken bs) pre (p, n) post
            (sym (taken_used b bs h) ∙ e)) [
              | inl (none_before, same, others) ↦
                  let here : block_payload b ≡ p = ap (λ (r : ℕ × ℕ). r.0) same in omega arith
              | inr (pre', before, others) ↦ omega (arith, up pre' post rest others)
            ]
    ]

-- The payload at `p` is no longer in use, and all others are.
pub taken-set_free :
    (start : ℕ) (bs : List Block) (end p n : ℕ) (pre post : List (ℕ × ℕ))
    → Tiled start bs end
    → taken bs ≡ pre ++ ((p, n) ∷ post)
    → taken (set_free (p - header_size) bs) ≡ pre ++ post
unfolding set_free
taken-set_free start [] end p n [] post t e = cc
taken-set_free start [] end p n (r ∷ pre) post t e = cc
taken-set_free start (b ∷ bs) end p n pre post (at, whole, rest) e =
    let next = start + header_size + b.size in
    elim (Bool-cases (b.free)) [
      | inl h ↦ elim (Bool-cases (b.addr == p - header_size)) [
        | inl g ↦ rw g (taken-set_free next bs end p n pre post rest (sym (taken-free b bs h) ∙ e))
        | inr g ↦
            rw (g, h) (taken-set_free next bs end p n pre post rest (sym (taken-free b bs h) ∙ e))
      ]
      | inr h ↦
          elim (front (block_payload b, b.size) (taken bs) pre (p, n) post
            (sym (taken_used b bs h) ∙ e)) [
              | inl (none_before, same, others) ↦
                  let at_p : block_payload b ≡ p = ap (λ (r : ℕ × ℕ). r.0) same in
                  let here : (b.addr == p - header_size) ≡ true = ground arith in
                  rw
                    (
                      here,
                      none_before,
                      set_free_above next bs end (p - header_size) (omega arith) rest,
                    )
                    others
              | inr (pre', before, others) ↦
                  let up = taken_above next bs end p n pre' post rest others in
                  let other : (b.addr == p - header_size) ≡ false = ground arith in
                  rw (other, h, before)
                    (ap (λ l. (block_payload b, b.size) ∷ l)
                      (taken-set_free next bs end p n pre' post rest others))
            ]
    ]

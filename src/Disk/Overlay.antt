-- ===== src/Disk/Overlay.antt =====
-- Bytes written over others, as src/drivers/disk/disk_stream.c does it sector by sector.
use mo_os.Prelude.{
  ℕ, zero, suc, ◌+◌, ◌-◌, ◌≤◌, ◌<◌, ◌≡◌, refl, ap, ◌∙◌, inl, inr, true, false, ◌&&◌, List, [], ◌∷◌,
  ◌++◌, arith, ltb, leb, ◌==◌, if◌then◌else◌, ==_iff, Bool-cases, length, get_or, take, drop,
  length-append, length-take, length-drop,
}
use mo_os.Libc.{Bytes, store}
use mo_os.Disk.{sector_size, bytes_from, store_bytes, patch}
use mo_os.Disk.Stream.{length-bytes_from}

-- The bytes of a list from address `a` on, and the old ones elsewhere.
abbrev pub overlay : ℕ → List ℕ → Bytes → Bytes
overlay a xs m b = if leb a b && ltb b (a + length xs) then get_or xs (b - a) 0 else m b

store_at : (a v : ℕ) (m : Bytes) (b : ℕ) → store a v m b ≡ (if b == a then v else m b)
store_at a v m b = refl

overlay-cons :
    (a x : ℕ) (xs : List ℕ) (m : Bytes) (b : ℕ)
    → overlay (a + 1) xs (store a x m) b ≡ overlay a (x ∷ xs) m b
overlay-cons a x xs m b = elim (Bool-cases (b == a)) [
  | inl h ↦
      let e = (==_iff b a).0 h in
      let zero_off : b - a ≡ 0 = omega arith in
      let before : leb (a + 1) b ≡ false = ground arith in
      let from : leb a b ≡ true = ground arith in
      let until : ltb b (a + length (x ∷ xs)) ≡ true = ground arith in
      rw (before, from, until, h, zero_off) refl
  | inr h ↦ elim (Bool-cases (leb (a + 1) b && ltb b (a + 1 + length xs))) [
    | inl inside ↦
        let from : leb a b ≡ true = ground arith in
        let until : ltb b (a + length (x ∷ xs)) ≡ true = ground arith in
        let place : b - a ≡ suc (b - (a + 1)) = ground arith in rw (inside, from, until, place) refl
    | inr outside ↦
        let out : (leb a b && ltb b (a + length (x ∷ xs))) ≡ false = ground arith in
        rw (outside, out, h) refl
  ]
]

pub store_bytes_lem :
    (a : ℕ) (xs : List ℕ) (m : Bytes) (b : ℕ) → store_bytes a xs m b ≡ overlay a xs m b
unfolding store_bytes
store_bytes_lem a [] m b =
    let out : (leb a b && ltb b (a + 0)) ≡ false = ground arith in rw out refl
store_bytes_lem a (x ∷ xs) m b =
    store_bytes_lem (a + 1) xs (store a x m) b ∙ overlay-cons a x xs m b

get_or-front :
    (new old : List ℕ) (i : ℕ)
    → length new ≤ length old
    → get_or (new ++ drop (length new) old) i 0
      ≡ (if ltb i (length new) then get_or new i 0 else get_or old i 0)
get_or-front [] old i le = ground arith
get_or-front (x ∷ new) [] i le = absurd (omega arith)
get_or-front (x ∷ new) (y ∷ old) zero le = ground arith
get_or-front (x ∷ new) (y ∷ old) (suc i) le = ground (arith, get_or-front new old i)

get_or-patch :
    (off : ℕ) (new old : List ℕ) (i : ℕ)
    → off + length new ≤ length old
    → get_or (patch off new old) i 0
      ≡ (if leb off i && ltb i (off + length new) then get_or new (i - off) 0 else get_or old i 0)
get_or-patch zero new old i le =
    let count : 0 + length new ≡ length new = omega arith in
    let whole : i - 0 ≡ i = omega arith in
    let from : leb 0 i ≡ true = ground arith in
    rw (count, whole, from) (get_or-front new old i (omega arith))
get_or-patch (suc off) new [] i le = absurd (omega arith)
get_or-patch (suc off) new (y ∷ old) zero le =
    let before : leb (suc off) 0 ≡ false = ground arith in rw before refl
get_or-patch (suc off) new (y ∷ old) (suc i) le =
    let count : suc off + length new ≡ suc (off + length new) = omega arith in
    rw count (get_or-patch off new old i (omega arith) ∙ ground arith)

length-patch :
    (off : ℕ) (new old : List ℕ)
    → off + length new ≤ length old
    → length (patch off new old) ≡ length old
length-patch off new old le = omega (
  arith,
  length-append (take off old) (new ++ drop (off + length new) old),
  length-append new (drop (off + length new) old),
  length-take off old,
  length-drop (off + length new) old,
)

get_or-bytes_from : (m : Bytes) (a n i : ℕ) → i < n → get_or (bytes_from m a n) i 0 ≡ m (a + i)
unfolding bytes_from
get_or-bytes_from m a zero i lt = absurd (omega arith)
get_or-bytes_from m a (suc n) zero lt = ap m (omega arith)
get_or-bytes_from m a (suc n) (suc i) lt =
    let next : a + 1 + i ≡ a + suc i = omega arith in
    get_or-bytes_from m (a + 1) n i (omega arith) ∙ ap m next

pub drop_nil : (n : ℕ) → drop {A = ℕ} n [] ≡ []
drop_nil zero = refl
drop_nil (suc n) = refl

patched_byte :
    (start off : ℕ) (new : List ℕ) (m : Bytes) (b : ℕ)
    → start ≤ b
    → (if leb off (b - start) && ltb (b - start) (off + length new)
        then get_or new (b - start - off) 0
        else m b)
      ≡ overlay (start + off) new m b
patched_byte start off new m b le =
    let from : leb off (b - start) ≡ leb (start + off) b = ground arith in
    let until : ltb (b - start) (off + length new) ≡ ltb b (start + off + length new) =
      ground arith in
    let place : b - start - off ≡ b - (start + off) = omega arith in rw (from, until, place) refl

-- A sector that is patched and written back.
pub overlay-patch :
    (start off : ℕ) (new : List ℕ) (m : Bytes) (b : ℕ)
    → off + length new ≤ sector_size
    → overlay start (patch off new (bytes_from m start sector_size)) m b
      ≡ overlay (start + off) new m b
overlay-patch start off new m b fits =
    let old = bytes_from m start sector_size in
    let size = length-bytes_from m start sector_size in
    let len = length-patch off new old (omega arith) ∙ size in
    elim (Bool-cases (leb start b && ltb b (start + sector_size))) [
      | inl inside ↦
          let here : m (start + (b - start)) ≡ m b = ap m (ground arith) in
          let old_byte = get_or-bytes_from m start sector_size (b - start) (ground arith) ∙ here in
          let byte = get_or-patch off new old (b - start) (omega arith) in
          rw (len, inside, byte, old_byte) (patched_byte start off new m b (ground arith))
      | inr outside ↦
          let out : (leb (start + off) b && ltb b (start + off + length new)) ≡ false =
            ground arith in
          rw (len, outside, out) refl
    ]

get_or-append_if :
    (xs ys : List ℕ) (i : ℕ)
    → get_or (xs ++ ys) i 0
      ≡ (if ltb i (length xs) then get_or xs i 0 else get_or ys (i - length xs) 0)
get_or-append_if [] ys i =
    let past : ltb i 0 ≡ false = ground arith in
    let whole : i - 0 ≡ i = omega arith in rw (past, whole) refl
get_or-append_if (x ∷ xs) ys zero = ground arith
get_or-append_if (x ∷ xs) ys (suc i) = get_or-append_if xs ys i ∙ ground arith

-- Two writes in a row are one.
pub overlay-append :
    (a : ℕ) (xs ys : List ℕ) (m : Bytes) (b : ℕ)
    → overlay (a + length xs) ys (overlay a xs m) b ≡ overlay a (xs ++ ys) m b
overlay-append a xs ys m b =
    let len = length-append xs ys in
    let byte = get_or-append_if xs ys (b - a) in
    elim (Bool-cases (leb (a + length xs) b && ltb b (a + length xs + length ys))) [
      | inl second ↦
          let both : (leb a b && ltb b (a + (length xs + length ys))) ≡ true = ground arith in
          let past : ltb (b - a) (length xs) ≡ false = ground arith in
          let place : b - a - length xs ≡ b - (a + length xs) = omega arith in
          rw (len, both, second, byte, past, place) refl
      | inr other ↦ elim (Bool-cases (leb a b && ltb b (a + length xs))) [
        | inl first ↦
            let both : (leb a b && ltb b (a + (length xs + length ys))) ≡ true = ground arith in
            let here : ltb (b - a) (length xs) ≡ true = ground arith in
            rw (len, both, other, first, byte, here) refl
        | inr neither ↦
            let out : (leb a b && ltb b (a + (length xs + length ys))) ≡ false = ground arith in
            rw (len, out, other, neither) refl
      ]
    ]

pub overlay_same :
    (a : ℕ) (xs : List ℕ) (m m' : Bytes) (b : ℕ) → m b ≡ m' b → overlay a xs m b ≡ overlay a xs m' b
overlay_same a xs m m' b e = rw e refl

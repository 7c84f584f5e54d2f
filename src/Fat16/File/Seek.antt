-- ===== src/Fat16/File/Seek.antt =====
-- `fat16_seek` of src/file_system/fat/fat16.c.
use mo_os.Prelude.{
  ℕ, ◌+◌, ◌^◌, ◌≤◌, ◌<◌, ◌≡◌, refl, sym, ap, ◌∙◌, ◌⊎◌, inl, inr, Bool, true, false, ◌||◌, arith,
  ltb, leb, ltb→lt, Bool-cases,
}
use mo_os.Prelude.Word.{u32_mod, add32}
use mo_os.Prelude.Status.{Result, io, ok, err}
use mo_os.Fat16.Volume.{Item}
use mo_os.Fat16.Directory.{filesize, file_item}
use mo_os.Fat16.File.{
  seek_base, seek_item, fat16_seek, Descriptor, SeekMode, seek_set, seek_cur, seek_end,
}

-- An offset forward or backward from the start, the position or the end, as the integer that its bit pattern
-- stands for, leads to `target`.
abbrev pub SeeksTo : ℕ → ℕ → ℕ → Type 0
SeeksTo base offset target =
    ((offset < 2 ^ 31) × (base + offset ≡ target))
    ⊎ ((2 ^ 31 ≤ offset) × (base + offset ≡ target + u32_mod))

seek_base-le : (mode : SeekMode) (pos size : ℕ) → pos ≤ size → seek_base mode pos size ≤ size
seek_base-le seek_set pos size le = omega arith
seek_base-le seek_cur pos size le = le
seek_base-le seek_end pos size le = omega arith

abbrev refused : ℕ → ℕ → Bool
refused size new_pos = leb (2 ^ 31) new_pos || ltb size new_pos

refused_inside : (size t : ℕ) → size < 2 ^ 31 → t ≤ size → refused size t ≡ false
refused_inside size t small le = ground arith

module _ (base size offset : ℕ) (small : size < 2 ^ 31) (base_le : base ≤ size)
    (word : offset < u32_mod) where
  inside_target :
      (target : ℕ)
      → SeeksTo base offset target
      → target ≤ size
      → (add32 base offset ≡ target) × (refused size (add32 base offset) ≡ false)
  inside_target target (inl (forward, to)) le =
      let at : add32 base offset ≡ target = omega arith in
      (at, rw at (refused_inside size target small le))
  inside_target target (inr (backward, to)) le =
      let at : add32 base offset ≡ target = omega arith in
      (at, rw at (refused_inside size target small le))

  beyond_target :
      (target : ℕ)
      → refused size (add32 base offset) ≡ true
      → SeeksTo base offset target
      → size < target
  beyond_target target off to = elim (Bool-cases (ltb size target)) [
    | inl h ↦ ltb→lt size target h
    | inr h ↦ cc (sym off ∙ (inside_target target to (ground arith)).1)
  ]

  accepted_target :
      refused size (add32 base offset) ≡ false
      → SeeksTo base offset (add32 base offset) × (add32 base offset ≤ size)
  accepted_target on =
      let le : add32 base offset ≤ size = ground arith in
      elim (Bool-cases (ltb offset (2 ^ 31))) [
        | inl h ↦ let forward = ltb→lt offset (2 ^ 31) h in (inl (forward, omega arith), le)
        | inr h ↦ let backward : 2 ^ 31 ≤ offset = ground arith in (inr (backward, omega arith), le)
      ]

-- A seek moves to a target in the file or at its end; else it fails and leaves the position.
pub data SeekOutcome (desc : Descriptor) (item : Item) (offset : ℕ) (mode : SeekMode)
    : Result (Unit {0}) × Descriptor → Type 0 where
  moved :
      (target : ℕ)
      → SeeksTo (seek_base mode desc.pos (filesize item)) offset target
      → target ≤ filesize item
      → SeekOutcome desc item offset mode (ok tt, record desc { pos = target })
  off_file :
      ((target : ℕ)
        → SeeksTo (seek_base mode desc.pos (filesize item)) offset target
        → filesize item < target)
      → SeekOutcome desc item offset mode (err io, desc)

-- `fat16_seek` on a file of less than 2^31 bytes moves to the target if that is a place in the file or its
-- end; any other target, before the start or past the end, is an error that leaves the position.
pub fat16_seek-SeekOutcome :
    (desc : Descriptor) (item : Item) (offset : ℕ) (mode : SeekMode)
    → desc.item ≡ file_item item
    → filesize item < 2 ^ 31
    → desc.pos ≤ filesize item
    → offset < u32_mod
    → SeekOutcome desc item offset mode (fat16_seek desc offset mode)
unfolding seek_item
fat16_seek-SeekOutcome desc item offset mode is_file small within word =
    let base = seek_base mode desc.pos (filesize item) in
    let base_le = seek_base-le mode desc.pos (filesize item) within in
    let same = ap (λ i. seek_item i desc offset mode) is_file in
    elim (Bool-cases (refused (filesize item) (add32 base offset))) [
      | inl off ↦
          let fails : fat16_seek desc offset mode ≡ (err io, desc) = same ∙ rw off refl in
          rw fails (
            off_file (λ target to.
              beyond_target base (filesize item) offset small base_le word target off to))
      | inr on ↦
          let (to, le) = accepted_target base (filesize item) offset small base_le word on in
          let moves : fat16_seek desc offset mode
              ≡ (ok tt, record desc { pos = add32 base offset }) =
            same ∙ rw on refl in
          rw moves (moved (add32 base offset) to le)
    ]

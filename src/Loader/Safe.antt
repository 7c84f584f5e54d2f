-- ===== src/Loader/Safe.antt =====
-- What elf_load of src/kernel/task/elf.c reads, and what it asks `copy` for.
use mo_os.Prelude.{
  ℕ, zero, suc, ◌+◌, ◌*◌, ◌≤◌, ◌<◌, ◌≡◌, refl, inl, inr, Bool, true, false, not, ◌||◌, Option, none,
  some, List, [], ◌∷◌, arith, ltb, leb, Bool-cases, length, get_or, take, drop,
}
use mo_os.Prelude.Status.{Result, ok, err}
use mo_os.Prelude.Word.{u16_mod, u32_mod, add32, sub32}
use mo_os.Disk.{u32_at}
use mo_os.Fat16.Volume.{u16_at}
use mo_os.Loader.{
  elf_header_size, program_header_size, file_window, elf_header_of, program_header_of,
  is_executable, table_end, is_skipped, segment_end, is_outside, is_writable, Image, with_segment,
  image_of, Copy, copy_rest, copy_segment, if_copied, segment_loop, elf_load, ElfHeader,
  ProgramHeader,
}

abbrev pub AllBytes : List ℕ → Type 0
AllBytes [] = Unit {0}
AllBytes (b ∷ bs) = (b < 256) × AllBytes bs

AllBytes-take : (n : ℕ) (bs : List ℕ) → AllBytes bs → AllBytes (take n bs)
AllBytes-take zero bs h = tt
AllBytes-take (suc n) [] h = tt
AllBytes-take (suc n) (b ∷ bs) (lt, h) = (lt, AllBytes-take n bs h)

AllBytes-drop : (n : ℕ) (bs : List ℕ) → AllBytes bs → AllBytes (drop n bs)
AllBytes-drop zero bs h = h
AllBytes-drop (suc n) [] h = tt
AllBytes-drop (suc n) (b ∷ bs) (lt, h) = AllBytes-drop n bs h

byte_bound : (bs : List ℕ) (i : ℕ) → AllBytes bs → get_or bs i 0 < 256
byte_bound [] i h = omega arith
byte_bound (b ∷ bs) zero (lt, h) = lt
byte_bound (b ∷ bs) (suc i) (lt, h) = byte_bound bs i h

u32_bound : (bs : List ℕ) (i : ℕ) → AllBytes bs → u32_at bs i < u32_mod
u32_bound bs i h = omega (
  arith,
  byte_bound bs i h,
  byte_bound bs (i + 1) h,
  byte_bound bs (i + 2) h,
  byte_bound bs (i + 3) h,
)

u16_bound : (bs : List ℕ) (i : ℕ) → AllBytes bs → u16_at bs i < u16_mod
u16_bound bs i h = omega (arith, byte_bound bs i h, byte_bound bs (i + 1) h)

le→leb : (a b : ℕ) → a ≤ b → leb a b ≡ true
le→leb a b h = ground arith

file_window_inside :
    (buf : List ℕ) (offset len : ℕ)
    → offset + len ≤ length buf
    → file_window buf offset len ≡ some (take len (drop offset buf))
unfolding file_window
file_window_inside buf offset len le = rw (le→leb (offset + len) (length buf) le) refl

-- The source of a copy lies in the file.
abbrev pub Inside : ℕ → Option ℕ → ℕ → Type 0
Inside size none len = Unit {0}
Inside size (some offset) len = offset + len ≤ size

-- Copies of bytes of the file, or of zeros, into the range from `min_addr` to `max_addr` keep `P`.
abbrev pub Keeps {ℓ} : {S : Type ℓ} → Copy S → (S → Type 0) → ℕ → ℕ → ℕ → Type ℓ
Keeps {S} copy P size min_addr max_addr =
    (vaddr : ℕ) (src : Option ℕ) (len : ℕ) (writable : Bool) (s : S)
    → min_addr ≤ vaddr
    → vaddr + len ≤ max_addr
    → Inside size src len
    → P s
    → P (copy vaddr src len writable s).1

-- The entry lies in the image, and the image in the range. There is no read outside of the file.
abbrev pub Loaded : ℕ → ℕ → Option (Result (ℕ × ℕ)) → Type 0
Loaded min_addr max_addr none = ⊥
Loaded min_addr max_addr (some (err e)) = Unit {0}
Loaded min_addr max_addr (some (ok (entry, end))) =
    (min_addr ≤ entry) × (entry < end) × (end ≤ max_addr)

abbrev ImageIn : ℕ → ℕ → ℕ → Image → Type 0
ImageIn min_addr max_addr entry (end, entry_loaded) =
    (min_addr ≤ end) × (end ≤ max_addr) × (entry_loaded ≡ true → (min_addr ≤ entry) × (entry < end))

-- The numbers of a program header have 32 bits.
abbrev Header32 : ProgramHeader → Type 0
Header32 ph =
    (ph.offset < u32_mod) × (ph.vaddr < u32_mod) × (ph.filesz < u32_mod) × (ph.memsz < u32_mod)

-- What the tests on a segment leave.
abbrev SegmentIn : ℕ → ℕ → ℕ → ProgramHeader → Type 0
SegmentIn size min_addr max_addr ph =
    (min_addr ≤ ph.vaddr)
    × (ph.vaddr + ph.memsz ≤ max_addr)
    × (segment_end ph ≡ ph.vaddr + ph.memsz)
    × (ph.filesz ≤ ph.memsz)
    × (ph.offset + ph.filesz ≤ size)

segment-In :
    (size min_addr max_addr : ℕ) (ph : ProgramHeader)
    → Header32 ph
    → is_outside size min_addr max_addr ph ≡ false
    → SegmentIn size min_addr max_addr ph
segment-In size min_addr max_addr ph (o, v, f, m) h =
    (ground arith, ground arith, ground arith, ground arith, ground arith)

image_of-Loaded :
    (min_addr max_addr entry : ℕ) (image : Image)
    → ImageIn min_addr max_addr entry image
    → Loaded min_addr max_addr (some (image_of entry image))
image_of-Loaded min_addr max_addr entry (end, true) (low, high, found) =
    let (a, b) = found refl in (a, b, high)
image_of-Loaded min_addr max_addr entry (end, false) h = tt

with_segment-ImageIn :
    (min_addr max_addr size entry : ℕ) (ph : ProgramHeader) (image : Image)
    → SegmentIn size min_addr max_addr ph
    → ImageIn min_addr max_addr entry image
    → ImageIn min_addr max_addr entry (with_segment entry ph image)
with_segment-ImageIn min_addr max_addr size entry ph (end, true) (a, b, c, d, e)
      (low, high, found) =
    let (from, before) = found refl in (ground arith, ground arith, λ h. (from, ground arith))
with_segment-ImageIn min_addr max_addr size entry ph (end, false) (a, b, c, d, e)
      (low, high, found) =
    (ground arith, ground arith, λ h. (ground arith, ground arith))

module _ {ℓ} {S : Type ℓ} (copy : Copy S) (P : S → Type 0) (buf : List ℕ) (min_addr max_addr : ℕ)
    (all_bytes : AllBytes buf) (size_bound : length buf < u32_mod) (max_bound : max_addr < u32_mod)
    (keeps : Keeps copy P (length buf) min_addr max_addr) where
  -- The state keeps `P`, and the image that comes out lies in the range.
  abbrev Fine : Option (Result (ℕ × ℕ)) × S → Type 0
  Fine (outcome, s) = P s × Loaded min_addr max_addr outcome

  copy_rest-P :
      (ph : ProgramHeader) (r : Result (Unit {0}) × S)
      → Header32 ph
      → SegmentIn (length buf) min_addr max_addr ph
      → P r.1
      → P (copy_rest copy ph r).1
  copy_rest-P ph (err e, s) h i p = p
  copy_rest-P ph (ok tt, s) (o, v, f, m) (a, b, c, d, e) p =
      elim (Bool-cases (ltb ph.filesz ph.memsz)) [
        | inl lt ↦ rw lt (
            keeps (add32 ph.vaddr ph.filesz) none (sub32 ph.memsz ph.filesz) (is_writable ph) s
              (ground arith) (ground arith) tt p)
        | inr ge ↦ rw ge p
      ]

  copy_segment-P :
      (ph : ProgramHeader) (s : S)
      → Header32 ph
      → SegmentIn (length buf) min_addr max_addr ph
      → P s
      → P (copy_segment copy ph s).1
  copy_segment-P ph s h (a, b, c, d, e) p =
      copy_rest-P ph (copy ph.vaddr (some ph.offset) ph.filesz (is_writable ph) s) h (a, b, c, d, e)
        (keeps ph.vaddr (some ph.offset) ph.filesz (is_writable ph) s a (omega arith) e p)

  header-32 :
      (offset : ℕ) → Header32 (program_header_of (take program_header_size (drop offset buf)))
  header-32 offset =
      let bytes = take program_header_size (drop offset buf) in
      let all =
        AllBytes-take program_header_size (drop offset buf) (AllBytes-drop offset buf all_bytes) in
      (u32_bound bytes 4 all, u32_bound bytes 8 all, u32_bound bytes 16 all, u32_bound bytes 20 all)

  if_copied-Fine :
      (r : Result (Unit {0}) × S) (f : S → Option (Result (ℕ × ℕ)) × S)
      → P r.1
      → ((s : S) → P s → Fine (f s))
      → Fine (if_copied copy r f)
  if_copied-Fine (err e, s) f p g = (p, tt)
  if_copied-Fine (ok tt, s) f p g = g s p

  segment_loop-Fine :
      (left entry offset : ℕ) (image : Image) (s : S)
      → offset + left * program_header_size ≤ length buf
      → ImageIn min_addr max_addr entry image
      → P s
      → Fine (segment_loop copy left buf min_addr max_addr entry offset image s)
  unfolding segment_loop
  segment_loop-Fine zero entry offset image s le i p =
      (p, image_of-Loaded min_addr max_addr entry image i)
  segment_loop-Fine (suc left) entry offset image s le i p =
      let bytes = take program_header_size (drop offset buf) in
      let ph = program_header_of bytes in
      let next : add32 offset program_header_size + left * program_header_size ≤ length buf =
        omega arith in
      rw (file_window_inside buf offset program_header_size (omega arith), segment_loop)
        (elim (Bool-cases (is_skipped ph)) [
          | inl skip ↦
              rw (skip, segment_loop)
                (segment_loop-Fine left entry (add32 offset program_header_size) image s next i p)
          | inr load ↦ elim (Bool-cases (is_outside (length buf) min_addr max_addr ph)) [
            | inl outside ↦ rw (load, segment_loop) (rw (outside, segment_loop) (p, tt))
            | inr inside ↦
                let h = header-32 offset in
                let seg = segment-In (length buf) min_addr max_addr ph h inside in
                rw (load, segment_loop)
                  (rw (inside, segment_loop)
                    (if_copied-Fine (copy_segment copy ph s)
                      (segment_loop copy left buf min_addr max_addr entry
                        (add32 offset program_header_size) (with_segment entry ph image))
                      (copy_segment-P ph s h seg p)
                      (λ s' p'.
                        segment_loop-Fine left entry (add32 offset program_header_size)
                          (with_segment entry ph image) s' next
                          (with_segment-ImageIn min_addr max_addr (length buf) entry ph image seg i)
                          p')))
          ]
        ])

  table_inside :
      (h : ElfHeader) (other : Bool)
      → h.phoff < u32_mod
      → h.phnum < u16_mod
      → (other || (ltb (table_end h) h.phoff || ltb (length buf) (table_end h))) ≡ false
      → h.phoff + h.phnum * program_header_size ≤ length buf
  table_inside h true off num e = absurd cc
  table_inside h false off num e = ground arith

  -- For a file of bytes below 4 GB and a range below 4 GB, when copies of bytes of the file or of zeros into
  -- the range keep `P`, so does `elf_load`: it asks for no other copies, whatever the file holds, and it reads
  -- nothing outside of the file. An image that it accepts lies in the range, with the entry inside of it.
  pub elf_load-Fine :
      (s : S)
      → P s
      → min_addr ≤ max_addr
      → P (elf_load copy buf min_addr max_addr s).1
        × Loaded min_addr max_addr (elf_load copy buf min_addr max_addr s).0
  unfolding elf_load
  elf_load-Fine s p le = elim (Bool-cases (ltb (length buf) elf_header_size)) [
    | inl small ↦ rw (small, elf_load) (p, tt)
    | inr large ↦
        let bytes = take elf_header_size (drop 0 buf) in
        let all = AllBytes-take elf_header_size (drop 0 buf) (AllBytes-drop 0 buf all_bytes) in
        let h = elf_header_of bytes in
        rw (large, elf_load)
          (rw (file_window_inside buf 0 elf_header_size (ground arith), elf_load)
            (elim (Bool-cases (
              not (is_executable h)
              || (ltb (table_end h) h.phoff || ltb (length buf) (table_end h)))) [
                | inl bad ↦ rw (bad, elf_load) (p, tt)
                | inr good ↦
                    rw (good, elf_load)
                      (segment_loop-Fine h.phnum h.entry h.phoff (min_addr, false) s
                        (table_inside h (not (is_executable h)) (u32_bound bytes 28 all)
                          (u16_bound bytes 44 all) good)
                        (omega arith, le, λ e. absurd cc) p)
              ]))
  ]

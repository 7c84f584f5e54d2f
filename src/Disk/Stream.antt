-- ===== src/Disk/Stream.antt =====
-- The streams of src/drivers/disk/disk_stream.c as an array of bytes.
use mo_os.Prelude.{
  ℕ, zero, suc, ◌+◌, ◌-◌, ◌*◌, ◌/◌, ◌%◌, ◌^◌, ◌≤◌, ◌<◌, ◌≡◌, refl, ap, ap₂, ◌∙◌, inl, inr, true,
  false, not, List, [], ◌∷◌, ◌++◌, arith, leb, ◌==◌, if◌then◌else◌, Bool-cases, length, take, drop,
  length-drop,
}
use mo_os.Prelude.Word.{add32}
use mo_os.Prelude.Status.{ok}
use mo_os.Libc.{Bytes}
use mo_os.Disk.{
  sector_size, bytes_from, lba_mod, disk_read, disk_write, disk_read_block, disk_write_block,
  sector_of, offset_of, offset_back, round_len, bytes_below, read_rounds, sector_before,
  write_rounds, Disk,
}

pub length-bytes_from : (m : Bytes) (a n : ℕ) → length (bytes_from m a n) ≡ n
unfolding bytes_from
length-bytes_from m a zero = refl
length-bytes_from m a (suc n) = ap suc (length-bytes_from m (a + 1) n)

drop-bytes_from : (m : Bytes) (k a n : ℕ) → drop k (bytes_from m a n) ≡ bytes_from m (a + k) (n - k)
unfolding bytes_from
drop-bytes_from m zero a n = ap₂ (λ (x y : ℕ). bytes_from m x y) (omega arith) (omega arith)
drop-bytes_from m (suc k) a zero =
    let none_left : 0 ≡ 0 - suc k = omega arith in
    ap (λ (y : ℕ). bytes_from m (a + suc k) y) none_left
drop-bytes_from m (suc k) a (suc n) =
    drop-bytes_from m k (a + 1) n ∙ ap₂ (λ (x y : ℕ). bytes_from m x y) (omega arith) (omega arith)

take-bytes_from : (m : Bytes) (k a n : ℕ) → k ≤ n → take k (bytes_from m a n) ≡ bytes_from m a k
unfolding bytes_from
take-bytes_from m zero a n le = refl
take-bytes_from m (suc k) a zero le = absurd (omega arith)
take-bytes_from m (suc k) a (suc n) le =
    ap (λ l. m a ∷ l) (take-bytes_from m k (a + 1) n (omega arith))

pub bytes_from-append :
    (m : Bytes) (a k n : ℕ) → bytes_from m a k ++ bytes_from m (a + k) n ≡ bytes_from m a (k + n)
unfolding bytes_from
bytes_from-append m a zero n = ap₂ (λ (x y : ℕ). bytes_from m x y) (omega arith) (omega arith)
bytes_from-append m a (suc k) n =
    let shift : bytes_from m (a + suc k) n ≡ bytes_from m (a + 1 + k) n =
      ap (λ (x : ℕ). bytes_from m x n) (omega arith) in
    let count : suc k + n ≡ suc (k + n) = omega arith in
    rw (shift, count) (ap (λ l. m a ∷ l) (bytes_from-append m (a + 1) k n))

-- The range ends below 2^31, and its sectors have numbers of 28 bits.
abbrev pub InDrive : Disk → ℕ → ℕ → Type 0
InDrive d pos len = (pos + len < 2 ^ 31) × (d.lba_offset + (pos + len) / sector_size < 2 ^ 28)

pub nonnegative : (pos : ℕ) → pos < 2 ^ 31 → leb (2 ^ 31) pos ≡ false
nonnegative pos low = ground arith

pub sector_number : (a b : ℕ) → a + b < 2 ^ 28 → add32 a b % lba_mod ≡ a + b
sector_number a b low = omega arith

abbrev pub at_pos : Disk → ℕ → ℕ
at_pos d pos = d.lba_offset * sector_size + pos

-- One round stays in its sector.
plain-bytes_from :
    (d : Disk) (pos t : ℕ)
    → d.lba_offset + pos / sector_size < 2 ^ 28
    → t ≤ sector_size - pos % sector_size
    → take t
        (drop (pos % sector_size) (disk_read (add32 d.lba_offset (pos / sector_size)) 1 d.bytes))
      ≡ bytes_from d.bytes (at_pos d pos) t
plain-bytes_from d pos t fits short =
    let lba = add32 d.lba_offset (pos / sector_size) % lba_mod in
    let number = sector_number d.lba_offset (pos / sector_size) fits in
    let here : lba * sector_size + pos % sector_size ≡ at_pos d pos = omega arith in
    ap (take t) (drop-bytes_from d.bytes (pos % sector_size) (lba * sector_size) (1 * sector_size))
    ∙ take-bytes_from d.bytes t (lba * sector_size + pos % sector_size)
        (1 * sector_size - pos % sector_size) (omega arith)
    ∙ ap (λ (x : ℕ). bytes_from d.bytes x t) here

sector-bytes_from :
    (d : Disk) (pos t : ℕ)
    → pos < 2 ^ 31
    → d.lba_offset + pos / sector_size < 2 ^ 28
    → t ≤ sector_size - pos % sector_size
    → take t (
        drop (offset_of pos) (
          bytes_below d.below (offset_back pos)
          ++ disk_read (add32 d.lba_offset (sector_of pos)) 1 d.bytes))
      ≡ bytes_from d.bytes (at_pos d pos) t
sector-bytes_from d pos t low fits short =
    rw (nonnegative pos low) (plain-bytes_from d pos t fits short)

pub disk_read_block-main :
    (d : Disk) (lba n : ℕ)
    → d.is_main ≡ true
    → disk_read_block d lba n ≡ ok (disk_read (add32 d.lba_offset lba) n d.bytes)
unfolding disk_read_block
disk_read_block-main d lba n main = rw main

pub round_len_bounds : (pos len : ℕ) → 0 < len → (0 < round_len pos len) × (round_len pos len ≤ len)
round_len_bounds pos len some_left = elim (Bool-cases (leb (2 ^ 31) pos)) [
  | inl h ↦ rw h (ground arith)
  | inr h ↦ rw h (let inside : pos % sector_size < sector_size = omega arith in ground arith)
]

pub round_len_in_sector :
    (pos len : ℕ) → pos < 2 ^ 31 → round_len pos len ≤ sector_size - pos % sector_size
round_len_in_sector pos len low = rw (nonnegative pos low) (ground arith)

pub read_rounds_lem :
    (fuel : ℕ) (d : Disk) (pos len : ℕ)
    → d.is_main ≡ true
    → InDrive d pos len
    → len ≤ fuel
    → read_rounds fuel d pos len ≡ ok (bytes_from d.bytes (at_pos d pos) len)
unfolding read_rounds
read_rounds_lem fuel d pos zero main fits enough = unfold bytes_from in refl
read_rounds_lem zero d pos (suc n) main fits enough = absurd (omega arith)
read_rounds_lem (suc fuel) d pos (suc n) main fits enough =
    let t = round_len pos (suc n) in
    let (below_end, in_drive) = fits in
    let (more, within) = round_len_bounds pos (suc n) (omega arith) in
    let short = round_len_in_sector pos (suc n) (omega arith) in
    let plus : add32 pos t ≡ pos + t = omega arith in
    let ih =
      read_rounds_lem fuel d (pos + t) (suc n - t) main (omega arith, omega arith) (omega arith) in
    let count : t + (suc n - t) ≡ suc n = omega arith in
    let next : at_pos d (pos + t) ≡ at_pos d pos + t = omega arith in
    rw (disk_read_block-main d (sector_of pos) 1 main, read_rounds)
      (rw (ap (λ (p : ℕ). read_rounds fuel d p (suc n - t)) plus ∙ ih, read_rounds)
        (ap ok (
          ap₂ (λ (x y : List ℕ). x ++ y)
            (sector-bytes_from d pos t (omega arith) (omega arith) short)
            (ap (λ (a : ℕ). bytes_from d.bytes a (suc n - t)) next)
          ∙ bytes_from-append d.bytes (at_pos d pos) t (suc n - t)
          ∙ ap (λ (c : ℕ). bytes_from d.bytes (at_pos d pos) c) count)))

pub disk_write_block-main :
    (d : Disk) (lba : ℕ) (buffer : List ℕ)
    → d.is_main ≡ true
    → disk_write_block d lba buffer
      ≡ (ok tt, record d { bytes = disk_write (add32 d.lba_offset lba) buffer d.bytes })
unfolding disk_write_block
disk_write_block-main d lba buffer main = rw main

-- What the sector is patched into.
pub sector_before-main :
    (d : Disk) (lba total : ℕ)
    → d.is_main ≡ true
    → sector_before d lba total
      ≡ ok (if not (total == sector_size) then disk_read (add32 d.lba_offset lba) 1 d.bytes else [])
sector_before-main d lba total main = elim (Bool-cases (total == sector_size)) [
  | inl h ↦ rw h refl
  | inr h ↦ rw h (disk_read_block-main d lba 1 main)
]

-- On the main disk a write does not fail.
pub write_rounds-main :
    (fuel : ℕ) (d : Disk) (pos : ℕ) (bytes : List ℕ)
    → d.is_main ≡ true
    → length bytes ≤ fuel
    → (d' : Disk) × (d'.is_main ≡ true) × (write_rounds fuel d pos bytes ≡ (ok tt, d'))
unfolding write_rounds
write_rounds-main fuel d pos [] main enough = (d, main, refl)
write_rounds-main zero d pos (b ∷ bs) main enough = absurd (omega arith)
write_rounds-main (suc fuel) d pos (b ∷ bs) main enough =
    let t = round_len pos (length (b ∷ bs)) in
    let (more, within) = round_len_bounds pos (length (b ∷ bs)) (omega arith) in
    let left = length-drop t (b ∷ bs) in
    rw (sector_before-main d (sector_of pos) t main, write_rounds)
      (rw (disk_write_block-main d (sector_of pos) _ main, write_rounds)
        (write_rounds-main fuel _ (add32 pos t) (drop t (b ∷ bs)) main (omega arith)))

pub bytes_from_ext :
    (f g : Bytes) (a b n : ℕ)
    → ((j : ℕ) → j < n → f (a + j) ≡ g (b + j))
    → bytes_from f a n ≡ bytes_from g b n
unfolding bytes_from
bytes_from_ext f g a b zero agree = refl
bytes_from_ext f g a b (suc n) agree =
    let first : f a ≡ g b = ap f (omega arith) ∙ agree 0 (omega arith) ∙ ap g (omega arith) in
    ap₂ (λ (x : ℕ) (l : List ℕ). x ∷ l) first
      (bytes_from_ext f g (a + 1) (b + 1) n (λ j lt.
        let left : a + 1 + j ≡ a + (j + 1) = omega arith in
        let right : b + (j + 1) ≡ b + 1 + j = omega arith in
        ap f left ∙ agree (j + 1) (omega arith) ∙ ap g right))

pub bytes_from_zero : (m : Bytes) (a : ℕ) → bytes_from m a 0 ≡ []
unfolding bytes_from
bytes_from_zero m a = refl

-- ===== src/Disk/Write.antt =====
-- What a write through a stream of src/drivers/disk/disk_stream.c leaves on the disk.
use mo_os.Prelude.{
  ℕ, zero, suc, ◌+◌, ◌-◌, ◌*◌, ◌/◌, ◌%◌, ◌^◌, ◌≤◌, ◌<◌, ◌≡◌, refl, ap, ap₂, ◌∙◌, inl, inr, true,
  false, not, ◌&&◌, List, [], ◌∷◌, ◌++◌, append-nil, arith, ltb, leb, ◌==◌, if◌then◌else◌, ==_iff,
  Bool-cases, length, take, drop, length-take, take-append-drop, length-drop,
}
use mo_os.Prelude.Word.{add32}
use mo_os.Prelude.Status.{Result, ok}
use mo_os.Libc.{Bytes}
use mo_os.Disk.{
  sector_size, bytes_from, store_bytes, lba_mod, disk_read, sector_of, offset_of, offset_back,
  round_len, disk_stream_read, patch, write_rounds, disk_stream_write, Disk,
}
use mo_os.Disk.Stream.{
  InDrive, nonnegative, sector_number, at_pos, round_len_bounds, round_len_in_sector,
  read_rounds_lem, disk_write_block-main, sector_before-main, bytes_from_ext,
}
use mo_os.Disk.Overlay.{
  overlay, store_bytes_lem, drop_nil, overlay-patch, overlay-append, overlay_same,
}

overlay-plain :
    (d : Disk) (pos : ℕ) (new : List ℕ) (t b : ℕ)
    → length new ≡ t
    → d.lba_offset + pos / sector_size < 2 ^ 28
    → t ≤ sector_size - pos % sector_size
    → store_bytes
        (add32 d.lba_offset (pos / sector_size) % lba_mod * sector_size)
        (patch (pos % sector_size) new (
          if not (t == sector_size)
          then disk_read (add32 d.lba_offset (pos / sector_size)) 1 d.bytes
          else []))
        d.bytes
        b
      ≡ overlay (at_pos d pos) new d.bytes b
overlay-plain d pos new t b len fits short =
    let start = add32 d.lba_offset (pos / sector_size) % lba_mod * sector_size in
    let number = sector_number d.lba_offset (pos / sector_size) fits in
    let here : start + pos % sector_size ≡ at_pos d pos = omega arith in
    elim (Bool-cases (t == sector_size)) [
      | inl whole ↦
          let full = (==_iff t sector_size).0 whole in
          let first : pos % sector_size ≡ 0 = omega arith in
          let start_here : start ≡ at_pos d pos = omega arith in
          rw (whole, first)
            (store_bytes_lem start (new ++ drop (0 + length new) []) d.bytes b
              ∙ ap₂ (λ (a : ℕ) (l : List ℕ). overlay a l d.bytes b) start_here
                  (ap (λ l. new ++ l) (drop_nil (0 + length new)) ∙ append-nil new))
      | inr part ↦ rw part (
          store_bytes_lem start
            (patch (pos % sector_size) new (bytes_from d.bytes start sector_size)) d.bytes b
          ∙ overlay-patch start (pos % sector_size) new d.bytes b (omega arith)
          ∙ ap (λ (a : ℕ). overlay a new d.bytes b) here)
    ]

-- One round writes its bytes and leaves all others.
overlay-round :
    (d : Disk) (pos : ℕ) (new : List ℕ) (t b : ℕ)
    → length new ≡ t
    → pos < 2 ^ 31
    → d.lba_offset + pos / sector_size < 2 ^ 28
    → t ≤ sector_size - pos % sector_size
    → store_bytes
        (add32 d.lba_offset (sector_of pos) % lba_mod * sector_size)
        (patch (offset_of pos) (drop (offset_back pos) new) (
          if not (t == sector_size)
          then disk_read (add32 d.lba_offset (sector_of pos)) 1 d.bytes
          else []))
        d.bytes
        b
      ≡ overlay (at_pos d pos) new d.bytes b
overlay-round d pos new t b len low fits short =
    rw (nonnegative pos low) (overlay-plain d pos new t b len fits short)

-- A write that succeeded: it stored the bytes from the position on, and no other byte changed.
pub record Stored (d : Disk) (pos : ℕ) (bytes : List ℕ) (r : Result (Unit {0}) × Disk)
    : Type 0 where
  pub success : r.0 ≡ ok tt
  pub main : r.1.is_main ≡ true
  pub offset : r.1.lba_offset ≡ d.lba_offset
  pub stored : (b : ℕ) → r.1.bytes b ≡ overlay (at_pos d pos) bytes d.bytes b

Stored-next :
    (d : Disk) (pos t : ℕ) (bytes : List ℕ) (m : Bytes) (r : Result (Unit {0}) × Disk)
    → length (take t bytes) ≡ t
    → ((b : ℕ) → m b ≡ overlay (at_pos d pos) (take t bytes) d.bytes b)
    → Stored (record d { bytes = m }) (pos + t) (drop t bytes) r
    → Stored d pos bytes r
Stored-next d pos t bytes m r len first s = record {
  success = s.success;
  main = s.main;
  offset = s.offset;
  stored = λ b.
      let next : d.lba_offset * sector_size + (pos + t) ≡ at_pos d pos + length (take t bytes) =
        omega arith in
      s.stored b
      ∙ overlay_same (d.lba_offset * sector_size + (pos + t)) (drop t bytes) m
          (overlay (at_pos d pos) (take t bytes) d.bytes) b (first b)
      ∙ ap (λ (a : ℕ). overlay a (drop t bytes) (overlay (at_pos d pos) (take t bytes) d.bytes) b)
          next
      ∙ overlay-append (at_pos d pos) (take t bytes) (drop t bytes) d.bytes b
      ∙ ap (λ l. overlay (at_pos d pos) l d.bytes b) (take-append-drop t bytes);
}

same_position :
    (fuel : ℕ) (d : Disk) (p q : ℕ) (bytes : List ℕ)
    → p ≡ q
    → Stored d q bytes (write_rounds fuel d q bytes)
    → Stored d q bytes (write_rounds fuel d p bytes)
same_position fuel d p q bytes e s = rw e s

write_rounds-Stored :
    (fuel : ℕ) (d : Disk) (pos : ℕ) (bytes : List ℕ)
    → d.is_main ≡ true
    → InDrive d pos (length bytes)
    → length bytes ≤ fuel
    → Stored d pos bytes (write_rounds fuel d pos bytes)
unfolding write_rounds
write_rounds-Stored fuel d pos [] main fits enough = record {
  success = refl;
  main = main;
  offset = refl;
  stored = λ b.
      let out : (leb (at_pos d pos) b && ltb b (at_pos d pos + 0)) ≡ false = ground arith in
      rw out refl;
}
write_rounds-Stored zero d pos (b ∷ bs) main fits enough = absurd (omega arith)
write_rounds-Stored (suc fuel) d pos (b ∷ bs) main fits enough =
    let t = round_len pos (length (b ∷ bs)) in
    let (below_end, in_drive) = fits in
    let (more, within) = round_len_bounds pos (length (b ∷ bs)) (omega arith) in
    let short = round_len_in_sector pos (length (b ∷ bs)) (omega arith) in
    let plus : add32 pos t ≡ pos + t = omega arith in
    let left = length-drop t (b ∷ bs) in
    let len : length (take t (b ∷ bs)) ≡ t = omega (arith, length-take t (b ∷ bs)) in
    rw (sector_before-main d (sector_of pos) t main, write_rounds)
      (rw (disk_write_block-main d (sector_of pos) _ main, write_rounds)
        (Stored-next d pos t (b ∷ bs) _ _ len
          (λ a. overlay-round d pos (take t (b ∷ bs)) t a len (omega arith) (omega arith) short)
          (same_position fuel _ _ _ _ plus (
            write_rounds-Stored fuel _ (pos + t) (drop t (b ∷ bs)) main (omega arith, omega arith)
              (omega arith)))))

-- A write of bytes to a position of the main disk, in a range that ends below 2^31 and whose sectors
-- have numbers of 28 bits, succeeds: the bytes stand from that position on, every other byte of the disk is as
-- before, and the disk still starts at the same sector.
pub disk_stream_write-Stored :
    (d : Disk) (pos : ℕ) (bytes : List ℕ)
    → d.is_main ≡ true
    → InDrive d pos (length bytes)
    → Stored d pos bytes (disk_stream_write d pos bytes)
disk_stream_write-Stored d pos bytes main fits =
    write_rounds-Stored (length bytes) d pos bytes main fits (omega arith)

overlay-tail :
    (a x : ℕ) (xs : List ℕ) (m : Bytes) (j : ℕ)
    → j < length xs
    → overlay a (x ∷ xs) m (a + 1 + j) ≡ overlay (a + 1) xs m (a + 1 + j)
overlay-tail a x xs m j lt =
    let inside : (leb a (a + 1 + j) && ltb (a + 1 + j) (a + suc (length xs))) ≡ true =
      ground arith in
    let inside_tail : (leb (a + 1) (a + 1 + j) && ltb (a + 1 + j) (a + 1 + length xs)) ≡ true =
      ground arith in
    let place : a + 1 + j - a ≡ suc j = omega arith in
    let place_tail : a + 1 + j - (a + 1) ≡ j = omega arith in
    rw (inside, inside_tail, place, place_tail) refl

-- What a list is read from where it was laid.
bytes_from-overlay :
    (a : ℕ) (xs : List ℕ) (m : Bytes) → bytes_from (overlay a xs m) a (length xs) ≡ xs
unfolding bytes_from
bytes_from-overlay a [] m = refl
bytes_from-overlay a (x ∷ xs) m =
    let inside : (leb a a && ltb a (a + suc (length xs))) ≡ true = ground arith in
    let none_left : a - a ≡ 0 = omega arith in
    let first : overlay a (x ∷ xs) m a ≡ x = rw (inside, none_left) refl in
    ap₂ (λ (y : ℕ) (l : List ℕ). y ∷ l) first
      (bytes_from_ext (overlay a (x ∷ xs) m) (overlay (a + 1) xs m) (a + 1) (a + 1) (length xs)
          (λ j lt. overlay-tail a x xs m j lt)
        ∙ bytes_from-overlay (a + 1) xs m)

-- What was written to a position of the main disk, in a range that ends below 2^31 and whose sectors have
-- numbers of 28 bits, is read back from there.
pub disk_stream_read-disk_stream_write :
    (d : Disk) (pos : ℕ) (bytes : List ℕ)
    → d.is_main ≡ true
    → InDrive d pos (length bytes)
    → disk_stream_read (disk_stream_write d pos bytes).1 pos (length bytes) ≡ ok bytes
disk_stream_read-disk_stream_write d pos bytes main fits =
    let w = disk_stream_write-Stored d pos bytes main fits in
    let d' = (disk_stream_write d pos bytes).1 in
    let place : at_pos d' pos ≡ at_pos d pos = ap (λ (x : ℕ). x * sector_size + pos) w.offset in
    let in_drive : InDrive d' pos (length bytes) = rw (w.offset) fits in
    read_rounds_lem (length bytes) d' pos (length bytes) w.main in_drive (omega arith)
    ∙ ap ok (
        ap (λ (x : ℕ). bytes_from d'.bytes x (length bytes)) place
        ∙ bytes_from_ext d'.bytes (overlay (at_pos d pos) bytes d.bytes) (at_pos d pos)
            (at_pos d pos) (length bytes) (λ j lt. w.stored (at_pos d pos + j))
        ∙ bytes_from-overlay (at_pos d pos) bytes d.bytes)

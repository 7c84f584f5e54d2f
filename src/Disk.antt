-- ===== src/Disk.antt =====
-- src/drivers/disk/disk.c and src/drivers/disk/disk_stream.c. The drive is the byte at each of its
-- addresses; the ports that carry its words are left out. A stream is its position, the pattern of an
-- int32_t: every user of a stream seeks first, so a read or a write takes the position as an argument.
pub mod Stream
pub mod Overlay
pub mod Write
mod Tests
use mo_os.Prelude.{
  ℕ, zero, suc, ◌+◌, ◌-◌, ◌*◌, ◌/◌, ◌%◌, ◌^◌, Bool, not, ◌&&◌, ◌||◌, List, [], ◌∷◌, ◌++◌, ltb, leb,
  ◌==◌, if◌then◌else◌, length, get_or, take, drop,
}
use mo_os.Prelude.Word.{add32, sub32}
use mo_os.Prelude.Status.{Result, io, ok, err}
use mo_os.Libc.{Bytes, store}

abbrev pub sector_size : ℕ
sector_size = 512

-- `is_main` tells whether the struct is `main_master_disk`, the one disk that there is. `below j` is the
-- byte of the stack that is `j` bytes in front of `local_buffer`, which a negative position reaches.
pub record Disk : Type 0 where
  pub bytes : Bytes
  pub below : Bytes
  pub is_main : Bool
  pub lba_offset : ℕ

-- The `n` bytes from address `a` on.
pub bytes_from : Bytes → ℕ → ℕ → List ℕ
bytes_from m a zero = []
bytes_from m a (suc n) = m a ∷ bytes_from m (a + 1) n

pub store_bytes : ℕ → List ℕ → Bytes → Bytes
store_bytes a [] m = m
store_bytes a (x ∷ xs) m = store_bytes (a + 1) xs (store a x m)

-- The port 0x1F6 takes the top byte of the number with the bits 5 to 7 set, so the top three bits of the
-- number are lost. Bit 28 chooses the drive: the bytes of the second one stand behind 2^28 sectors.
abbrev pub lba_mod : ℕ
lba_mod = 2 ^ 29

abbrev pub disk_read : ℕ → ℕ → Bytes → List ℕ
disk_read lba total_block m = bytes_from m (lba % lba_mod * sector_size) (total_block * sector_size)

abbrev pub disk_write : ℕ → List ℕ → Bytes → Bytes
disk_write lba buffer m = store_bytes (lba % lba_mod * sector_size) buffer m

pub disk_read_block : Disk → ℕ → ℕ → Result (List ℕ)
disk_read_block d lba total_block =
    if not d.is_main then err io else ok (disk_read (add32 d.lba_offset lba) total_block d.bytes)

-- The blocks are those of the buffer.
pub disk_write_block : Disk → ℕ → List ℕ → Result (Unit {0}) × Disk
disk_write_block d lba buffer =
    if not d.is_main
    then (err io, d)
    else (ok tt, record d { bytes = disk_write (add32 d.lba_offset lba) buffer d.bytes })

-- `disk_find_fat_partition`: the first entry of the table in sector 0 that holds a FAT16 partition.
abbrev pub u32_at : List ℕ → ℕ → ℕ
u32_at bs i =
    get_or bs i 0
    + 256 * get_or bs (i + 1) 0
    + 65536 * get_or bs (i + 2) 0
    + 16777216 * get_or bs (i + 3) 0

abbrev pub mbr_partition_table : ℕ
mbr_partition_table = 0x1be

abbrev pub mbr_signature : ℕ
mbr_signature = 0x1fe

abbrev pub is_fat_partition : List ℕ → ℕ → Bool
is_fat_partition sector at =
    let status = get_or sector at 0 in
    let type = get_or sector (at + 4) 0 in
    ((status == 0x00) || (status == 0x80))
    && ((type == 0x04) || (type == 0x06) || (type == 0x0e))
    && ltb 0 (u32_at sector (at + 8))

pub partition_loop : ℕ → List ℕ → ℕ → ℕ
partition_loop zero sector at = 0
partition_loop (suc rounds) sector at =
    let rest = partition_loop rounds sector (at + 16) in
    if is_fat_partition sector at then u32_at sector (at + 8) else rest

pub disk_find_fat_partition : Bytes → ℕ
disk_find_fat_partition m =
    let sector = disk_read 0 1 m in
    if not (get_or sector mbr_signature 0 == 0x55)
      || not (get_or sector (mbr_signature + 1) 0 == 0xaa)
    then 0
    else partition_loop 4 sector mbr_partition_table

abbrev pub is_negative : ℕ → Bool
is_negative pos = leb (2 ^ 31) pos

-- `sector_idx`, and `offset_idx` as what is above and what is below zero: the division of a negative
-- position rounds towards zero.
abbrev pub sector_of : ℕ → ℕ
sector_of pos = if is_negative pos then sub32 0 (sub32 0 pos / sector_size) else pos / sector_size

abbrev pub offset_of : ℕ → ℕ
offset_of pos = if is_negative pos then 0 else pos % sector_size

abbrev pub offset_back : ℕ → ℕ
offset_back pos = if is_negative pos then sub32 0 pos % sector_size else 0

-- The bytes of this round: up to the end of the sector.
abbrev pub round_len : ℕ → ℕ → ℕ
round_len pos len =
    let total = sector_size - offset_of pos + offset_back pos in
    if ltb len total then len else total

-- The `n` bytes in front of the buffer.
abbrev pub bytes_below : Bytes → ℕ → List ℕ
bytes_below m zero = []
bytes_below m (suc n) = m (suc n) ∷ bytes_below m n

-- `disk_stream_read`; each round takes a byte at least, so the fuel is the length.
pub read_rounds : ℕ → Disk → ℕ → ℕ → Result (List ℕ)
read_rounds fuel d pos zero = ok []
read_rounds zero d pos (suc n) = err io
read_rounds (suc fuel) d pos (suc n) =
    let total = round_len pos (suc n) in
    elim (disk_read_block d (sector_of pos) 1) [
      | err e ↦ err e
      | ok local_buffer ↦ elim (read_rounds fuel d (add32 pos total) (suc n - total)) [
        | err e ↦ err e
        | ok rest ↦ ok (
            take total
              (drop (offset_of pos) (bytes_below d.below (offset_back pos) ++ local_buffer))
            ++ rest)
      ]
    ]

abbrev pub disk_stream_read : Disk → ℕ → ℕ → Result (List ℕ)
disk_stream_read d pos len = read_rounds len d pos len

-- The sector around the bytes that are written. A whole one is not read first.
abbrev pub patch : ℕ → List ℕ → List ℕ → List ℕ
patch offset new old = take offset old ++ (new ++ drop (offset + length new) old)

abbrev pub sector_before : Disk → ℕ → ℕ → Result (List ℕ)
sector_before d sector_idx total =
    if not (total == sector_size) then disk_read_block d sector_idx 1 else ok []

-- The code goes on with the disk that a write leaves, unless the write failed.
abbrev pub unless_failed :
    Result (Unit {0}) × Disk → (Disk → Result (Unit {0}) × Disk) → Result (Unit {0}) × Disk
unless_failed (ok _, d) f = f d
unless_failed (err e, d) f = (err e, d)

-- `disk_stream_write`. The bytes that a negative position sends in front of the buffer are lost; a sector
-- that is then not read first is undefined behind the bytes, and is left as it was.
pub write_rounds : ℕ → Disk → ℕ → List ℕ → Result (Unit {0}) × Disk
write_rounds fuel d pos [] = (ok tt, d)
write_rounds zero d pos (b ∷ bs) = (err io, d)
write_rounds (suc fuel) d pos (b ∷ bs) =
    let total = round_len pos (length (b ∷ bs)) in
    let sector_idx = sector_of pos in
    elim (sector_before d sector_idx total) [
      | err e ↦ (err e, d)
      | ok local_buffer ↦
          unless_failed
            (disk_write_block d sector_idx
              (patch (offset_of pos) (drop (offset_back pos) (take total (b ∷ bs))) local_buffer))
            λ d'. write_rounds fuel d' (add32 pos total) (drop total (b ∷ bs))
    ]

abbrev pub disk_stream_write : Disk → ℕ → List ℕ → Result (Unit {0}) × Disk
disk_stream_write d pos bytes = write_rounds (length bytes) d pos bytes

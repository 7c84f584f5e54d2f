-- ===== src/Fat16/Mount.antt =====
-- `fat16_resolve` of src/file_system/fat/fat16.c: whether a disk holds a FAT16 volume, and what is kept of
-- it in memory.
use mo_os.Prelude.{ℕ, zero, suc, ◌*◌, ◌/◌, not, List, [], ◌∷◌, ◌==◌, if◌then◌else◌, get_or, drop}
use mo_os.Prelude.Status.{Result, io, signature, ok, err}
use mo_os.Disk.{sector_size, u32_at, disk_stream_read, Disk}
use mo_os.Fat16.Volume.{u16_at, Header, Directory, Volume}
use mo_os.Fat16.Directory.{fat16_get_root_directory}

abbrev pub fat16_signature : ℕ
fat16_signature = 0x29

-- `struct fat_h` has 62 bytes, of which the signature is byte 38.
abbrev pub header_size : ℕ
header_size = 62

pub header_of : List ℕ → Header
header_of bytes = record {
  sectors_per_cluster = get_or bytes 13 0;
  reserved_sectors = u16_at bytes 14;
  fat_copies = get_or bytes 16 0;
  root_dir_entries = u16_at bytes 17;
  number_of_sectors = u16_at bytes 19;
  sectors_per_fat = u16_at bytes 22;
  sectors_big = u32_at bytes 32;
}

-- The entries of the table in its bytes.
pub entries_of : ℕ → List ℕ → List ℕ
entries_of zero bytes = []
entries_of (suc n) bytes = u16_at bytes 0 ∷ entries_of n (drop 2 bytes)

abbrev pub no_directory : Directory
no_directory = record {
  items = [];
  total = 0;
  sector_pos = 0;
  ending_sector_pos = 0;
  first_cluster = 0;
}

abbrev pub bare_volume : Disk → Header → Volume
bare_volume disk header = record {
  disk = disk;
  header = header;
  root_directory = no_directory;
  next_free_cluster = 0;
  fat = [];
}

-- The table in memory, for a volume that has the rest.
pub load_table : Volume → Result Volume
load_table v =
    let fat_bytes = v.header.sectors_per_fat * sector_size in
    elim (disk_stream_read v.disk (v.header.reserved_sectors * sector_size) fat_bytes) [
      | err e ↦ err io
      | ok bytes ↦ ok (record v { fat = entries_of (fat_bytes / 2) bytes })
    ]

pub fat16_resolve : Disk → Result Volume
fat16_resolve disk = elim (disk_stream_read disk 0 header_size) [
  | err e ↦ err io
  | ok bytes ↦
      let v = bare_volume disk (header_of bytes) in
      if not (get_or bytes 38 0 == fat16_signature)
      then err signature
      else elim (fat16_get_root_directory v) [
        | err e ↦ err io
        | ok root ↦ load_table (record v { root_directory = root })
      ]
]

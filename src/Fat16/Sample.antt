-- ===== src/Fat16/Sample.antt =====
-- A small volume for the tests: four data clusters of one sector, and a file of two clusters.
use mo_os.Prelude.{◌%◌, true, [], ◌∷◌}
use mo_os.Disk.{Disk}
use mo_os.Fat16.Volume.{Item, Header, Directory, Volume}

abbrev pub sample_disk : Disk
sample_disk = record { bytes = λ a. a % 251; below = λ j. 0; is_main = true; lba_offset = 0 }

abbrev pub sample_header : Header
sample_header = record {
  sectors_per_cluster = 1;
  reserved_sectors = 1;
  fat_copies = 1;
  root_dir_entries = 16;
  number_of_sectors = 7;
  sectors_per_fat = 1;
  sectors_big = 0;
}

-- A file `A.B` of 600 bytes in clusters 2 and 4.
abbrev pub sample_item : Item
sample_item =
    b'A' ∷ 0x20 ∷ 0x20 ∷ 0x20 ∷ 0x20 ∷ 0x20 ∷ 0x20 ∷ 0x20 ∷ b'B' ∷ 0x20 ∷ 0x20 ∷ 0x20 ∷ 0 ∷ 0 ∷ 0
    ∷ 0 ∷ 0 ∷ 0 ∷ 0 ∷ 0 ∷ 0 ∷ 0 ∷ 0 ∷ 0 ∷ 0 ∷ 0 ∷ 2 ∷ 0 ∷ 0x58 ∷ 2 ∷ 0 ∷ 0 ∷ []

abbrev pub sample_root : Directory
sample_root = record {
  items = sample_item ∷ [];
  total = 1;
  sector_pos = 2;
  ending_sector_pos = 3;
  first_cluster = 0;
}

abbrev pub sample : Volume
sample = record {
  disk = sample_disk;
  header = sample_header;
  root_directory = sample_root;
  next_free_cluster = 0;
  fat = 0xfff8 ∷ 0xffff ∷ 4 ∷ 0xffff ∷ 0xffff ∷ 0 ∷ [];
}

-- ===== src/Disk/Tests.antt =====
-- The streams on a small disk: a write across the border of two sectors.
use mo_os.Prelude.{◌%◌, ◌≡◌, refl, true, false, [], ◌∷◌, arith, ◌==◌, if◌then◌else◌}
use mo_os.Prelude.Status.{io, ok, err}
use mo_os.Libc.{Bytes}
use mo_os.Disk.{
  bytes_from, disk_read_block, partition_loop, disk_find_fat_partition, read_rounds,
  disk_stream_read, disk_stream_write, Disk,
}
use mo_os.Disk.Write.{disk_stream_write-Stored, disk_stream_read-disk_stream_write, Stored}

abbrev small_disk : Disk
small_disk = record { bytes = λ a. a % 251; below = λ j. 0; is_main = true; lba_offset = 2 }

disk_stream_write-Stored_example :
    Stored small_disk 510 (1 ∷ 2 ∷ 3 ∷ []) (disk_stream_write small_disk 510 (1 ∷ 2 ∷ 3 ∷ []))
disk_stream_write-Stored_example =
    disk_stream_write-Stored small_disk 510 (1 ∷ 2 ∷ 3 ∷ []) refl (omega arith, omega arith)

disk_stream_read-disk_stream_write_example :
    disk_stream_read (disk_stream_write small_disk 510 (1 ∷ 2 ∷ 3 ∷ [])).1 510 3
    ≡ ok (1 ∷ 2 ∷ 3 ∷ [])
disk_stream_read-disk_stream_write_example =
    disk_stream_read-disk_stream_write small_disk 510 (1 ∷ 2 ∷ 3 ∷ []) refl
      (omega arith, omega arith)

-- A partition of type 6 that starts at sector 2048 in the second place of the table.
abbrev boot_sector : Bytes
boot_sector a =
    if a == 510
    then 0x55
    else if a == 511
    then 0xaa
    else if a == 462
    then 0x80
    else if a == 466
    then 6
    else if a == 471
    then 8
    else 0

found_partition : disk_find_fat_partition boot_sector ≡ 2048
unfolding disk_find_fat_partition partition_loop bytes_from
found_partition = refl

no_partition : disk_find_fat_partition (λ a. 0) ≡ 0
unfolding disk_find_fat_partition partition_loop bytes_from
no_partition = refl

-- A disk that is not the main one is refused.
other_disk : disk_stream_read (record small_disk { is_main = false }) 0 1 ≡ err io
unfolding read_rounds disk_read_block
other_disk = refl

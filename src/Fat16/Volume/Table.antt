-- ===== src/Fat16/Volume/Table.antt =====
-- The table of clusters of src/file_system/fat/fat16.c in memory, and what a write of it leaves.
use mo_os.Prelude.{
  ℕ, zero, suc, ◌+◌, ◌%◌, ◌^◌, ◌≤◌, ◌<◌, ◌≡◌, refl, ap, ◌∙◌, true, List, arith, lt→ltb, length,
  get_or, set, replicate,
}
use mo_os.Prelude.Word.{u16_mod, add32}
use mo_os.Prelude.Status.{Result, ok}
use mo_os.Disk.{sector_size, Disk}
use mo_os.Disk.Stream.{write_rounds-main}
use mo_os.Fat16.Volume.{
  and_then, write_disk, u16_bytes, cluster_pos, fat16_get_fat_entry, fat16_cluster_limit,
  write_copies, put_entry, fat16_set_fat_entry, zero_sectors, take_cluster, Volume,
}

-- A volume of the main disk that has the entries of all its clusters in memory.
pub record IsMounted (v : Volume) : Type 0 where
  pub main : v.disk.is_main ≡ true
  pub covers : fat16_cluster_limit v ≤ length v.fat
  pub small : length v.fat < 2 ^ 31
  pub some_clusters : 2 ≤ fat16_cluster_limit v

-- `r` is a success, after which only the bytes of the disk differ from `v`.
abbrev pub OnlyDisk : {A : Type 0} → Volume → A → Result A × Volume → Type 0
OnlyDisk v a r = (d : Disk) × (d.is_main ≡ true) × (r ≡ (ok a, record v { disk = d }))

pub fat16_get_fat_entry-memory :
    (cluster : ℕ) (v : Volume)
    → length v.fat < 2 ^ 31
    → cluster < length v.fat
    → fat16_get_fat_entry cluster v ≡ ok (get_or v.fat cluster 0)
unfolding fat16_get_fat_entry
fat16_get_fat_entry-memory cluster v small inside =
    let low = lt→ltb cluster (2 ^ 31) (omega arith) in
    let known = lt→ltb cluster (length v.fat) inside in rw (low, known) refl

write_disk-OnlyDisk :
    (pos : ℕ) (bytes : List ℕ) (v : Volume)
    → v.disk.is_main ≡ true
    → OnlyDisk v tt (write_disk pos bytes v)
write_disk-OnlyDisk pos bytes v main =
    let (d, still, written) =
      write_rounds-main (length bytes) v.disk pos bytes main (omega arith) in
    (d, still, rw written refl)

write_copies-OnlyDisk :
    (copies copy cluster value : ℕ) (v : Volume)
    → v.disk.is_main ≡ true
    → OnlyDisk v tt (write_copies copies copy cluster value v)
unfolding write_copies
write_copies-OnlyDisk zero copy cluster value v main = (v.disk, main, refl)
write_copies-OnlyDisk (suc copies) copy cluster value v main =
    let (d, still, written) = write_disk-OnlyDisk _ (u16_bytes value) v main in
    let (d', still', copied) =
      write_copies-OnlyDisk copies (copy + 1) cluster value (record v { disk = d }) still in
    (
      d',
      still',
      ap (λ r. and_then r (λ _. write_copies copies (copy + 1) cluster value)) written ∙ copied,
    )

pub fat16_set_fat_entry-OnlyDisk :
    (cluster value : ℕ) (v : Volume)
    → v.disk.is_main ≡ true
    → OnlyDisk (put_entry cluster (value % u16_mod) v) tt (fat16_set_fat_entry cluster value v)
unfolding fat16_set_fat_entry
fat16_set_fat_entry-OnlyDisk cluster value v main =
    write_copies-OnlyDisk v.header.fat_copies 0 cluster (value % u16_mod)
      (put_entry cluster (value % u16_mod) v) main

zero_sectors-OnlyDisk :
    (n pos : ℕ) (v : Volume) → v.disk.is_main ≡ true → OnlyDisk v tt (zero_sectors n pos v)
unfolding zero_sectors
zero_sectors-OnlyDisk zero pos v main = (v.disk, main, refl)
zero_sectors-OnlyDisk (suc n) pos v main =
    let (d, still, written) = write_disk-OnlyDisk pos (replicate sector_size 0) v main in
    let (d', still', zeroed) =
      zero_sectors-OnlyDisk n (add32 pos sector_size) (record v { disk = d }) still in
    (d', still', ap (λ r. zero_sectors n (add32 pos sector_size) r.1) written ∙ zeroed)

-- The volume after a cluster was taken.
abbrev pub with_taken : ℕ → Disk → Volume → Volume
with_taken cluster d v = record v {
  disk = d;
  fat = set v.fat cluster 0xffff;
  next_free_cluster = cluster + 1;
}

pub take_cluster_lem :
    (cluster : ℕ) (v : Volume)
    → v.disk.is_main ≡ true
    → (d : Disk) × (d.is_main ≡ true)
      × (take_cluster cluster v ≡ (ok cluster, with_taken cluster d v))
unfolding take_cluster
take_cluster_lem cluster v main =
    let (d, still, marked) = fat16_set_fat_entry-OnlyDisk cluster 0xffff v main in
    let v' = record (put_entry cluster 0xffff v) { disk = d } in
    let (d', still', zeroed) =
      zero_sectors-OnlyDisk v.header.sectors_per_cluster (cluster_pos v' cluster) v' still in
    (d', still', rw (marked, take_cluster) (rw (zeroed, take_cluster) refl))

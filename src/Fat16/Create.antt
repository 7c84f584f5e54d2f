-- ===== src/Fat16/Create.antt =====
-- New items in the directories of src/file_system/fat/fat16.c: where they go and what is written. The date
-- and the time, in the form of the items, come from the clock and are arguments.
mod Tests
use mo_os.Prelude.{
  ℕ, zero, suc, ◌+◌, ◌-◌, ◌*◌, ◌/◌, ◌%◌, true, false, not, ◌&&◌, Option, none, some, List, [], ◌∷◌,
  ◌++◌, ltb, leb, ◌==◌, if◌then◌else◌, length, set, replicate,
}
use mo_os.Prelude.Word.{add32, mul32}
use mo_os.Prelude.Status.{Result, no_memory, invalid_path, not_directory, not_found, ok, err}
use mo_os.Disk.{sector_size, patch}
use mo_os.Fat16.Volume.{
  item_size, Item, M, ◌>>=◌, ◌>>◌, pure, reading, write_disk, u16_bytes, cluster_bytes, cluster_pos,
  fat16_get_cluster_for_offset, fat16_cluster_at, Directory, Volume,
}
use mo_os.Fat16.ShortName.{fat16_make_short_name, fat16_short_name_checksum}
use mo_os.Fat16.LongName.{
  entry_deleted, first_byte, item_at, fat16_valid_long_name, lfn_count_of, lfn_entries,
  fat16_make_alias,
}
use mo_os.Fat16.Directory.{
  fat16_get_directory_entry, Lookup, file_item, directory_item, found, missing, null_access,
}

-- The fields of an item.
abbrev pub u32_bytes : ℕ → List ℕ
u32_bytes n = u16_bytes n ++ u16_bytes (n / 0x10000)

abbrev pub fat16_set_first_cluster : ℕ → Item → Item
fat16_set_first_cluster cluster item =
    patch 26 (u16_bytes cluster) (patch 20 (u16_bytes (cluster / 0x10000)) item)

abbrev pub set_filesize : ℕ → Item → Item
set_filesize size item = patch 28 (u32_bytes size) item

abbrev pub set_modified : ℕ → ℕ → Item → Item
set_modified date time item =
    patch 18 (u16_bytes date) (patch 24 (u16_bytes date) (patch 22 (u16_bytes time) item))

abbrev pub fat16_stamp_item : ℕ → ℕ → Item → Item
fat16_stamp_item date time item =
    set_modified date time (patch 16 (u16_bytes date) (patch 14 (u16_bytes time) item))

abbrev pub blank_item : Item
blank_item = replicate item_size 0

-- `fat16_dir_entry_pos`.
pub fat16_dir_entry_pos : Directory → ℕ → Volume → Result ℕ
fat16_dir_entry_pos directory idx v =
    let offset = idx * item_size in
    if directory.first_cluster == 0
    then ok (add32 (mul32 directory.sector_pos sector_size) offset)
    else elim (fat16_get_cluster_for_offset directory.first_cluster offset v) [
      | err e ↦ err e
      | ok cluster ↦ ok (add32 (cluster_pos v cluster) (offset % cluster_bytes v))
    ]

-- What a write at `pos` changes in the root directory that is kept in memory.
abbrev pub cached_root : Volume → ℕ → Item → Directory
cached_root v pos item =
    let root = v.root_directory in
    let start = root.sector_pos * sector_size in
    let idx = (pos - start) / item_size in
    let total =
      if not (first_byte item == 0x00) && leb root.total idx then idx + 1 else root.total in
    if leb start pos && ltb pos (start + v.header.root_dir_entries * item_size)
    then record root { items = set root.items idx item; total = total }
    else root

pub fat16_write_dir_entry : ℕ → Item → M (Unit {0})
fat16_write_dir_entry pos item = do
  write_disk pos item
  λ v. (ok tt, record v { root_directory = cached_root v pos item })

-- The search of `fat16_find_free_slot` for deleted items in a row.
pub run_loop : ℕ → ℕ → ℕ → Directory → ℕ → Option ℕ
run_loop zero i run directory count = none
run_loop (suc rounds) i run directory count =
    let run' = if first_byte (item_at directory i) == entry_deleted then run + 1 else 0 in
    elim (run' == count) [
      | true ↦ some (i + 1 - count)
      | false ↦ run_loop rounds (i + 1) run' directory count
    ]

pub fat16_find_free_slot : Directory → ℕ → M ℕ
fat16_find_free_slot directory count v =
    let idx = directory.total in
    let per_cluster = cluster_bytes v / item_size in
    elim (run_loop directory.total 0 0 directory count) [
      | some i ↦ (ok i, v)
      | none ↦
          if directory.first_cluster == 0
          then (if ltb (idx + count) v.header.root_dir_entries then ok idx else err no_memory, v)
          else let (r, first, v') =
              fat16_cluster_at directory.first_cluster ((idx + count) / per_cluster) true v in
            (elim r [ err e ↦ err e | ok _ ↦ ok idx ], v')
    ]

-- `struct fat16_parent`.
pub record Parent : Type 0 where
  pub directory : Directory
  pub name : List ℕ

-- The parts before the last one, and the last one.
pub split_last : List ℕ → List (List ℕ) → List (List ℕ) × List ℕ
split_last part [] = ([], part)
split_last part (next ∷ parts) = let (before, last) = split_last next parts in (part ∷ before, last)

-- A failure that a null access is not, or a value; `fat16_get_parent` may do the former.
pub data Outcome (A : Type 0) : Type 0 where
  done : Result A → Outcome A
  crashed : Outcome A

pub parent_of : Lookup → List ℕ → Outcome Parent
parent_of missing name = done (err not_found)
parent_of null_access name = crashed
parent_of (found (file_item item)) name = done (err not_directory)
parent_of (found (directory_item d)) name = done (ok (record { directory = d; name = name }))

-- A null path is empty.
pub fat16_get_parent : List (List ℕ) → Volume → Outcome Parent
fat16_get_parent [] v = done (err invalid_path)
fat16_get_parent (part ∷ []) v = done (ok (record { directory = v.root_directory; name = part }))
fat16_get_parent (part ∷ next ∷ parts) v =
    let (before, last) = split_last next parts in
    parent_of (fat16_get_directory_entry part before v) last

-- The long name entries and the 8.3 item of a new name.
pub name_item : Parent → Item → Result (List Item × Item)
name_item parent item = elim (fat16_make_short_name parent.name) [
  | ok (bytes, bits) ↦ ok ([], patch 12 (bits ∷ []) (patch 0 bytes item))
  | err _ ↦
      if not (fat16_valid_long_name parent.name)
      then err invalid_path
      else elim (fat16_make_alias parent.directory parent.name) [
        | err e ↦ err e
        | ok alias ↦
            let named = patch 12 (0 ∷ []) (patch 0 alias item) in
            let count = lfn_count_of parent.name in
            ok (lfn_entries count count (fat16_short_name_checksum named) parent.name, named)
      ]
]

-- The entries and then the item from `slot` on; the position of the item.
pub write_items : Directory → ℕ → List Item → Item → M ℕ
write_items directory slot [] item v =
    (reading (fat16_dir_entry_pos directory slot) >>= λ pos.
    fat16_write_dir_entry pos item >>= λ _. pure pos)
      v
write_items directory slot (entry ∷ entries) item v =
    (reading (fat16_dir_entry_pos directory slot) >>= λ pos.
    fat16_write_dir_entry pos entry >>= λ _. write_items directory (slot + 1) entries item)
      v

-- The position of the new item, and the item with its name.
pub fat16_create_item : Parent → Item → M (ℕ × Item)
fat16_create_item parent item = do
  (entries, named) ← reading (λ v. name_item parent item)
  slot ← fat16_find_free_slot parent.directory (length entries + 1)
  pos ← write_items parent.directory slot entries named
  pure (pos, named)

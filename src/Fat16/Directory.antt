-- ===== src/Fat16/Directory.antt =====
-- The directories of src/file_system/fat/fat16.c: how they are loaded and searched. The kernel heap does not
-- run out here. A path is the list of its parts.
pub mod Search
mod Tests
use mo_os.Prelude.Word.{add32}
use mo_os.Prelude.{
  ℕ, zero, suc, ◌+◌, ◌*◌, ◌/◌, ◌%◌, bit_and, Bool, true, false, not, ◌&&◌, ◌||◌, Option, none, some,
  List, [], ◌∷◌, ◌==◌, if◌then◌else◌, length, get_or, take, drop,
}
use mo_os.Prelude.Status.{Result, io, ok, err}
use mo_os.Libc.{tolower}
use mo_os.Disk.{sector_size, u32_at, disk_stream_read}
use mo_os.Fat16.Volume.{
  item_size, Item, u16_at, cluster_bytes, fat16_cluster_to_sector, fat16_read_internal, Header,
  Directory, Volume,
}
use mo_os.Fat16.ShortName.{fat16_get_full_relative_filename}
use mo_os.Fat16.LongName.{
  entry_deleted, file_long_name, first_byte, attribute, item_at, fat16_get_item_name,
}

abbrev pub file_volume_label : ℕ
file_volume_label = 0x08

abbrev pub file_subdirectory : ℕ
file_subdirectory = 0x10

abbrev pub file_archived : ℕ
file_archived = 0x20

abbrev pub has_bit : ℕ → ℕ → Bool
has_bit flags bit = not (bit_and flags bit == 0)

abbrev pub fat16_get_first_cluster : Item → ℕ
fat16_get_first_cluster item = u16_at item 20 * 0x10000 + u16_at item 26

abbrev pub filesize : Item → ℕ
filesize item = u32_at item 28

-- An array of items in the bytes of a read.
pub split_items : ℕ → List ℕ → List Item
split_items zero bytes = []
split_items (suc n) bytes = take item_size bytes ∷ split_items n (drop item_size bytes)

-- The loop of `fat16_get_total_items_for_directory`, with the items that are left.
pub count_items : ℕ → ℕ → Volume → Result ℕ
count_items zero pos v = ok 0
count_items (suc n) pos v = elim (disk_stream_read v.disk pos item_size) [
  | err e ↦ err io
  | ok item ↦ elim (first_byte item == 0x00) [
    | true ↦ ok 0
    | false ↦ elim (count_items n (add32 pos item_size) v) [
      | err e ↦ err e
      | ok total ↦ ok (total + 1)
    ]
  ]
]

-- `fat16_get_root_directory`.
abbrev pub root_sector : Header → ℕ
root_sector h = h.fat_copies * h.sectors_per_fat + h.reserved_sectors

abbrev pub sectors_of : ℕ → ℕ
sectors_of bytes =
    if not (bytes % sector_size == 0) then bytes / sector_size + 1 else bytes / sector_size

pub fat16_get_root_directory : Volume → Result Directory
fat16_get_root_directory v =
    let h = v.header in
    let size = h.root_dir_entries * item_size in
    let pos = root_sector h * sector_size in
    elim (count_items h.root_dir_entries pos v) [
      | err e ↦ err e
      | ok total ↦ elim (disk_stream_read v.disk pos size) [
        | err e ↦ err io
        | ok bytes ↦ ok (record {
          items = split_items h.root_dir_entries bytes;
          total = total;
          sector_pos = root_sector h;
          ending_sector_pos = root_sector h + sectors_of size;
          first_cluster = 0;
        })
      ]
    ]

-- `fat16_get_total_items_for_subdirectory`. A chain without a repetition ends before the fuel is spent.
pub count_chain : ℕ → ℕ → ℕ → Volume → ℕ
count_chain zero i cluster v = i
count_chain (suc fuel) i cluster v =
    elim (fat16_read_internal cluster (i * item_size) item_size v) [
      | err e ↦ i
      | ok item ↦ elim (first_byte item == 0x00) [
        | true ↦ i
        | false ↦ count_chain fuel (i + 1) cluster v
      ]
    ]

pub fat16_get_total_items_for_subdirectory : ℕ → Volume → ℕ
fat16_get_total_items_for_subdirectory cluster v =
    count_chain ((length v.fat + 0x10000) * cluster_bytes v + 1) 0 cluster v

-- `fat16_load_fat_directory`; `none` is a null pointer.
pub fat16_load_fat_directory : Item → Volume → Option Directory
fat16_load_fat_directory item v =
    let cluster = fat16_get_first_cluster item in
    let total = fat16_get_total_items_for_subdirectory cluster v in
    let empty : Directory = record {
      items = [];
      total = total;
      sector_pos = fat16_cluster_to_sector v cluster;
      ending_sector_pos = 0;
      first_cluster = cluster;
    } in
    if not (has_bit (attribute item) file_subdirectory)
    then none
    else if total == 0
    then some empty
    else elim (fat16_read_internal cluster 0 (total * item_size) v) [
      | err e ↦ none
      | ok bytes ↦ some (record empty { items = split_items total bytes })
    ]

-- `istrncmp (s, t, n) == 0`.
pub same_ignoring_case : ℕ → List ℕ → List ℕ → Bool
same_ignoring_case zero s t = true
same_ignoring_case (suc n) s t =
    let c1 = tolower (get_or s 0 0) in
    let c2 = tolower (get_or t 0 0) in
    let rest = same_ignoring_case n (drop 1 s) (drop 1 t) in
    if not (c1 == c2) || (c1 == 0) then c1 == c2 else rest

abbrev pub name_buffer : ℕ
name_buffer = 109

-- Deleted items, long name entries and volume labels have no name.
abbrev pub is_hidden : Item → Bool
is_hidden item =
    (first_byte item == entry_deleted)
    || (attribute item == file_long_name)
    || has_bit (attribute item) file_volume_label

abbrev pub is_named : Directory → ℕ → List ℕ → Bool
is_named directory i name =
    not (is_hidden (item_at directory i))
    && (same_ignoring_case name_buffer (fat16_get_item_name directory i name_buffer) name
        || same_ignoring_case name_buffer (fat16_get_full_relative_filename (item_at directory i))
            name)

-- The loop of `fat16_find_index` from item `i` on; `none` is -1.
pub find_loop : ℕ → ℕ → Directory → List ℕ → Option ℕ
find_loop zero i directory name = none
find_loop (suc rounds) i directory name = elim (is_named directory i name) [
  | true ↦ some i
  | false ↦ find_loop rounds (i + 1) directory name
]

pub fat16_find_index : Directory → List ℕ → Option ℕ
fat16_find_index directory name = find_loop directory.total 0 directory name

pub data FatItem : Type 0 where
  file_item : Item → FatItem
  directory_item : Directory → FatItem

-- `fat16_new_fat_item_for_directory_item`.
pub fat16_new_fat_item : Item → Volume → Option FatItem
fat16_new_fat_item item v =
    if has_bit (attribute item) file_subdirectory
    then elim (fat16_load_fat_directory item v) [ none ↦ none | some d ↦ some (directory_item d) ]
    else some (file_item item)

pub fat16_find_item_in_directory : Directory → List ℕ → Volume → Option FatItem
fat16_find_item_in_directory directory name v = elim (fat16_find_index directory name) [
  | none ↦ none
  | some i ↦ fat16_new_fat_item (item_at directory i) v
]

-- What a search for a path comes to. `null_access` is a read of the type of an item through a null pointer.
pub data Lookup : Type 0 where
  found : FatItem → Lookup
  missing null_access : Lookup

-- The loop of `fat16_get_directory_entry` over the parts that are left.
pub walk : List (List ℕ) → Option FatItem → Volume → Lookup
walk [] none v = missing
walk [] (some item) v = found item
walk (part ∷ parts) none v = null_access
walk (part ∷ parts) (some (file_item item)) v = missing
walk (part ∷ parts) (some (directory_item directory)) v =
    walk parts (fat16_find_item_in_directory directory part v) v

-- A missing first part ends the search before the loop.
pub fat16_get_directory_entry : List ℕ → List (List ℕ) → Volume → Lookup
fat16_get_directory_entry part parts v =
    elim (fat16_find_item_in_directory v.root_directory part v) [
      | none ↦ missing
      | some item ↦ walk parts (some item) v
    ]

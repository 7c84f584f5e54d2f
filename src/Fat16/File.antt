-- ===== src/Fat16/File.antt =====
-- The operations on files of src/file_system/fat/fat16.c. The date and the time are arguments, and the
-- kernel heap does not run out; a freed item is not modelled.
pub mod Seek
mod Tests
use mo_os.Prelude.{
  ℕ, zero, suc, ◌+◌, ◌/◌, ◌^◌, Bool, true, false, not, ◌&&◌, ◌||◌, none, some, List, [], ◌∷◌, ltb,
  leb, ◌==◌, if◌then◌else◌,
}
use mo_os.Prelude.Word.{add32, sub32, mul32}
use mo_os.Prelude.Status.{Result, io, invalid_arg, not_directory, not_found, ok, err}
use mo_os.Disk.{patch}
use mo_os.Fat16.Volume.{
  Item, M, ◌>>=◌, ◌>>◌, pure, reading, u16_at, fat16_read_internal, fat16_free_chain, Directory,
  Volume,
}
use mo_os.Fat16.ShortName.{dot}
use mo_os.Fat16.LongName.{first_byte, attribute, item_at, fat16_get_item_name}
use mo_os.Fat16.Directory.{
  file_subdirectory, file_archived, has_bit, fat16_get_first_cluster, filesize, is_hidden,
  fat16_find_index, fat16_get_directory_entry, FatItem, Lookup, file_item, directory_item, found,
  missing, null_access,
}
use mo_os.Fat16.Create.{
  fat16_set_first_cluster, set_filesize, fat16_stamp_item, blank_item, fat16_dir_entry_pos,
  fat16_write_dir_entry, fat16_create_item, Parent, Outcome, done, crashed,
}

pub data FileMode : Type 0 where
  mode_read mode_write mode_append : FileMode

abbrev pub is_read : FileMode → Bool
is_read mode_read = true
is_read mode_write = false
is_read mode_append = false

abbrev pub is_write : FileMode → Bool
is_write mode_read = false
is_write mode_write = true
is_write mode_append = false

pub record Descriptor : Type 0 where
  pub item : FatItem
  pub pos : ℕ
  pub mode : FileMode
  pub dir_entry_pos : ℕ

-- `fat16_open` to read.
pub descriptor_of : Lookup → Outcome Descriptor
descriptor_of missing = done (err io)
descriptor_of null_access = crashed
descriptor_of (found item) =
    done (ok (record { item = item; pos = 0; mode = mode_read; dir_entry_pos = 0 }))

pub fat16_open_for_read : List ℕ → List (List ℕ) → Volume → Outcome Descriptor
fat16_open_for_read part parts v = descriptor_of (fat16_get_directory_entry part parts v)

-- A file that is opened with "w" starts empty.
abbrev pub emptied : Item → Item
emptied item = set_filesize 0 (fat16_set_first_cluster 0 item)

pub truncate : FileMode → ℕ → Item → M Item
truncate mode pos entry v =
    if is_write mode && not (fat16_get_first_cluster entry == 0)
    then (((λ w. (ok tt, fat16_free_chain (fat16_get_first_cluster entry) w)) >>= λ _.
          fat16_write_dir_entry pos (emptied entry) >>= λ _. pure (emptied entry))
        v)
    else (ok entry, v)

-- The item of the name and where it is stored; a new one if there is none.
pub open_entry : ℕ → ℕ → Parent → M (ℕ × Item)
open_entry date time parent v =
    let directory = parent.directory in
    elim (fat16_find_index directory parent.name) [
      | some idx ↦
          let entry = item_at directory idx in
          if has_bit (attribute entry) file_subdirectory
          then (err invalid_arg, v)
          else (reading (fat16_dir_entry_pos directory idx) >>= λ pos. pure (pos, entry)) v
      | none ↦
          fat16_create_item parent
            (fat16_stamp_item date time (patch 11 (file_archived ∷ []) blank_item)) v
    ]

-- `fat16_open_for_write` once the parent is found.
pub open_in : ℕ → ℕ → FileMode → Parent → M Descriptor
open_in date time mode parent = do
  (pos, entry) ← open_entry date time parent
  entry' ← truncate mode pos entry
  pure (record {
    item = file_item entry';
    pos = (if is_read mode || is_write mode then 0 else filesize entry');
    mode = mode;
    dir_entry_pos = pos;
  })

-- The loop of `fat16_read`: the members that were read and their bytes.
pub fat16_read : Descriptor → ℕ → ℕ → Volume → Result (ℕ × List ℕ) × Descriptor
fat16_read desc size nmemb v = elim (desc.item) [
  | directory_item d ↦ (err invalid_arg, desc)
  | file_item item ↦
      let fit = sub32 (filesize item) desc.pos / size in
      let members = if ltb nmemb fit then nmemb else fit in
      if members == 0
      then (ok (0, []), desc)
      else elim (fat16_read_internal (fat16_get_first_cluster item) desc.pos (mul32 members size)
          v) [
            | err e ↦ (err e, desc)
            | ok bytes ↦
                (ok (members, bytes), record desc { pos = add32 desc.pos (mul32 members size) })
          ]
]

pub data SeekMode : Type 0 where
  seek_set seek_cur seek_end : SeekMode

abbrev pub seek_base : SeekMode → ℕ → ℕ → ℕ
seek_base seek_set pos size = 0
seek_base seek_cur pos size = pos
seek_base seek_end pos size = size

-- `offset` is an int32_t as its bit pattern. The new position is negative from 2^31 on.
pub seek_item : FatItem → Descriptor → ℕ → SeekMode → Result (Unit {0}) × Descriptor
seek_item (directory_item d) desc offset seek_mode = (err invalid_arg, desc)
seek_item (file_item item) desc offset seek_mode =
    let new_pos = add32 (seek_base seek_mode desc.pos (filesize item)) offset in
    if leb (2 ^ 31) new_pos || ltb (filesize item) new_pos
    then (err io, desc)
    else (ok tt, record desc { pos = new_pos })

abbrev pub fat16_seek : Descriptor → ℕ → SeekMode → Result (Unit {0}) × Descriptor
fat16_seek desc offset seek_mode = seek_item desc.item desc offset seek_mode

-- The size and whether the file is read only.
pub fat16_stat : Descriptor → Result (ℕ × Bool)
fat16_stat desc = elim (desc.item) [
  | directory_item d ↦ err invalid_arg
  | file_item item ↦ ok (filesize item, has_bit (attribute item) 0x01)
]

pub record Dirent : Type 0 where
  pub name : List ℕ
  pub size : ℕ
  pub is_dir : Bool
  pub date : ℕ
  pub time : ℕ

abbrev pub is_listed : Item → Bool
is_listed item = not (is_hidden item) && not (first_byte item == dot)

abbrev pub dirent_of : Directory → ℕ → Dirent
dirent_of directory i =
    let item = item_at directory i in
    record {
      name = fat16_get_item_name directory i 64;
      size = filesize item;
      is_dir = has_bit (attribute item) file_subdirectory;
      date = u16_at item 24;
      time = u16_at item 22;
    }

-- The loop of `fat16_listdir`, with the items and the room that are left.
pub list_loop : ℕ → ℕ → ℕ → Directory → List Dirent
list_loop zero i room directory = []
list_loop (suc rounds) i zero directory = []
list_loop (suc rounds) i (suc room) directory = elim (is_listed (item_at directory i)) [
  | false ↦ list_loop rounds (i + 1) (suc room) directory
  | true ↦ dirent_of directory i ∷ list_loop rounds (i + 1) room directory
]

abbrev pub list_of : Directory → ℕ → List Dirent
list_of directory max = list_loop directory.total 0 max directory

pub listed : Lookup → ℕ → Outcome (List Dirent)
listed missing max = done (err not_found)
listed null_access max = crashed
listed (found (file_item item)) max = done (err not_directory)
listed (found (directory_item d)) max = done (ok (list_of d max))

-- The null path is that of the root directory.
pub fat16_listdir : List (List ℕ) → ℕ → Volume → Outcome (List Dirent)
fat16_listdir [] max v = done (ok (list_of v.root_directory max))
fat16_listdir (part ∷ parts) max v = listed (fat16_get_directory_entry part parts v) max

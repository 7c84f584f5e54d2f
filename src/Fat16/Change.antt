-- ===== src/Fat16/Change.antt =====
-- What src/file_system/fat/fat16.c writes: the data of files, removed items and new directories.
use mo_os.Prelude.{
  ℕ, zero, suc, ◌+◌, ◌-◌, ◌/◌, ◌%◌, Bool, true, not, ◌&&◌, none, some, List, [], ◌∷◌, ◌++◌, ltb,
  ◌==◌, if◌then◌else◌, length, take, drop,
}
use mo_os.Prelude.Word.{add32}
use mo_os.Prelude.Status.{Result, io, invalid_arg, not_found, dir_not_empty, file_exists, ok, err}
use mo_os.Disk.{patch}
use mo_os.Fat16.Volume.{
  Item, M, ◌>>=◌, ◌>>◌, pure, reading, write_disk, cluster_bytes, cluster_pos, chunk_len,
  fat16_alloc_cluster, fat16_free_chain, fat16_cluster_at, Directory, Volume,
}
use mo_os.Fat16.ShortName.{dot, pad}
use mo_os.Fat16.LongName.{
  entry_deleted, file_long_name, first_byte, attribute, item_at, fat16_lfn_count,
}
use mo_os.Fat16.Directory.{
  file_subdirectory, has_bit, fat16_get_first_cluster, filesize, fat16_load_fat_directory,
  fat16_find_index, file_item, directory_item,
}
use mo_os.Fat16.Create.{
  fat16_set_first_cluster, set_filesize, set_modified, fat16_stamp_item, blank_item,
  fat16_dir_entry_pos, fat16_write_dir_entry, fat16_get_parent, fat16_create_item, Parent, Outcome,
  done, crashed,
}
use mo_os.Fat16.File.{is_read, open_in, FileMode, Descriptor}

-- Where the loop of `fat16_write` ends: its result, the item, the position and the volume.
pub record Written : Type 0 where
  pub res : Result (Unit {0})
  pub item : Item
  pub pos : ℕ
  pub volume : Volume

abbrev pub written : Result (Unit {0}) → Item → ℕ → Volume → Written
written r item pos v = record { res = r; item = item; pos = pos; volume = v }

-- The loop over the clusters, for the bytes that are left. A round writes a byte at least, so the fuel is
-- their number.
pub write_loop : ℕ → Item → ℕ → List ℕ → Volume → Written
write_loop fuel item pos [] v = written (ok tt) item pos v
write_loop zero item pos (b ∷ bs) v = written (err io) item pos v
write_loop (suc fuel) item pos (b ∷ bs) v =
    let (r, first, v') =
      fat16_cluster_at (fat16_get_first_cluster item) (pos / cluster_bytes v) true v in
    let item' = fat16_set_first_cluster first item in
    let chunk = chunk_len v pos (length (b ∷ bs)) in
    elim r [
      | err e ↦ written (err e) item' pos v'
      | ok cluster ↦
          let (r', v'') =
            write_disk (add32 (cluster_pos v' cluster) (pos % cluster_bytes v))
              (take chunk (b ∷ bs)) v' in
          elim r' [
            | err e ↦ written (err e) item' pos v''
            | ok _ ↦ write_loop fuel item' (add32 pos chunk) (drop chunk (b ∷ bs)) v''
          ]
    ]

-- The size never shrinks.
abbrev pub grown : ℕ → Item → Item
grown pos item = if ltb (filesize item) pos then set_filesize pos item else item

abbrev pub both_ok : Result (Unit {0}) → Result (Unit {0}) → ℕ → Result ℕ
both_ok (err e) r n = err e
both_ok (ok _) (err e) n = err e
both_ok (ok _) (ok _) n = ok n

-- `input` has `size * nmemb` bytes.
pub fat16_write : ℕ → ℕ → Descriptor → List ℕ → ℕ → Volume → Result ℕ × Descriptor × Volume
fat16_write date time desc input nmemb v = elim (desc.item) [
  | directory_item d ↦ (err invalid_arg, desc, v)
  | file_item item ↦
      if is_read desc.mode
      then (err invalid_arg, desc, v)
      else let w = write_loop (length input) item desc.pos input v in
        let item' = set_modified date time (grown w.pos w.item) in
        let (dir_res, v') = fat16_write_dir_entry desc.dir_entry_pos item' w.volume in
        (both_ok w.res dir_res nmemb, record desc { item = file_item item'; pos = w.pos }, v')
]

-- The loop of `fat16_directory_is_empty`.
abbrev pub is_content : Item → Bool
is_content item =
    not (first_byte item == entry_deleted)
    && not (first_byte item == dot)
    && not (attribute item == file_long_name)

pub no_content : ℕ → ℕ → Directory → Bool
no_content zero i directory = true
no_content (suc rounds) i directory =
    not (is_content (item_at directory i)) && no_content rounds (i + 1) directory

pub fat16_directory_is_empty : Item → Volume → Bool
fat16_directory_is_empty item v = elim (fat16_load_fat_directory item v) [
  | none ↦ true
  | some directory ↦ no_content directory.total 0 directory
]

abbrev pub deleted : Item → Item
deleted item = patch 0 (entry_deleted ∷ []) item

-- The entries of the long name, with those that are left, up to item `i`.
pub delete_names : ℕ → ℕ → Directory → M (Unit {0})
delete_names zero i directory = pure tt
delete_names (suc rounds) i directory = λ v.
    (reading (fat16_dir_entry_pos directory i) >>= λ pos.
    fat16_write_dir_entry pos (deleted (item_at directory i)) >>= λ _.
    delete_names rounds (i + 1) directory)
      v

pub remove_item : Directory → ℕ → M (Unit {0})
remove_item directory idx = do
  let item = item_at directory idx
  pos ← reading (fat16_dir_entry_pos directory idx)
  let lfn_count = fat16_lfn_count directory idx
  delete_names lfn_count (idx - lfn_count) directory
  (λ w. (ok tt, fat16_free_chain (fat16_get_first_cluster item) w))
  fat16_write_dir_entry pos (deleted item)

-- `fat16_remove` once the parent is found.
pub remove_in : Parent → M (Unit {0})
remove_in parent v = elim (fat16_find_index parent.directory parent.name) [
  | none ↦ (err not_found, v)
  | some idx ↦
      let item = item_at parent.directory idx in
      if has_bit (attribute item) file_subdirectory && not (fat16_directory_is_empty item v)
      then (err dir_not_empty, v)
      else remove_item parent.directory idx v
]

-- `.` or `..`, whose name is padded by spaces.
abbrev pub dot_item : List ℕ → ℕ → ℕ → ℕ → Item
dot_item name date time cluster = fat16_set_first_cluster cluster (
    fat16_stamp_item date time
      (patch 11 (file_subdirectory ∷ []) (patch 0 (pad 11 name) blank_item)))

abbrev pub new_directory : ℕ → ℕ → ℕ → Item
new_directory date time cluster =
    fat16_stamp_item date time
      (fat16_set_first_cluster cluster (patch 11 (file_subdirectory ∷ []) blank_item))

-- A failure of the last step frees the cluster again; a failure to write the first items does not.
abbrev pub or_free : ℕ → Result (ℕ × Item) × Volume → Result (Unit {0}) × Volume
or_free cluster (ok _, v) = (ok tt, v)
or_free cluster (err e, v) = (err e, fat16_free_chain cluster v)

-- `fat16_mkdir` once the parent is found.
pub mkdir_in : ℕ → ℕ → Parent → M (Unit {0})
mkdir_in date time parent v = elim (fat16_find_index parent.directory parent.name) [
  | some idx ↦ (err file_exists, v)
  | none ↦
      (fat16_alloc_cluster >>= λ cluster.
      (λ w.
        write_disk (cluster_pos w cluster)
          (dot_item (dot ∷ []) date time cluster
            ++ dot_item (dot ∷ dot ∷ []) date time parent.directory.first_cluster)
          w)
      >>= λ _ w. or_free cluster (fat16_create_item parent (new_directory date time cluster) w))
        v
]

-- The operations on a path, which begin with its parent.
abbrev pub with_parent :
    {A : Type 0} → Outcome Parent → (Parent → M A) → Volume → Outcome A × Volume
with_parent (done (ok parent)) f v = let (r, v') = f parent v in (done r, v')
with_parent (done (err e)) f v = (done (err e), v)
with_parent crashed f v = (crashed, v)

pub fat16_open_for_write : ℕ → ℕ → List (List ℕ) → FileMode → Volume → Outcome Descriptor × Volume
fat16_open_for_write date time path mode v =
    with_parent (fat16_get_parent path v) (open_in date time mode) v

pub fat16_remove : List (List ℕ) → Volume → Outcome (Unit {0}) × Volume
fat16_remove path v = with_parent (fat16_get_parent path v) remove_in v

pub fat16_mkdir : ℕ → ℕ → List (List ℕ) → Volume → Outcome (Unit {0}) × Volume
fat16_mkdir date time path v = with_parent (fat16_get_parent path v) (mkdir_in date time) v

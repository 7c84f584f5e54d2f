-- ===== src/Fat16/Volume.antt =====
-- The volume of src/file_system/fat/fat16.c: its header, the table of clusters that is kept in memory, and
-- the chains in it. Integers of the code are bit patterns of 32 bits; a volume is smaller than 2^31 bytes.
pub mod Table
pub mod Alloc
pub mod Chain
pub mod Contents
mod Tests
use mo_os.Prelude.{
  ℕ, zero, suc, ◌+◌, ◌-◌, ◌*◌, ◌/◌, ◌%◌, ◌^◌, Bool, true, false, not, ◌&&◌, ◌||◌, List, [], ◌∷◌,
  ◌++◌, ltb, leb, ◌==◌, if◌then◌else◌, length, get_or, set, replicate,
}
use mo_os.Prelude.Word.{u16_mod, add32, sub32, mul32}
use mo_os.Prelude.Status.{Error, Result, io, no_memory, ok, err}
use mo_os.Disk.{sector_size, is_negative, disk_stream_read, disk_stream_write, Disk}

abbrev pub end_of_chain : ℕ
end_of_chain = 0xfff8

abbrev pub bad_sector : ℕ
bad_sector = 0xfff7

abbrev pub reserved_start : ℕ
reserved_start = 0xfff0

abbrev pub item_size : ℕ
item_size = 32

-- `struct fat_header`, as far as the code reads it.
pub record Header : Type 0 where
  pub sectors_per_cluster : ℕ
  pub reserved_sectors : ℕ
  pub fat_copies : ℕ
  pub root_dir_entries : ℕ
  pub number_of_sectors : ℕ
  pub sectors_per_fat : ℕ
  pub sectors_big : ℕ

-- A directory item is its 32 bytes, which may also be read as those of a long name entry. `total` counts
-- the items of the array before the end marker. The first cluster is 0 for the root directory.
abbrev pub Item : Type 0
Item = List ℕ

pub record Directory : Type 0 where
  pub items : List Item
  pub total : ℕ
  pub sector_pos : ℕ
  pub ending_sector_pos : ℕ
  pub first_cluster : ℕ

-- `struct fat_private` with its disk. `fat` has `fat_entries` entries.
pub record Volume : Type 0 where
  pub disk : Disk
  pub header : Header
  pub root_directory : Directory
  pub next_free_cluster : ℕ
  pub fat : List ℕ

-- A function that may fail and may change the volume.
abbrev pub M : Type 0 → Type 0
M A = Volume → Result A × Volume

abbrev pub and_then : {A B : Type 0} → Result A × Volume → (A → M B) → Result B × Volume
and_then (ok a, v) f = f a v
and_then (err e, v) f = (err e, v)

infixl 5 ◌>>=◌ ◌>>◌
abbrev pub ◌>>=◌ : {A B : Type 0} → M A → (A → M B) → M B
m >>= f = λ v. and_then (m v) f

abbrev pub ◌>>◌ : {A B : Type 0} → M A → M B → M B
m >> k = m >>= λ _. k

abbrev pub pure : {A : Type 0} → A → M A
pure a = λ v. (ok a, v)

abbrev pub fail : {A : Type 0} → Error → M A
fail e = λ v. (err e, v)

-- A function that only reads the volume.
abbrev pub reading : {A : Type 0} → (Volume → Result A) → M A
reading f = λ v. (f v, v)

-- A call whose result the code ignores.
abbrev pub ignoring : {A : Type 0} → M A → M (Unit {0})
ignoring m = λ v. (ok tt, (m v).1)

-- A seek and a write.
abbrev pub write_disk : ℕ → List ℕ → M (Unit {0})
write_disk pos bytes =
    λ v. let (r, d) = disk_stream_write v.disk pos bytes in (r, record v { disk = d })

abbrev pub u16_at : List ℕ → ℕ → ℕ
u16_at bs i = get_or bs i 0 + 256 * get_or bs (i + 1) 0

abbrev pub u16_bytes : ℕ → List ℕ
u16_bytes n = n % 256 ∷ n / 256 % 256 ∷ []

abbrev pub cluster_bytes : Volume → ℕ
cluster_bytes v = v.header.sectors_per_cluster * sector_size

-- `fat16_cluster_to_sector` and `fat16_sector_to_absolute`.
abbrev pub fat16_cluster_to_sector : Volume → ℕ → ℕ
fat16_cluster_to_sector v cluster =
    add32 v.root_directory.ending_sector_pos (mul32 (sub32 cluster 2) v.header.sectors_per_cluster)

abbrev pub cluster_pos : Volume → ℕ → ℕ
cluster_pos v cluster = mul32 (fat16_cluster_to_sector v cluster) sector_size

-- `fat16_get_fat_entry`: an entry that the table in memory lacks is read from the disk.
pub fat16_get_fat_entry : ℕ → Volume → Result ℕ
fat16_get_fat_entry cluster v =
    let pos = add32 (mul32 v.header.reserved_sectors sector_size) (mul32 cluster 2) in
    if ltb cluster (2 ^ 31) && ltb cluster (length v.fat)
    then ok (get_or v.fat cluster 0)
    else elim (disk_stream_read v.disk pos 2) [ err e ↦ err e | ok bytes ↦ ok (u16_at bytes 0) ]

abbrev pub no_link : ℕ → Bool
no_link entry =
    leb end_of_chain entry
    || (entry == bad_sector)
    || (leb reserved_start entry && leb entry 0xfff6)
    || (entry == 0)

-- The loop of `fat16_get_cluster_for_offset`, with the clusters that are left to pass.
pub follow : ℕ → ℕ → Volume → Result ℕ
follow zero cluster v = ok cluster
follow (suc ahead) cluster v = elim (fat16_get_fat_entry cluster v) [
  | err e ↦ err e
  | ok entry ↦ elim (no_link entry) [ true ↦ err io | false ↦ follow ahead entry v ]
]

-- The offset is an int: a negative one passes no cluster.
pub fat16_get_cluster_for_offset : ℕ → ℕ → Volume → Result ℕ
fat16_get_cluster_for_offset starting_cluster offset v =
    follow (if is_negative offset then 0 else offset / cluster_bytes v) starting_cluster v

-- The bytes of this round: up to the end of the cluster.
abbrev pub chunk_len : Volume → ℕ → ℕ → ℕ
chunk_len v offset total =
    let rest = cluster_bytes v - offset % cluster_bytes v in if ltb total rest then total else rest

-- The same for an offset that is an int: the remainder of a negative one is negative.
abbrev pub offset_from_cluster : Volume → ℕ → ℕ
offset_from_cluster v offset =
    if is_negative offset
    then sub32 0 (sub32 0 offset % cluster_bytes v)
    else offset % cluster_bytes v

abbrev pub read_len : Volume → ℕ → ℕ → ℕ
read_len v offset total =
    let rest = cluster_bytes v + sub32 0 offset % cluster_bytes v in
    if is_negative offset
    then (if ltb total rest then total else rest)
    else chunk_len v offset total

-- The loop of `fat16_read_internal_from_stream`. A round reads a byte at least, so the fuel is `total`.
pub read_clusters : ℕ → ℕ → ℕ → ℕ → Volume → Result (List ℕ)
read_clusters fuel cluster offset zero v = ok []
read_clusters zero cluster offset (suc n) v = err io
read_clusters (suc fuel) cluster offset (suc n) v =
    let total_to_read = read_len v offset (suc n) in
    elim (fat16_get_cluster_for_offset cluster offset v) [
      | err e ↦ err e
      | ok cluster_to_use ↦
          elim (disk_stream_read v.disk
            (add32 (cluster_pos v cluster_to_use) (offset_from_cluster v offset)) total_to_read) [
              | err e ↦ err e
              | ok bytes ↦
                  elim (read_clusters fuel cluster (add32 offset total_to_read)
                    (suc n - total_to_read) v) [ err e ↦ err e | ok rest ↦ ok (bytes ++ rest) ]
            ]
    ]

-- Nothing is read for a negative `total`.
pub fat16_read_internal : ℕ → ℕ → ℕ → Volume → Result (List ℕ)
fat16_read_internal starting_cluster offset total v =
    if is_negative total then ok [] else read_clusters total starting_cluster offset total v

-- The number of the last data cluster + 1.
abbrev pub fat16_cluster_limit : Volume → ℕ
fat16_cluster_limit v =
    let h = v.header in
    let sectors = if not (h.number_of_sectors == 0) then h.number_of_sectors else h.sectors_big in
    add32 (sub32 sectors v.root_directory.ending_sector_pos / h.sectors_per_cluster) 2

-- The entry in each copy of the table on the disk, with the copies that are left.
pub write_copies : ℕ → ℕ → ℕ → ℕ → M (Unit {0})
write_copies zero copy cluster value = pure tt
write_copies (suc copies) copy cluster value = λ v.
    let fat_sector = v.header.reserved_sectors + copy * v.header.sectors_per_fat in
    (write_disk (add32 (mul32 fat_sector sector_size) (mul32 cluster 2)) (u16_bytes value) >>= λ _.
    write_copies copies (copy + 1) cluster value)
      v

abbrev pub put_entry : ℕ → ℕ → Volume → Volume
put_entry cluster value v = record v { fat = set v.fat cluster value }

pub fat16_set_fat_entry : ℕ → ℕ → M (Unit {0})
fat16_set_fat_entry cluster value v =
    write_copies v.header.fat_copies 0 cluster (value % u16_mod)
      (put_entry cluster (value % u16_mod) v)

-- The sectors of a new cluster are zeroed, whatever the writes return.
pub zero_sectors : ℕ → ℕ → M (Unit {0})
zero_sectors zero pos = pure tt
zero_sectors (suc n) pos = ignoring (write_disk pos (replicate sector_size 0)) >>= λ _.
    zero_sectors n (add32 pos sector_size)

abbrev pub set_next_free : ℕ → M (Unit {0})
set_next_free cluster = λ v. (ok tt, record v { next_free_cluster = cluster })

pub take_cluster : ℕ → M ℕ
take_cluster cluster = do
  fat16_set_fat_entry cluster 0xffff
  (λ v. zero_sectors v.header.sectors_per_cluster (cluster_pos v cluster) v)
  set_next_free (cluster + 1)
  pure cluster

abbrev pub wrapped : ℕ → ℕ → ℕ
wrapped limit cluster = if leb limit cluster then cluster - (limit - 2) else cluster

-- The loop of `fat16_alloc_cluster` from round `n` on, with the rounds that are left.
pub alloc_loop : ℕ → ℕ → ℕ → ℕ → M ℕ
alloc_loop zero n limit start v = (err no_memory, v)
alloc_loop (suc rounds) n limit start v = elim (fat16_get_fat_entry (wrapped limit (start + n)) v) [
  | err e ↦ (err e, v)
  | ok entry ↦ elim (entry == 0) [
    | true ↦ take_cluster (wrapped limit (start + n)) v
    | false ↦ alloc_loop rounds (n + 1) limit start v
  ]
]

abbrev pub alloc_start : Volume → ℕ
alloc_start v =
    let start = v.next_free_cluster in
    if ltb start 2 || leb (fat16_cluster_limit v) start then 2 else start

pub fat16_alloc_cluster : M ℕ
fat16_alloc_cluster v =
    alloc_loop (sub32 (fat16_cluster_limit v) 2) 0 (fat16_cluster_limit v) (alloc_start v) v

abbrev pub is_data : ℕ → Bool
is_data cluster = leb 2 cluster && ltb cluster reserved_start

-- The loop of `fat16_free_chain`. A chain comes to an entry that was freed, 0, before the fuel is spent:
-- each round frees another entry of the table in memory, or one of the 65520 numbers outside of it.
pub free_loop : ℕ → ℕ → Volume → Volume
free_loop zero cluster v = v
free_loop (suc fuel) cluster v =
    let freed = (fat16_set_fat_entry cluster 0 v).1 in
    elim (is_data cluster) [
      | false ↦ v
      | true ↦ elim (fat16_get_fat_entry cluster v) [
        | err e ↦ freed
        | ok entry ↦ free_loop fuel entry freed
      ]
    ]

pub fat16_free_chain : ℕ → Volume → Volume
fat16_free_chain cluster v = free_loop (length v.fat + 0x10000) cluster v

-- The loop of `fat16_cluster_at`, with the clusters that are left to pass.
pub cluster_loop : ℕ → ℕ → Bool → M ℕ
cluster_loop zero cluster allocate v = (ok cluster, v)
cluster_loop (suc ahead) cluster allocate v = elim (fat16_get_fat_entry cluster v) [
  | err e ↦ (err e, v)
  | ok entry ↦ elim (leb end_of_chain entry) [
    | true ↦ elim allocate [
      | false ↦ (err io, v)
      | true ↦
          and_then (fat16_alloc_cluster v)
            λ new v'. cluster_loop ahead new true (fat16_set_fat_entry cluster new v').1
    ]
    | false ↦ elim (ltb entry 2 || leb reserved_start entry) [
      | true ↦ (err io, v)
      | false ↦ cluster_loop ahead entry allocate v
    ]
  ]
]

-- `fat16_cluster_at`; the first cluster is part of the result, also of a failure behind its allocation.
pub fat16_cluster_at : ℕ → ℕ → Bool → Volume → Result ℕ × ℕ × Volume
fat16_cluster_at first index allocate v =
    if first == 0
    then (if not allocate
        then (err io, first, v)
        else let (r, v') = fat16_alloc_cluster v in
          elim r [
            | err e ↦ (err e, first, v')
            | ok cluster ↦
                let (r', v'') = cluster_loop index cluster allocate v' in (r', cluster, v'')
          ])
    else let (r', v') = cluster_loop index first allocate v in (r', first, v')

-- ===== src/Fat16/Volume/Chain.antt =====
-- The chains of clusters of src/file_system/fat/fat16.c: how they are followed and freed.
use mo_os.Disk.Stream.{nonnegative}
use mo_os.Prelude.Status.{Result, io, ok, err}
use mo_os.Prelude.{
  ℕ, zero, suc, ◌+◌, ◌/◌, ◌^◌, ◌≤◌, ◌<◌, ◌≡◌, refl, sym, ap, ◌∙◌, ◌≢◌, Bool, true, false, ◌||◌,
  List, [], ◌∷◌, arith, leb, ◌==◌, if◌then◌else◌, suc==zero, length, get_or, set, length-set,
  get_or-set_ne,
}
use mo_os.Disk.{Disk}
use mo_os.Fat16.Volume.{
  end_of_chain, cluster_bytes, no_link, follow, fat16_get_cluster_for_offset, put_entry, is_data,
  free_loop, fat16_free_chain, Volume,
}
use mo_os.Fat16.Volume.Table.{fat16_get_fat_entry-memory, fat16_set_fat_entry-OnlyDisk, IsMounted}

abbrev NotIn : ℕ → List ℕ → Type 0
NotIn c [] = Unit {0}
NotIn c (x ∷ xs) = (c ≢ x) × NotIn c xs

-- From `c` on the table links the clusters of the list, each of them once, up to an entry that marks the
-- end; they are data clusters with an entry in memory.
abbrev pub IsChain : List ℕ → ℕ → List ℕ → Type 0
IsChain fat c [] = leb end_of_chain c ≡ true
IsChain fat c (x ∷ xs) =
    (c ≡ x) × (is_data c ≡ true) × (c < length fat) × NotIn c xs × IsChain fat (get_or fat c 0) xs

abbrev pub mem : ℕ → List ℕ → Bool
mem c [] = false
mem c (x ∷ xs) = (c == x) || mem c xs

pub mem_of_NotIn : (c : ℕ) (xs : List ℕ) → NotIn c xs → mem c xs ≡ false
mem_of_NotIn c [] h = refl
mem_of_NotIn c (x ∷ xs) h = ground (arith, mem_of_NotIn c xs h.1, h.0)

-- A write of an entry outside of it leaves a chain as it is.
IsChain-set :
    (fat : List ℕ) (a value c : ℕ) (xs : List ℕ)
    → NotIn a xs
    → IsChain fat c xs
    → IsChain (set fat a value) c xs
IsChain-set fat a value c [] out chain = chain
IsChain-set fat a value c (x ∷ xs) out (here, data_c, inside, once, rest) =
    let ne : a ≢ c = λ e. out.0 (e ∙ here) in
    let same = get_or-set_ne fat a c value 0 ne in
    let len = length-set fat a value in
    (
      here,
      data_c,
      omega arith,
      once,
      rw same (IsChain-set fat a value (get_or fat c 0) xs out.1 rest),
    )

-- What `fat16_free_chain` leaves of the table and of the volume.
pub record Freed (v : Volume) (xs : List ℕ) (v' : Volume) : Type 0 where
  pub entries : (a : ℕ) → get_or v'.fat a 0 ≡ (if mem a xs then 0 else get_or v.fat a 0)
  pub size : length v'.fat ≡ length v.fat
  pub header : v'.header ≡ v.header
  pub root : v'.root_directory ≡ v.root_directory
  pub main : v'.disk.is_main ≡ true

Freed-nothing : (v : Volume) → v.disk.is_main ≡ true → Freed v [] v
Freed-nothing v main = record {
  entries = λ a. refl;
  size = refl;
  header = refl;
  root = refl;
  main = main;
}

get_or-set_zero :
    (fat : List ℕ) (c a : ℕ) → get_or (set fat c 0) a 0 ≡ (if a == c then 0 else get_or fat a 0)
get_or-set_zero [] c a = ground arith
get_or-set_zero (x ∷ fat) zero zero = refl
get_or-set_zero (x ∷ fat) zero (suc a) = rw (suc==zero a) refl
get_or-set_zero (x ∷ fat) (suc c) zero = ground arith
get_or-set_zero (x ∷ fat) (suc c) (suc a) = ground (arith, get_or-set_zero fat c a)

Freed-cons :
    (v : Volume) (d : Disk) (c : ℕ) (xs : List ℕ) (v' : Volume)
    → Freed (record (put_entry c 0 v) { disk = d }) xs v'
    → Freed v (c ∷ xs) v'
Freed-cons v d c xs v' f = record {
  entries = λ a. ground (arith, f.entries a, get_or-set_zero v.fat c a);
  size = f.size ∙ length-set v.fat c 0;
  header = f.header;
  root = f.root;
  main = f.main;
}

data_below_end : (c : ℕ) → leb end_of_chain c ≡ true → is_data c ≡ false
data_below_end c h = ground arith

free_loop-Freed :
    (fuel c : ℕ) (v : Volume) (xs : List ℕ)
    → v.disk.is_main ≡ true
    → length v.fat < 2 ^ 31
    → IsChain v.fat c xs
    → length xs < fuel
    → Freed v xs (free_loop fuel c v)
unfolding free_loop
free_loop-Freed zero c v xs main small chain enough = absurd (omega arith)
free_loop-Freed (suc fuel) c v [] main small chain enough =
    rw (data_below_end c chain, free_loop) (Freed-nothing v main)
free_loop-Freed (suc fuel) c v (x ∷ xs) main small (here, data_c, inside, once, rest) enough =
    let (d, still, cleared) = fat16_set_fat_entry-OnlyDisk c 0 v main in
    let v' = record (put_entry c 0 v) { disk = d } in
    let len = length-set v.fat c 0 in
    rw (data_c, free_loop)
      (rw (fat16_get_fat_entry-memory c v small inside, cleared)
        (rw (← here) (
          Freed-cons v d c xs (free_loop fuel (get_or v.fat c 0) v') (
            free_loop-Freed fuel (get_or v.fat c 0) v' xs still (omega arith)
              (IsChain-set v.fat c 0 (get_or v.fat c 0) xs once rest) (omega arith)))))

-- How many entries of the table are in use.
in_use : List ℕ → ℕ
in_use [] = 0
in_use (e ∷ es) = (if e == 0 then 0 else 1) + in_use es

in_use-le-length : (fat : List ℕ) → in_use fat ≤ length fat
unfolding in_use
in_use-le-length [] = omega arith
in_use-le-length (e ∷ es) = ground (arith, in_use-le-length es)

in_use-set : (fat : List ℕ) (c : ℕ) → 0 < get_or fat c 0 → in_use (set fat c 0) + 1 ≡ in_use fat
unfolding in_use
in_use-set [] c h = absurd (omega arith)
in_use-set (e ∷ es) zero h = ground arith
in_use-set (e ∷ es) (suc c) h = omega (arith, in_use-set es c h)

chain_start_pos : (fat : List ℕ) (c : ℕ) (xs : List ℕ) → IsChain fat c xs → 0 < c
chain_start_pos fat c [] chain = ground arith
chain_start_pos fat c (x ∷ xs) chain = ground (arith, chain.1)

-- Each cluster of a chain has an entry of its own.
chain_length : (fat : List ℕ) (c : ℕ) (xs : List ℕ) → IsChain fat c xs → length xs ≤ in_use fat
chain_length fat c [] chain = omega arith
chain_length fat c (x ∷ xs) (here, data_c, inside, once, rest) =
    let used = chain_start_pos fat (get_or fat c 0) xs rest in
    omega (
      arith,
      in_use-set fat c used,
      chain_length (set fat c 0) (get_or fat c 0) xs
          (IsChain-set fat c 0 (get_or fat c 0) xs once rest),
    )

-- `fat16_free_chain` on a mounted volume frees each cluster of the chain, to its end, and no other one;
-- the size of the table, the header and the root directory stay as they are.
pub fat16_free_chain-Freed :
    (v : Volume) (c : ℕ) (xs : List ℕ)
    → IsMounted v
    → IsChain v.fat c xs
    → Freed v xs (fat16_free_chain c v)
unfolding fat16_free_chain
fat16_free_chain-Freed v c xs mounted chain =
    let fits = chain_length v.fat c xs chain in
    let all = in_use-le-length v.fat in
    free_loop-Freed (length v.fat + 0x10000) c v xs mounted.main mounted.small chain (omega arith)

-- The cluster that a chain has in place `i`, if it is that long.
abbrev pub nth_cluster : List ℕ → ℕ → Result ℕ
nth_cluster [] i = err io
nth_cluster (x ∷ xs) zero = ok x
nth_cluster (x ∷ xs) (suc i) = nth_cluster xs i

no_link-data : (entry : ℕ) → is_data entry ≡ true → no_link entry ≡ false
no_link-data entry h = ground arith

no_link-end : (entry : ℕ) → leb end_of_chain entry ≡ true → no_link entry ≡ true
no_link-end entry h = ground arith

follow-nth_cluster :
    (ahead c : ℕ) (v : Volume) (xs : List ℕ)
    → length v.fat < 2 ^ 31
    → IsChain v.fat c xs
    → is_data c ≡ true
    → follow ahead c v ≡ nth_cluster xs ahead
unfolding follow
follow-nth_cluster ahead c v [] small chain start = cc (sym start ∙ data_below_end c chain)
follow-nth_cluster zero c v (x ∷ xs) small chain start = ap ok chain.0
follow-nth_cluster (suc ahead) c v (x ∷ []) small (here, data_c, inside, once, rest) start =
    rw (fat16_get_fat_entry-memory c v small inside, follow, no_link-end (get_or v.fat c 0) rest)
      refl
follow-nth_cluster (suc ahead) c v (x ∷ y ∷ xs) small (here, data_c, inside, once, rest) start =
    rw (fat16_get_fat_entry-memory c v small inside, follow, no_link-data (get_or v.fat c 0) rest.1)
      (follow-nth_cluster ahead (get_or v.fat c 0) v (y ∷ xs) small rest rest.1)

-- In a chain, `fat16_get_cluster_for_offset` finds the cluster that holds the byte at the offset, and
-- fails exactly if the chain ends before it.
pub fat16_get_cluster_for_offset-nth_cluster :
    (v : Volume) (c offset x : ℕ) (xs : List ℕ)
    → IsMounted v
    → IsChain v.fat c (x ∷ xs)
    → offset < 2 ^ 31
    → fat16_get_cluster_for_offset c offset v ≡ nth_cluster (x ∷ xs) (offset / cluster_bytes v)
unfolding fat16_get_cluster_for_offset
fat16_get_cluster_for_offset-nth_cluster v c offset x xs mounted chain low =
    rw (nonnegative offset low)
      (follow-nth_cluster (offset / cluster_bytes v) c v (x ∷ xs) mounted.small chain chain.1)

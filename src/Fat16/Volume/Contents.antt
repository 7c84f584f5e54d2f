-- ===== src/Fat16/Volume/Contents.antt =====
-- The bytes of a chain in src/file_system/fat/fat16.c, and what a read of them returns.
use mo_os.Fat16.Volume.Table.{IsMounted}
use mo_os.Prelude.Numbers.{divmod_of_split}
use native.Mathlib.Nat.{mod-lt, div-add-mod, div-lt_iff_lt-mul}
use mo_os.Prelude.{
  ℕ, zero, suc, ◌+◌, ◌-◌, ◌*◌, ◌/◌, ◌%◌, ◌^◌, ◌≤◌, ◌<◌, ◌≡◌, refl, sym, ap, ap₂, ◌∙◌, List, [], ◌∷◌,
  arith, length, get_or,
}
use mo_os.Prelude.Word.{add32}
use mo_os.Prelude.Status.{ok}
use mo_os.Libc.{Bytes}
use mo_os.Disk.{bytes_from, disk_stream_read}
use mo_os.Disk.Stream.{
  bytes_from-append, nonnegative, at_pos, read_rounds_lem, bytes_from_ext, bytes_from_zero,
}
use mo_os.Fat16.Volume.{
  cluster_bytes, cluster_pos, chunk_len, offset_from_cluster, read_len, read_clusters,
  fat16_read_internal, Volume,
}
use mo_os.Fat16.Volume.Chain.{IsChain, nth_cluster, fat16_get_cluster_for_offset-nth_cluster}

-- The byte at an offset of the chain: in the cluster that holds the offset, as far behind its start.
abbrev pub content : Volume → List ℕ → Bytes
content v xs o =
    let cluster = get_or xs (o / cluster_bytes v) 0 in
    v.disk.bytes (at_pos v.disk (cluster_pos v cluster + o % cluster_bytes v))

-- The clusters of the chain lie below 2^31 bytes on a drive whose sectors have numbers of 28 bits.
pub record InVolume (v : Volume) (xs : List ℕ) : Type 0 where
  pub some_bytes : 0 < cluster_bytes v
  pub clusters : (i : ℕ) → i < length xs → cluster_pos v (get_or xs i 0) + cluster_bytes v < 2 ^ 31
  pub drive : v.disk.lba_offset + 2 ^ 22 < 2 ^ 28

same_cluster :
    (m off j : ℕ) → off % m + j < m → ((off + j) / m ≡ off / m) × ((off + j) % m ≡ off % m + j)
same_cluster m off j lt =
    let split : off + j ≡ m * (off / m) + (off % m + j) = omega (arith, div-add-mod off m) in
    let (quotient, rest) = divmod_of_split m (off / m) (off % m + j) lt in
    (ap (λ (x : ℕ). x / m) split ∙ quotient, ap (λ (x : ℕ). x % m) split ∙ rest)

nth_cluster-get_or : (xs : List ℕ) (i : ℕ) → i < length xs → nth_cluster xs i ≡ ok (get_or xs i 0)
nth_cluster-get_or [] i lt = absurd (omega arith)
nth_cluster-get_or (x ∷ xs) zero lt = refl
nth_cluster-get_or (x ∷ xs) (suc i) lt = nth_cluster-get_or xs i (omega arith)

div_mono : (a b m : ℕ) → 0 < m → b < m * a → b / m < a
div_mono a b m pos lt = (div-lt_iff_lt-mul {k = m} {x = b} {y = a} pos).1 (grind arith)

content_shift :
    (v : Volume) (xs : List ℕ) (off j : ℕ)
    → off % cluster_bytes v + j < cluster_bytes v
    → content v xs (off + j)
      ≡ v.disk.bytes (
          at_pos v.disk
            (cluster_pos v (get_or xs (off / cluster_bytes v) 0) + (off % cluster_bytes v + j)))
content_shift v xs off j lt =
    let (quotient, rest) = same_cluster (cluster_bytes v) off j lt in
    ap₂ (λ (q r : ℕ). v.disk.bytes (at_pos v.disk (cluster_pos v (get_or xs q 0) + r))) quotient
      rest

chunk_len_bounds :
    (v : Volume) (off n : ℕ)
    → 0 < cluster_bytes v
    → 0 < n
    → (0 < chunk_len v off n) × (chunk_len v off n ≤ n)
chunk_len_bounds v off n pos more =
    let inside = mod-lt off {m = cluster_bytes v} pos in ground arith

read_len_bounds :
    (v : Volume) (off n : ℕ)
    → 0 < cluster_bytes v
    → 0 < n
    → off < 2 ^ 31
    → (0 < read_len v off n) × (read_len v off n ≤ n)
read_len_bounds v off n pos more low = rw (nonnegative off low) (chunk_len_bounds v off n pos more)

module _ (v : Volume) (c x : ℕ) (xs : List ℕ) (mounted : IsMounted v)
    (chain : IsChain v.fat c (x ∷ xs)) (placed : InVolume v (x ∷ xs)) where
  -- The bytes of one round.
  round_bytes :
      (off n : ℕ)
      → 0 < n
      → off < cluster_bytes v * length (x ∷ xs)
      → disk_stream_read v.disk
          (add32
            (cluster_pos v (get_or (x ∷ xs) (off / cluster_bytes v) 0))
            (off % cluster_bytes v))
          (chunk_len v off n)
        ≡ ok (bytes_from (content v (x ∷ xs)) off (chunk_len v off n))
  round_bytes off n more within =
      let cb = cluster_bytes v in
      let t = chunk_len v off n in
      let start = cluster_pos v (get_or (x ∷ xs) (off / cb) 0) in
      let inside = mod-lt off {m = cb} placed.some_bytes in
      let fits =
        placed.clusters (off / cb) (div_mono (length (x ∷ xs)) off cb placed.some_bytes within) in
      let drive = placed.drive in
      let short : t ≤ cb - off % cb = ground arith in
      let pos : add32 start (off % cb) ≡ start + off % cb = omega arith in
      rw pos (
        read_rounds_lem t v.disk (start + off % cb) t mounted.main (omega arith, omega arith)
          (omega arith)
        ∙ ap ok (
            bytes_from_ext v.disk.bytes (content v (x ∷ xs)) (at_pos v.disk (start + off % cb)) off
              t
              (λ j lt.
                ap v.disk.bytes (omega arith)
                ∙ sym (content_shift v (x ∷ xs) off j (omega arith)))))

  -- The same as the code finds it, for an offset that is not negative.
  round_read :
      (off n : ℕ)
      → 0 < n
      → off < 2 ^ 31
      → off < cluster_bytes v * length (x ∷ xs)
      → disk_stream_read v.disk
          (add32
            (cluster_pos v (get_or (x ∷ xs) (off / cluster_bytes v) 0))
            (offset_from_cluster v off))
          (read_len v off n)
        ≡ ok (bytes_from (content v (x ∷ xs)) off (read_len v off n))
  round_read off n more low within = rw (nonnegative off low) (round_bytes off n more within)

  read_clusters-content :
      (fuel off n : ℕ)
      → n ≤ fuel
      → off + n < 2 ^ 31
      → off + n ≤ cluster_bytes v * length (x ∷ xs)
      → read_clusters fuel c off n v ≡ ok (bytes_from (content v (x ∷ xs)) off n)
  unfolding read_clusters
  read_clusters-content fuel off zero enough low within = ap ok (sym (bytes_from_zero _ off))
  read_clusters-content zero off (suc n) enough low within = absurd (omega arith)
  read_clusters-content (suc fuel) off (suc n) enough low within =
      let cb = cluster_bytes v in
      let t = read_len v off (suc n) in
      let place = div_mono (length (x ∷ xs)) off cb placed.some_bytes (omega arith) in
      let found =
        fat16_get_cluster_for_offset-nth_cluster v c off x xs mounted chain (omega arith)
        ∙ nth_cluster-get_or (x ∷ xs) (off / cb) place in
      let (more, shorter) =
        read_len_bounds v off (suc n) placed.some_bytes (omega arith) (omega arith) in
      let plus : add32 off t ≡ off + t = omega arith in
      let ih =
        ap (λ (o : ℕ). read_clusters fuel c o (suc n - t) v) plus
        ∙ read_clusters-content fuel (off + t) (suc n - t) (omega arith) (omega arith)
            (omega arith) in
      let count : t + (suc n - t) ≡ suc n = omega arith in
      rw (found, read_clusters)
        (rw (round_read off (suc n) (omega arith) (omega arith) (omega arith), read_clusters)
          (rw (ih, read_clusters)
            (ap ok (
              bytes_from-append (content v (x ∷ xs)) off t (suc n - t)
              ∙ ap (λ (k : ℕ). bytes_from (content v (x ∷ xs)) off k) count))))

-- On a mounted volume whose chain lies below 2^31 bytes and on sectors with numbers of 28 bits,
-- `fat16_read_internal` of bytes that end within the chain and below 2^31 succeeds, and returns the bytes
-- of the chain from the offset on, in whatever clusters they are.
pub fat16_read_internal-content :
    (v : Volume) (c off n x : ℕ) (xs : List ℕ)
    → IsMounted v
    → IsChain v.fat c (x ∷ xs)
    → InVolume v (x ∷ xs)
    → off + n < 2 ^ 31
    → off + n ≤ cluster_bytes v * length (x ∷ xs)
    → fat16_read_internal c off n v ≡ ok (bytes_from (content v (x ∷ xs)) off n)
unfolding fat16_read_internal
fat16_read_internal-content v c off n x xs mounted chain placed low within =
    rw (nonnegative n (omega arith))
      (read_clusters-content v c x xs mounted chain placed n off n (omega arith) low within)

-- ===== src/Fat16/Volume/Alloc.antt =====
-- `fat16_alloc_cluster` of src/file_system/fat/fat16.c.
use mo_os.Prelude.{
  ℕ, zero, suc, ◌+◌, ◌-◌, ◌≤◌, ◌<◌, ◌≡◌, ◌≢◌, inl, inr, true, arith, leb, ◌==◌, leb→le, ==_iff,
  ne_of_==, Bool-cases, get_or,
}
use mo_os.Prelude.Word.{sub32}
use mo_os.Prelude.Status.{Result, no_memory, ok, err}
use mo_os.Disk.{Disk}
use mo_os.Fat16.Volume.{
  fat16_cluster_limit, wrapped, alloc_loop, alloc_start, fat16_alloc_cluster, Volume,
}
use mo_os.Fat16.Volume.Table.{fat16_get_fat_entry-memory, with_taken, take_cluster_lem, IsMounted}

abbrev pub entry_of : Volume → ℕ → ℕ
entry_of v cluster = get_or v.fat cluster 0

-- What an allocation does: there is no free cluster, or a free one is marked as the end of a chain, and
-- no other entry, nor anything else but the disk and the next place to look at, changes.
pub data AllocOutcome (v : Volume) : Result ℕ × Volume → Type 0 where
  full :
      ((c : ℕ) → 2 ≤ c → c < fat16_cluster_limit v → entry_of v c ≢ 0)
      → AllocOutcome v (err no_memory, v)
  allocated :
      (c : ℕ) (d : Disk)
      → 2 ≤ c
      → c < fat16_cluster_limit v
      → entry_of v c ≡ 0
      → d.is_main ≡ true
      → AllocOutcome v (ok c, with_taken c d v)

-- Round `m` has looked at a cluster in use.
abbrev Passed : Volume → ℕ → ℕ → ℕ → Type 0
Passed v limit start n = (m : ℕ) → m < n → entry_of v (wrapped limit (start + m)) ≢ 0

wrapped_bounds :
    (limit start n : ℕ)
    → 2 ≤ start
    → start < limit
    → n < limit - 2
    → (2 ≤ wrapped limit (start + n)) × (wrapped limit (start + n) < limit)
wrapped_bounds limit start n low high lt = ground arith

-- Each cluster has its round.
wrapped_onto :
    (limit start c : ℕ)
    → 2 ≤ start
    → start < limit
    → 2 ≤ c
    → c < limit
    → (m : ℕ) × (m < limit - 2) × (wrapped limit (start + m) ≡ c)
wrapped_onto limit start c low high from below = elim (Bool-cases (leb start c)) [
  | inl h ↦
      let le = leb→le start c h in
      let in_range : start + (c - start) < limit = omega arith in
      (c - start, omega arith, ground arith)
  | inr h ↦
      let lt : c < start = ground arith in (c + (limit - 2) - start, omega arith, ground arith)
]

Passed-suc :
    (v : Volume) (limit start n : ℕ)
    → Passed v limit start n
    → entry_of v (wrapped limit (start + n)) ≢ 0
    → Passed v limit start (n + 1)
Passed-suc v limit start n before here m lt = elim (Bool-cases (m == n)) [
  | inl h ↦ rw ((==_iff m n).0 h) here
  | inr h ↦ before m (ground arith)
]

module _ (v : Volume) (mounted : IsMounted v) where
  alloc_loop-AllocOutcome :
      (rounds n start : ℕ)
      → n + rounds ≡ fat16_cluster_limit v - 2
      → 2 ≤ start
      → (0 < rounds + n → start < fat16_cluster_limit v)
      → Passed v (fat16_cluster_limit v) start n
      → AllocOutcome v (alloc_loop rounds n (fat16_cluster_limit v) start v)
  unfolding alloc_loop
  alloc_loop-AllocOutcome zero n start all low high passed = full λ c from below e.
      let (m, lt, at) =
        wrapped_onto (fat16_cluster_limit v) start c low (high (omega arith)) from below in
      passed m (omega arith) (rw at e)
  alloc_loop-AllocOutcome (suc rounds) n start all low high passed =
      let limit = fat16_cluster_limit v in
      let c = wrapped limit (start + n) in
      let (from, below) = wrapped_bounds limit start n low (high (omega arith)) (omega arith) in
      let known =
        fat16_get_fat_entry-memory c v mounted.small (let cover = mounted.covers in omega arith) in
      elim (Bool-cases (entry_of v c == 0)) [
        | inl h ↦
            let (d, main, taken) = take_cluster_lem c v mounted.main in
            let free = (==_iff (entry_of v c) 0).0 h in
            rw (known, alloc_loop) (rw h (rw taken (allocated c d from below free main)))
        | inr h ↦
            let used = ne_of_== (entry_of v c) 0 h in
            rw (known, alloc_loop)
              (rw h (
                alloc_loop-AllocOutcome rounds (n + 1) start (omega arith) low
                  (λ p. high (omega arith)) (Passed-suc v limit start n passed used)))
      ]

  alloc_start_bounds :
      (2 ≤ alloc_start v) × (2 < fat16_cluster_limit v → alloc_start v < fat16_cluster_limit v)
  alloc_start_bounds = (ground arith, λ h. ground arith)

  -- `fat16_alloc_cluster` on a mounted volume returns a cluster that was free, which ends a chain then, and
  -- changes no other entry of the table; it fails exactly if no cluster is free, and changes nothing then.
  pub fat16_alloc_cluster-AllocOutcome : AllocOutcome v (fat16_alloc_cluster v)
  unfolding fat16_alloc_cluster
  fat16_alloc_cluster-AllocOutcome =
      let few = mounted.small in
      let covered = mounted.covers in
      let two = mounted.some_clusters in
      let rounds : sub32 (fat16_cluster_limit v) 2 ≡ fat16_cluster_limit v - 2 = omega arith in
      let (low, high) = alloc_start_bounds in
      rw rounds (
        alloc_loop-AllocOutcome (fat16_cluster_limit v - 2) 0 (alloc_start v) (omega arith) low
          (λ p. high (omega arith)) (λ m lt. absurd (omega arith)))

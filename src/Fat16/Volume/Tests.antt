-- ===== src/Fat16/Volume/Tests.antt =====
-- Runs on the small volume, and the theorems on the table applied to it.
use mo_os.Prelude.{ℕ, zero, suc, ◌+◌, ◌^◌, ◌<◌, ◌≡◌, refl, [], ◌∷◌, arith, get_or}
use mo_os.Prelude.Status.{ok}
use mo_os.Disk.{bytes_from}
use mo_os.Fat16.Sample.{sample}
use mo_os.Fat16.Volume.{
  cluster_bytes, cluster_pos, fat16_read_internal, fat16_alloc_cluster, fat16_free_chain,
}
use mo_os.Fat16.Volume.Table.{IsMounted}
use mo_os.Fat16.Volume.Alloc.{fat16_alloc_cluster-AllocOutcome, AllocOutcome}
use mo_os.Fat16.Volume.Chain.{IsChain, fat16_free_chain-Freed, Freed}
use mo_os.Fat16.Volume.Contents.{content, fat16_read_internal-content, InVolume}

sample-IsMounted : IsMounted sample
sample-IsMounted = record {
  main = refl;
  covers = omega arith;
  small = omega arith;
  some_clusters = omega arith;
}

sample-IsChain : IsChain sample.fat 2 (2 ∷ 4 ∷ [])
sample-IsChain = (refl, refl, omega arith, (omega arith, tt), (refl, refl, omega arith, tt, refl))

in_range :
    (i : ℕ) → i < 2 → cluster_pos sample (get_or (2 ∷ 4 ∷ []) i 0) + cluster_bytes sample < 2 ^ 31
in_range zero lt = omega arith
in_range (suc zero) lt = omega arith
in_range (suc (suc i)) lt = absurd (omega arith)

sample-InVolume : InVolume sample (2 ∷ 4 ∷ [])
sample-InVolume = record { some_bytes = omega arith; clusters = in_range; drive = omega arith }

fat16_alloc_cluster-AllocOutcome_example : AllocOutcome sample (fat16_alloc_cluster sample)
fat16_alloc_cluster-AllocOutcome_example = fat16_alloc_cluster-AllocOutcome sample sample-IsMounted

fat16_free_chain-Freed_example : Freed sample (2 ∷ 4 ∷ []) (fat16_free_chain 2 sample)
fat16_free_chain-Freed_example =
    fat16_free_chain-Freed sample 2 (2 ∷ 4 ∷ []) sample-IsMounted sample-IsChain

fat16_read_internal-content_example :
    fat16_read_internal 2 500 20 sample ≡ ok (bytes_from (content sample (2 ∷ 4 ∷ [])) 500 20)
fat16_read_internal-content_example =
    fat16_read_internal-content sample 2 500 20 2 (4 ∷ []) sample-IsMounted sample-IsChain
      sample-InVolume (omega arith) (omega arith)

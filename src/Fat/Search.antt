-- ===== src/Fat/Search.antt =====
-- What the search for a free cluster finds.
use bxos.Common.{
  ℕ, zero, suc, ◌+◌, ◌≤◌, ◌<◌, ◌≡◌, ◌≢◌, refl, true, Bool-cases, inl, inr, arith, ◌==◌,
}
use bxos.Fat.{Mount, fat_get, find_free_from, find_free_cluster, valid_data_cluster}

find_free_from_some :
    (k clus : ℕ) (m : Mount)
    → find_free_from k clus m ≢ 0
    → (clus ≤ find_free_from k clus m)
      × (find_free_from k clus m < clus + k)
      × (fat_get m (find_free_from k clus m) ≡ 0)
unfolding find_free_from
find_free_from_some zero clus m n = absurd (n refl)
find_free_from_some (suc k) clus m n = ground (arith, find_free_from_some k (suc clus) m)

find_free_from_least :
    (k clus j : ℕ) (m : Mount)
    → 0 < clus
    → clus ≤ j
    → j < clus + k
    → fat_get m j ≡ 0
    → (find_free_from k clus m ≢ 0) × (find_free_from k clus m ≤ j)
unfolding find_free_from
find_free_from_least zero clus j m p h l e = absurd (omega arith)
find_free_from_least (suc k) clus j m p h l e = elim (Bool-cases (clus == j)) [
  | inl same ↦ ground arith
  | inr other ↦ ground (arith, find_free_from_least k (suc clus) j m)
]

-- A result of `find_free_cluster` other than 0 is a data cluster of the volume with a free entry.
pub find_free_cluster-free :
    (m : Mount)
    → find_free_cluster m ≢ 0
    → (valid_data_cluster m (find_free_cluster m) ≡ true) × (fat_get m (find_free_cluster m) ≡ 0)
unfolding find_free_cluster valid_data_cluster
find_free_cluster-free m n = ground (arith, find_free_from_some m.cluster_count 2 m n)

-- If some data cluster is free, then `find_free_cluster` finds one, and none of a lower number is
-- free.
pub find_free_cluster-least :
    (m : Mount) (j : ℕ)
    → valid_data_cluster m j ≡ true
    → fat_get m j ≡ 0
    → (find_free_cluster m ≢ 0) × (find_free_cluster m ≤ j)
unfolding find_free_cluster valid_data_cluster
find_free_cluster-least m j v e =
    find_free_from_least m.cluster_count 2 j m (omega arith) (ground arith) (ground arith) e

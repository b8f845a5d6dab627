-- ===== src/Fat/Table.antt =====
-- FAT16 entries as a table: a write changes one entry, and the entries in use are counted.
use bxos.Common.{
  ℕ, zero, suc, ◌+◌, ◌*◌, ◌/◌, ◌%◌, ◌≤◌, ◌<◌, ◌≡◌, ◌≢◌, refl, List, [], ◌∷◌, Bool-cases, inl, inr,
  arith, ◌==◌, if◌then◌else◌, length, set, length-set,
}
use bxos.Fat.{Mount, byte_at, fat_get, fat_set}

pub byte_at-set :
    (bytes : List ℕ) (i j v : ℕ)
    → i < length bytes
    → byte_at (set bytes i v) j ≡ (if j == i then v else byte_at bytes j)
byte_at-set [] i j v h = absurd (omega arith)
byte_at-set (b ∷ bs) zero zero v h = refl
byte_at-set (b ∷ bs) zero (suc j) v h = ground arith
byte_at-set (b ∷ bs) (suc i) zero v h = ground arith
byte_at-set (b ∷ bs) (suc i) (suc j) v h = ground (arith, byte_at-set bs i j v (omega arith))

-- a FAT16 volume whose cached FAT has an entry for every cluster
pub record IsFat16 (m : Mount) : Type 0 where
  pub fat16 : m.fs_type ≡ 16
  pub sized : (m.cluster_count + 2) * 2 ≤ length m.fat_cache

-- On a FAT16 volume an entry written with a 16-bit value reads back as that value, and every other
-- entry reads as before. The entry lies in the cached FAT.
pub fat_get-fat_set :
    (m : Mount) (clus val j : ℕ)
    → m.fs_type ≡ 16
    → clus * 2 + 1 < length m.fat_cache
    → val < 65536
    → fat_get (fat_set m clus val) j ≡ (if j == clus then val else fat_get m j)
unfolding fat_get fat_set
fat_get-fat_set m clus val j t h v =
    let low = set m.fat_cache (clus * 2) (val % 256) in
    ground (
      arith,
      byte_at-set m.fat_cache (clus * 2) (j * 2) (val % 256) (omega arith),
      byte_at-set m.fat_cache (clus * 2) (j * 2 + 1) (val % 256) (omega arith),
      byte_at-set low (clus * 2 + 1) (j * 2) (val / 256 % 256)
          (omega (arith, length-set m.fat_cache (clus * 2) (val % 256))),
      byte_at-set low (clus * 2 + 1) (j * 2 + 1) (val / 256 % 256)
          (omega (arith, length-set m.fat_cache (clus * 2) (val % 256))),
    )

pub fat_set-IsFat16 : (m : Mount) (clus val : ℕ) → IsFat16 m → IsFat16 (fat_set m clus val)
unfolding fat_set
fat_set-IsFat16 m clus val v = ground (
  arith,
  length-set m.fat_cache (clus * 2) (val % 256),
  length-set (set m.fat_cache (clus * 2) (val % 256)) (clus * 2 + 1) (val / 256 % 256),
)

pub cluster_count-fat_set :
    (m : Mount) (clus val : ℕ) → (fat_set m clus val).cluster_count ≡ m.cluster_count
unfolding fat_set
cluster_count-fat_set m clus val = ground arith

-- the entries not 0 among the `k` from `clus` on
pub used_from : ℕ → ℕ → Mount → ℕ
used_from zero clus m = 0
used_from (suc k) clus m = (if fat_get m clus == 0 then 0 else 1) + used_from k (suc clus) m

pub used : Mount → ℕ
used m = used_from m.cluster_count 2 m

used_from-le : (k clus : ℕ) (m : Mount) → used_from k clus m ≤ k
unfolding used_from
used_from-le zero clus m = omega arith
used_from-le (suc k) clus m = ground (arith, used_from-le k (suc clus) m)

pub used-le : (m : Mount) → used m ≤ m.cluster_count
unfolding used
used-le m = used_from-le m.cluster_count 2 m

module _ (m : Mount) (c : ℕ) (v : IsFat16 m) (in_range : c < m.cluster_count + 2) where
  pub get_freed : (j : ℕ) → fat_get (fat_set m c 0) j ≡ (if j == c then 0 else fat_get m j)
  get_freed j = fat_get-fat_set m c 0 j v.fat16 (omega arith) (omega arith)

  used_from_away : (k clus : ℕ) → c < clus → used_from k clus (fat_set m c 0) ≡ used_from k clus m
  unfolding used_from
  used_from_away zero clus h = refl
  used_from_away (suc k) clus h = ground (arith, get_freed clus, used_from_away k (suc clus))

  used_from_freed :
      (k clus : ℕ)
      → clus ≤ c
      → c < clus + k
      → fat_get m c ≢ 0
      → used_from k clus m ≡ suc (used_from k clus (fat_set m c 0))
  unfolding used_from
  used_from_freed zero clus h l n = absurd (omega arith)
  used_from_freed (suc k) clus h l n = elim (Bool-cases (clus == c)) [
    | inl e ↦ ground (arith, get_freed clus, used_from_away k (suc clus))
    | inr e ↦ ground (arith, get_freed clus, used_from_freed k (suc clus))
  ]

  -- Freeing a used entry lowers the count.
  pub used-fat_set : 2 ≤ c → fat_get m c ≢ 0 → used m ≡ suc (used (fat_set m c 0))
  unfolding used
  used-fat_set h n =
      simp (cluster_count-fat_set m c 0) (used_from_freed m.cluster_count 2 h (omega arith) n)

-- ===== src/Fat.antt =====
-- The mounted volume of harib27f/haribote/fs_fat.c (struct FS_MOUNT) and the functions that only read
-- or write its FAT copy in memory. Cluster numbers are at most 16 bits wide, so the offsets computed
-- from them do not wrap; a read outside the cache gives 0.
pub mod Table
pub mod Search
pub mod Chains
pub mod Sectors
pub mod Tests
use bxos.Common.{
  ℕ, zero, suc, ◌+◌, ◌-◌, ◌*◌, ◌/◌, ◌%◌, Option, none, some, List, Bool, true, false, ◌&&◌, ltb,
  leb, ◌==◌, if◌then◌else◌, get_or, set,
}
use bxos.Memory.{word}
use bxos.Entry.{FileInfo}

-- `struct FS_MOUNT`; `fat_cache` holds bytes
pub record Mount : Type 0 where
  pub drive : ℕ
  pub fs_type : ℕ
  pub total_sectors : ℕ
  pub sectors_per_cluster : ℕ
  pub reserved_sectors : ℕ
  pub num_fats : ℕ
  pub sectors_per_fat : ℕ
  pub root_entries : ℕ
  pub fat_lba : ℕ
  pub root_lba : ℕ
  pub root_sectors : ℕ
  pub data_lba : ℕ
  pub cluster_count : ℕ
  pub fat_cache : List ℕ
  pub root_cache : List FileInfo

abbrev pub byte_at : List ℕ → ℕ → ℕ
byte_at bytes i = get_or bytes i 0

-- Two bytes, the low one first. Of bytes, `|` after a shift by 8 is the sum.
abbrev pub le16 : List ℕ → ℕ → ℕ
le16 bytes off = byte_at bytes off + 256 * byte_at bytes (off + 1)

unfoldable pub fat_get : Mount → ℕ → ℕ
fat_get m clus =
    if m.fs_type == 16
    then le16 m.fat_cache (clus * 2)
    else let v = le16 m.fat_cache (clus + clus / 2) in if (clus % 2) == 1 then v / 16 else v % 4096

unfoldable pub is_eoc : Mount → ℕ → Bool
is_eoc m clus = if m.fs_type == 16 then leb 0xfff8 clus else leb 0x0ff8 clus

unfoldable pub eoc_value : Mount → ℕ
eoc_value m = if m.fs_type == 16 then 0xffff else 0x0fff

-- the first sector of a cluster, in unsigned words
unfoldable pub cluster_lba : Mount → ℕ → ℕ
cluster_lba m clus = (m.data_lba + (clus + word - 2) % word * m.sectors_per_cluster) % word

unfoldable pub valid_data_cluster : Mount → ℕ → Bool
valid_data_cluster m clus = leb 2 clus && ltb clus (m.cluster_count + 2)

unfoldable pub fat_set : Mount → ℕ → ℕ → Mount
fat_set m clus val =
    if m.fs_type == 16
    then record m {
      fat_cache = set (set m.fat_cache (clus * 2) (val % 256)) (clus * 2 + 1) (val / 256 % 256);
    }
    else m

-- `for (clus = 2; clus < end; clus++)`, with the rounds left
unfoldable pub find_free_from : ℕ → ℕ → Mount → ℕ
find_free_from zero clus m = 0
find_free_from (suc k) clus m =
    let rest = find_free_from k (suc clus) m in if fat_get m clus == 0 then clus else rest

unfoldable pub find_free_cluster : Mount → ℕ
unfolding find_free_from
find_free_cluster m = find_free_from m.cluster_count 2 m

-- The walk to the end of a chain: `none` when it is still going after `fuel` steps. 0 stands for a
-- broken chain, as in the source.
unfoldable pub tail_from : ℕ → ℕ → Mount → Option ℕ
tail_from zero clus m = none
tail_from (suc fuel) clus m =
    let next = fat_get m clus in
    let rest = tail_from fuel next m in
    if is_eoc m next then some clus else if valid_data_cluster m next then rest else some 0

-- A chain without a repeated cluster has at most `cluster_count` steps.
unfoldable pub find_tail_cluster : Mount → ℕ → Option ℕ
unfolding tail_from
find_tail_cluster m clus =
    if valid_data_cluster m clus then tail_from (m.cluster_count + 1) clus m else some 0

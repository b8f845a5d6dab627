-- ===== src/Fat/Tests.antt =====
-- A FAT16 volume of four clusters: 2 leads to 3, 3 is the last of its chain, 4 and 5 are free.
use bxos.Common.{◌+◌, ◌≤◌, ◌≡◌, refl, some, [], ◌∷◌, arith}
use bxos.Fat.{
  Mount, fat_get, fat_set, find_free_cluster, find_free_from, valid_data_cluster, find_tail_cluster,
  tail_from, is_eoc, cluster_lba,
}
use bxos.Fat.Table.{fat_get-fat_set}
use bxos.Fat.Sectors.{cluster_lba-apart}
use bxos.Fat.Chains.{IsChain, find_tail_cluster-last}

abbrev pub four : Mount
four = record {
  drive = 1;
  fs_type = 16;
  total_sectors = 40;
  sectors_per_cluster = 1;
  reserved_sectors = 1;
  num_fats = 2;
  sectors_per_fat = 1;
  root_entries = 16;
  fat_lba = 1;
  root_lba = 3;
  root_sectors = 1;
  data_lba = 4;
  cluster_count = 4;
  fat_cache = 0xf8 ∷ 0xff ∷ 0xff ∷ 0xff ∷ 3 ∷ 0 ∷ 0xff ∷ 0xff ∷ 0 ∷ 0 ∷ 0 ∷ 0 ∷ [];
  root_cache = [];
}

free_of_four : find_free_cluster four ≡ 4
unfolding find_free_cluster find_free_from fat_get
free_of_four = refl

tail_of_two : find_tail_cluster four 2 ≡ some 3
unfolding find_tail_cluster tail_from fat_get valid_data_cluster is_eoc
tail_of_two = refl

fat_get-fat_set_example : fat_get (fat_set four 4 0x1234) 4 ≡ 0x1234
fat_get-fat_set_example = fat_get-fat_set four 4 0x1234 4 refl (omega arith) (omega arith)

-- the chain of clusters 2 and 3
four-IsChain : IsChain four (2 ∷ 3 ∷ [])
unfolding fat_get valid_data_cluster is_eoc
four-IsChain = (refl, refl, refl, (refl, refl))

find_tail_cluster-last_example : find_tail_cluster four 2 ≡ some 3
find_tail_cluster-last_example = find_tail_cluster-last four 2 (3 ∷ []) four-IsChain (omega arith)

cluster_lba-apart_example :
    (4 ≤ cluster_lba four 2)
    × (cluster_lba four 2 + 1 ≤ cluster_lba four 5)
    × (cluster_lba four 5 + 1 ≤ 8)
unfolding valid_data_cluster
cluster_lba-apart_example =
    cluster_lba-apart four 2 5 (omega arith) (omega arith) refl refl (omega arith)

-- ===== src/Fs/Trunc.antt =====
-- Truncating and removing an open file (harib27f/haribote/fs_fat.c). The two loops that free the rest
-- of a chain have the text of `free_cluster_chain`.
use bxos.Common.{ℕ, zero, suc, ◌+◌, ◌-◌, ◌/◌, ◌&&◌, leb, ◌==◌, if◌then◌else◌, not, set}
use bxos.Common.Int.{ℤ, minus, is_neg, to_ℕ}
use bxos.Fat.{fat_get, eoc_value, valid_data_cluster}
use bxos.Fs.{Ata, Fs, mount_of, link, cluster_bytes}
use bxos.Fs.Chain.{FileState, on_fs, entry_of, set_entry, free_cluster_chain}
use bxos.Fs.File.{File, Target, slot, cached, sync_file_entry, on_file, with_file, on_cached}
use bxos.Fs.Monad.{Result, M, pure, ◌>>=◌, ◌>>◌, get, unless}

module _ {D : Type 0} ⦃ata : Ata D⦄ where
  -- the walk to the last cluster that is kept, with the steps left
  unfoldable pub keep_from : ℕ → ℕ → M (Fs D) ℕ
  keep_from zero clus = pure clus
  keep_from (suc k) clus = do
    m ← mount_of
    let next = fat_get m clus
    unless (valid_data_cluster m next) (minus 1)
    keep_from k next

  -- to size 0: the entry first, then the chain
  abbrev pub drop_all : Target → M (FileState D) (Unit {0})
  drop_all target = do
    e ← entry_of
    set_entry (record e { clustno = 0; size = 0 })
    sync_file_entry target
    on_fs (free_cluster_chain e.clustno)

  -- to a smaller size: the new end of the chain, the entry, then the rest of the chain
  abbrev pub drop_rest : Target → ℕ → M (FileState D) (Unit {0})
  drop_rest target size = do
    e ← entry_of
    m ← on_fs mount_of
    clus ← on_fs (keep_from ((size + cluster_bytes m - 1) / cluster_bytes m - 1) e.clustno)
    m' ← on_fs mount_of
    let next = fat_get m' clus
    on_fs (link clus (eoc_value m'))
    set_entry (record e { size = size })
    sync_file_entry target
    on_fs (free_cluster_chain next)

  unfoldable pub fs_truncate_common : Target → ℤ → M (FileState D) (Unit {0})
  fs_truncate_common target size = do
    t ← get
    let e = t.finfo
    unless (t.fs.mounted && ((t.fs.mount.fs_type == 16) && not (is_neg size))) (minus 1)
    unless (leb (to_ℕ size) e.size) (minus 1)
    if to_ℕ size == e.size
        then pure tt
        else if e.clustno == 0
        then set_entry (record e { size = 0 }) >> sync_file_entry target
        else if to_ℕ size == 0
        then drop_all target
        else drop_rest target (to_ℕ size)

  unfoldable pub fs_unlink_common : Target → M (FileState D) (Unit {0})
  fs_unlink_common target = do
    t ← get
    let e = t.finfo
    unless (t.fs.mounted && (t.fs.mount.fs_type == 16)) (minus 1)
    set_entry (record e { name = set e.name 0 0xe5; clustno = 0; size = 0 })
    sync_file_entry target
    on_fs (free_cluster_chain e.clustno)

  unfoldable pub fs_file_truncate : File → ℤ → Fs D → Result (Unit {0}) × File × Fs D
  fs_file_truncate f size s =
      with_file f (on_file (fs_truncate_common (slot f.slot) size) f.finfo s)

  unfoldable pub fs_file_unlink : File → Fs D → Result (Unit {0}) × File × Fs D
  fs_file_unlink f s = with_file f (on_file (fs_unlink_common (slot f.slot)) f.finfo s)

  unfoldable pub fs_data_truncate : ℕ → ℤ → M (Fs D) (Unit {0})
  fs_data_truncate i size = on_cached i (fs_truncate_common (cached i) size)

  unfoldable pub fs_data_unlink : ℕ → M (Fs D) (Unit {0})
  fs_data_unlink i = on_cached i (fs_unlink_common (cached i))

-- ===== src/Fs.antt =====
-- The state and the failures of harib27f/haribote/fs_fat.c, and its sector and cluster I/O. The disk
-- driver (ata.c) is the interface `Ata`. Arguments are values, so the source's tests of an argument
-- against the null pointer have no counterpart.
pub mod Monad
pub mod Chain
pub mod Dir
pub mod Slots
pub mod Path
pub mod File
pub mod Trunc
pub mod Api
pub mod User
pub mod Mounting
pub mod Facts
pub mod Free
pub mod Append
pub mod Nth
pub mod Tests
mod ChainTests
use bxos.Common.{
  ℕ, zero, suc, ◌+◌, ◌-◌, ◌*◌, ◌/◌, ◌%◌, Option, none, some, List, [], ◌∷◌, Bool, true, false, ◌&&◌,
  ltb, leb, ◌==◌, if◌then◌else◌, take, drop, replicate, not,
}
use bxos.Common.Int.{ℤ, pos, minus}
use bxos.Memory.{word}
use bxos.Entry.{FileInfo, slice}
use bxos.Fat.{
  Mount, fat_get, fat_set, is_eoc, eoc_value, cluster_lba, valid_data_cluster, find_free_cluster,
  find_tail_cluster,
}
use Monad.{Result, ok, err, hang, M, pure, raise, ◌>>=◌, ◌>>◌, get, put, unless, or_hang}

-- `ata_read_sectors` and `ata_write_sectors`: drive, first sector, number of sectors. A call fails,
-- or reads or writes all of them. The state is the disk with whatever decides its failures.
pub record Ata (D : Type 0) : Type 0 where
  pub read_sectors : ℕ → ℕ → ℕ → D → Option (List ℕ) × D
  pub write_sectors : ℕ → ℕ → ℕ → List ℕ → D → Bool × D

-- `g_data_mount`, `g_data_mounted` and the disk
pub record Fs (D : Type 0) : Type 0 where
  pub mount : Mount
  pub mounted : Bool
  pub disk : D

abbrev pub max_cluster_bytes : ℕ
max_cluster_bytes = 8 * 512

abbrev pub cluster_bytes : Mount → ℕ
cluster_bytes m = m.sectors_per_cluster * 512

module _ {D : Type 0} ⦃ata : Ata D⦄ where
  abbrev pub mount_of : M (Fs D) Mount
  mount_of s = (ok s.mount, s)

  abbrev pub set_mount : Mount → M (Fs D) (Unit {0})
  set_mount m s = (ok tt, record s { mount = m })

  unfoldable pub read_at : ℕ → ℕ → M (Fs D) (List ℕ)
  read_at lba count s =
      let (r, d) = ata.read_sectors s.mount.drive lba count s.disk in
      elim r [
        | none ↦ (err (minus 1), record s { disk = d })
        | some bytes ↦ (ok bytes, record s { disk = d })
      ]

  unfoldable pub write_at : ℕ → ℕ → List ℕ → M (Fs D) (Unit {0})
  write_at lba count bytes s =
      let (done, d) = ata.write_sectors s.mount.drive lba count bytes s.disk in
      if done then (ok tt, record s { disk = d }) else (err (minus 1), record s { disk = d })

  -- the loop of `sync_fat_entry` over the copies of the FAT, with the copies left
  unfoldable pub sync_copies : ℕ → ℕ → ℕ → M (Fs D) (Unit {0})
  sync_copies zero i sec = pure tt
  sync_copies (suc k) i sec = do
    m ← mount_of
    write_at ((m.fat_lba + i * m.sectors_per_fat + sec) % word) 1
        (slice (sec * 512) 512 m.fat_cache)
    sync_copies k (suc i) sec

  unfoldable pub sync_fat_entry : ℕ → M (Fs D) (Unit {0})
  sync_fat_entry clus = do
    m ← mount_of
    let sec = clus * 2 / 512
    unless ((m.fs_type == 16) && ltb sec m.sectors_per_fat) (minus 1)
    sync_copies m.num_fats 0 sec

  unfoldable pub write_cluster : ℕ → List ℕ → M (Fs D) (Unit {0})
  write_cluster clus bytes = do
    m ← mount_of
    unless (valid_data_cluster m clus) (minus 1)
    write_at (cluster_lba m clus) m.sectors_per_cluster bytes

  unfoldable pub read_cluster : ℕ → M (Fs D) (List ℕ)
  read_cluster clus = do
    m ← mount_of
    unless (valid_data_cluster m clus) (minus 1)
    read_at (cluster_lba m clus) m.sectors_per_cluster

  unfoldable pub zero_cluster : ℕ → M (Fs D) (Unit {0})
  zero_cluster clus = do
    m ← mount_of
    unless (leb (cluster_bytes m) max_cluster_bytes) (minus 1)
    write_cluster clus (replicate (cluster_bytes m) 0)

  -- a FAT entry in memory and on the disk
  unfoldable pub link : ℕ → ℕ → M (Fs D) (Unit {0})
  link clus val = do m ← mount_of; set_mount (fat_set m clus val); sync_fat_entry clus

  -- The steps that `append_cluster` and `append_dir_cluster` share: a free cluster, filled with
  -- zeros and marked as the end of a chain.
  unfoldable pub take_cluster : M (Fs D) ℕ
  take_cluster = do
    m ← mount_of
    let clus = find_free_cluster m
    unless (not (clus == 0)) (minus 1)
    zero_cluster clus
    link clus (eoc_value m)
    pure clus

  unfoldable pub find_tail : ℕ → M (Fs D) ℕ
  find_tail clus = do
    m ← mount_of
    tail ← or_hang (find_tail_cluster m clus)
    unless (not (tail == 0)) (minus 1)
    pure tail

  unfoldable pub append_dir_cluster : ℕ → M (Fs D) ℕ
  append_dir_cluster dir_clus = do
    m ← mount_of
    unless (valid_data_cluster m dir_clus) (minus 1)
    new ← take_cluster
    tail ← find_tail dir_clus
    link tail new
    pure new

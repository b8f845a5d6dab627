-- ===== src/Fs/Dir.antt =====
-- Directory iteration and search of harib27f/haribote/fs_fat.c. The root directory is cluster 0 and
-- is read from the cache; any other is a chain of clusters, read sector by sector.
use bxos.Common.{
  ℕ, ◌+◌, ◌*◌, ◌/◌, ◌%◌, Option, none, some, List, [], Bool, true, false, ◌&&◌, ◌||◌, leb, ◌==◌,
  if◌then◌else◌, not, get_or,
}
use bxos.Common.Int.{minus}
use bxos.Memory.{word}
use bxos.Entry.{FileInfo, decode_entry, clear_entry, slice}
use bxos.Fat.{Mount, fat_get, is_eoc, valid_data_cluster, cluster_lba}
use bxos.Fs.{Ata, Fs, read_at}
use bxos.Fs.Monad.{Result, ok, err, hang, M, pure, ◌>>=◌, ◌>>◌, get, unless}

-- `struct DIR_ITER`
pub record DirIter : Type 0 where
  pub dir_clus : ℕ
  pub cur_lba : ℕ
  pub cur_offset_in_sector : ℕ
  pub cur_cluster_offset : ℕ
  pub cur_clus : ℕ
  pub entry_index : ℕ
  pub sector_loaded : Bool
  pub at_end : Bool
  pub sector : List ℕ

-- `struct DIR_SLOT`; `cache_entry` is an index of the root cache
pub record DirSlot : Type 0 where
  pub lba : ℕ
  pub offset : ℕ
  pub cache_entry : Option ℕ

-- what `dir_iter_next` returns: 1 with an entry and its slot, 0, or -1
pub data Next : Type 0 where
  entry : FileInfo → DirSlot → Next
  finished failed : Next

-- the slot of root entry `i`
abbrev pub root_slot : Mount → ℕ → DirSlot
root_slot m i = record {
  lba = (m.root_lba + i * 32 / 512) % word;
  offset = i * 32 % 512;
  cache_entry = some i;
}

-- The iterator after an entry of a sector: on to the next entry, sector or cluster. False when the
-- chain is broken.
unfoldable pub advance : Mount → DirIter → DirIter × Bool
advance m it =
    let off = it.cur_offset_in_sector + 32 in
    let it1 = record it { cur_offset_in_sector = off; entry_index = it.entry_index + 1 } in
    let it2 = record it1 {
      cur_offset_in_sector = 0;
      sector_loaded = false;
      cur_lba = (it.cur_lba + 1) % word;
      cur_cluster_offset = it.cur_cluster_offset + 1;
    } in
    let next = fat_get m it.cur_clus in
    if leb 512 off
    then (if leb m.sectors_per_cluster (it.cur_cluster_offset + 1)
        then (if is_eoc m next
            then (record it2 { at_end = true }, true)
            else (if valid_data_cluster m next
                then (
                  record it2 {
                    cur_clus = next;
                    cur_lba = cluster_lba m next;
                    cur_cluster_offset = 0;
                  },
                  true,
                )
                else (it2, false)))
        else (it2, true))
    else (it1, true)

unfoldable pub next_in_root : Mount → DirIter → Next × DirIter
next_in_root m it =
    let i = it.entry_index in
    let slot = root_slot m i in
    if leb m.root_entries i then (finished, record it { at_end = true }) else (
      entry (get_or m.root_cache i clear_entry) slot,
      record it { cur_lba = slot.lba; cur_offset_in_sector = slot.offset; entry_index = i + 1 },
    )

-- the entry under the iterator, once its sector is loaded
unfoldable pub next_loaded : Mount → DirIter → Next × DirIter
next_loaded m it =
    let e = decode_entry (slice it.cur_offset_in_sector 32 it.sector) in
    let slot : DirSlot = record {
      lba = it.cur_lba;
      offset = it.cur_offset_in_sector;
      cache_entry = none;
    } in
    let (it', whole) = advance m it in (if whole then entry e slot else failed, it')

unfoldable pub iter_at : Mount → ℕ → DirIter
iter_at m dir_clus = record {
  dir_clus = dir_clus;
  cur_lba = if dir_clus == 0 then m.root_lba else cluster_lba m dir_clus;
  cur_offset_in_sector = 0;
  cur_cluster_offset = 0;
  cur_clus = dir_clus;
  entry_index = 0;
  sector_loaded = false;
  at_end = false;
  sector = [];
}

unfoldable pub dir_iter_close : DirIter → DirIter
dir_iter_close it = record it { at_end = true }

-- the root directory, or a cluster that may hold a directory
abbrev pub is_dir_cluster : Mount → ℕ → Bool
is_dir_cluster m clus = (clus == 0) || valid_data_cluster m clus

-- the iterator with the sector that a read gave; a failed read leaves it as it was
abbrev pub with_sector : DirIter → Result (List ℕ) → Option DirIter
with_sector it (ok bytes) = some (record it { sector = bytes; sector_loaded = true })
with_sector it (err _) = none
with_sector it hang = none

abbrev pub next_in_sector : Mount → DirIter → Option DirIter → Next × DirIter
next_in_sector m it (some loaded) = next_loaded m loaded
next_in_sector m it none = (failed, it)

module _ {D : Type 0} ⦃ata : Ata D⦄ where
  unfoldable pub dir_iter_open : ℕ → M (Fs D) DirIter
  dir_iter_open dir_clus = do
    s ← get
    unless (s.mounted && is_dir_cluster s.mount dir_clus) (minus 1)
    pure (iter_at s.mount dir_clus)

  abbrev pub load_sector : DirIter → Fs D → Option DirIter × Fs D
  load_sector it s =
      if it.sector_loaded
      then (some it, s)
      else (let r = read_at it.cur_lba 1 s in (with_sector it r.0, r.1))

  unfoldable pub dir_iter_next : DirIter → M (Fs D) (Next × DirIter)
  dir_iter_next it s =
      let r = load_sector it s in
      if not s.mounted || it.at_end
      then (ok (finished, it), s)
      else if it.dir_clus == 0
      then (ok (next_in_root s.mount it), s)
      else if valid_data_cluster s.mount it.cur_clus
      then (ok (next_in_sector s.mount it r.0), r.1)
      else (ok (failed, it), s)

-- ===== src/Fs/User.antt =====
-- The calls that harib27f/haribote/fs_fat.c offers to applications: opening and reading a directory,
-- the attributes of a path, and renaming within a directory.
use bxos.Common.{ℕ, zero, suc, List, [], ◌∷◌, Bool, ◌&&◌, ◌||◌, ◌==◌, if◌then◌else◌, not}
use bxos.Common.Int.{minus}
use bxos.Entry.{
  FileInfo, DirInfo, first, has_bit, attr_dir, attr_volume, set_name83, fs_dirinfo_from_finfo,
}
use bxos.Fs.{Ata, Fs, mount_of}
use bxos.Fs.Dir.{DirIter, entry, finished, failed, dir_iter_open, dir_iter_next}
use bxos.Fs.Slots.{same_bytes, dir_write_slot, deleted, dir_fuel}
use bxos.Fs.Path.{Resolved, fs_resolve_path, bad_path, not_found}
use bxos.Fs.Monad.{M, pure, raise, never, ◌>>=◌, ◌>>◌, get, unless, recode}

-- what `fs_user_readdir` returns: 1 with an entry, 0 at the end, or -1
pub data Read : Type 0 where
  item : DirInfo → Read
  end broken : Read

abbrev pub root_info : DirInfo
root_info = record { name = []; attr = attr_dir; size = 0; clustno = 0 }

abbrev pub is_root_path : List ℕ → Bool
is_root_path path = same_bytes path (b'/' ∷ [])

-- entries that applications do not see: deleted ones, long names, volume labels
abbrev pub is_hidden : FileInfo → Bool
is_hidden e = (first e.name == deleted) || ((e.kind == 0x0f) || has_bit e.kind attr_volume)

module _ {D : Type 0} ⦃ata : Ata D⦄ where
  unfoldable pub open_resolved : Resolved → M (Fs D) DirIter
  open_resolved r =
      if first r.leaf_name83 == 0
      then recode (dir_iter_open r.parent_clus) (minus 1)
      else if (first r.leaf.name == 0) || not (has_bit r.leaf.kind attr_dir)
      then raise (minus 1)
      else recode (dir_iter_open r.leaf.clustno) (minus 1)

  unfoldable pub fs_user_opendir : ℕ → List ℕ → M (Fs D) DirIter
  fs_user_opendir start_clus path =
      if is_root_path path
      then dir_iter_open 0
      else recode (fs_resolve_path start_clus path) (minus 1) >>= open_resolved

  -- the loop of `fs_user_readdir`
  unfoldable pub readdir_from : ℕ → DirIter → M (Fs D) (Read × DirIter)
  readdir_from zero it = never
  readdir_from (suc fuel) it = do
    (n, it') ← dir_iter_next it
    let rest = readdir_from fuel it'
    elim n [
      | entry e slot ↦
          if first e.name == 0
          then pure (end, it')
          else if is_hidden e
          then rest
          else pure (item (fs_dirinfo_from_finfo e), it')
      | finished ↦ pure (end, it')
      | failed ↦ pure (broken, it')
    ]

  unfoldable pub fs_user_readdir : DirIter → M (Fs D) (Read × DirIter)
  fs_user_readdir it = do m ← mount_of; readdir_from (dir_fuel m) it

  unfoldable pub fs_user_stat : ℕ → List ℕ → M (Fs D) DirInfo
  fs_user_stat start_clus path = if is_root_path path then pure root_info else do
    r ← recode (fs_resolve_path start_clus path) (minus 1)
    unless (not ((first r.leaf_name83 == 0) || (first r.leaf.name == 0))) (minus 1)
    pure (fs_dirinfo_from_finfo r.leaf)

  -- the case that the new name is taken: by the entry itself, or by another
  abbrev pub rename_taken : Resolved → Resolved → M (Fs D) (Unit {0})
  rename_taken old new =
      if (new.slot.lba == old.slot.lba) && (new.slot.offset == old.slot.offset)
      then pure tt
      else raise (minus 3)

  unfoldable pub fs_user_rename : ℕ → List ℕ → List ℕ → M (Fs D) (Unit {0})
  fs_user_rename start_clus oldpath newpath = do
    s ← get
    unless (s.mounted && (s.mount.fs_type == 16)) (minus 1)
    old ← recode (fs_resolve_path start_clus oldpath) not_found
    unless (not ((first old.leaf_name83 == 0) || (first old.leaf.name == 0))) not_found
    new ← recode (fs_resolve_path start_clus newpath) bad_path
    unless (not (first new.leaf_name83 == 0)) bad_path
    unless (old.parent_clus == new.parent_clus) (minus 2)
    if first new.leaf.name == 0
        then recode (dir_write_slot old.slot (set_name83 old.leaf new.leaf_name83)) (minus 4)
        else rename_taken old new

-- ===== src/Fs/Api.antt =====
-- The calls of harib27f/haribote/fs_fat.c that take a path: making and removing directories, opening
-- and creating files, and the root-directory calls that take a name.
use bxos.Common.{
  ℕ, Option, none, some, List, ◌∷◌, true, false, ◌&&◌, leb, ◌==◌, if◌then◌else◌, not, set,
  replicate,
}
use bxos.Common.Int.{minus}
use bxos.Entry.{
  FileInfo, clear_entry, first, has_bit, attr_dir, set_name83, pack_83_name, not_a_file,
}
use bxos.Fat.{Mount, fat_set, eoc_value, valid_data_cluster, find_free_cluster}
use bxos.Fs.{Ata, Fs, mount_of, set_mount, cluster_bytes, max_cluster_bytes, write_cluster, link}
use bxos.Fs.Chain.{free_cluster_chain}
use bxos.Fs.Dir.{DirSlot, is_dir_cluster}
use bxos.Fs.Slots.{overlay, dir_find, dir_is_empty, dir_write_slot, dir_alloc_slot, deleted}
use bxos.Fs.Path.{Resolved, fs_resolve_path, bad_path, not_found, not_dir}
use bxos.Fs.File.{File}
use bxos.Entry.{encode_entry}
use bxos.Fs.Monad.{M, pure, raise, ◌>>=◌, ◌>>◌, get, unless, or_fail, recode, attempt}

-- The 8.3 names of the two entries at the front of a directory.
abbrev pub dot_name : List ℕ
dot_name = b'.' ∷ replicate 10 b' '

abbrev pub dotdot_name : List ℕ
dotdot_name = b'.' ∷ b'.' ∷ replicate 9 b' '

abbrev pub dir_entry : List ℕ → ℕ → FileInfo
dir_entry name83 clus = record (set_name83 clear_entry name83) { kind = attr_dir; clustno = clus }

-- a new directory's cluster: zeros, with the two entries in front
unfoldable pub dir_contents : Mount → ℕ → ℕ → List ℕ
dir_contents m dir_clus parent_clus =
    overlay (overlay (replicate (cluster_bytes m) 0) 0 (encode_entry (dir_entry dot_name dir_clus)))
      32 (encode_entry (dir_entry dotdot_name parent_clus))

-- `file->finfo` and `file->slot` of a resolved path
abbrev pub file_of : Resolved → File
file_of r = record { finfo = r.leaf; slot = r.slot }

-- a new file's entry: no cluster, and size 0
abbrev pub file_entry : List ℕ → FileInfo
file_entry name83 = record (set_name83 clear_entry name83) { kind = 0x20 }

module _ {D : Type 0} ⦃ata : Ata D⦄ where
  unfoldable pub init_dir_cluster : ℕ → ℕ → M (Fs D) (Unit {0})
  init_dir_cluster dir_clus parent_clus = do
    m ← mount_of
    unless (valid_data_cluster m dir_clus && is_dir_cluster m parent_clus) (minus 1)
    unless (leb (cluster_bytes m) max_cluster_bytes) (minus 1)
    write_cluster dir_clus (dir_contents m dir_clus parent_clus)

  -- The FAT entry of the new directory; if it cannot be written, the cached one is taken back.
  unfoldable pub claim_cluster : ℕ → M (Fs D) (Unit {0})
  claim_cluster clus = do
    m ← mount_of
    done ← attempt (link clus (eoc_value m))
    m' ← mount_of
    elim done [ some u ↦ pure tt | none ↦ set_mount (fat_set m' clus 0) >> raise (minus 6) ]

  -- The directory's entry; if it cannot be written, the cluster is freed.
  unfoldable pub enter_dir : DirSlot → FileInfo → ℕ → M (Fs D) (Unit {0})
  enter_dir slot e clus = do
    done ← attempt (dir_write_slot slot e)
    elim done [
      | some u ↦ pure tt
      | none ↦ attempt (free_cluster_chain clus) >>= λ _. raise (minus 7)
    ]

  unfoldable pub fs_mkdir : ℕ → List ℕ → M (Fs D) (Unit {0})
  fs_mkdir start_clus path = do
    s ← get
    unless (s.mounted && (s.mount.fs_type == 16)) (minus 1)
    r ← fs_resolve_path start_clus path
    unless (not (first r.leaf_name83 == 0)) bad_path
    unless (first r.leaf.name == 0) (minus 2)
    slot ← recode (dir_alloc_slot r.parent_clus) (minus 3)
    m ← mount_of
    let clus = find_free_cluster m
    unless (not (clus == 0)) (minus 4)
    recode (init_dir_cluster clus r.parent_clus) (minus 5)
    claim_cluster clus
    enter_dir slot (dir_entry r.leaf_name83 clus) clus

  unfoldable pub fs_rmdir : ℕ → List ℕ → M (Fs D) (Unit {0})
  fs_rmdir start_clus path = do
    s ← get
    unless (s.mounted && (s.mount.fs_type == 16)) (minus 1)
    r ← fs_resolve_path start_clus path
    unless (not (first r.leaf_name83 == 0)) bad_path
    unless (not (first r.leaf.name == 0)) not_found
    unless (has_bit r.leaf.kind attr_dir) not_dir
    m ← mount_of
    unless (valid_data_cluster m r.leaf.clustno) bad_path
    empty ← recode (dir_is_empty r.leaf.clustno) (minus 3)
    unless empty (minus 2)
    let gone = record r.leaf { name = set r.leaf.name 0 deleted; clustno = 0; size = 0 }
    recode (dir_write_slot r.slot gone) (minus 4)
    recode (free_cluster_chain r.leaf.clustno) (minus 5)

  unfoldable pub fs_data_open_path : ℕ → List ℕ → M (Fs D) File
  fs_data_open_path start_clus path = do
    r ← fs_resolve_path start_clus path
    unless (not (first r.leaf.name == 0)) not_found
    unless (not (not_a_file r.leaf)) not_dir
    pure (file_of r)

  abbrev pub create_leaf : Resolved → M (Fs D) File
  create_leaf r = do
    slot ← recode (dir_alloc_slot r.parent_clus) (minus 2)
    recode (dir_write_slot slot (file_entry r.leaf_name83)) (minus 3)
    pure (record { finfo = file_entry r.leaf_name83; slot = slot })

  unfoldable pub fs_data_create_path : ℕ → List ℕ → M (Fs D) File
  fs_data_create_path start_clus path = do
    r ← fs_resolve_path start_clus path
    unless (not (first r.leaf_name83 == 0)) bad_path
    if first r.leaf.name == 0
        then create_leaf r
        else (if not_a_file r.leaf then raise not_dir else pure (file_of r))

  -- The index of a root entry; `none` is the null pointer.
  unfoldable pub fs_data_search : List ℕ → M (Fs D) (Option ℕ)
  fs_data_search name = do
    found ← attempt (do
      s ← get
      unless s.mounted (minus 1)
      name83 ← or_fail (pack_83_name name) (minus 1)
      dir_find 0 name83)
    pure (elim found [
      | none ↦ none
      | some (e, slot) ↦ if not_a_file e then none else slot.cache_entry
    ])

  unfoldable pub fs_data_create : List ℕ → M (Fs D) (Unit {0})
  fs_data_create name = do
    s ← get
    unless (s.mounted && (s.mount.fs_type == 16)) (minus 1)
    name83 ← or_fail (pack_83_name name) (minus 1)
    existing ← attempt (dir_find 0 name83)
    unless (elim existing [ none ↦ true | some _ ↦ false ]) (minus 2)
    slot ← recode (dir_alloc_slot 0) (minus 3)
    recode (dir_write_slot slot (file_entry name83)) (minus 4)

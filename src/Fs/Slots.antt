-- ===== src/Fs/Slots.antt =====
-- Loops over a directory and the writing of an entry (harib27f/haribote/fs_fat.c). A loop over a
-- directory runs on fuel, since a chain of clusters that comes back to itself never ends.
use bxos.Common.{
  ℕ, zero, suc, ◌+◌, ◌-◌, ◌*◌, Option, none, some, List, [], ◌∷◌, ◌++◌, Bool, true, false, ◌&&◌,
  ◌||◌, ltb, leb, ◌==◌, if◌then◌else◌, not, set, get_or,
}
use bxos.Common.Int.{minus}
use bxos.Entry.{FileInfo, encode_entry, first, has_bit, attr_volume}
use bxos.Fat.{Mount, valid_data_cluster, cluster_lba}
use bxos.Fs.{Ata, Fs, mount_of, set_mount, read_at, write_at, append_dir_cluster}
use bxos.Fs.Dir.{
  DirIter, DirSlot, Next, entry, finished, failed, root_slot, dir_iter_open, dir_iter_next,
}
use bxos.Fs.Monad.{never, M, pure, raise, ◌>>=◌, ◌>>◌, get, unless}

-- The root has `root_entries` entries; a chain without a repeated cluster has at most 16 entries for
-- each sector of the volume's clusters.
unfoldable pub dir_fuel : Mount → ℕ
dir_fuel m = m.root_entries + m.cluster_count * m.sectors_per_cluster * 16 + 2

abbrev pub deleted : ℕ
deleted = 0xe5

abbrev pub same_bytes : List ℕ → List ℕ → Bool
same_bytes [] [] = true
same_bytes [] (y ∷ ys) = false
same_bytes (x ∷ xs) [] = false
same_bytes (x ∷ xs) (y ∷ ys) = (x == y) && same_bytes xs ys

-- the 11 bytes at the front of an entry
abbrev pub name83_of : FileInfo → List ℕ
name83_of e = e.name ++ e.ext

-- bytes laid over a sector from an offset on
unfoldable pub overlay : List ℕ → ℕ → List ℕ → List ℕ
overlay [] off bytes = []
overlay (x ∷ xs) zero [] = x ∷ xs
overlay (x ∷ xs) zero (b ∷ bs) = b ∷ overlay xs zero bs
overlay (x ∷ xs) (suc off) bytes = x ∷ overlay xs off bytes

abbrev pub is_dot : FileInfo → Bool
is_dot e = (first e.name == b'.') && ((get_or e.name 1 0 == b' ') || (get_or e.name 1 0 == b'.'))

abbrev pub cache_write : DirSlot → FileInfo → Mount → Mount
cache_write slot e m = elim slot.cache_entry [
  | none ↦ m
  | some i ↦ record m { root_cache = set m.root_cache i e }
]

abbrev pub entry_or_fail : {D : Type 0} → Next → M (Fs D) FileInfo
entry_or_fail (entry e slot) = pure e
entry_or_fail finished = raise (minus 1)
entry_or_fail failed = raise (minus 1)

module _ {D : Type 0} ⦃ata : Ata D⦄ where
  unfoldable pub find_from : ℕ → List ℕ → DirIter → M (Fs D) (FileInfo × DirSlot)
  find_from zero name83 it = never
  find_from (suc fuel) name83 it = do
    (n, it') ← dir_iter_next it
    let rest = find_from fuel name83 it'
    elim n [
      | entry e slot ↦
          if first e.name == 0
          then raise (minus 1)
          else if (first e.name == deleted) || has_bit e.kind attr_volume
          then rest
          else if same_bytes (name83_of e) name83
          then pure (e, slot)
          else rest
      | finished ↦ raise (minus 1)
      | failed ↦ raise (minus 1)
    ]

  unfoldable pub dir_find : ℕ → List ℕ → M (Fs D) (FileInfo × DirSlot)
  dir_find parent_clus name83 = do
    m ← mount_of
    it ← dir_iter_open parent_clus
    find_from (dir_fuel m) name83 it

  -- the loop of `dir_is_empty`
  unfoldable pub empty_from : ℕ → DirIter → M (Fs D) Bool
  empty_from zero it = never
  empty_from (suc fuel) it = do
    (n, it') ← dir_iter_next it
    let rest = empty_from fuel it'
    elim n [
      | entry e slot ↦
          if first e.name == 0
          then pure true
          else if (first e.name == deleted) || is_dot e
          then rest
          else pure false
      | finished ↦ pure true
      | failed ↦ raise (minus 1)
    ]

  unfoldable pub dir_is_empty : ℕ → M (Fs D) Bool
  dir_is_empty dir_clus = do m ← mount_of; it ← dir_iter_open dir_clus; empty_from (dir_fuel m) it

  unfoldable pub dotdot_cluster : ℕ → M (Fs D) ℕ
  dotdot_cluster dir_clus = if dir_clus == 0 then pure 0 else do
    m ← mount_of
    it ← dir_iter_open dir_clus
    (n, it') ← dir_iter_next it
    e ← entry_or_fail n
    (n', it'') ← dir_iter_next it'
    e' ← entry_or_fail n'
    unless
        ((first e'.name == b'.') && ((get_or e'.name 1 0 == b'.') && (get_or e'.name 2 0 == b' ')))
        (minus 1)
    unless ((e'.clustno == 0) || valid_data_cluster m e'.clustno) (minus 1)
    pure e'.clustno

  unfoldable pub dir_write_slot : DirSlot → FileInfo → M (Fs D) (Unit {0})
  dir_write_slot slot e = do
    s ← get
    unless (s.mounted && leb slot.offset (512 - 32)) (minus 1)
    set_mount (cache_write slot e s.mount)
    secbuf ← read_at slot.lba 1
    write_at slot.lba 1 (overlay secbuf slot.offset (encode_entry e))

  -- `sync_finfo_entry` for the root entry `i`, with `dir_slot_from_finfo`
  unfoldable pub sync_finfo_entry : ℕ → FileInfo → M (Fs D) (Unit {0})
  sync_finfo_entry i e = do
    m ← mount_of
    unless (ltb i m.root_entries) (minus 1)
    dir_write_slot (root_slot m i) e

  -- the loop of `dir_alloc_slot`: the slot of a free entry, or nothing at the end
  unfoldable pub free_slot_from : ℕ → DirIter → M (Fs D) (Option DirSlot)
  free_slot_from zero it = never
  free_slot_from (suc fuel) it = do
    (n, it') ← dir_iter_next it
    let rest = free_slot_from fuel it'
    elim n [
      | entry e slot ↦
          if (first e.name == 0) || (first e.name == deleted) then pure (some slot) else rest
      | finished ↦ pure none
      | failed ↦ raise (minus 1)
    ]

  abbrev extend_dir : ℕ → M (Fs D) DirSlot
  extend_dir parent_clus = do
    unless (not (parent_clus == 0)) (minus 1)
    new ← append_dir_cluster parent_clus
    m ← mount_of
    pure (record { lba = cluster_lba m new; offset = 0; cache_entry = none })

  unfoldable pub dir_alloc_slot : ℕ → M (Fs D) DirSlot
  dir_alloc_slot parent_clus = do
    s ← get
    unless (s.mounted && (s.mount.fs_type == 16)) (minus 1)
    it ← dir_iter_open parent_clus
    found ← free_slot_from (dir_fuel s.mount) it
    elim found [ some slot ↦ pure slot | none ↦ extend_dir parent_clus ]

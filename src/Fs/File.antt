-- ===== src/Fs/File.antt =====
-- Reading and writing an open file (harib27f/haribote/fs_fat.c). Positions and counts are C ints; the
-- sums of two that are not negative fit an unsigned word.
use bxos.Common.{
  ℕ, zero, suc, ◌+◌, ◌-◌, ◌/◌, ◌%◌, ◌^◌, min, List, [], ◌++◌, true, false, ◌&&◌, ◌||◌, ltb, leb,
  ◌==◌, if◌then◌else◌, not, length, take, drop, get_or, replicate, set,
}
use bxos.Common.Int.{ℤ, minus, is_neg, to_ℕ}
use bxos.Entry.{FileInfo, clear_entry, slice}
use bxos.Fat.{Mount}
use bxos.Fs.{Ata, Fs, mount_of, cluster_bytes, max_cluster_bytes, read_cluster, write_cluster}
use bxos.Fs.Chain.{FileState, on_fs, entry_of, set_entry, nth_cluster}
use bxos.Fs.Dir.{DirSlot}
use bxos.Fs.Slots.{overlay, dir_write_slot, sync_finfo_entry}
use bxos.Fs.Monad.{Result, M, pure, never, ◌>>=◌, ◌>>◌, get, unless}

-- `struct FS_FILE`
pub record File : Type 0 where
  pub finfo : FileInfo
  pub slot : DirSlot

-- Where the entry of an open file is written back: to a slot, or to the root entry that the caller's
-- pointer names.
pub data Target : Type 0 where
  slot : DirSlot → Target
  cached : ℕ → Target

-- how much of the cluster around `at` a transfer of `left` bytes takes
abbrev pub chunk_at : Mount → ℕ → ℕ → ℕ
chunk_at m at left = min left (cluster_bytes m - at % cluster_bytes m)

-- `n` clamped to the end of the file
abbrev pub readable : FileInfo → ℕ → ℕ → ℕ
readable e at n = if ltb e.size (at + n) then e.size - at else n

module _ {D : Type 0} ⦃ata : Ata D⦄ where
  unfoldable pub sync_file_entry : Target → M (FileState D) (Unit {0})
  sync_file_entry (slot s) = do e ← entry_of; on_fs (dir_write_slot s e)
  sync_file_entry (cached i) = do e ← entry_of; on_fs (sync_finfo_entry i e)

  -- the loop of `fs_data_read`: the bytes from `at` on, `left` of them
  unfoldable pub read_loop : ℕ → ℕ → ℕ → M (FileState D) (List ℕ)
  read_loop zero at left = if left == 0 then pure [] else never
  read_loop (suc fuel) at left = do
    m ← on_fs mount_of
    let bytes = cluster_bytes m
    let chunk = chunk_at m at left
    let rest = read_loop fuel (at + chunk) (left - chunk)
    let round = nth_cluster (at / bytes) false >>= λ clus. on_fs (read_cluster clus) >>= λ tmp.
        rest >>= λ more. pure (slice (at % bytes) chunk tmp ++ more)
    if left == 0 then pure [] else round

  -- The bytes read; their number is what the source returns.
  unfoldable pub fs_data_read : ℤ → ℤ → M (FileState D) (List ℕ)
  fs_data_read at n = do
    t ← get
    unless (t.fs.mounted && not (is_neg at || is_neg n)) (minus 1)
    let m = t.fs.mount
    let left = readable t.finfo (to_ℕ at) (to_ℕ n)
    if leb t.finfo.size (to_ℕ at) then pure [] else do
      unless (leb (cluster_bytes m) max_cluster_bytes) (minus 1)
      read_loop left (to_ℕ at) left

  -- The contents of the cluster that a round writes into; one that is overwritten whole is not read,
  -- and what the buffer then holds does not matter.
  unfoldable pub old_contents : ℕ → ℕ → ℕ → M (FileState D) (List ℕ)
  old_contents clus off chunk = do
    m ← on_fs mount_of
    if (off == 0) && (chunk == cluster_bytes m)
        then pure (replicate (cluster_bytes m) 0)
        else on_fs (read_cluster clus)

  -- the loop of `fs_write_common`: the bytes `src` from `at` on
  unfoldable pub write_loop : ℕ → ℕ → List ℕ → M (FileState D) (Unit {0})
  write_loop zero at src = if length src == 0 then pure tt else never
  write_loop (suc fuel) at src = do
    m ← on_fs mount_of
    let bytes = cluster_bytes m
    let off = at % bytes
    let chunk = chunk_at m at (length src)
    let rest = write_loop fuel (at + chunk) (drop chunk src)
    let round = nth_cluster (at / bytes) true >>= λ clus. old_contents clus off chunk >>= λ tmp.
        on_fs (write_cluster clus (overlay tmp off (take chunk src))) >> rest
    if length src == 0 then pure tt else round

  abbrev pub grow_to : ℕ → M (FileState D) (Unit {0})
  grow_to end = do
    e ← entry_of
    if ltb e.size end then set_entry (record e { size = end }) else pure tt

  -- `src` holds the `n` bytes of the buffer; the result is the count that the source returns.
  unfoldable pub fs_write_common : Target → ℤ → List ℕ → M (FileState D) ℕ
  fs_write_common target at src = do
    t ← get
    let m = t.fs.mount
    unless (t.fs.mounted && ((m.fs_type == 16) && not (is_neg at))) (minus 1)
    unless (ltb t.finfo.size (2 ^ 31) && leb (to_ℕ at) t.finfo.size) (minus 1)
    unless (leb (cluster_bytes m) max_cluster_bytes) (minus 1)
    write_loop (length src) (to_ℕ at) src
    grow_to (to_ℕ at + length src)
    sync_file_entry target
    pure (length src)

-- An operation on an open file, with the file's entry afterwards.
abbrev pub on_file : {D A : Type 0} → M (FileState D) A → FileInfo → Fs D → Result A × FileState D
on_file op e s = op (record { fs = s; finfo = e })

abbrev pub with_file : {D A : Type 0} → File → Result A × FileState D → Result A × File × Fs D
with_file f (r, t) = (r, record f { finfo = t.finfo }, t.fs)

abbrev pub store_cached : {D A : Type 0} → ℕ → Result A × FileState D → Result A × Fs D
store_cached i (r, t) =
    let m = t.fs.mount in
    (r, record t.fs { mount = record m { root_cache = set m.root_cache i t.finfo } })

-- An operation through a pointer into the root cache: the entry stands there.
abbrev pub on_cached : {D A : Type 0} → ℕ → M (FileState D) A → M (Fs D) A
on_cached i op s = store_cached i (on_file op (get_or s.mount.root_cache i clear_entry) s)

module _ {D : Type 0} ⦃ata : Ata D⦄ where
  unfoldable pub fs_file_read : File → ℤ → ℤ → Fs D → Result (List ℕ) × File × Fs D
  fs_file_read f at n s = with_file f (on_file (fs_data_read at n) f.finfo s)

  unfoldable pub fs_file_write : File → ℤ → List ℕ → Fs D → Result ℕ × File × Fs D
  fs_file_write f at src s = with_file f (on_file (fs_write_common (slot f.slot) at src) f.finfo s)

  unfoldable pub fs_data_write : ℕ → ℤ → List ℕ → M (Fs D) ℕ
  fs_data_write i at src = on_cached i (fs_write_common (cached i) at src)

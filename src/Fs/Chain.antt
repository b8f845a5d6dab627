-- ===== src/Fs/Chain.antt =====
-- Cluster chains of harib27f/haribote/fs_fat.c: freeing one, and walking or extending that of an open
-- file. An operation on an open file changes its entry, which stands beside the volume.
use bxos.Common.{ℕ, zero, suc, ◌+◌, Bool, ◌==◌, if◌then◌else◌}
use bxos.Common.Int.{minus}
use bxos.Entry.{FileInfo}
use bxos.Fat.{fat_get, is_eoc, valid_data_cluster}
use bxos.Fs.{Ata, Fs, mount_of, link, take_cluster, find_tail}
use bxos.Fs.Monad.{Result, ok, hang, M, pure, raise, ◌>>=◌, ◌>>◌}

pub record FileState (D : Type 0) : Type 0 where
  pub fs : Fs D
  pub finfo : FileInfo

abbrev pub with_entry : {D A : Type 0} → FileInfo → Result A × Fs D → Result A × FileState D
with_entry e (r, s) = (r, record { fs = s; finfo = e })

-- an operation on the volume, as one on an open file
abbrev pub on_fs : {D A : Type 0} → M (Fs D) A → M (FileState D) A
on_fs m t = with_entry t.finfo (m t.fs)

abbrev pub entry_of : {D : Type 0} → M (FileState D) FileInfo
entry_of t = (ok t.finfo, t)

abbrev pub set_entry : {D : Type 0} → FileInfo → M (FileState D) (Unit {0})
set_entry e t = (ok tt, record t { finfo = e })

module _ {D : Type 0} ⦃ata : Ata D⦄ where
  -- `while (valid_data_cluster(m, clus))`, on fuel
  unfoldable pub free_from : ℕ → ℕ → M (Fs D) (Unit {0})
  free_from zero clus s = (hang, s)
  free_from (suc fuel) clus s =
      let next = fat_get s.mount clus in
      let rest = free_from fuel next in
      let step = link clus 0 >> (if is_eoc s.mount next then pure tt else rest) in
      if valid_data_cluster s.mount clus then step s else (ok tt, s)

  -- Each round frees a cluster that was in use, so `cluster_count` rounds and one more do.
  unfoldable pub free_cluster_chain : ℕ → M (Fs D) (Unit {0})
  free_cluster_chain clus = do m ← mount_of; free_from (m.cluster_count + 2) clus

  unfoldable pub append_cluster : M (FileState D) ℕ
  append_cluster = do
    new ← on_fs take_cluster
    e ← entry_of
    if e.clustno == 0
        then (do set_entry (record e { clustno = new }); pure new)
        else (do tail ← on_fs (find_tail e.clustno); on_fs (link tail new); pure new)

  -- the loop of `nth_cluster`, with the rounds left
  unfoldable pub nth_from : ℕ → ℕ → Bool → M (FileState D) ℕ
  nth_from zero clus create = pure clus
  nth_from (suc k) clus create = do
    m ← on_fs mount_of
    let next = fat_get m clus
    let rest = nth_from k next create
    let extend = append_cluster >>= λ new. nth_from k new create
    if is_eoc m next
        then (if create then extend else raise (minus 1))
        else (if valid_data_cluster m next then rest else raise (minus 1))

  unfoldable pub nth_cluster : ℕ → Bool → M (FileState D) ℕ
  nth_cluster nth create = do
    e ← entry_of
    if e.clustno == 0
        then (if create then append_cluster >>= (λ _. pure tt) else raise (minus 1))
        else pure tt
    e' ← entry_of
    nth_from nth e'.clustno create

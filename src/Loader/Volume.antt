-- ===== src/Loader/Volume.antt =====
-- The loader of the data volume: `fs_read_chain` and `fs_data_loadfile` of harib27f/haribote/fs_fat.c.
use bxos.Common.{
  ℕ, zero, suc, ◌-◌, Option, none, some, List, [], ◌++◌, leb, ◌==◌, if◌then◌else◌, take,
}
use bxos.Common.Int.{minus}
use bxos.Fat.{fat_get, is_eoc, cluster_lba}
use bxos.Memory.{MemMan, memman_alloc_4k, memman_free_4k}
use bxos.Fs.{Ata, Fs, mount_of, cluster_bytes, read_at}
use bxos.Fs.Monad.{Result, ok, err, hang, M, pure, never, ◌>>=◌, ◌>>◌, unless}
use bxos.Loader.{Tek, Loaded, unpacked}

-- what becomes of the buffer when the chain has been read into it
unfoldable pub after_read : Tek → ℕ → ℕ → MemMan → Result (List ℕ) → Result (Option Loaded) × MemMan
after_read tek buf size man hang = (hang, man)
after_read tek buf size man (err code) = (ok none, (memman_free_4k man buf size).1)
after_read tek buf size man (ok bytes) =
    let file : Loaded = record { addr = buf; size = size; bytes = bytes } in
    (ok (some (unpacked tek file man).0), (unpacked tek file man).1)

module _ {D : Type 0} ⦃ata : Ata D⦄ where
  -- `fs_read_chain`, with the bytes that remain: those that are stored in `buf`
  unfoldable pub read_chain : ℕ → ℕ → ℕ → M (Fs D) (List ℕ)
  read_chain zero clustno remaining = if remaining == 0 then pure [] else never
  read_chain (suc fuel) clustno remaining = do
    m ← mount_of
    let bytes = cluster_bytes m
    let next = fat_get m clustno
    let rest = read_chain fuel next (remaining - bytes)
    let whole = read_at (cluster_lba m clustno) m.sectors_per_cluster >>= λ here.
        (if is_eoc m next then pure [] else rest) >>= λ more. pure (here ++ more)
    let part =
        unless (leb m.sectors_per_cluster 8) (minus 1)
        >> (read_at (cluster_lba m clustno) m.sectors_per_cluster >>= λ tmp.
            pure (take remaining tmp))
    if remaining == 0 then pure [] else if leb bytes remaining then whole else part

  -- A cluster has at least one byte, so there are no more rounds than bytes.
  unfoldable pub fs_read_chain : ℕ → ℕ → M (Fs D) (List ℕ)
  fs_read_chain clustno size = read_chain size clustno size

  -- The file in memory, or `none` for the null pointer; the memory manager; the volume.
  unfoldable pub fs_data_loadfile :
      Tek → ℕ → ℕ → MemMan → Fs D → Result (Option Loaded) × MemMan × Fs D
  fs_data_loadfile tek clustno size man s =
      let (buf, man1) = memman_alloc_4k man size in
      let (r, s1) = fs_read_chain clustno size s in
      if s.mounted
      then if buf == 0
        then (ok none, man1, s)
        else ((after_read tek buf size man1 r).0, (after_read tek buf size man1 r).1, s1)
      else (ok none, man, s)

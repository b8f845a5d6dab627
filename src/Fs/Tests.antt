-- ===== src/Fs/Tests.antt =====
-- A volume of four clusters on a disk in memory.
use bxos.Common.{
  ℕ, zero, suc, ◌+◌, ◌≡◌, refl, none, some, List, [], ◌∷◌, ◌++◌, true, false, arith, if◌then◌else◌,
  leb, length, take, drop, replicate,
}
use bxos.Common.Int.{pos}
use bxos.Entry.{
  encode_entry, decode_entry, clear_entry, pack_83_name, pack_loop, set_name83, encode_le,
  decode_le,
}
use bxos.Entry.Tests.{hello}
use bxos.Fat.{
  fat_get, fat_set, is_eoc, valid_data_cluster, eoc_value, cluster_lba, find_free_cluster,
  find_free_from,
}
use bxos.Fat.Table.{IsFat16}
use bxos.Fat.Tests.{four}
use bxos.Fs.{
  Ata, Fs, link, sync_fat_entry, sync_copies, write_at, read_at, write_cluster, read_cluster,
  zero_cluster, take_cluster,
}
use bxos.Fs.Monad.{Result, ok, err, hang, M, ◌>>=◌, ◌>>◌}
use bxos.Fs.Chain.{FileState, free_from, append_cluster, nth_from, nth_cluster, free_cluster_chain}
use bxos.Fs.Slots.{
  overlay, dir_fuel, find_from, dir_find, dir_write_slot, free_slot_from, dir_alloc_slot,
}
use bxos.Fs.Dir.{advance, next_in_root, next_loaded, iter_at, dir_iter_open, dir_iter_next}
use bxos.Fs.Path.{
  check_path, skip_slashes, component, after_component, has_more_components, resolve_leaf, enter,
  resolve_from, fs_resolve_path,
}
use bxos.Fs.File.{
  File, fs_write_common, fs_file_write, fs_file_read, sync_file_entry, read_loop, fs_data_read,
  old_contents, write_loop,
}
use bxos.Fs.Api.{
  fs_mkdir, fs_data_create_path, init_dir_cluster, claim_cluster, enter_dir, dir_contents,
}
use bxos.Fs.Free.{Freed, free_cluster_chain-Freed}

unfoldable pub concat : List (List ℕ) → List ℕ
concat [] = []
concat (sec ∷ secs) = sec ++ concat secs

-- sectors from `lba` on, replaced by the bytes' sectors
unfoldable pub replaced : ℕ → ℕ → List ℕ → List (List ℕ) → List (List ℕ)
replaced lba count bytes [] = []
replaced (suc lba) count bytes (sec ∷ secs) = sec ∷ replaced lba count bytes secs
replaced zero zero bytes (sec ∷ secs) = sec ∷ secs
replaced zero (suc count) bytes (sec ∷ secs) =
    take 512 bytes ∷ replaced zero count (drop 512 bytes) secs

-- a disk of sectors; a transfer past its end fails
instance abbrev pub ram_ata : Ata (List (List ℕ))
ram_ata = record {
  read_sectors = λ drive lba count disk.
      if leb (lba + count) (length disk)
      then (some (concat (take count (drop lba disk))), disk)
      else (none, disk);
  write_sectors = λ drive lba count bytes disk.
      if leb (lba + count) (length disk)
      then (true, replaced lba count bytes disk)
      else (false, disk);
}

abbrev kept : {D : Type 0} → Result ℕ × File × Fs D → Result File × Fs D
kept (ok n, f, s) = (ok f, s)
kept (err c, f, s) = (err c, s)
kept (hang, f, s) = (hang, s)

abbrev drop_file : {D A : Type 0} → Result A × File × Fs D → Result A × Fs D
drop_file (r, f, s) = (r, s)

abbrev pub blank_sector : List ℕ
blank_sector = replicate 512 0

abbrev pub volume : Fs (List (List ℕ))
volume = record {
  mount = record four { root_cache = replicate 16 clear_entry };
  mounted = true;
  disk = replicate 8 blank_sector;
}

pub volume-IsFat16 : IsFat16 volume.mount
volume-IsFat16 = record { fat16 = refl; sized = omega arith }

free_two : (free_cluster_chain 2 volume).0 ≡ ok tt
unfolding free_cluster_chain free_from link sync_fat_entry sync_copies write_at fat_get fat_set
    is_eoc valid_data_cluster replaced
free_two = refl

free_two_entries :
    (free_cluster_chain 2 volume).1.mount.fat_cache ≡ 0xf8 ∷ 0xff ∷ 0xff ∷ 0xff ∷ replicate 8 0
unfolding free_cluster_chain free_from link sync_fat_entry sync_copies write_at fat_get fat_set
    is_eoc valid_data_cluster replaced
free_two_entries = refl

-- the same volume as FAT12
abbrev fat12_volume : Fs (List (List ℕ))
fat12_volume = record volume { mount = record volume.mount { fs_type = 12 } }

-- `A`, and the file `hello` with nothing read of it
abbrev path_a : List ℕ
path_a = 65 ∷ []

abbrev opened : FileState (List (List ℕ))
opened = record { fs = fat12_volume; finfo = hello }

free_cluster_chain-Freed_example : Freed volume.mount 2 (free_cluster_chain 2 volume)
free_cluster_chain-Freed_example = free_cluster_chain-Freed 2 volume volume-IsFat16

-- `/A` and `/A/B`
abbrev slash_a : List ℕ
slash_a = b'/' ∷ path_a

abbrev slash_a_b : List ℕ
slash_a_b = slash_a ++ (b'/' ∷ 66 ∷ [])

-- `mkdir /A`, then a file `/A/B` of 400 bytes, of which those from 398 on are read back
unfoldable written : M (Fs (List (List ℕ))) (List ℕ)
written = do
  fs_mkdir 0 slash_a
  f ← fs_data_create_path 0 slash_a_b
  f' ← λ s. kept (fs_file_write f (pos 0) (replicate 400 7) s)
  λ s. drop_file (fs_file_read f' (pos 398) (pos 5) s)

written_read : (written volume).0 ≡ ok (7 ∷ 7 ∷ [])
unfolding written concat replaced fs_mkdir fs_data_create_path fs_file_write fs_file_read check_path
    skip_slashes component after_component has_more_components resolve_leaf enter resolve_from
    fs_resolve_path dir_fuel overlay find_from dir_find dir_write_slot free_slot_from dir_alloc_slot
    advance next_in_root next_loaded iter_at dir_iter_open dir_iter_next read_at write_at
    sync_copies sync_fat_entry write_cluster read_cluster zero_cluster link take_cluster
    init_dir_cluster claim_cluster enter_dir dir_contents pack_83_name pack_loop set_name83
    encode_entry decode_entry encode_le decode_le fat_get fat_set is_eoc eoc_value cluster_lba
    valid_data_cluster find_free_cluster find_free_from free_cluster_chain free_from append_cluster
    nth_from nth_cluster sync_file_entry read_loop fs_data_read old_contents write_loop
    fs_write_common
written_read = refl

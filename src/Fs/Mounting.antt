-- ===== src/Fs/Mounting.antt =====
-- Mounting the data disk (harib27f/haribote/fs_fat.c): the boot sector, and the two caches, whose
-- buffers come from the memory manager.
use bxos.Common.{
  ℕ, zero, suc, ◌+◌, ◌-◌, ◌*◌, ◌/◌, ◌%◌, Option, none, some, List, [], ◌∷◌, Bool, true, false, ◌&&◌,
  ◌||◌, ltb, ◌==◌, if◌then◌else◌, not, take, drop,
}
use bxos.Memory.{word, MemMan, memman_alloc_4k}
use bxos.Entry.{FileInfo, decode_entry}
use bxos.Fat.{Mount, byte_at, le16}
use bxos.Fs.{Ata, Fs}

-- The fields of the boot sector, with the tests of the source; `none` is the return of -1.
unfoldable pub parse_bpb : ℕ → List ℕ → Mount → Option Mount
parse_bpb drive bs m =
    let sec_per_clus = byte_at bs 13 in
    let reserved = le16 bs 14 in
    let num_fats = byte_at bs 16 in
    let root_ent = le16 bs 17 in
    let fat_sz = le16 bs 22 in
    let tot_sec = if le16 bs 19 == 0 then le16 bs 32 + 65536 * le16 bs 34 else le16 bs 19 in
    let root_lba = reserved + num_fats * fat_sz in
    let root_sectors = (root_ent * 32 + 511) / 512 in
    let data_lba = root_lba + root_sectors in
    let cluster_count = (tot_sec + word - data_lba) % word / sec_per_clus in
    if not ((byte_at bs 510 == 0x55) && (byte_at bs 511 == 0xaa)) || not (le16 bs 11 == 512)
    then none
    else if (sec_per_clus == 0) || ((num_fats == 0) || ((fat_sz == 0) || (root_ent == 0)))
    then none
    else some (record m {
      drive = drive;
      fs_type = if ltb cluster_count 4085 then 12 else 16;
      total_sectors = tot_sec;
      sectors_per_cluster = sec_per_clus;
      reserved_sectors = reserved;
      num_fats = num_fats;
      sectors_per_fat = fat_sz;
      root_entries = root_ent;
      fat_lba = reserved;
      root_lba = root_lba;
      root_sectors = root_sectors;
      data_lba = data_lba;
      cluster_count = cluster_count;
    })

-- the entries of a buffer, 32 bytes each
unfoldable pub decode_entries : ℕ → List ℕ → List FileInfo
decode_entries zero bytes = []
decode_entries (suc n) bytes = decode_entry (take 32 bytes) ∷ decode_entries n (drop 32 bytes)

module _ {D : Type 0} ⦃ata : Ata D⦄ where
  unfoldable pub read_bpb : ℕ → Fs D → Option Mount × Fs D
  read_bpb drive s =
      let (r, d) = ata.read_sectors drive 0 1 s.disk in
      (elim r [ none ↦ none | some bs ↦ parse_bpb drive bs s.mount ], record s { disk = d })

  -- the two reads of `fs_mount_data` into the caches
  unfoldable pub fill_caches : Mount → Fs D → Bool × Fs D
  fill_caches m s =
      let (fat, d) = ata.read_sectors m.drive m.fat_lba m.sectors_per_fat s.disk in
      elim fat [
        | none ↦ (false, record s { mount = m; disk = d })
        | some fat_bytes ↦
            let m' = record m { fat_cache = fat_bytes } in
            let (root, d') = ata.read_sectors m.drive m.root_lba m.root_sectors d in
            elim root [
              | none ↦ (false, record s { mount = m'; disk = d' })
              | some root_bytes ↦ (
                true,
                record s {
                  mount = record m' {
                    root_cache = decode_entries (m.root_sectors * 16) root_bytes;
                  };
                  mounted = true;
                  disk = d';
                },
              )
            ]
      ]

  -- `present` is `ata_drive_info[drive].present`. False is the return of -1.
  unfoldable pub fs_mount_data : ℕ → Bool → MemMan → Fs D → Bool × MemMan × Fs D
  fs_mount_data drive present man s =
      let off = record s { mounted = false } in
      if present then mount_with (read_bpb drive off) else (false, man, off)
    where
      buffers : Mount → ℕ × ℕ × MemMan
      buffers m =
          let (fat, man1) = memman_alloc_4k man (m.sectors_per_fat * 512) in
          let (root, man2) = memman_alloc_4k man1 (m.root_sectors * 512) in (fat, root, man2)

      mount_with : Option Mount × Fs D → Bool × MemMan × Fs D
      mount_with (none, s') = (false, man, s')
      mount_with (some m, s') =
          let (fat, root, man') = buffers m in
          let (done, s'') = fill_caches m s' in
          if (fat == 0) || (root == 0)
          then (false, man', record s' { mount = m })
          else (done, man', s'')

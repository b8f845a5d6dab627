-- ===== src/Disk/Volume.antt =====
-- The clusters of a volume (harib27f/haribote/fs_fat.c) on a drive that is reached by the driver of
-- harib27f/haribote/ata.c.
use bxos.Common.{
  not, ℕ, ◌+◌, ◌*◌, ◌%◌, ◌≤◌, ◌<◌, ◌≡◌, ◌≢◌, ◌⊎◌, inl, inr, true, arith, ◌==◌, if◌then◌else◌,
  Bool-cases, ==_iff, sym, ◌∙◌, ap, List, length, some, none, Option,
}
use bxos.Common.Int.{ℤ, pos, is_neg}
use bxos.Memory.{word}
use bxos.Fat.{Mount, cluster_lba, valid_data_cluster}
use bxos.Fat.Sectors.{FitsWord, cluster_lba_bounds, cluster_lba-apart}
use bxos.Fs.{Ata, Fs, read_at, write_at, read_cluster, write_cluster}
use bxos.Fs.Monad.{ok}
use bxos.Disk.{Ports, ata_read_sectors, ata_write_sectors}
use bxos.Disk.Drive.{IsDrive}
use bxos.Disk.Read.{disk_bytes, disk_bytes_ext, ata_read_sectors-stored}
use bxos.Common.Bytes.{IsBytes}
use bxos.Disk.Write.{disk_bytes-words, ata_write_sectors-stored}

-- The driver as the file system uses it: a code below 0 is a failure.
abbrev pub reading : (ℤ × List ℕ) → Option (List ℕ)
reading r = if is_neg r.0 then none else some r.1

abbrev pub driver : {S : Type 0} → Ports S → Ata S
driver ports = record {
  read_sectors = λ drive lba count s. (
    reading (ata_read_sectors ports drive lba (pos count) s).0,
    (ata_read_sectors ports drive lba (pos count) s).1,
  );
  write_sectors = λ drive lba count buf s. (
    not (is_neg (ata_write_sectors ports drive lba (pos count) buf s).0),
    (ata_write_sectors ports drive lba (pos count) buf s).1,
  );
}

-- A volume whose data area lies on the drive.
pub record IsOnDrive (size : ℕ → ℕ) (m : Mount) : Type 0 where
  pub fits : FitsWord m
  pub numbers : m.cluster_count + 2 < word
  pub some_ : 0 < m.sectors_per_cluster
  pub most : m.sectors_per_cluster ≤ 256
  pub below : m.data_lba + m.cluster_count * m.sectors_per_cluster ≤ 0x10000000
  pub room : m.data_lba + m.cluster_count * m.sectors_per_cluster ≤ size (m.drive % 2)

module _ {S : Type 0} (ports : Ports S) where
  read_at_ok :
      (lba count : ℕ) (s : Fs S) {n : ℕ}
      → (ata_read_sectors ports s.mount.drive lba (pos count) s.disk).0.0 ≡ pos n
      → (read_at ⦃ata = driver ports⦄ lba count s).0
        ≡ ok (ata_read_sectors ports s.mount.drive lba (pos count) s.disk).0.1
  unfolding read_at
  read_at_ok lba count s h = rw (h, read_at)

  write_at_ok :
      (lba count : ℕ) (buf : List ℕ) (s : Fs S) {n : ℕ}
      → (ata_write_sectors ports s.mount.drive lba (pos count) buf s.disk).0 ≡ pos n
      → write_at ⦃ata = driver ports⦄ lba count buf s ≡ (
        ok tt,
        record s { disk = (ata_write_sectors ports s.mount.drive lba (pos count) buf s.disk).1 },
      )
  unfolding write_at
  write_at_ok lba count buf s h = rw h

module _ {S : Type 0} {ports : Ports S} {size : ℕ → ℕ} (d : IsDrive ports size) where
  -- the bytes of a cluster
  abbrev pub cluster_of : ℕ → Mount → S → List ℕ
  cluster_of c m s =
      disk_bytes ((d.view s).disk (m.drive % 2)) (cluster_lba m c * 256)
        (m.sectors_per_cluster * 256)

  read_cluster_lem :
      (c : ℕ) (s : Fs S)
      → IsOnDrive size s.mount
      → valid_data_cluster s.mount c ≡ true
      → (read_cluster ⦃ata = driver ports⦄ c s).0 ≡ ok (cluster_of c s.mount s.disk)
  unfolding read_cluster
  read_cluster_lem c s on v =
      let lies = cluster_lba_bounds s.mount c on.fits on.numbers v in
      let r =
        ata_read_sectors-stored d s.mount.drive (cluster_lba s.mount c) s.mount.sectors_per_cluster
          s.disk on.some_ on.most (omega (arith, lies, on.below, on.some_))
          (omega (arith, lies, on.room)) in
      rw v (read_at_ok ports (cluster_lba s.mount c) s.mount.sectors_per_cluster s r.0 ∙ ap ok r.1)

  -- what a write of a cluster returns, keeps and leaves on the disk
  written_cluster :
      (c : ℕ) (buf : List ℕ) (s : Fs S)
      → IsOnDrive size s.mount
      → valid_data_cluster s.mount c ≡ true
      → ((write_cluster ⦃ata = driver ports⦄ c buf s).0 ≡ ok tt)
        × ((write_cluster ⦃ata = driver ports⦄ c buf s).1 ≡ record s {
          disk =
              (ata_write_sectors ports s.mount.drive
                (cluster_lba s.mount c)
                (pos s.mount.sectors_per_cluster)
                buf
                s.disk).1;
        })
  unfolding write_cluster
  written_cluster c buf s on v =
      let lies = cluster_lba_bounds s.mount c on.fits on.numbers v in
      let w =
        ata_write_sectors-stored d s.mount.drive (cluster_lba s.mount c) s.mount.sectors_per_cluster
          buf s.disk on.some_ on.most (omega (arith, lies, on.below, on.some_))
          (omega (arith, lies, on.room)) in
      let at = write_at_ok ports (cluster_lba s.mount c) s.mount.sectors_per_cluster buf s w.0 in
      rw v (ap (λ r. r.0) at, ap (λ r. r.1) at)

  -- a data cluster lies outside the sectors of another
  outside :
      (c e : ℕ) (m : Mount)
      → IsOnDrive size m
      → valid_data_cluster m c ≡ true
      → valid_data_cluster m e ≡ true
      → (e < c) ⊎ (c < e)
      → (cluster_lba m e + m.sectors_per_cluster ≤ cluster_lba m c)
        ⊎ (cluster_lba m c + m.sectors_per_cluster ≤ cluster_lba m e)
  outside c e m on vc ve (inl h) = inl (cluster_lba-apart m e c on.fits on.numbers ve vc h).1
  outside c e m on vc ve (inr h) = inr (cluster_lba-apart m c e on.fits on.numbers vc ve h).1

  -- a word of the one cluster is no word of the other
  away :
      (q a b n k : ℕ)
      → k < n * 256
      → (b + n ≤ a) ⊎ (a + n ≤ b)
      → (q ≢ q) ⊎ (b * 256 + k < a * 256) ⊎ ((a + n) * 256 ≤ b * 256 + k)
  away q a b n k small (inl h) = inr (inl (omega arith))
  away q a b n k small (inr h) = inr (inr (omega arith))

  -- On a working drive that holds the data area of the volume, clusters are stored apart: after
  -- write_cluster of a data cluster, which succeeds, read_cluster gives these bytes for it, and for
  -- each other data cluster what it would have given before. The buffer has as many bytes as a
  -- cluster.
  pub read_cluster-write_cluster :
      (c e : ℕ) (buf : List ℕ) (s : Fs S)
      → IsOnDrive size s.mount
      → valid_data_cluster s.mount c ≡ true
      → valid_data_cluster s.mount e ≡ true
      → IsBytes buf
      → length buf ≡ s.mount.sectors_per_cluster * 512
      → ((write_cluster ⦃ata = driver ports⦄ c buf s).0 ≡ ok tt)
        × ((read_cluster ⦃ata = driver ports⦄ e (write_cluster ⦃ata = driver ports⦄ c buf s).1).0
            ≡ (if e == c then ok buf else (read_cluster ⦃ata = driver ports⦄ e s).0))
  read_cluster-write_cluster c e buf s on vc ve bytes whole =
      let w = written_cluster c buf s on vc in
      let lba = cluster_lba s.mount c in
      let n = s.mount.sectors_per_cluster in
      let lies = cluster_lba_bounds s.mount c on.fits on.numbers vc in
      let done =
        ata_write_sectors-stored d s.mount.drive lba n buf s.disk on.some_ on.most
          (omega (arith, lies, on.below, on.some_)) (omega (arith, lies, on.room)) in
      let t = (ata_write_sectors ports s.mount.drive lba (pos n) buf s.disk).1 in
      let now = (d.view t).disk (s.mount.drive % 2) in
      let then_ = (d.view s.disk).disk (s.mount.drive % 2) in
      let s' : Fs S = record s { disk = t } in
      (
        w.0,
        rw w.1 (
            read_cluster_lem e s' on ve ∙ elim (Bool-cases (e == c)) [
              | inl same ↦
                  let e' : e ≡ c = (==_iff e c).0 same in
                  rw (same, e')
                    (ap ok
                      (disk_bytes-words (n * 256) now (lba * 256) buf bytes (omega arith) done.1))
              | inr other ↦
                  let apart = outside c e s.mount on vc ve (ground (arith, other)) in
                  rw other (
                    ap ok (
                      disk_bytes_ext now then_ (n * 256) (cluster_lba s.mount e * 256) (λ k small.
                        done.2 (s.mount.drive % 2) (cluster_lba s.mount e * 256 + k)
                          (away (s.mount.drive % 2) lba (cluster_lba s.mount e) n k small apart)))
                    ∙ sym (read_cluster_lem e s on ve))
            ]),
      )

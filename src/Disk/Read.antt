-- ===== src/Disk/Read.antt =====
-- `ata_read_sectors` of harib27f/haribote/ata.c against a drive that works.
use bxos.Common.{
  ℕ, zero, suc, ◌+◌, ◌-◌, ◌*◌, ◌/◌, ◌%◌, ◌≤◌, ◌<◌, ◌≡◌, ◌≢◌, ◌⊎◌, inl, refl, false, true, arith,
  ◌==◌, if◌then◌else◌, sym, ◌∙◌, ap, ap₂, subst, List, [], ◌++◌, length,
}
use bxos.Common.Int.{pos}
use bxos.Disk.{
  Ports, port_data, port_features, port_count, port_lba_lo, port_lba_mid, port_lba_hi, port_drive,
  port_status, port_command, sr_bsy_drq, sr_drq, cmd_read, cmd_write, ata_io_wait, ata_io_delay,
  ata_select, start, read_words, read_sectors_loop, ata_read_sectors, bytes_of_word, bad_count,
}
use bxos.Disk.Drive.{
  Drive, IsDrive, write_reg, selected, first_sector, sectors_asked, begin, step, ata_io_wait-data,
  ata_io_delay-view,
}

-- the bytes of `n` words from word `i` on
unfoldable pub disk_bytes : (ℕ → ℕ) → ℕ → ℕ → List ℕ
disk_bytes f i zero = []
disk_bytes f i (suc n) = bytes_of_word (f i) ++ disk_bytes f (suc i) n

pub disk_bytes-append :
    (f : ℕ → ℕ) (m n i : ℕ) → disk_bytes f i (m + n) ≡ disk_bytes f i m ++ disk_bytes f (i + m) n
unfolding disk_bytes
disk_bytes-append f zero n i =
    let e : 0 + n ≡ n = omega arith in let e' : i + 0 ≡ i = omega arith in rw (e, e')
disk_bytes-append f (suc m) n i =
    let e : suc m + n ≡ suc (m + n) = omega arith in
    let e' : i + suc m ≡ suc i + m = omega arith in
    rw (e, e') (ap (λ r. bytes_of_word (f i) ++ r) (disk_bytes-append f m n (suc i)))

pub length-disk_bytes : (f : ℕ → ℕ) (n i : ℕ) → length (disk_bytes f i n) ≡ n * 2
unfolding disk_bytes
length-disk_bytes f zero i = refl
length-disk_bytes f (suc n) i = omega (arith, length-disk_bytes f n (suc i))

pub disk_bytes_ext :
    (f g : ℕ → ℕ) (n i : ℕ)
    → ((k : ℕ) → k < n → f (i + k) ≡ g (i + k))
    → disk_bytes f i n ≡ disk_bytes g i n
unfolding disk_bytes
disk_bytes_ext f g zero i h = refl
disk_bytes_ext f g (suc n) i h =
    let here : f i ≡ g i = subst (λ k. f k ≡ g k) (omega arith) (h 0 (omega arith)) in
    let ih =
      disk_bytes_ext f g n (suc i)
        (λ k small. subst (λ j. f j ≡ g j) (omega arith) (h (suc k) (omega arith))) in
    rw here (ap (λ r. bytes_of_word (g i) ++ r) ih)

-- the drive when `n` more words are over
abbrev pub moved : ℕ → Drive → Drive
moved n v = record v { at = v.at + n; left = v.left - n }

-- the registers as they are before the command
abbrev pub asked : ℕ → ℕ → ℕ → Drive → Drive
asked drive lba count v = write_reg port_lba_hi (lba / 0x10000 % 256) (
    write_reg port_lba_mid (lba / 0x100 % 256) (
      write_reg port_lba_lo (lba % 256) (
        write_reg port_count (if count == 256 then 0 else count) (
          write_reg port_features 0
            (write_reg port_drive (0xE0 + drive % 2 * 16 + lba / 0x1000000 % 16) v)))))

-- The registers say which drive, sector and number of sectors are asked for.
first_sector-asked :
    (drive lba count : ℕ) (v : Drive)
    → lba < 0x10000000
    → first_sector (asked drive lba count v) ≡ lba
first_sector-asked drive lba count v h = omega arith

selected-asked : (drive lba count : ℕ) (v : Drive) → selected (asked drive lba count v) ≡ drive % 2
selected-asked drive lba count v = omega arith

sectors_asked-asked :
    (drive lba count : ℕ) (v : Drive) → 0 < count → sectors_asked (asked drive lba count v) ≡ count
sectors_asked-asked drive lba count v h = ground arith

-- the drive when a transfer has begun
pub record IsStarted (c drive lba count : ℕ) (v v' : Drive) : Type 0 where
  pub command : v'.reg port_command ≡ c
  pub on_drive : selected v' ≡ drive % 2
  pub starts : v'.at ≡ lba * 256
  pub words : v'.left ≡ count * 256
  pub same : v'.disk ≡ v.disk

module _ {S : Type 0} {ports : Ports S} {size : ℕ → ℕ} (d : IsDrive ports size) where
  pub start-IsStarted :
      (c drive lba count : ℕ) (s : S)
      → (c ≡ cmd_read) ⊎ (c ≡ cmd_write)
      → 0 < count
      → count ≤ 256
      → lba < 0x10000000
      → lba + count ≤ size (drive % 2)
      → IsStarted c drive lba count (d.view s) (d.view (start ports c drive lba count s).1)
  unfolding start ata_select
  start-IsStarted c drive lba count s command some_ most below room =
      let s1 = ports.out8 port_drive (0xE0 + drive % 2 * 16 + lba / 0x1000000 % 16) s in
      let s2 = (ata_io_delay ports s1).1 in
      let s3 = ports.out8 port_features 0 s2 in
      let s4 = ports.out8 port_count (if count == 256 then 0 else count) s3 in
      let s5 = ports.out8 port_lba_lo (lba % 256) s4 in
      let s6 = ports.out8 port_lba_mid (lba / 0x100 % 256) s5 in
      let s7 = ports.out8 port_lba_hi (lba / 0x10000 % 256) s6 in
      let reg =
        λ (t : S) (p v : ℕ) (low : 0x1F1 ≤ p) (high : p ≤ 0x1F6) (w : Drive) (e : d.view t ≡ w).
          d.out-reg t p v low high ∙ ap (write_reg p v) e in
      let e1 =
        d.out-reg s port_drive (0xE0 + drive % 2 * 16 + lba / 0x1000000 % 16) (omega arith)
          (omega arith) in
      let e2 = ata_io_delay-view d s1 ∙ e1 in
      let e3 = reg s2 port_features 0 (omega arith) (omega arith) _ e2 in
      let e4 =
        reg s3 port_count (if count == 256 then 0 else count) (omega arith) (omega arith) _ e3 in
      let e5 = reg s4 port_lba_lo (lba % 256) (omega arith) (omega arith) _ e4 in
      let e6 = reg s5 port_lba_mid (lba / 0x100 % 256) (omega arith) (omega arith) _ e5 in
      let e7 : d.view s7 ≡ asked drive lba count (d.view s) =
        reg s6 port_lba_hi (lba / 0x10000 % 256) (omega arith) (omega arith) _ e6 in
      let run = d.out-transfer s7 c command (
        rw e7 (
          rw
            (
              first_sector-asked drive lba count (d.view s) below,
              sectors_asked-asked drive lba count (d.view s) some_,
              selected-asked drive lba count (d.view s),
            )
            room)) in
      subst (IsStarted c drive lba count (d.view s)) (sym (run ∙ ap (begin c) e7)) (record {
        command = refl;
        on_drive = selected-asked drive lba count (d.view s);
        starts = ap (λ n. n * 256) (first_sector-asked drive lba count (d.view s) below);
        words = ap (λ n. n * 256) (sectors_asked-asked drive lba count (d.view s) some_);
        same = refl;
      })

  pub read_words_lem :
      (n : ℕ) (s : S) (v : Drive)
      → d.view s ≡ v
      → v.reg port_command ≡ cmd_read
      → n ≤ v.left
      → n ≤ 256
      → v.left % 256 ≡ n % 256
      → (0 < n → d.busy s ≡ 0)
      → ((read_words ports n s).0 ≡ disk_bytes (v.disk (selected v)) v.at n)
        × (d.view (read_words ports n s).1 ≡ moved n v)
  unfolding read_words disk_bytes step
  read_words_lem zero s v e c l m w i = (refl, e ∙ ground arith)
  read_words_lem (suc n) s v e c l m w i =
      let now =
        d.in-data s (subst (λ (u : Drive). u.reg port_command ≡ cmd_read) (sym e) c)
          (subst (λ (u : Drive). 0 < u.left) (sym e) (omega arith)) (i (omega arith)) in
      let s' = (ports.in16 port_data s).1 in
      let e' : d.view s' ≡ step v = now.1 ∙ ap step e in
      let more : 0 < n → d.busy s' ≡ 0 =
        λ h. now.2 (subst (λ (u : Drive). u.left % 256 ≢ 1) (sym e) (λ q. omega arith)) in
      let ih = read_words_lem n s' (step v) e' c (omega arith) (omega arith) (omega arith) more in
      let word : (ports.in16 port_data s).0 ≡ v.disk (selected v) v.at =
        now.0 ∙ ap (λ (u : Drive). u.disk (selected u) u.at) e in
      (rw word (ap (λ r. bytes_of_word (v.disk (selected v) v.at) ++ r) ih.0), ih.1 ∙ ground arith)

  -- The sectors that are left, one after the other.
  pub read_sectors_loop_lem :
      (k : ℕ) (s : S) (v : Drive)
      → d.view s ≡ v
      → v.reg port_command ≡ cmd_read
      → v.left ≡ k * 256
      → ((read_sectors_loop ports k s).0.0 ≡ true)
        × ((read_sectors_loop ports k s).0.1 ≡ disk_bytes (v.disk (selected v)) v.at (k * 256))
        × ((d.view (read_sectors_loop ports k s).1).disk ≡ v.disk)
  unfolding read_sectors_loop
  read_sectors_loop_lem zero s v e c l = (refl, unfold disk_bytes in refl, ap Drive.disk e)
  read_sectors_loop_lem (suc k) s v e c l =
      let w = ata_io_wait-data d s (subst (λ (u : Drive). 0 < u.left) (sym e) (omega arith)) in
      let s1 = (ata_io_wait ports port_status sr_bsy_drq sr_drq s).1 in
      let r =
        read_words_lem 256 s1 v (w.1 ∙ e) c (omega arith) (omega arith) (omega arith) (λ _. w.2) in
      let s2 = (read_words ports 256 s1).1 in
      let s3 = (ata_io_delay ports s2).1 in
      let ih =
        read_sectors_loop_lem k s3 (moved 256 v) (ata_io_delay-view d s2 ∙ r.1) c (omega arith) in
      let split : suc k * 256 ≡ 256 + k * 256 = omega arith in
      rw w.0 (
        ih.0,
        ap₂ ◌++◌ r.0 ih.1
            ∙ sym (rw split (disk_bytes-append (v.disk (selected v)) 256 (k * 256) v.at)),
        ih.2,
      )

  -- From a drive that works, ata_read_sectors of 1 to 256 sectors that lie on the drive returns
  -- their number, stores their bytes in the buffer, and leaves the disks as they were. The sector
  -- number has 28 bits.
  pub ata_read_sectors-stored :
      (drive lba count : ℕ) (s : S)
      → 0 < count
      → count ≤ 256
      → lba < 0x10000000
      → lba + count ≤ size (drive % 2)
      → ((ata_read_sectors ports drive lba (pos count) s).0.0 ≡ pos count)
        × ((ata_read_sectors ports drive lba (pos count) s).0.1
            ≡ disk_bytes ((d.view s).disk (drive % 2)) (lba * 256) (count * 256))
        × ((d.view (ata_read_sectors ports drive lba (pos count) s).1).disk ≡ (d.view s).disk)
  unfolding ata_read_sectors
  ata_read_sectors-stored drive lba count s some_ most below room =
      let ready = start-IsStarted cmd_read drive lba count s (inl refl) some_ most below room in
      let s' = (start ports cmd_read drive lba count s).1 in
      let r = read_sectors_loop_lem count s' (d.view s') refl ready.command ready.words in
      let fits : bad_count (pos count) ≡ false = ground arith in
      rw (fits, r.0) (refl, r.1 ∙ rw (ready.on_drive, ready.starts, ready.same), r.2 ∙ ready.same)

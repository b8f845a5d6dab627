-- ===== src/Disk/Write.antt =====
-- `ata_write_sectors` of harib27f/haribote/ata.c against a drive that works, and reading back.
use bxos.Common.{
  ℕ, zero, suc, ◌+◌, ◌-◌, ◌*◌, ◌/◌, ◌%◌, ◌≤◌, ◌<◌, ◌≡◌, ◌≢◌, ◌⊎◌, inl, inr, refl, false, true,
  arith, sym, ◌∙◌, ap, subst, List, [], ◌∷◌, length, get_or,
}
use bxos.Common.Bytes.{IsBytes}
use bxos.Common.Int.{ℤ, pos}
use bxos.Disk.{
  Ports, port_data, port_command, port_status, sr_bsy_drq, sr_drq, cmd_write, cmd_flush,
  ata_io_wait, ata_io_delay, start, write_words, write_sectors_loop, flush, ata_write_sectors,
  ata_read_sectors, bad_count,
}
use bxos.Disk.Drive.{
  Drive, IsDrive, selected, store, ata_io_wait-data, ata_io_wait-idle, ata_io_delay-view,
}
use bxos.Disk.Read.{IsStarted, start-IsStarted, disk_bytes, ata_read_sectors-stored}

-- the word at a byte of the buffer
abbrev pub word_at : List ℕ → ℕ → ℕ
word_at buf i = get_or buf i 0 + 256 * get_or buf (i + 1) 0

word_at-next :
    (x y : ℕ) (xs : List ℕ) (k : ℕ) → word_at (x ∷ y ∷ xs) (2 * suc k) ≡ word_at xs (2 * k)
word_at-next x y xs k =
    let e : 2 * suc k ≡ suc (suc (2 * k)) = omega arith in
    let e' : suc (suc (2 * k)) + 1 ≡ suc (suc (2 * k + 1)) = omega arith in rw (e, e')

-- Two bytes make a word, and the word has these bytes.
pub disk_bytes-words :
    (n : ℕ) (f : ℕ → ℕ) (i : ℕ) (buf : List ℕ)
    → IsBytes buf
    → length buf ≡ n * 2
    → ((k : ℕ) → k < n → f (i + k) ≡ word_at buf (2 * k))
    → disk_bytes f i n ≡ buf
unfolding disk_bytes
disk_bytes-words zero f i [] b l h = refl
disk_bytes-words zero f i (x ∷ xs) b l h = absurd (omega arith)
disk_bytes-words (suc n) f i [] b l h = absurd (omega arith)
disk_bytes-words (suc n) f i (x ∷ []) b l h = absurd (omega arith)
disk_bytes-words (suc n) f i (x ∷ y ∷ xs) b l h =
    let word : f i ≡ x + 256 * y =
      subst (λ k. f k ≡ x + 256 * y) (omega arith) (h 0 (omega arith)) in
    let low : f i % 256 ≡ x = omega (arith, word, b.0) in
    let high : f i / 256 % 256 ≡ y = omega (arith, word, b.0, b.1.0) in
    let ih = disk_bytes-words n f (suc i) xs b.1.1 (omega arith) (λ k small.
      let next : suc i + k ≡ i + suc k = omega arith in
      rw next (h (suc k) (omega arith) ∙ word_at-next x y xs k)) in
    rw (low, high) (ap (λ r. x ∷ y ∷ r) ih)

-- the drive after the `n` words from the byte `i` of the buffer on
unfoldable pub stored : ℕ → ℕ → List ℕ → Drive → Drive
stored zero i buf v = v
stored (suc n) i buf v = stored n (i + 2) buf (store (word_at buf i) v)

-- What stays as it was, and where the transfer is after the words.
stored_rest :
    (n i : ℕ) (buf : List ℕ) (v : Drive)
    → ((stored n i buf v).reg ≡ v.reg)
      × ((stored n i buf v).at ≡ v.at + n)
      × ((stored n i buf v).left ≡ v.left - n)
unfolding stored store
stored_rest zero i buf v = (refl, omega arith, omega arith)
stored_rest (suc n) i buf v =
    let ih = stored_rest n (i + 2) buf (store (word_at buf i) v) in
    (ih.0, omega (arith, ih.1), omega (arith, ih.2))

stored_out :
    (n i : ℕ) (buf : List ℕ) (v : Drive) (e j : ℕ)
    → (e ≢ selected v) ⊎ (j < v.at) ⊎ (v.at + n ≤ j)
    → (stored n i buf v).disk e j ≡ v.disk e j
unfolding stored store
stored_out zero i buf v e j h = refl
stored_out (suc n) i buf v e j h =
    ground (arith, stored_out n (i + 2) buf (store (word_at buf i) v) e j)

store_here : (w : ℕ) (v : Drive) → (store w v).disk (selected v) v.at ≡ w
unfolding store
store_here w v = ground arith

stored_in :
    (n i : ℕ) (buf : List ℕ) (v : Drive) (k : ℕ)
    → k < n
    → (stored n i buf v).disk (selected v) (v.at + k) ≡ word_at buf (i + 2 * k)
unfolding stored store
stored_in zero i buf v k h = absurd (omega arith)
stored_in (suc n) i buf v zero h =
    let e : v.at + 0 ≡ v.at = omega arith in
    let e' : i + 2 * 0 ≡ i = omega arith in
    rw (e, e')
      (stored_out n (i + 2) buf (store (word_at buf i) v) (selected v) v.at
          (inr (inl (omega arith)))
        ∙ store_here (word_at buf i) v)
stored_in (suc n) i buf v (suc k) h =
    let e : v.at + suc k ≡ suc v.at + k = omega arith in
    let e' : i + 2 * suc k ≡ (i + 2) + 2 * k = omega arith in
    rw (e, e') (stored_in n (i + 2) buf (store (word_at buf i) v) k (omega arith))

stored-add :
    (m n i : ℕ) (buf : List ℕ) (v : Drive)
    → stored (m + n) i buf v ≡ stored n (i + 2 * m) buf (stored m i buf v)
unfolding stored
stored-add zero n i buf v =
    let e : 0 + n ≡ n = omega arith in let e' : i + 2 * 0 ≡ i = omega arith in rw (e, e')
stored-add (suc m) n i buf v =
    let e : suc m + n ≡ suc (m + n) = omega arith in
    let e' : i + 2 * suc m ≡ (i + 2) + 2 * m = omega arith in
    rw (e, e') (stored-add m n (i + 2) buf (store (word_at buf i) v))

module _ {S : Type 0} {ports : Ports S} {size : ℕ → ℕ} (d : IsDrive ports size) where
  write_words_lem :
      (n i : ℕ) (buf : List ℕ) (s : S) (v : Drive)
      → d.view s ≡ v
      → v.reg port_command ≡ cmd_write
      → n ≤ v.left
      → n ≤ 256
      → v.left % 256 ≡ n % 256
      → (0 < n → d.busy s ≡ 0)
      → d.view (write_words ports n i buf s).1 ≡ stored n i buf v
  unfolding write_words stored store
  write_words_lem zero i buf s v e c l m w b = e
  write_words_lem (suc n) i buf s v e c l m w b =
      let now =
        d.out-data s (word_at buf i)
          (subst (λ (u : Drive). u.reg port_command ≡ cmd_write) (sym e) c)
          (subst (λ (u : Drive). 0 < u.left) (sym e) (omega arith)) (b (omega arith)) in
      write_words_lem n (i + 2) buf (ports.out16 port_data (word_at buf i) s)
        (store (word_at buf i) v) (now.0 ∙ ap (store (word_at buf i)) e) c (omega arith)
        (omega arith) (omega arith)
        (λ more. now.1 (subst (λ (u : Drive). u.left % 256 ≢ 1) (sym e) (λ q. omega arith)))

  write_sectors_loop_lem :
      (k i : ℕ) (buf : List ℕ) (s : S) (v : Drive)
      → d.view s ≡ v
      → v.reg port_command ≡ cmd_write
      → v.left ≡ k * 256
      → ((write_sectors_loop ports k i buf s).0 ≡ true)
        × (d.view (write_sectors_loop ports k i buf s).1 ≡ stored (k * 256) i buf v)
  unfolding write_sectors_loop
  write_sectors_loop_lem zero i buf s v e c l = (refl, unfold stored in e)
  write_sectors_loop_lem (suc k) i buf s v e c l =
      let w = ata_io_wait-data d s (subst (λ (u : Drive). 0 < u.left) (sym e) (omega arith)) in
      let s1 = (ata_io_wait ports port_status sr_bsy_drq sr_drq s).1 in
      let r =
        write_words_lem 256 i buf s1 v (w.1 ∙ e) c (omega arith) (omega arith) (omega arith)
          (λ _. w.2) in
      let s2 = (write_words ports 256 i buf s1).1 in
      let rest = stored_rest 256 i buf v in
      let ih =
        write_sectors_loop_lem k (i + 512) buf (ata_io_delay ports s2).1 (stored 256 i buf v)
          (ata_io_delay-view d s2 ∙ r) (ap (λ (f : ℕ → ℕ). f port_command) rest.0 ∙ c)
          (omega (arith, rest.2)) in
      let split : suc k * 256 ≡ 256 + k * 256 = omega arith in
      rw w.0 (ih.0, ih.1 ∙ sym (rw split (stored-add 256 (k * 256) i buf v)))

  flush_lem :
      (count : ℤ) (s : S)
      → ((flush ports count s).0 ≡ count)
        × ((d.view (flush ports count s).1).disk ≡ (d.view s).disk)
  unfolding flush
  flush_lem count s =
      let w = ata_io_wait-idle d (ports.out8 port_command cmd_flush s) in
      (rw w.0, ap Drive.disk w.1 ∙ d.out-flush s)

  -- what the command leaves on the disks
  written :
      (drive lba count : ℕ) (buf : List ℕ) (s : S)
      → 0 < count
      → count ≤ 256
      → lba < 0x10000000
      → lba + count ≤ size (drive % 2)
      → (v : Drive) × IsStarted cmd_write drive lba count (d.view s) v
        × ((ata_write_sectors ports drive lba (pos count) buf s).0 ≡ pos count)
        × ((d.view (ata_write_sectors ports drive lba (pos count) buf s).1).disk
            ≡ (stored (count * 256) 0 buf v).disk)
  unfolding ata_write_sectors
  written drive lba count buf s some_ most below room =
      let ready = start-IsStarted d cmd_write drive lba count s (inr refl) some_ most below room in
      let s' = (start ports cmd_write drive lba count s).1 in
      let r = write_sectors_loop_lem count 0 buf s' (d.view s') refl ready.command ready.words in
      let fits : bad_count (pos count) ≡ false = ground arith in
      let end = flush_lem (pos count) (write_sectors_loop ports count 0 buf s').1 in
      (d.view s', ready, rw (fits, r.0) end.0, rw (fits, r.0) (end.1 ∙ ap Drive.disk r.1))

  outside :
      {c drive lba count : ℕ} {u : Drive} (e j : ℕ) (v : Drive)
      → IsStarted c drive lba count u v
      → (e ≢ drive % 2) ⊎ (j < lba * 256) ⊎ ((lba + count) * 256 ≤ j)
      → (e ≢ selected v) ⊎ (j < v.at) ⊎ (v.at + count * 256 ≤ j)
  outside e j v started (inl h) = inl (λ q. h (q ∙ started.on_drive))
  outside e j v started (inr (inl h)) = inr (inl (omega (arith, started.starts)))
  outside e j v started (inr (inr h)) = inr (inr (omega (arith, started.starts)))

  -- On a drive that works, ata_write_sectors of 1 to 256 sectors that lie on the drive returns
  -- their number; each word of them on the disk is then that of the buffer, low byte first, and
  -- every other word of the two drives is as it was. The sector number has 28 bits.
  pub ata_write_sectors-stored :
      (drive lba count : ℕ) (buf : List ℕ) (s : S)
      → 0 < count
      → count ≤ 256
      → lba < 0x10000000
      → lba + count ≤ size (drive % 2)
      → ((ata_write_sectors ports drive lba (pos count) buf s).0 ≡ pos count)
        × ((k : ℕ)
            → k < count * 256
            → (d.view (ata_write_sectors ports drive lba (pos count) buf s).1).disk
                (drive % 2)
                (lba * 256 + k)
              ≡ word_at buf (2 * k))
        × ((e j : ℕ)
            → (e ≢ drive % 2) ⊎ (j < lba * 256) ⊎ ((lba + count) * 256 ≤ j)
            → (d.view (ata_write_sectors ports drive lba (pos count) buf s).1).disk e j
              ≡ (d.view s).disk e j)
  ata_write_sectors-stored drive lba count buf s some_ most below room =
      let (v, started, code, disk) = written drive lba count buf s some_ most below room in
      (
        code,
        λ k lt.
            ap (λ (f : ℕ → ℕ → ℕ). f (drive % 2) (lba * 256 + k)) disk
            ∙ subst
                (λ n. (stored (count * 256) 0 buf v).disk n (lba * 256 + k) ≡ word_at buf (2 * k))
                started.on_drive
                (subst
                  (λ n.
                    (stored (count * 256) 0 buf v).disk (selected v) (n + k) ≡ word_at buf (2 * k))
                  started.starts
                  (stored_in (count * 256) 0 buf v k lt ∙ ap (word_at buf) (omega arith))),
        λ e j out.
            ap (λ (f : ℕ → ℕ → ℕ). f e j) disk
            ∙ stored_out (count * 256) 0 buf v e j (outside e j v started out)
            ∙ ap (λ (f : ℕ → ℕ → ℕ). f e j) started.same,
      )

  -- On a drive that works, sectors that were written by ata_write_sectors are read back by
  -- ata_read_sectors as they were: 1 to 256 sectors that lie on the drive, from a buffer of as many
  -- bytes. The sector number has 28 bits.
  pub ata_read_sectors-ata_write_sectors :
      (drive lba count : ℕ) (buf : List ℕ) (s : S)
      → 0 < count
      → count ≤ 256
      → lba < 0x10000000
      → lba + count ≤ size (drive % 2)
      → IsBytes buf
      → length buf ≡ count * 512
      → (ata_read_sectors ports drive lba
          (pos count)
          (ata_write_sectors ports drive lba (pos count) buf s).1).0
        ≡ (pos count, buf)
  ata_read_sectors-ata_write_sectors drive lba count buf s some_ most below room bytes whole =
      let w = ata_write_sectors-stored drive lba count buf s some_ most below room in
      let s' = (ata_write_sectors ports drive lba (pos count) buf s).1 in
      let r = ata_read_sectors-stored d drive lba count s' some_ most below room in
      let same =
        disk_bytes-words (count * 256) ((d.view s').disk (drive % 2)) (lba * 256) buf bytes
          (omega arith) w.1 in
      λ i. (r.0 i, (r.1 ∙ same) i)

-- ===== src/Disk/Drive.antt =====
-- What the ATA command set says of a drive that works: the registers, the transfer of sectors by
-- words, and the status. The driver of ata.c waits for such a drive.
use Prim.Native.Nat.{bit_and}
use bxos.Common.{
  ℕ, zero, suc, ◌+◌, ◌-◌, ◌*◌, ◌/◌, ◌%◌, ◌≤◌, ◌<◌, ◌≡◌, ◌≢◌, ◌⊎◌, refl, false, arith, ◌==◌,
  if◌then◌else◌, sym, ◌∙◌, subst,
}
use native.Mathlib.Decide.{dec_lt}
use bxos.Common.Int.{is_neg}
use bxos.Disk.{
  Ports, port_data, port_count, port_lba_lo, port_lba_mid, port_lba_hi, port_drive, port_status,
  port_command, port_alt_status, sr_bsy, sr_drq, sr_err, sr_bsy_drq, cmd_read, cmd_write, cmd_flush,
  timeout_loops, wait_loop, ata_io_wait, ata_io_delay,
}

-- The registers as they were last written, the words of the two drives, the place of the next word
-- of the transfer, and the number of words that it still has.
pub record Drive : Type 0 where
  pub reg : ℕ → ℕ
  pub disk : ℕ → ℕ → ℕ
  pub at : ℕ
  pub left : ℕ

abbrev pub write_reg : ℕ → ℕ → Drive → Drive
write_reg p v d = record d { reg = λ q. if q == p then v else d.reg q }

abbrev pub selected : Drive → ℕ
selected d = d.reg port_drive / 16 % 2

abbrev pub first_sector : Drive → ℕ
first_sector d =
    d.reg port_lba_lo
    + 0x100 * d.reg port_lba_mid
    + 0x10000 * d.reg port_lba_hi
    + 0x1000000 * (d.reg port_drive % 16)

abbrev pub sectors_asked : Drive → ℕ
sectors_asked d = if d.reg port_count == 0 then 256 else d.reg port_count

-- a command that transfers sectors
abbrev pub begin : ℕ → Drive → Drive
begin c d = record (write_reg port_command c d) {
  at = first_sector d * 256;
  left = sectors_asked d * 256;
}

-- one word of the transfer is over
unfoldable pub step : Drive → Drive
step d = record d { at = suc d.at; left = d.left - 1 }

unfoldable pub store : ℕ → Drive → Drive
store v d = record d {
  disk = λ drive i.
      if drive == selected d then (if i == d.at then v else d.disk drive i) else d.disk drive i;
  at = suc d.at;
  left = d.left - 1;
}

-- `busy` is the number of times that the status will still say so. A word is transferred only by a
-- drive that is not busy, and after the last word of a sector it may be busy again.
pub record IsDrive {S : Type 0} (ports : Ports S) (size : ℕ → ℕ) : Type 0 where
  pub view : S → Drive
  pub busy : S → ℕ
  pub answers : (s : S) → busy s < timeout_loops
  pub out-reg :
      (s : S) (p v : ℕ) → 0x1F1 ≤ p → p ≤ 0x1F6 → view (ports.out8 p v s) ≡ write_reg p v (view s)
  pub out-transfer :
      (s : S) (c : ℕ)
      → (c ≡ cmd_read) ⊎ (c ≡ cmd_write)
      → first_sector (view s) + sectors_asked (view s) ≤ size (selected (view s))
      → view (ports.out8 port_command c s) ≡ begin c (view s)
  pub out-flush : (s : S) → (view (ports.out8 port_command cmd_flush s)).disk ≡ (view s).disk
  pub in-status : (s : S) → view (ports.in8 port_status s).1 ≡ view s
  pub in-alt_status : (s : S) → view (ports.in8 port_alt_status s).1 ≡ view s
  pub status-busy :
      (s : S)
      → 0 < busy s
      → (bit_and (ports.in8 port_status s).0 sr_bsy ≢ 0)
        × (bit_and (ports.in8 port_status s).0 sr_bsy_drq ≢ sr_drq)
        × (bit_and (ports.in8 port_status s).0 sr_err ≡ 0)
        × (busy (ports.in8 port_status s).1 + 1 ≡ busy s)
  pub status-idle :
      (s : S)
      → busy s ≡ 0
      → (bit_and (ports.in8 port_status s).0 sr_bsy ≡ 0)
        × (0 < (view s).left → bit_and (ports.in8 port_status s).0 sr_bsy_drq ≡ sr_drq)
        × (busy (ports.in8 port_status s).1 ≡ 0)
  pub in-data :
      (s : S)
      → (view s).reg port_command ≡ cmd_read
      → 0 < (view s).left
      → busy s ≡ 0
      → ((ports.in16 port_data s).0 ≡ (view s).disk (selected (view s)) (view s).at)
        × (view (ports.in16 port_data s).1 ≡ step (view s))
        × ((view s).left % 256 ≢ 1 → busy (ports.in16 port_data s).1 ≡ 0)
  pub out-data :
      (s : S) (v : ℕ)
      → (view s).reg port_command ≡ cmd_write
      → 0 < (view s).left
      → busy s ≡ 0
      → (view (ports.out16 port_data v s) ≡ store v (view s))
        × ((view s).left % 256 ≢ 1 → busy (ports.out16 port_data v s) ≡ 0)

module _ {S : Type 0} {ports : Ports S} {size : ℕ → ℕ} (d : IsDrive ports size) where
  -- A wait for a status that the drive has exactly when it is not busy.
  pub wait_loop-idle :
      (mask want : ℕ) (v : Drive)
      → ((s : S) → d.view s ≡ v → d.busy s ≡ 0 → bit_and (ports.in8 port_status s).0 mask ≡ want)
      → ((s : S) → 0 < d.busy s → bit_and (ports.in8 port_status s).0 mask ≢ want)
      → (k : ℕ) (s : S) → d.busy s < k
      → d.view s ≡ v
      → (is_neg (wait_loop ports k port_status mask want s).0 ≡ false)
        × (d.view (wait_loop ports k port_status mask want s).1 ≡ v)
        × (d.busy (wait_loop ports k port_status mask want s).1 ≡ 0)
  unfolding wait_loop
  wait_loop-idle mask want v good bad zero s h e = absurd (omega arith)
  wait_loop-idle mask want v good bad (suc k) s h e = elim (dec_lt 0 (d.busy s)) [
    | yes b ↦
        let later =
          wait_loop-idle mask want v good bad k (ports.in8 port_status s).1
            (omega (arith, d.status-busy s b)) (d.in-status s ∙ e) in
        ground (arith, later, bad s b, d.status-busy s b)
    | no i ↦
        let idle : d.busy s ≡ 0 = omega arith in
        ground (arith, good s e idle, d.status-idle s idle, d.in-status s, e)
  ]

  pub ata_io_wait-data :
      (s : S)
      → 0 < (d.view s).left
      → (is_neg (ata_io_wait ports port_status sr_bsy_drq sr_drq s).0 ≡ false)
        × (d.view (ata_io_wait ports port_status sr_bsy_drq sr_drq s).1 ≡ d.view s)
        × (d.busy (ata_io_wait ports port_status sr_bsy_drq sr_drq s).1 ≡ 0)
  unfolding ata_io_wait
  ata_io_wait-data s h =
      wait_loop-idle sr_bsy_drq sr_drq (d.view s)
        (λ t e i. (d.status-idle t i).1 (subst (λ v. 0 < Drive.left v) (sym e) h))
        (λ t b. (d.status-busy t b).1) timeout_loops s (d.answers s) refl

  pub ata_io_wait-idle :
      (s : S)
      → (is_neg (ata_io_wait ports port_status sr_bsy 0 s).0 ≡ false)
        × (d.view (ata_io_wait ports port_status sr_bsy 0 s).1 ≡ d.view s)
        × (d.busy (ata_io_wait ports port_status sr_bsy 0 s).1 ≡ 0)
  unfolding ata_io_wait
  ata_io_wait-idle s =
      wait_loop-idle sr_bsy 0 (d.view s) (λ t e i. (d.status-idle t i).0)
        (λ t b. (d.status-busy t b).0) timeout_loops s (d.answers s) refl

  pub ata_io_delay-view : (s : S) → d.view (ata_io_delay ports s).1 ≡ d.view s
  unfolding ata_io_delay
  ata_io_delay-view s =
      let a = (ports.in8 port_alt_status s).1 in
      let b = (ports.in8 port_alt_status a).1 in
      let c = (ports.in8 port_alt_status b).1 in
      d.in-alt_status c ∙ d.in-alt_status b ∙ d.in-alt_status a ∙ d.in-alt_status s

-- ===== src/Disk/Tests.antt =====
-- A drive that works: after each sector it says once that it is busy.
use Prim.Native.Nat.{bit_and}
use bxos.Common.{
  ℕ, zero, suc, ◌+◌, ◌*◌, ◌%◌, ◌≤◌, ◌<◌, ◌≡◌, ◌≢◌, inl, inr, refl, Bool, false, true, arith, ◌==◌,
  if◌then◌else◌, replicate, ◌||◌,
}
use bxos.Common.Int.{pos, minus}
use bxos.Disk.{
  Ports, port_command, port_status, cmd_read, cmd_write, timeout_loops, ata_read_sectors, sr_bsy,
  sr_drq, sr_err, sr_bsy_drq, ata_write_sectors, ata_identify,
}
use bxos.Disk.Drive.{Drive, IsDrive, write_reg, begin, step, store, selected}
use bxos.Disk.Read.{ata_read_sectors-stored, disk_bytes}
use bxos.Disk.Identify.{Reported, ata_identify-Reported}
use bxos.Disk.Volume.{driver, read_cluster-write_cluster}
use bxos.Fat.{valid_data_cluster}
use bxos.Fat.Tests.{four}
use bxos.Fs.{Fs, read_cluster, write_cluster}
use bxos.Fs.Monad.{ok}
use bxos.Common.Bytes.{IsBytes}
use bxos.Disk.Write.{ata_read_sectors-ata_write_sectors}

pub record Toy : Type 0 where
  pub drive : Drive
  pub waits : Bool

-- Busy 0x80, with words to transfer 0x48, without 0x40.
abbrev status_of : Bool → ℕ → ℕ
status_of true left = 0x80
status_of false zero = 0x40
status_of false (suc left) = 0x48

abbrev status : Toy → ℕ
status t = status_of t.waits t.drive.left

abbrev after_word : Toy → Drive → Toy
after_word t v = record { drive = v; waits = t.drive.left % 256 == 1 }

abbrev command : ℕ → Toy → Toy
command c t =
    if c == cmd_read || c == cmd_write
    then record { drive = begin c t.drive; waits = true }
    else record { drive = write_reg port_command c t.drive; waits = true }

abbrev toy_ports : Ports Toy
toy_ports = record {
  in8 = λ p t. (
    if p == port_status then status t else 0,
    if p == port_status then record t { waits = false } else t,
  );
  in16 = λ p t. (t.drive.disk (selected t.drive) t.drive.at, after_word t (step t.drive));
  out8 = λ p v t.
      if p == port_command then command v t else record t { drive = write_reg p v t.drive };
  out16 = λ p v t. after_word t (store v t.drive);
}

abbrev toy_busy : Toy → ℕ
toy_busy t = if t.waits then 1 else 0

-- two drives of 1000 sectors
abbrev toy_size : ℕ → ℕ
toy_size drive = 1000

status_busy :
    (w : Bool) (left : ℕ)
    → 0 < (if w then 1 else 0)
    → (bit_and (status_of w left) sr_bsy ≢ 0)
      × (bit_and (status_of w left) sr_bsy_drq ≢ sr_drq)
      × (bit_and (status_of w left) sr_err ≡ 0)
      × (0 + 1 ≡ (if w then 1 else 0))
status_busy true left h = (λ e. omega arith, λ e. omega arith, refl, refl)
status_busy false left h = absurd (omega arith)

status_idle :
    (w : Bool) (left : ℕ)
    → (if w then 1 else 0) ≡ zero
    → (bit_and (status_of w left) sr_bsy ≡ 0)
      × (0 < left → bit_and (status_of w left) sr_bsy_drq ≡ sr_drq)
      × (zero ≡ zero)
status_idle true left h = absurd (omega arith)
status_idle false zero h = (refl, λ more. absurd (omega arith), refl)
status_idle false (suc left) h = (refl, λ more. refl, refl)

waits_lt : (w : Bool) → (if w then 1 else 0) < timeout_loops
waits_lt true = omega arith
waits_lt false = omega arith

other_port : (p : ℕ) → p ≤ 0x1F6 → (p == port_command) ≡ false
other_port p h = ground arith

within_sector : (left : ℕ) → left % 256 ≢ 1 → (left % 256 == 1) ≡ false
within_sector left h = ground arith

abbrev toy-IsDrive : IsDrive toy_ports toy_size
unfolding step store
toy-IsDrive = record {
  view = Toy.drive;
  busy = toy_busy;
  answers = λ s. waits_lt s.waits;
  out-reg = λ s p v low high. rw (other_port p high);
  out-transfer = λ s c e room. elim e [ inl q ↦ rw q | inr q ↦ rw q ];
  out-flush = λ s. refl;
  in-status = λ s. refl;
  in-alt_status = λ s. refl;
  status-busy = λ s. status_busy s.waits s.drive.left;
  status-idle = λ s. status_idle s.waits s.drive.left;
  in-data = λ s c l b. (refl, refl, λ more. rw (within_sector s.drive.left more));
  out-data = λ s v c l b. (refl, λ more. rw (within_sector s.drive.left more));
}

-- the words of the two drives count on from the drive's number
abbrev toy : Toy
toy = record {
  drive = record { reg = λ p. 0; disk = λ drive i. (i + drive) % 0x10000; at = 0; left = 0 };
  waits = false;
}

ata_read_sectors-stored_example :
    ((ata_read_sectors toy_ports 1 5 (pos 2) toy).0.0 ≡ pos 2)
    × ((ata_read_sectors toy_ports 1 5 (pos 2) toy).0.1
        ≡ disk_bytes (λ i. (i + 1) % 0x10000) (5 * 256) (2 * 256))
    × ((ata_read_sectors toy_ports 1 5 (pos 2) toy).1.drive.disk ≡ toy.drive.disk)
unfolding toy-IsDrive
ata_read_sectors-stored_example =
    ata_read_sectors-stored toy-IsDrive 1 5 2 toy (omega arith) (omega arith) (omega arith)
      (omega arith)

replicate-IsBytes : (n x : ℕ) → x < 256 → IsBytes (replicate n x)
replicate-IsBytes zero x h = tt
replicate-IsBytes (suc n) x h = (h, replicate-IsBytes n x h)

ata_read_sectors-ata_write_sectors_example :
    (ata_read_sectors toy_ports 0 5
      (pos 1)
      (ata_write_sectors toy_ports 0 5 (pos 1) (replicate 512 7) toy).1).0
    ≡ (pos 1, replicate 512 7)
ata_read_sectors-ata_write_sectors_example =
    ata_read_sectors-ata_write_sectors toy-IsDrive 0 5 1 (replicate 512 7) toy (omega arith)
      (omega arith) (omega arith) (omega arith) (replicate-IsBytes 512 7 (omega arith)) refl

ata_identify-Reported_example : Reported toy_ports (ata_identify toy_ports 0 toy)
ata_identify-Reported_example = ata_identify-Reported toy_ports 0 toy

abbrev toy_volume : Fs Toy
toy_volume = record { mount = four; mounted = true; disk = toy }

read_cluster-write_cluster_example :
    ((write_cluster ⦃ata = driver toy_ports⦄ 3 (replicate 512 7) toy_volume).0 ≡ ok tt)
    × ((read_cluster ⦃ata = driver toy_ports⦄ 4
          (write_cluster ⦃ata = driver toy_ports⦄ 3 (replicate 512 7) toy_volume).1).0
        ≡ (if 4 == 3
            then ok (replicate 512 7)
            else (read_cluster ⦃ata = driver toy_ports⦄ 4 toy_volume).0))
unfolding valid_data_cluster
read_cluster-write_cluster_example =
    read_cluster-write_cluster toy-IsDrive 3 4 (replicate 512 7) toy_volume (omega arith) refl refl
      (replicate-IsBytes 512 7 (omega arith)) refl

-- Sector counts that the driver refuses.
refused : (ata_read_sectors toy_ports 0 5 (pos 257) toy).0.0 ≡ minus 1
unfolding ata_read_sectors
refused = refl

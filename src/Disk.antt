-- ===== src/Disk.antt =====
-- The driver of the disks, harib27f/haribote/ata.c. The instructions `in` and `out` are the
-- interface `Ports`. A bit test is `bit_and`; a shift and a mask that picks bits out of a sector
-- number is a quotient and a remainder. The buffer of a read is the list of the bytes stored so far.
mod Drive
mod Read
mod Write
mod Report
mod Identify
mod Volume
mod Tests
use Prim.Native.Nat.{bit_and}
use bxos.Common.{
  ℕ, zero, suc, ◌+◌, ◌-◌, ◌*◌, ◌/◌, ◌%◌, List, [], ◌∷◌, ◌++◌, Bool, true, false, ◌&&◌, ◌||◌, not,
  ltb, leb, ◌==◌, if◌then◌else◌, get_or, set, replicate, Option, none, some, take, drop, length,
}
use bxos.Common.Int.{ℤ, pos, minus, is_neg, to_ℕ}
use bxos.Memory.{word}

-- `io_in8`, `io_in16`, `io_out8` and `io_out16`. The state is all that the answers depend on.
pub record Ports (S : Type 0) : Type 0 where
  pub in8 : ℕ → S → ℕ × S
  pub in16 : ℕ → S → ℕ × S
  pub out8 : ℕ → ℕ → S → S
  pub out16 : ℕ → ℕ → S → S

abbrev pub Io : Type 0 → Type 0 → Type 0
Io S A = S → A × S

abbrev pub pure : {S A : Type 0} → A → Io S A
pure a s = (a, s)

infixl 5 ◌>>=◌ ◌>>◌
abbrev pub ◌>>=◌ : {S A B : Type 0} → Io S A → (A → Io S B) → Io S B
◌>>=◌ m f s = f (m s).0 (m s).1

abbrev pub ◌>>◌ : {S B : Type 0} → Io S (Unit {0}) → Io S B → Io S B
m >> k = m >>= λ _. k

abbrev pub port_data : ℕ
port_data = 0x1F0

abbrev pub port_error : ℕ
port_error = 0x1F1

abbrev pub port_features : ℕ
port_features = 0x1F1

abbrev pub port_count : ℕ
port_count = 0x1F2

abbrev pub port_lba_lo : ℕ
port_lba_lo = 0x1F3

abbrev pub port_lba_mid : ℕ
port_lba_mid = 0x1F4

abbrev pub port_lba_hi : ℕ
port_lba_hi = 0x1F5

abbrev pub port_drive : ℕ
port_drive = 0x1F6

abbrev pub port_status : ℕ
port_status = 0x1F7

abbrev pub port_command : ℕ
port_command = 0x1F7

abbrev pub port_alt_status : ℕ
port_alt_status = 0x3F6

abbrev pub sr_bsy : ℕ
sr_bsy = 0x80

abbrev pub sr_drq : ℕ
sr_drq = 0x08

abbrev pub sr_err : ℕ
sr_err = 0x01

abbrev pub sr_bsy_drq : ℕ
sr_bsy_drq = 0x88

abbrev pub cmd_read : ℕ
cmd_read = 0x20

abbrev pub cmd_write : ℕ
cmd_write = 0x30

abbrev pub cmd_flush : ℕ
cmd_flush = 0xE7

abbrev pub cmd_identify : ℕ
cmd_identify = 0xEC

abbrev pub timeout_loops : ℕ
timeout_loops = 1000000

-- a word as the two bytes in memory, and back
abbrev pub bytes_of_word : ℕ → List ℕ
bytes_of_word w = (w % 256) ∷ (w / 256 % 256) ∷ []

pub record AtaInfo : Type 0 where
  pub present : ℕ
  pub total_sectors : ℕ
  pub model : List ℕ

-- `count <= 0 || count > 256`
abbrev pub bad_count : ℤ → Bool
bad_count count = is_neg count || leb (to_ℕ count) 0 || ltb 256 (to_ℕ count)

module _ {S : Type 0} (ports : Ports S) where
  abbrev pub out : ℕ → ℕ → Io S (Unit {0})
  out p v s = (tt, ports.out8 p v s)

  -- the loop of `ata_io_wait`, with the rounds left
  unfoldable pub wait_loop : ℕ → ℕ → ℕ → ℕ → Io S ℤ
  wait_loop zero port mask want = pure (minus 1)
  wait_loop (suc k) port mask want = do
    s ← ports.in8 port
    let rest = wait_loop k port mask want
    if bit_and s mask == want
        then pure (pos s)
        else if not (bit_and s sr_err == 0)
        then pure (minus 1)
        else rest

  unfoldable pub ata_io_wait : ℕ → ℕ → ℕ → Io S ℤ
  ata_io_wait = wait_loop timeout_loops

  unfoldable pub ata_io_delay : Io S (Unit {0})
  ata_io_delay = do
    _ ← ports.in8 port_alt_status
    _ ← ports.in8 port_alt_status
    _ ← ports.in8 port_alt_status
    _ ← ports.in8 port_alt_status
    pure tt

  unfoldable pub ata_select : ℕ → ℕ → Io S (Unit {0})
  unfolding ata_io_delay
  ata_select drive lba = do
    out port_drive (0xE0 + drive % 2 * 16 + lba / 0x1000000 % 16)
    ata_io_delay

  -- the registers of a transfer, and the command
  unfoldable pub start : ℕ → ℕ → ℕ → ℕ → Io S (Unit {0})
  unfolding ata_select
  start command drive lba count = do
    ata_select drive lba
    out port_features 0
    out port_count (if count == 256 then 0 else count)
    out port_lba_lo (lba % 256)
    out port_lba_mid (lba / 0x100 % 256)
    out port_lba_hi (lba / 0x10000 % 256)
    out port_command command

  -- `for (w = 0; w < 256; w++) *p++ = io_in16(ATA_DATA);`, with the words left
  unfoldable pub read_words : ℕ → Io S (List ℕ)
  read_words zero = pure []
  read_words (suc n) = do
    w ← ports.in16 port_data
    rest ← read_words n
    pure (bytes_of_word w ++ rest)

  -- the loop over the sectors: whether all were read, and the bytes stored
  unfoldable pub read_sectors_loop : ℕ → Io S (Bool × List ℕ)
  unfolding ata_io_wait ata_io_delay read_words
  read_sectors_loop zero = pure (true, [])
  read_sectors_loop (suc k) = do
    status ← ata_io_wait port_status sr_bsy_drq sr_drq
    let rest = read_sectors_loop k
    if is_neg status
        then pure (false, [])
        else do bytes ← read_words 256; ata_io_delay; later ← rest; pure (later.0, bytes ++ later.1)

  -- The code, and the bytes stored in the buffer.
  unfoldable pub ata_read_sectors : ℕ → ℕ → ℤ → Io S (ℤ × List ℕ)
  unfolding start read_sectors_loop
  ata_read_sectors drive lba count = if bad_count count then pure (minus 1, []) else do
    start cmd_read drive lba (to_ℕ count)
    r ← read_sectors_loop (to_ℕ count)
    pure (if r.0 then count else minus 1, r.1)

  -- `for (w = 0; w < 256; w++) io_out16(ATA_DATA, *p++);`, with the words left; `i` is the byte
  unfoldable pub write_words : ℕ → ℕ → List ℕ → Io S (Unit {0})
  write_words zero i buf s = (tt, s)
  write_words (suc n) i buf s =
      write_words n (i + 2) buf
        (ports.out16 port_data (get_or buf i 0 + 256 * get_or buf (i + 1) 0) s)

  unfoldable pub write_sectors_loop : ℕ → ℕ → List ℕ → Io S Bool
  unfolding ata_io_wait ata_io_delay write_words
  write_sectors_loop zero i buf = pure true
  write_sectors_loop (suc k) i buf = do
    status ← ata_io_wait port_status sr_bsy_drq sr_drq
    let rest = write_sectors_loop k (i + 512) buf
    if is_neg status then pure false else do write_words 256 i buf; ata_io_delay; rest

  -- the command that empties the drive's cache
  unfoldable pub flush : ℤ → Io S ℤ
  unfolding ata_io_wait
  flush count = do
    out port_command cmd_flush
    status ← ata_io_wait port_status sr_bsy 0
    pure (if is_neg status then minus 1 else count)

  unfoldable pub ata_write_sectors : ℕ → ℕ → ℤ → List ℕ → Io S ℤ
  unfolding start write_sectors_loop flush
  ata_write_sectors drive lba count buf = if bad_count count then pure (minus 1) else do
    start cmd_write drive lba (to_ℕ count)
    done ← write_sectors_loop (to_ℕ count) 0 buf
    if done then flush count else pure (minus 1)

  -- the wait of `ata_identify` for data or an error: whether there is data
  unfoldable pub data_loop : ℕ → Io S Bool
  data_loop zero = pure false
  data_loop (suc k) = do
    s ← ports.in8 port_status
    let rest = data_loop k
    if not (bit_and s sr_err == 0)
        then pure false
        else if not (bit_and s sr_drq == 0)
        then pure true
        else rest

  unfoldable pub in_words : ℕ → Io S (List ℕ)
  in_words zero = pure []
  in_words (suc n) = do w ← ports.in16 port_data; rest ← in_words n; pure ((w % 0x10000) ∷ rest)

-- the characters of the words from `i` on, the high byte of each first
unfoldable pub model_chars : ℕ → ℕ → List ℕ → List ℕ
model_chars zero i id = []
model_chars (suc k) i id =
    (get_or id i 0 / 256 % 256) ∷ (get_or id i 0 % 256) ∷ model_chars k (suc i) id

-- the spaces among the first `n` characters, from the last one down, become 0
unfoldable pub trim_spaces : ℕ → List ℕ → List ℕ
trim_spaces zero model = model
trim_spaces (suc n) model =
    let rest = trim_spaces n (set model n 0) in if get_or model n 0 == b' ' then rest else model

unfoldable pub no_drive : AtaInfo
no_drive = record { present = 0; total_sectors = 0; model = replicate 41 0 }

unfoldable pub info_of : List ℕ → AtaInfo
unfolding model_chars trim_spaces
info_of id = record {
  present = 1;
  total_sectors = get_or id 61 0 * 0x10000 + get_or id 60 0;
  model = trim_spaces 40 (model_chars 20 27 id ++ (0 ∷ []));
}

module _ {S : Type 0} (ports : Ports S) where
  -- the registers before the command IDENTIFY
  unfoldable pub ask : ℕ → Io S (Unit {0})
  unfolding ata_select
  ask drive = do
    ata_select ports drive 0
    out ports port_count 0
    out ports port_lba_lo 0
    out ports port_lba_mid 0
    out ports port_lba_hi 0
    out ports port_command cmd_identify

  -- whether one of the two registers is not 0; the second is read only if the first is 0
  unfoldable pub is_foreign : Io S Bool
  is_foreign = do
    mid ← ports.in8 port_lba_mid
    if not (mid == 0) then pure true else do hi ← ports.in8 port_lba_hi; pure (not (hi == 0))

  -- The code, and what is found out.
  unfoldable pub ata_identify : ℕ → Io S (ℤ × AtaInfo)
  ata_identify drive = do
    ask drive
    status ← ports.in8 port_status
    if status == 0 then pure (pos 0, no_drive) else do
      idle ← ata_io_wait ports port_status sr_bsy 0
      if is_neg idle then pure (minus 1, no_drive) else do
        foreign ← is_foreign
        if foreign then pure (minus 1, no_drive) else do
          ready ← data_loop ports timeout_loops
          if not ready
              then pure (minus 1, no_drive)
              else do id ← in_words ports 256; pure (pos 1, info_of id)

  -- the new `ata_drive_info`
  unfoldable pub ata_init : Io S (List AtaInfo)
  ata_init = do first ← ata_identify 0; second ← ata_identify 1; pure (first.1 ∷ second.1 ∷ [])

-- ===== src/Tables.antt =====
-- The descriptor tables of harib27f/haribote/dsctbl.c, and the interrupt controllers of int.c. A field
-- of a descriptor is the number that its bits are; a mask and a shift are a remainder and a quotient.
-- The addresses of the handlers, which are written in assembly, are `Handlers`.
mod Fields
mod Vectors
mod Tests
use bxos.Common.{
  ℕ, zero, suc, ◌+◌, ◌-◌, ◌*◌, ◌/◌, ◌%◌, List, [], ◌∷◌, Bool, true, false, ltb, ◌==◌, if◌then◌else◌,
  set,
}
use bxos.Disk.{Ports, Io, pure, ◌>>=◌, ◌>>◌, out}

-- `struct SEGMENT_DESCRIPTOR`
pub record SegmentDescriptor : Type 0 where
  pub limit_low : ℕ
  pub base_low : ℕ
  pub base_mid : ℕ
  pub access_right : ℕ
  pub limit_high : ℕ
  pub base_high : ℕ

-- `struct GATE_DESCRIPTOR`
pub record GateDescriptor : Type 0 where
  pub offset_low : ℕ
  pub selector : ℕ
  pub dw_count : ℕ
  pub access_right : ℕ
  pub offset_high : ℕ

-- `ar |= 0x8000`
abbrev pub with_g_bit : ℕ → ℕ
with_g_bit ar = if (ar / 0x8000 % 2) == 1 then ar else ar + 0x8000

-- The upper four bits of `limit_high` are bits 12 to 15 of the access rights.
unfoldable pub set_segmdesc : ℕ → ℕ → ℕ → SegmentDescriptor
set_segmdesc limit base ar =
    let large = ltb 0xfffff limit in
    let rights = if large then with_g_bit ar else ar in
    let size = if large then limit / 0x1000 else limit in
    record {
      limit_low = size % 0x10000;
      base_low = base % 0x10000;
      base_mid = base / 0x10000 % 256;
      access_right = rights % 256;
      limit_high = size / 0x10000 % 16 + rights / 0x1000 % 16 * 16;
      base_high = base / 0x1000000 % 256;
    }

unfoldable pub set_gatedesc : ℕ → ℕ → ℕ → GateDescriptor
set_gatedesc offset selector ar = record {
  offset_low = offset % 0x10000;
  selector = selector % 0x10000;
  dw_count = ar / 256 % 256;
  access_right = ar % 256;
  offset_high = offset / 0x10000 % 0x10000;
}

abbrev pub adr_botpak : ℕ
adr_botpak = 0x00280000

abbrev pub limit_botpak : ℕ
limit_botpak = 0x0007ffff

abbrev pub limit_gdt : ℕ
limit_gdt = 0x0000ffff

abbrev pub limit_idt : ℕ
limit_idt = 0x000007ff

abbrev pub ar_data32_rw : ℕ
ar_data32_rw = 0x4092

abbrev pub ar_code32_er : ℕ
ar_code32_er = 0x409a

abbrev pub ar_intgate32 : ℕ
ar_intgate32 = 0x008e

-- the addresses of `asm_inthandler0c` to `asm_hrb_api`
pub record Handlers : Type 0 where
  pub inthandler0c : ℕ
  pub inthandler0d : ℕ
  pub inthandler20 : ℕ
  pub inthandler21 : ℕ
  pub inthandler2c : ℕ
  pub hrb_api : ℕ

-- `for (i = 0; i < k; i++) table[i] = v;`, with the rounds left
unfoldable pub fill {ℓ} : {A : Type ℓ} → ℕ → ℕ → A → List A → List A
fill zero i v table = table
fill (suc k) i v table = fill k (suc i) v (set table i v)

unfoldable pub init_gdt : List SegmentDescriptor → List SegmentDescriptor
init_gdt gdt =
    set
      (set (fill (limit_gdt / 8 + 1) 0 (set_segmdesc 0 0 0) gdt) 1
        (set_segmdesc 0xffffffff 0 ar_data32_rw))
      2 (set_segmdesc limit_botpak adr_botpak ar_code32_er)

-- the gate of a handler
abbrev pub gate : ℕ → ℕ → GateDescriptor
gate handler ar = set_gatedesc handler (2 * 8) ar

-- The handlers are set one after the other.
unfoldable pub init_idt : Handlers → List GateDescriptor → List GateDescriptor
init_idt h idt =
    let t0 = fill (limit_idt / 8 + 1) 0 (set_gatedesc 0 0 0) idt in
    let t1 = set t0 0x0c (gate h.inthandler0c ar_intgate32) in
    let t2 = set t1 0x0d (gate h.inthandler0d ar_intgate32) in
    let t3 = set t2 0x20 (gate h.inthandler20 ar_intgate32) in
    let t4 = set t3 0x21 (gate h.inthandler21 ar_intgate32) in
    let t5 = set t4 0x2c (gate h.inthandler2c ar_intgate32) in
    set t5 0x40 (gate h.hrb_api (ar_intgate32 + 0x60))

-- The two tables; `load_gdtr` and `load_idtr` hand them to the processor.
unfoldable pub init_gdtidt :
    Handlers
    → List SegmentDescriptor × List GateDescriptor
    → List SegmentDescriptor × List GateDescriptor
unfolding init_gdt init_idt
init_gdtidt h (gdt, idt) = (init_gdt gdt, init_idt h idt)

-- The ports of the two controllers are 0x20, 0x21 and 0xa0, 0xa1.
unfoldable pub init_pic : {S : Type 0} → Ports S → Io S (Unit {0})
init_pic ports = do
  out ports 0x21 0xff
  out ports 0xa1 0xff
  out ports 0x20 0x11
  out ports 0x21 0x20
  out ports 0x21 4
  out ports 0x21 0x01
  out ports 0xa0 0x11
  out ports 0xa1 0x28
  out ports 0xa1 2
  out ports 0xa1 0x01
  out ports 0x21 0xfb
  out ports 0xa1 0xff

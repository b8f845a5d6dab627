-- ===== src/Tables/Fields.antt =====
-- What the processor reads from the descriptors that `set_segmdesc` and `set_gatedesc` of
-- harib27f/haribote/dsctbl.c make.
use bxos.Common.{ℕ, ◌+◌, ◌*◌, ◌/◌, ◌%◌, ◌≤◌, ◌<◌, ◌≡◌, arith, ◌==◌, if◌then◌else◌}
use bxos.Memory.{word}
use bxos.Tables.{SegmentDescriptor, GateDescriptor, set_segmdesc, set_gatedesc}

abbrev pub base_of : SegmentDescriptor → ℕ
base_of d = d.base_low + 0x10000 * d.base_mid + 0x1000000 * d.base_high

-- the bit that counts the limit in pages of 4096 bytes
abbrev pub g_bit : SegmentDescriptor → ℕ
g_bit d = d.limit_high / 128

-- the last offset that is in the segment
abbrev pub limit_of : SegmentDescriptor → ℕ
limit_of d =
    let pages = d.limit_low + 0x10000 * (d.limit_high % 16) in
    if g_bit d == 1 then pages * 0x1000 + 0xfff else pages

-- type and privilege, and the bits above the limit but for the g bit
abbrev pub rights_of : SegmentDescriptor → ℕ
rights_of d = d.access_right + 0x1000 * (d.limit_high / 16 % 8)

abbrev pub offset_of : GateDescriptor → ℕ
offset_of d = d.offset_low + 0x10000 * d.offset_high

-- From a descriptor of set_segmdesc the processor reads the base as it was given; the limit as it was
-- given if it is at most 0xfffff, and else the end of its page; and the access rights that are
-- given. The rights do not use bits 8 to 11 and 15.
pub set_segmdesc-fields :
    (limit base ar : ℕ)
    → limit < word
    → base < word
    → ar < 0x8000
    → ar / 256 % 16 ≡ 0
    → (base_of (set_segmdesc limit base ar) ≡ base)
      × (limit ≤ 0xfffff → limit_of (set_segmdesc limit base ar) ≡ limit)
      × (0xfffff < limit → limit_of (set_segmdesc limit base ar) ≡ limit / 0x1000 * 0x1000 + 0xfff)
      × (rights_of (set_segmdesc limit base ar) ≡ ar)
unfolding set_segmdesc
set_segmdesc-fields limit base ar l b a z =
    (omega arith, λ h. ground arith, λ h. ground arith, ground arith)

-- A gate of set_gatedesc leads to the offset and the selector that are given, with the rights.
pub set_gatedesc-fields :
    (offset selector ar : ℕ)
    → offset < word
    → selector < 0x10000
    → ar < 0x10000
    → (offset_of (set_gatedesc offset selector ar) ≡ offset)
      × ((set_gatedesc offset selector ar).selector ≡ selector)
      × ((set_gatedesc offset selector ar).access_right
            + 256 * (set_gatedesc offset selector ar).dw_count
          ≡ ar)
unfolding set_gatedesc
set_gatedesc-fields offset selector ar o s a = (omega arith, omega arith, omega arith)

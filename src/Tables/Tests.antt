-- ===== src/Tables/Tests.antt =====
-- The descriptor tables at the values that the kernel uses.
use bxos.Common.{
  ℕ, ◌+◌, ◌*◌, ◌/◌, ◌≤◌, ◌<◌, ◌≡◌, refl, arith, replicate, get_or, List, [], ◌∷◌, ◌++◌,
}
use bxos.Disk.{Ports}
use bxos.Tables.{
  Handlers, GateDescriptor, set_segmdesc, set_gatedesc, fill, init_idt, init_pic, ar_code32_er,
  adr_botpak, limit_botpak,
}
use bxos.Tables.Fields.{base_of, limit_of, rights_of, set_segmdesc-fields}
use bxos.Tables.Vectors.{init_idt-application}

set_segmdesc-fields_example :
    (base_of (set_segmdesc limit_botpak adr_botpak ar_code32_er) ≡ adr_botpak)
    × (limit_botpak ≤ 0xfffff
        → limit_of (set_segmdesc limit_botpak adr_botpak ar_code32_er) ≡ limit_botpak)
    × (0xfffff < limit_botpak
        → limit_of (set_segmdesc limit_botpak adr_botpak ar_code32_er)
          ≡ limit_botpak / 0x1000 * 0x1000 + 0xfff)
    × (rights_of (set_segmdesc limit_botpak adr_botpak ar_code32_er) ≡ ar_code32_er)
set_segmdesc-fields_example =
    set_segmdesc-fields limit_botpak adr_botpak ar_code32_er (omega arith) (omega arith)
      (omega arith) (omega arith)

-- the whole memory
whole_memory : limit_of (set_segmdesc 0xffffffff 0 0x4092) ≡ 0xffffffff
unfolding set_segmdesc
whole_memory = refl

abbrev handlers : Handlers
handlers = record {
  inthandler0c = 100;
  inthandler0d = 200;
  inthandler20 = 300;
  inthandler21 = 400;
  inthandler2c = 500;
  hrb_api = 600;
}

abbrev no_gate : GateDescriptor
no_gate = set_gatedesc 0 0 0

init_idt-application_example :
    (◌≡◌ {A = ℕ} 0x40 0x40)
    × (get_or (init_idt handlers (replicate 256 no_gate)) 0x40 no_gate
        ≡ set_gatedesc 600 (2 * 8) 0xee)
unfolding init_idt set_gatedesc fill
init_idt-application_example =
    init_idt-application handlers (replicate 256 no_gate) 0x40 no_gate refl (omega arith) refl

-- ports that write down what is put out
abbrev log : Ports (List ℕ)
log = record {
  in8 = λ p s. (0, s);
  in16 = λ p s. (0, s);
  out8 = λ p v s. s ++ (p * 256 + v) ∷ [];
  out16 = λ p v s. s;
}

-- all is masked first; at the end only the second controller is let through
pic_writes :
    (init_pic log []).1
    ≡ 0x21ff ∷ 0xa1ff ∷ 0x2011 ∷ 0x2120 ∷ 0x2104 ∷ 0x2101 ∷ 0xa011 ∷ 0xa128 ∷ 0xa102 ∷ 0xa101
      ∷ 0x21fb ∷ 0xa1ff ∷ []
unfolding init_pic
pic_writes = refl

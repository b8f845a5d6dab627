-- ===== src/Tables/Vectors.antt =====
-- The interrupt table that `init_gdtidt` of harib27f/haribote/dsctbl.c makes, vector by vector.
use bxos.Common.{
  ℕ, zero, suc, ◌+◌, ◌*◌, ◌/◌, ◌%◌, ◌≤◌, ◌<◌, ◌≡◌, refl, sym, ap, ◌∙◌, List, arith, length,
  length-set, get_or, set, false, ◌==◌, if◌then◌else◌, Bool-cases, inl, inr,
}
use bxos.Common.Bytes.{get_or-set}
use bxos.Tables.{
  GateDescriptor, Handlers, set_gatedesc, fill, gate, init_idt, ar_intgate32, limit_idt,
}

length-fill {ℓ} :
    {A : Type ℓ} (k i : ℕ) (v : A) (table : List A) → length (fill k i v table) ≡ length table
unfolding fill
length-fill zero i v table = refl
length-fill (suc k) i v table = length-fill k (suc i) v (set table i v) ∙ length-set table i v

get_or-fill_before {ℓ} :
    {A : Type ℓ} (k i j : ℕ) (v d : A) (table : List A)
    → i + k ≤ length table
    → j < i
    → get_or (fill k i v table) j d ≡ get_or table j d
unfolding fill
get_or-fill_before zero i j v d table l h = refl
get_or-fill_before (suc k) i j v d table l h =
    get_or-fill_before k (suc i) j v d (set table i v) (omega (arith, length-set table i v))
      (omega arith)
    ∙ get_or-set table i j v d (omega arith)
    ∙ (let other : (j == i) ≡ false = ground arith in rw other)

get_or-fill {ℓ} :
    {A : Type ℓ} (k i j : ℕ) (v d : A) (table : List A)
    → i + k ≤ length table
    → i ≤ j
    → j < i + k
    → get_or (fill k i v table) j d ≡ v
unfolding fill
get_or-fill zero i j v d table l a b = absurd (omega arith)
get_or-fill (suc k) i j v d table l a b = elim (Bool-cases (j == i)) [
  | inl here ↦
      get_or-fill_before k (suc i) j v d (set table i v) (omega (arith, length-set table i v))
        (ground (arith, here))
      ∙ get_or-set table i j v d (omega arith)
      ∙ rw here
  | inr later ↦
      get_or-fill k (suc i) j v d (set table i v) (omega (arith, length-set table i v))
        (ground (arith, later)) (omega arith)
]

-- the gate that a vector has
abbrev pub vector : Handlers → ℕ → GateDescriptor
vector h i =
    if i == 0x40
    then gate h.hrb_api (ar_intgate32 + 0x60)
    else if i == 0x2c
    then gate h.inthandler2c ar_intgate32
    else if i == 0x21
    then gate h.inthandler21 ar_intgate32
    else if i == 0x20
    then gate h.inthandler20 ar_intgate32
    else if i == 0x0d
    then gate h.inthandler0d ar_intgate32
    else if i == 0x0c
    then gate h.inthandler0c ar_intgate32
    else set_gatedesc 0 0 0

-- the privilege that a caller needs; 3 is that of an application
abbrev pub privilege : GateDescriptor → ℕ
privilege g = g.access_right / 32 % 4

-- a write of a gate, at the index that is asked for and at the others
written :
    (table : List GateDescriptor) (at i : ℕ) (g d r : GateDescriptor)
    → at < length table
    → get_or table i d ≡ r
    → get_or (set table at g) i d ≡ (if i == at then g else r)
written table at i g d r h e = get_or-set table at i g d h ∙ ap (λ x. if i == at then g else x) e

-- After init_idt each of the 256 vectors has its gate: the six handlers at their vectors, and an empty
-- gate at the others, whatever the table held.
pub init_idt-vector :
    (h : Handlers) (idt : List GateDescriptor) (i : ℕ) (d : GateDescriptor)
    → length idt ≡ 256
    → i < 256
    → get_or (init_idt h idt) i d ≡ vector h i
unfolding init_idt
init_idt-vector h idt i d l b =
    let t0 = fill (limit_idt / 8 + 1) 0 (set_gatedesc 0 0 0) idt in
    let g1 = gate h.inthandler0c ar_intgate32 in
    let g2 = gate h.inthandler0d ar_intgate32 in
    let g3 = gate h.inthandler20 ar_intgate32 in
    let g4 = gate h.inthandler21 ar_intgate32 in
    let g5 = gate h.inthandler2c ar_intgate32 in
    let t1 = set t0 0x0c g1 in
    let t2 = set t1 0x0d g2 in
    let t3 = set t2 0x20 g3 in
    let t4 = set t3 0x21 g4 in
    let t5 = set t4 0x2c g5 in
    let l0 : length t0 ≡ 256 = length-fill 256 0 (set_gatedesc 0 0 0) idt ∙ l in
    let l1 : length t1 ≡ 256 = length-set t0 0x0c g1 ∙ l0 in
    let l2 : length t2 ≡ 256 = length-set t1 0x0d g2 ∙ l1 in
    let l3 : length t3 ≡ 256 = length-set t2 0x20 g3 ∙ l2 in
    let l4 : length t4 ≡ 256 = length-set t3 0x21 g4 ∙ l3 in
    let l5 : length t5 ≡ 256 = length-set t4 0x2c g5 ∙ l4 in
    let e0 =
      get_or-fill 256 0 i (set_gatedesc 0 0 0) d idt (omega arith) (omega arith) (omega arith) in
    let e1 = written t0 0x0c i g1 d _ (omega (arith, l0)) e0 in
    let e2 = written t1 0x0d i g2 d _ (omega (arith, l1)) e1 in
    let e3 = written t2 0x20 i g3 d _ (omega (arith, l2)) e2 in
    let e4 = written t3 0x21 i g4 d _ (omega (arith, l3)) e3 in
    let e5 = written t4 0x2c i g5 d _ (omega (arith, l4)) e4 in
    written t5 0x40 i (gate h.hrb_api (ar_intgate32 + 0x60)) d _ (omega (arith, l5)) e5

-- After init_idt an application can call one gate only: if the gate of one of the 256 vectors asks for
-- no more than its privilege, then the vector is 0x40, and the gate leads to asm_hrb_api in the
-- kernel's code segment.
pub init_idt-application :
    (h : Handlers) (idt : List GateDescriptor) (i : ℕ) (d : GateDescriptor)
    → length idt ≡ 256
    → i < 256
    → privilege (get_or (init_idt h idt) i d) ≡ 3
    → (i ≡ 0x40) × (get_or (init_idt h idt) i d ≡ set_gatedesc h.hrb_api (2 * 8) 0xee)
unfolding set_gatedesc
init_idt-application h idt i d l b p =
    let e = init_idt-vector h idt i d l b in
    let q = ap privilege (sym e) ∙ p in let at : i ≡ 0x40 = ground (arith, q) in (at, e ∙ rw at)

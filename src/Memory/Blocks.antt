-- ===== src/Memory/Blocks.antt =====
-- The free blocks as a plain list: what an allocation and a release do to them, and to the set of
-- free bytes.
use bxos.Common.{
  ℕ, zero, suc, ◌+◌, ◌-◌, ◌≤◌, ◌<◌, ◌≡◌, ◌⊎◌, inl, inr, Bool, true, false, not, ◌&&◌, ◌||◌, List,
  [], ◌∷◌, Bool-cases, ==_iff, arith, ltb, leb, ◌==◌, if◌then◌else◌, length,
}
use bxos.Memory.{FreeInfo, block, at, word}

-- In address order, not empty, within the word, and with a gap between any two; all from `lo` on.
abbrev pub Separated : ℕ → List FreeInfo → Type 0
Separated lo [] = Unit {0}
Separated lo (f ∷ fs) =
    (lo ≤ f.addr) × (0 < f.size) × (f.addr + f.size < word) × Separated (f.addr + f.size + 1) fs

abbrev pub within : ℕ → ℕ → ℕ → Bool
within a s b = leb a b && ltb b (a + s)

-- whether the byte at `b` is free
abbrev pub covers : List FreeInfo → ℕ → Bool
covers [] b = false
covers (f ∷ fs) b = within f.addr f.size b || covers fs b

abbrev pub total : List FreeInfo → ℕ
total [] = 0
total (f ∷ fs) = f.size + total fs

-- the block does not meet any of the list
abbrev pub Apart : ℕ → ℕ → List FreeInfo → Type 0
Apart a s [] = Unit {0}
Apart a s (f ∷ fs) = ((a + s ≤ f.addr) ⊎ (f.addr + f.size ≤ a)) × Apart a s fs

-- the list with the first `size` bytes of its block `i` taken
unfoldable pub take_at : ℕ → ℕ → List FreeInfo → List FreeInfo
take_at i size [] = []
take_at zero size (f ∷ fs) =
    if f.size == size then fs else block (f.addr + size) (f.size - size) ∷ fs
take_at (suc i) size (f ∷ fs) = f ∷ take_at i size fs

-- `f`, grown by `s` bytes, in front of the blocks behind it
unfoldable pub join : ℕ → ℕ → FreeInfo → List FreeInfo → List FreeInfo
join a s f [] = block f.addr (f.size + s) ∷ []
join a s f (g ∷ gs) =
    if (a + s) == g.addr
    then block f.addr (f.size + s + g.size) ∷ gs
    else block f.addr (f.size + s) ∷ g ∷ gs

-- the list with a block given back, joined to its neighbours
unfoldable pub release : ℕ → ℕ → List FreeInfo → List FreeInfo
release a s [] = block a s ∷ []
release a s (f ∷ fs) =
    if ltb a f.addr
    then (if (a + s) == f.addr then block a (s + f.size) ∷ fs else block a s ∷ f ∷ fs)
    else (if (f.addr + f.size) == a then join a s f fs else f ∷ release a s fs)

pub Separated-mono : (m n : ℕ) (l : List FreeInfo) → m ≤ n → Separated n l → Separated m l
Separated-mono m n [] h v = tt
Separated-mono m n (f ∷ fs) h v = (omega arith, v.1, v.2, v.3)

pub at_above :
    (lo i : ℕ) (l : List FreeInfo)
    → Separated lo l
    → i < length l
    → (lo ≤ (at l i).addr) × ((at l i).addr + (at l i).size < word) × (0 < (at l i).size)
at_above lo i [] v h = absurd (omega arith)
at_above lo zero (f ∷ fs) v h = (v.0, v.2, v.1)
at_above lo (suc i) (f ∷ fs) v h =
    omega (arith, at_above (f.addr + f.size + 1) i fs v.3 (omega arith))

covers_above : (lo b : ℕ) (l : List FreeInfo) → Separated lo l → covers l b ≡ true → lo ≤ b
covers_above lo b [] v h = cc
covers_above lo b (f ∷ fs) v h = ground (arith, covers_above (f.addr + f.size + 1) b fs v.3)

-- A taken block was free.
pub covers-at :
    (i size b : ℕ) (l : List FreeInfo)
    → i < length l
    → size ≤ (at l i).size
    → within (at l i).addr size b ≡ true
    → covers l b ≡ true
covers-at i size b [] h k w = absurd (omega arith)
covers-at zero size b (f ∷ fs) h k w = ground arith
covers-at (suc i) size b (f ∷ fs) h k w = ground (arith, covers-at i size b fs (omega arith) k w)

pub take_at-Separated :
    (lo i size : ℕ) (l : List FreeInfo)
    → Separated lo l
    → size ≤ (at l i).size
    → Separated lo (take_at i size l)
unfolding take_at
take_at-Separated lo i size [] v h = tt
take_at-Separated lo zero size (f ∷ fs) v h =
    ground (arith, Separated-mono lo (f.addr + f.size + 1) fs (omega arith) v.3)
take_at-Separated lo (suc i) size (f ∷ fs) v h =
    (v.0, v.1, v.2, take_at-Separated (f.addr + f.size + 1) i size fs v.3 h)

-- Taking a block removes exactly its bytes.
pub covers-take_at :
    (lo i size b : ℕ) (l : List FreeInfo)
    → Separated lo l
    → i < length l
    → size ≤ (at l i).size
    → covers (take_at i size l) b ≡ (covers l b && not (within (at l i).addr size b))
unfolding take_at
covers-take_at lo i size b [] v h k = absurd (omega arith)
covers-take_at lo zero size b (f ∷ fs) v h k =
    ground (arith, covers_above (f.addr + f.size + 1) b fs v.3)
covers-take_at lo (suc i) size b (f ∷ fs) v h k = ground (
  arith,
  covers-take_at (f.addr + f.size + 1) i size b fs v.3 (omega arith) k,
  at_above (f.addr + f.size + 1) i fs v.3 (omega arith),
)

pub total-take_at :
    (i size : ℕ) (l : List FreeInfo)
    → i < length l
    → size ≤ (at l i).size
    → total (take_at i size l) + size ≡ total l
unfolding take_at
total-take_at i size [] h k = absurd (omega arith)
total-take_at zero size (f ∷ fs) h k = ground arith
total-take_at (suc i) size (f ∷ fs) h k = omega (arith, total-take_at i size fs (omega arith) k)

join-Separated :
    (lo a s : ℕ) (f : FreeInfo) (fs : List FreeInfo)
    → Separated lo (f ∷ fs)
    → Apart a s fs
    → f.addr + f.size ≡ a
    → a + s < word
    → Separated lo (join a s f fs)
unfolding join
join-Separated lo a s f [] v d e w = omega arith
join-Separated lo a s f (g ∷ gs) v d e w =
    ground (arith, Separated-mono (a + s + 1) (g.addr + g.size + 1) gs)

covers-join :
    (lo a s b : ℕ) (f : FreeInfo) (fs : List FreeInfo)
    → Separated lo fs
    → f.addr + f.size ≡ a
    → covers (join a s f fs) b ≡ (covers fs b || within f.addr (f.size + s) b)
unfolding join
covers-join lo a s b f [] v e = ground arith
covers-join lo a s b f (g ∷ gs) v e = ground arith

-- A released block leaves the list separated: it is joined where it touches.
pub release-Separated :
    (lo a s : ℕ) (l : List FreeInfo)
    → Separated lo l
    → Apart a s l
    → lo ≤ a
    → 0 < s
    → a + s < word
    → Separated lo (release a s l)
unfolding release
release-Separated lo a s [] v d h p w = (h, p, w, tt)
release-Separated lo a s (f ∷ fs) v d h p w = ground (
  arith,
  join-Separated lo a s f fs v d.1,
  release-Separated (f.addr + f.size + 1) a s fs v.3 d.1,
  Separated-mono (a + s + 1) (f.addr + f.size + 1) fs,
)

-- two blocks that touch cover what they cover together
within_split : (a s c t b : ℕ) → a + s ≡ c → within a (s + t) b ≡ (within a s b || within c t b)
within_split a s c t b e = ground arith

or_rotate : (p q r : Bool) → (p || q || r) ≡ (q || r || p)
or_rotate p q r = ground arith

or_move : (p q : Bool) → (p || q) ≡ (q || p)
or_move p q = ground arith

or_inner : (p q r : Bool) → (r || (q || p)) ≡ (q || r || p)
or_inner p q r = ground arith

or_group : (p q r : Bool) → (q || (r || p)) ≡ (q || r || p)
or_group p q r = ground arith

-- It adds exactly its bytes.
pub covers-release :
    (lo a s b : ℕ) (l : List FreeInfo)
    → Separated lo l
    → covers (release a s l) b ≡ (covers l b || within a s b)
unfolding release
covers-release lo a s b [] v = ground arith
covers-release lo a s b (f ∷ fs) v = elim (Bool-cases (ltb a f.addr)) [
  | inl before ↦ elim (Bool-cases ((a + s) == f.addr)) [
    | inl touches ↦
        rw (before, touches, within_split a s f.addr f.size b ((==_iff _ _).0 touches))
          (or_rotate (within a s b) (within f.addr f.size b) (covers fs b))
    | inr gap ↦ rw (before, gap) (or_move (within a s b) _)
  ]
  | inr behind ↦ elim (Bool-cases ((f.addr + f.size) == a)) [
    | inl touches ↦
        rw
          (
            behind,
            touches,
            covers-join (f.addr + f.size + 1) a s b f fs v.3 (ground arith),
            within_split f.addr f.size a s b ((==_iff _ _).0 touches),
          )
          (or_inner (within a s b) (within f.addr f.size b) (covers fs b))
    | inr gap ↦
        rw (behind, gap, covers-release (f.addr + f.size + 1) a s b fs v.3)
          (or_group (within a s b) (within f.addr f.size b) (covers fs b))
  ]
]

total-join :
    (a s : ℕ) (f : FreeInfo) (fs : List FreeInfo) → total (join a s f fs) ≡ f.size + total fs + s
unfolding join
total-join a s f [] = omega arith
total-join a s f (g ∷ gs) = ground arith

pub total-release : (a s : ℕ) (l : List FreeInfo) → total (release a s l) ≡ total l + s
unfolding release
total-release a s [] = omega arith
total-release a s (f ∷ fs) = ground (arith, total-join a s f fs, total-release a s fs)

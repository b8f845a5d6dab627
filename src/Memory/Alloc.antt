-- ===== src/Memory/Alloc.antt =====
-- `memman_alloc`: which block it gives, and what it leaves free.
use bxos.Common.{
  ℕ, zero, suc, ◌+◌, ◌-◌, ◌%◌, ◌≤◌, ◌<◌, ◌≡◌, ◌≢◌, refl, sym, ap, ◌∙◌, ◌⊎◌, inl, inr, true, false,
  not, ◌&&◌, List, [], ◌∷◌, none, Option-cases, Bool-cases, arith, ◌==◌, length, take, set,
  length-set, get_or-take, take-set, length-take,
}
use bxos.Common.Shift.{remove_at, shift_down, take-shift_down, length-shift_down}
use bxos.Memory.{
  FreeInfo, MemMan, block, at, word, memman_frees, first_fit, take_block, memman_alloc,
  memman_total,
}
use bxos.Memory.Blocks.{
  within, covers, total, take_at, at_above, covers-at, take_at-Separated, covers-take_at,
  total-take_at,
}
use bxos.Memory.Live.{live, IsValid, first_fit-some, first_fit-none, memman_total-eq-total}

take_at-remove :
    (i size : ℕ) (l : List FreeInfo)
    → i < length l
    → (at l i).size ≡ size
    → take_at i size l ≡ remove_at i l
unfolding take_at
take_at-remove i size [] h e = absurd (omega arith)
take_at-remove zero size (f ∷ fs) h e = ground arith
take_at-remove (suc i) size (f ∷ fs) h e =
    ap (λ r. f ∷ r) (take_at-remove i size fs (omega arith) e)

take_at-set :
    (i size : ℕ) (l : List FreeInfo)
    → i < length l
    → (at l i).size ≢ size
    → take_at i size l ≡ set l i (block ((at l i).addr + size) ((at l i).size - size))
unfolding take_at
take_at-set i size [] h e = absurd (omega arith)
take_at-set zero size (f ∷ fs) h e = ground arith
take_at-set (suc i) size (f ∷ fs) h e = ap (λ r. f ∷ r) (take_at-set i size fs (omega arith) e)

remove_at-set {ℓ} :
    {A : Type ℓ} (i : ℕ) (l : List A) (v : A) → remove_at i (set l i v) ≡ remove_at i l
remove_at-set i [] v = refl
remove_at-set zero (x ∷ xs) v = refl
remove_at-set (suc i) (x ∷ xs) v = ap (λ r. x ∷ r) (remove_at-set i xs v)

-- what `take_block` leaves of the table
pub record Took (man : MemMan) (i size : ℕ) (r : ℕ × MemMan) : Type 0 where
  pub given : r.0 ≡ (at (live man) i).addr
  pub table : length r.1.free ≡ memman_frees
  pub room : r.1.frees ≤ man.frees
  pub left : live r.1 ≡ take_at i size (live man)

module _ (man : MemMan) (i size : ℕ) where
  in_use : IsValid man → length (live man) ≡ man.frees
  in_use v = omega (arith, length-take man.frees man.free, v.table, v.room)

  at-live : i < man.frees → at (live man) i ≡ at man.free i
  at-live h = get_or-take man.frees i man.free (block 0 0) h

  left_part : FreeInfo
  left_part = block ((at man.free i).addr + size) ((at man.free i).size - size)

  left_word :
      IsValid man
      → i < man.frees
      → size ≤ (at man.free i).size
      → block (((at man.free i).addr + size) % word) (((at man.free i).size + word - size) % word)
        ≡ left_part
  unfolding left_part
  left_word v h fits =
      ground
        (arith, at-live h, in_use v, at_above 1 i (live man) v.blocks (omega (arith, in_use v)))

  removed :
      IsValid man
      → i < man.frees
      → (at man.free i).size ≡ size
      → take (man.frees - 1) (shift_down (man.frees - 1 - i) i (set man.free i left_part))
        ≡ take_at i size (live man)
  removed v h e =
      take-shift_down i (man.frees - 1 - i) (man.frees - 1) (set man.free i left_part) (omega arith)
        (omega (arith, length-set man.free i left_part))
      ∙ ap (remove_at i) (
          (let e' : suc (man.frees - 1) ≡ man.frees = omega arith in rw e')
          ∙ take-set man.frees i man.free left_part)
      ∙ remove_at-set i (live man) left_part
      ∙ sym (
          take_at-remove i size (live man) (omega (arith, in_use v))
            (ap (λ (f : FreeInfo). f.size) (at-live h) ∙ e))

  shrunk :
      IsValid man
      → i < man.frees
      → (at man.free i).size ≢ size
      → take man.frees (set man.free i left_part) ≡ take_at i size (live man)
  unfolding left_part
  shrunk v h e =
      take-set man.frees i man.free left_part
      ∙ sym (
          take_at-set i size (live man) (omega (arith, in_use v))
            (λ q. e (ap (λ (f : FreeInfo). f.size) (sym (at-live h)) ∙ q))
          ∙ ap (λ (f : FreeInfo). set (live man) i (block (f.addr + size) (f.size - size)))
              (at-live h))

  same_size :
      IsValid man
      → i < man.frees
      → size ≤ (at man.free i).size
      → ((((at man.free i).size + word - size) % word) == 0) ≡ true
      → (at man.free i).size ≡ size
  same_size v h fits e =
      ground
        (arith, at-live h, in_use v, at_above 1 i (live man) v.blocks (omega (arith, in_use v)))

  -- The entry that `take_block` reads gives its front, and the rest of the table stays.
  take_block-Took :
      IsValid man
      → i < man.frees
      → size ≤ (at man.free i).size
      → Took man i size (take_block man i size)
  unfolding take_block
  take_block-Took v h fits =
      elim (Bool-cases ((((at man.free i).size + word - size) % word) == 0)) [
        | inl gone ↦
            rw (gone, left_word v h fits)
              (record {
                given = ap (λ (f : FreeInfo). f.addr) (sym (at-live h));
                table =
                    length-shift_down (man.frees - 1 - i) i (set man.free i left_part)
                    ∙ length-set man.free i left_part
                    ∙ v.table;
                room = omega arith;
                left = removed v h (same_size v h fits gone);
              })
        | inr kept ↦
            rw (kept, left_word v h fits)
              (record {
                given = ap (λ (f : FreeInfo). f.addr) (sym (at-live h));
                table = length-set man.free i left_part ∙ v.table;
                room = omega arith;
                left = shrunk v h (λ e. ground arith);
              })
      ]

memman_alloc-cases :
    (man : MemMan) (size : ℕ)
    → IsValid man
    → ((memman_alloc man size ≡ (0, man)) × (first_fit size man.frees 0 man.free ≡ none))
      ⊎ ((i : ℕ) × (i < man.frees)
          × (size ≤ (at man.free i).size)
          × Took man i size (memman_alloc man size))
unfolding memman_alloc
memman_alloc-cases man size v = elim (Option-cases (first_fit size man.frees 0 man.free)) [
  | inl e ↦ inl (rw (e, memman_alloc), e)
  | inr (i, e) ↦
      let found = first_fit-some size man.frees 0 i man.free e in
      let h : i < man.frees = omega arith in
      inr (i, h, found.2, rw (e, memman_alloc) (take_block-Took man i size v h found.2))
]

-- An allocation keeps the table well formed: entries in address order, not empty, within the word,
-- with gaps between them.
pub memman_alloc-IsValid :
    (man : MemMan) (size : ℕ) → IsValid man → IsValid (memman_alloc man size).1
memman_alloc-IsValid man size v = elim (memman_alloc-cases man size v) [
  | inl (e, _) ↦ rw e v
  | inr (i, h, fits, t) ↦ record {
    table = t.table;
    room = omega (arith, t.room);
    blocks = rw t.left (
        take_at-Separated 1 i size (live man) v.blocks
          (omega (arith, ap (λ (f : FreeInfo). f.size) (at-live man i size h))));
  }
]

module _ (man : MemMan) (size : ℕ) (v : IsValid man) (given : (memman_alloc man size).0 ≢ 0) where
  pub taken_entry :
      (i : ℕ) × (i < length (live man))
      × (size ≤ (at (live man) i).size)
      × Took man i size (memman_alloc man size)
  taken_entry = elim (memman_alloc-cases man size v) [
    | inl (e, _) ↦ absurd (given (ap (λ (r : ℕ × MemMan). r.0) e))
    | inr (i, h, fits, t) ↦ (
      i,
      omega (arith, in_use man i size v),
      omega (arith, ap (λ (f : FreeInfo). f.size) (at-live man i size h)),
      t,
    )
  ]

  -- The block that is allocated ends within the word.
  pub memman_alloc_end : (memman_alloc man size).0 + size < word
  memman_alloc_end =
      let (i, h, fits, t) = taken_entry in
      omega (arith, t.given, at_above 1 i (live man) v.blocks h)

  -- When an allocation from a well-formed table returns an address other than 0, then the bytes of
  -- the block were all free, and a byte is free afterwards exactly if it was free and is not in the
  -- block.
  pub covers-memman_alloc :
      (b : ℕ)
      → let (a, man') = memman_alloc man size in
        (covers (live man') b ≡ (covers (live man) b && not (within a size b)))
        × ((within a size b && not (covers (live man) b)) ≡ false)
  covers-memman_alloc b =
      let (i, h, fits, t) = taken_entry in
      rw (t.left, t.given)
        (
          covers-take_at 1 i size b (live man) v.blocks h fits,
          ground (arith, covers-at i size b (live man) h fits),
        )

  -- When an allocation from a well-formed table succeeds, then the reported total falls by `size`.
  pub memman_total-memman_alloc : memman_total (memman_alloc man size).1 + size ≡ memman_total man
  memman_total-memman_alloc =
      let (i, h, fits, t) = taken_entry in
      omega (
        arith,
        memman_total-eq-total man v,
        memman_total-eq-total (memman_alloc man size).1 (memman_alloc-IsValid man size v),
        ap total t.left,
        total-take_at i size (live man) h fits,
      )

-- An allocation from a well-formed table returns 0 only if every free block is smaller than `size`;
-- then nothing changes.
pub memman_alloc_none :
    (man : MemMan) (size j : ℕ)
    → IsValid man
    → (memman_alloc man size).0 ≡ 0
    → j < man.frees
    → ((memman_alloc man size).1 ≡ man) × ((at man.free j).size < size)
memman_alloc_none man size j v e h = elim (memman_alloc-cases man size v) [
  | inl (same, no_fit) ↦ (
    ap (λ (r : ℕ × MemMan). r.1) same,
    first_fit-none size man.frees 0 j man.free no_fit (omega arith) (omega arith),
  )
  | inr (i, k, fits, t) ↦ absurd (
      omega (arith, t.given, at_above 1 i (live man) v.blocks (omega (arith, in_use man i size v))))
]

-- An allocation that fails leaves the table as it was.
pub memman_alloc_fails :
    (man : MemMan) (size : ℕ)
    → IsValid man
    → (memman_alloc man size).0 ≡ 0
    → (memman_alloc man size).1 ≡ man
memman_alloc_fails man size v e = elim (memman_alloc-cases man size v) [
  | inl (same, no_fit) ↦ ap (λ (r : ℕ × MemMan). r.1) same
  | inr (i, k, fits, t) ↦ absurd (
      omega (arith, t.given, at_above 1 i (live man) v.blocks (omega (arith, in_use man i size v))))
]

-- An allocation uses no entry of the table more.
pub memman_alloc-frees :
    (man : MemMan) (size : ℕ) → IsValid man → (memman_alloc man size).1.frees ≤ man.frees
memman_alloc-frees man size v = elim (memman_alloc-cases man size v) [
  | inl (same, no_fit) ↦ rw same (omega arith)
  | inr (i, k, fits, t) ↦ omega (arith, t.room)
]

-- ===== src/Memory/Cycle.antt =====
-- An allocation followed by the release of the same block.
use bxos.Common.{ℕ, zero, suc, ◌+◌, ◌≤◌, ◌<◌, ◌≡◌, ◌≢◌, List, [], ◌∷◌, arith, length}
use bxos.Common.Int.{pos}
use bxos.Memory.{FreeInfo, MemMan, at, word, memman_frees, memman_alloc, memman_free}
use bxos.Memory.Blocks.{Separated, take_at, release, join, at_above}
use bxos.Memory.Live.{live, IsValid}
use bxos.Memory.Alloc.{memman_alloc-IsValid, taken_entry}
use bxos.Memory.Free.{memman_free_succeeds, released}

-- Giving back what was taken restores the list.
release-take_at :
    (lo i s : ℕ) (l : List FreeInfo)
    → Separated lo l
    → i < length l
    → s ≤ (at l i).size
    → 0 < s
    → release (at l i).addr s (take_at i s l) ≡ l
unfolding release take_at join
release-take_at lo i s [] v h k p = absurd (omega arith)
release-take_at lo zero s (f ∷ []) v h k p = ground arith
release-take_at lo zero s (f ∷ g ∷ gs) v h k p = ground arith
release-take_at lo (suc i) s (f ∷ fs) v h k p = ground (
  arith,
  at_above (f.addr + f.size + 1) i fs v.3 (omega arith),
  release-take_at (f.addr + f.size + 1) i s fs v.3 (omega arith) k p,
)

-- When an allocation of at least one byte from a well-formed table with a spare entry succeeds, then
-- the release of the same block succeeds too, and leaves the free blocks as they were.
pub memman_free-memman_alloc :
    (man : MemMan) (size : ℕ)
    → IsValid man
    → man.frees < memman_frees
    → 0 < size
    → (memman_alloc man size).0 ≢ 0
    → let (a, man') = memman_alloc man size in
      let (rc, man'') = memman_free man' a size in (rc ≡ pos 0) × (live man'' ≡ live man)
memman_free-memman_alloc man size v room p given =
    let (i, h, fits, t) = taken_entry man size v given in
    let (a, man') = memman_alloc man size in
    let v' = memman_alloc-IsValid man size v in
    let w : a + size < word = omega (arith, t.given, at_above 1 i (live man) v.blocks h) in
    let done = memman_free_succeeds man' a size v' w (omega (arith, t.room)) in
    (
      done,
      rw (released man' a size v' w done, t.left, t.given)
          (release-take_at 1 i size (live man) v.blocks h fits p),
    )

-- ===== src/Memory/Places.antt =====
-- A release at a known place of the list: the four ways in which a block is put back.
use bxos.Common.{ℕ, zero, suc, ◌+◌, ◌<◌, ◌≡◌, ◌≢◌, refl, List, [], ◌∷◌, arith, length, set}
use bxos.Common.Shift.{remove_at, insert_at}
use bxos.Memory.{FreeInfo, block, at}
use bxos.Memory.Blocks.{Separated, release, join}
use bxos.Memory.Live.{IsPlace}

-- the entry before place `p`, if there is one, does not end at `a`
abbrev pub NoTouch : ℕ → ℕ → List FreeInfo → Type 0
NoTouch a zero l = Unit {0}
NoTouch a (suc q) l = (at l q).addr + (at l q).size ≢ a

-- the entry at `p`, if there is one, does not begin at `c`
abbrev pub NoMeet : ℕ → ℕ → List FreeInfo → Type 0
NoMeet c p [] = Unit {0}
NoMeet c zero (f ∷ fs) = c ≢ f.addr
NoMeet c (suc p) (f ∷ fs) = NoMeet c p fs

-- The entries before the last one in front of `a` end below `a`.
ends_below :
    (lo a p : ℕ) (f : FreeInfo) (fs : List FreeInfo)
    → Separated lo (f ∷ fs)
    → IsPlace a (suc p) fs
    → f.addr + f.size < a
ends_below lo a p f [] v h = absurd h
ends_below lo a p f (g ∷ gs) v h = omega arith

pub release_join_both :
    (lo q a s : ℕ) (l : List FreeInfo)
    → Separated lo l
    → IsPlace a (suc q) l
    → (at l q).addr + (at l q).size ≡ a
    → suc q < length l
    → a + s ≡ (at l (suc q)).addr
    → release a s l
      ≡ remove_at (suc q) (set l q (block (at l q).addr ((at l q).size + s + (at l (suc q)).size)))
unfolding release join
release_join_both lo q a s [] v h e n m = absurd h
release_join_both lo zero a s (f ∷ []) v h e n m = absurd (omega arith)
release_join_both lo zero a s (f ∷ g ∷ gs) v h e n m = ground arith
release_join_both lo (suc q) a s (f ∷ fs) v h e n m = ground (
  arith,
  ends_below lo a q f fs v h.1,
  release_join_both (f.addr + f.size + 1) q a s fs v.3 h.1 e (omega arith) m,
)

pub release_join_front :
    (lo q a s : ℕ) (l : List FreeInfo)
    → Separated lo l
    → IsPlace a (suc q) l
    → (at l q).addr + (at l q).size ≡ a
    → NoMeet (a + s) (suc q) l
    → release a s l ≡ set l q (block (at l q).addr ((at l q).size + s))
unfolding release join
release_join_front lo q a s [] v h e m = absurd h
release_join_front lo zero a s (f ∷ []) v h e m = ground arith
release_join_front lo zero a s (f ∷ g ∷ gs) v h e m = ground arith
release_join_front lo (suc q) a s (f ∷ fs) v h e m = ground (
  arith,
  ends_below lo a q f fs v h.1,
  release_join_front (f.addr + f.size + 1) q a s fs v.3 h.1 e m,
)

pub release_join_back :
    (lo p a s : ℕ) (l : List FreeInfo)
    → Separated lo l
    → IsPlace a p l
    → NoTouch a p l
    → p < length l
    → a + s ≡ (at l p).addr
    → release a s l ≡ set l p (block a ((at l p).size + s))
unfolding release
release_join_back lo p a s [] v h t n m = absurd (omega arith)
release_join_back lo zero a s (f ∷ fs) v h t n m = ground arith
release_join_back lo (suc zero) a s (f ∷ fs) v h t n m =
    ground (arith, release_join_back (f.addr + f.size + 1) 0 a s fs v.3 h.1 tt (omega arith) m)
release_join_back lo (suc (suc q)) a s (f ∷ fs) v h t n m = ground (
  arith,
  ends_below lo a q f fs v h.1,
  release_join_back (f.addr + f.size + 1) (suc q) a s fs v.3 h.1 t (omega arith) m,
)

pub release_insert :
    (lo p a s : ℕ) (l : List FreeInfo)
    → Separated lo l
    → IsPlace a p l
    → NoTouch a p l
    → NoMeet (a + s) p l
    → release a s l ≡ insert_at p (block a s) l
unfolding release
release_insert lo zero a s [] v h t m = refl
release_insert lo (suc p) a s [] v h t m = absurd h
release_insert lo zero a s (f ∷ fs) v h t m = ground arith
release_insert lo (suc zero) a s (f ∷ fs) v h t m =
    ground (arith, release_insert (f.addr + f.size + 1) 0 a s fs v.3 h.1 tt m)
release_insert lo (suc (suc q)) a s (f ∷ fs) v h t m = ground (
  arith,
  ends_below lo a q f fs v h.1,
  release_insert (f.addr + f.size + 1) (suc q) a s fs v.3 h.1 t m,
)

pub NoMeet-intro : (c p : ℕ) (l : List FreeInfo) → (p < length l → c ≢ (at l p).addr) → NoMeet c p l
NoMeet-intro c p [] h = tt
NoMeet-intro c zero (f ∷ fs) h = h (omega arith)
NoMeet-intro c (suc p) (f ∷ fs) h = NoMeet-intro c p fs (λ k. h (omega arith))

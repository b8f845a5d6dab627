-- ===== src/Sheet/Updown.antt =====
-- `sheet_updown` (harib27f/haribote/sheet.c) keeps the stack of sheets whole.
use bxos.Common.{ℕ, ◌<◌, length, ◌≡◌, subst, refl, arith, Bool-cases, inl, inr}
use bxos.Common.Int.{ℤ, pos, negsuc, minus, is_neg, ◌+ℤ◌, ◌-ℤ◌, ◌≤ℤ◌, ltb_ℤ, max_ℤ, min_ℤ}
use bxos.Sheet.{Rect, ShtCtl, sheet_at, sheet_refreshmap, sheet_refreshsub}
use bxos.Sheet.Stack.{restack, repaint, clamped, extent, sheet_updown}
use bxos.Sheet.Hole.{height_at}
use bxos.Sheet.Order.{IsStack}
use bxos.Sheet.Moves.{with_height}
use bxos.Sheet.Restack.{CanMove, shown_after, restack-IsStack}

-- Drawing moves no sheet.
repaint-IsStack :
    (r : Rect) (old new : ℤ) (ctl : ShtCtl) (n : ℕ)
    → IsStack ctl n
    → IsStack (repaint r old new ctl) n
unfolding repaint sheet_refreshmap sheet_refreshsub
repaint-IsStack r old new ctl n k = elim (Bool-cases (ltb_ℤ new old)) [
  | inl e ↦ rw e (elim (Bool-cases (is_neg new)) [ inl f ↦ rw f k | inr f ↦ rw f k ])
  | inr e ↦ rw e (elim (Bool-cases (ltb_ℤ old new)) [ inl f ↦ rw f k | inr f ↦ rw f k ])
]

-- what may be asked: a sheet that is shown goes at most to the top; for another there must be room
abbrev pub CanAsk : ShtCtl → ℕ → ℤ → ℤ → Type 0
CanAsk ctl n (pos old) height = height ≤ℤ ctl.top
CanAsk ctl n (negsuc old) height = n < length ctl.sheets

CanMove-shown :
    (ctl : ShtCtl) (n old : ℕ) (z : ℤ) → z ≤ℤ pos n -ℤ pos 1 → old < n → CanMove ctl n (pos old) z
unfolding ◌-ℤ◌
CanMove-shown ctl n old (pos k) l lo = ground arith
CanMove-shown ctl n old (negsuc k) l lo = omega arith

CanMove-hidden :
    (ctl : ShtCtl) (n old : ℕ) (z : ℤ)
    → z ≤ℤ pos n
    → n < length ctl.sheets
    → CanMove ctl n (negsuc old) z
CanMove-hidden ctl n old (pos k) l room = (omega arith, room)
CanMove-hidden ctl n old (negsuc k) l room = omega arith

clamped_low :
    (height : ℤ) (n : ℕ)
    → height ≤ℤ pos n -ℤ pos 1
    → max_ℤ (min_ℤ height ((pos n -ℤ pos 1) +ℤ pos 1)) (minus 1) ≤ℤ pos n -ℤ pos 1
unfolding ◌-ℤ◌ ◌+ℤ◌
clamped_low height n h = ground arith

clamped_high :
    (height : ℤ) (n : ℕ) → max_ℤ (min_ℤ height ((pos n -ℤ pos 1) +ℤ pos 1)) (minus 1) ≤ℤ pos n
unfolding ◌-ℤ◌ ◌+ℤ◌
clamped_high height n = ground arith

clamped-CanMove :
    (ctl : ShtCtl) (n s : ℕ) (old height : ℤ)
    → IsStack ctl n
    → s < length ctl.sheets0
    → height_at ctl s ≡ old
    → CanAsk ctl n old height
    → CanMove ctl n old (clamped ctl height)
clamped-CanMove ctl n s (pos old) height (et, _, full) ls e c =
    CanMove-shown ctl n old (clamped ctl height)
      (rw et (clamped_low height n (subst (λ t. height ≤ℤ t) et c))) (full.in_range s old ls e)
clamped-CanMove ctl n s (negsuc old) height (et, room, full) ls e c =
    CanMove-hidden ctl n old (clamped ctl height) (rw et (clamped_high height n)) c

-- After `sheet_updown` the stack is whole: each height up to the top has one sheet, which knows it, and
-- no other sheet has a height; one sheet more is shown when a hidden one was raised, and one less when a
-- shown one was hidden. A sheet that is shown must not be asked above the top, and there must be room
-- for one that is not.
pub sheet_updown-IsStack :
    (s : ℕ) (height : ℤ) (ctl : ShtCtl) (n : ℕ)
    → IsStack ctl n
    → s < length ctl.sheets0
    → CanAsk ctl n (height_at ctl s) height
    → IsStack (sheet_updown s height ctl) (shown_after n (height_at ctl s) (clamped ctl height))
unfolding sheet_updown
sheet_updown-IsStack s height ctl n k ls c =
    let old = height_at ctl s in
    let new = clamped ctl height in
    let n' = shown_after n old new in
    repaint-IsStack (extent (sheet_at ctl s)) old new (restack s old new (with_height s new ctl)) n'
      (restack-IsStack ctl n s old new k ls refl (clamped-CanMove ctl n s old height k ls refl c))

-- ===== src/Sheet/Restack.antt =====
-- The array of sheets after `sheet_updown` (harib27f/haribote/sheet.c) has moved a sheet.
use bxos.Common.{
  ℕ, zero, suc, ◌-◌, ◌≤◌, ◌<◌, ltb, length, ◌≡◌, subst, refl, sym, arith, Bool-cases, inl, inr,
}
use bxos.Common.Int.{ℤ, pos, negsuc, ◌-ℤ◌}
use bxos.Sheet.{ShtCtl}
use bxos.Sheet.Stack.{drop_from, restack}
use bxos.Sheet.Hole.{height_at}
use bxos.Sheet.Order.{IsStack}
use bxos.Sheet.Moves.{
  with_height, shown_top, lowered, raised, stays, hidden_now, shown_now, hidden_still,
}

-- how many sheets are shown after a move
abbrev pub shown_after : ℕ → ℤ → ℤ → ℕ
shown_after n (pos old) (pos new) = n
shown_after n (pos old) (negsuc new) = n - 1
shown_after n (negsuc old) (pos new) = suc n
shown_after n (negsuc old) (negsuc new) = n

-- A height that the code can be asked for: within the stack, and one above it only for a sheet that is
-- not shown, for which there must be room.
abbrev pub CanMove : ShtCtl → ℕ → ℤ → ℤ → Type 0
CanMove ctl n (pos old) (pos new) = new < n
CanMove ctl n (pos old) (negsuc new) = 0 < n
CanMove ctl n (negsuc old) (pos new) = (new ≤ n) × (n < length ctl.sheets)
CanMove ctl n (negsuc old) (negsuc new) = n ≤ length ctl.sheets

pub restack-IsStack :
    (ctl : ShtCtl) (n s : ℕ) (old new : ℤ)
    → IsStack ctl n
    → s < length ctl.sheets0
    → height_at ctl s ≡ old
    → CanMove ctl n old new
    → IsStack (restack s old new (with_height s new ctl)) (shown_after n old new)
unfolding restack
restack-IsStack ctl n s (pos old) (pos new) k ls e c =
    let (_, _, full) = k in
    let lo = full.in_range s old ls e in
    elim (Bool-cases (ltb new old)) [
      | inl f ↦ rw f (lowered ctl n s k ls old new e lo (ground (arith, f)))
      | inr f ↦ rw f (elim (Bool-cases (ltb old new)) [
        | inl g ↦ rw g (raised ctl n s k ls old new e (ground (arith, g)) c)
        | inr g ↦ rw g (stays ctl n s k ls old new e (ground (arith, f, g)) c)
      ])
    ]
restack-IsStack ctl zero s (pos old) (negsuc new) k ls e c = absurd (omega arith)
restack-IsStack ctl (suc m) s (pos old) (negsuc new) k ls e c =
    let (et, _, full) = k in
    let pred : suc m - 1 ≡ m = omega arith in
    rw (shown_top ctl (suc m) et) (
      subst
        (λ p.
          let c = drop_from (p - old) old (with_height s (negsuc new) ctl) in
          IsStack (record c { top = ctl.top -ℤ pos 1 }) p)
        (sym pred) (hidden_now ctl (suc m) s k ls old new m e refl (full.in_range s old ls e)))
restack-IsStack ctl n s (negsuc old) (pos new) k ls e (c, room) =
    let (et, _, _) = k in rw (shown_top ctl n et) (shown_now ctl n s k ls old new e c room)
restack-IsStack ctl n s (negsuc old) (negsuc new) k ls e c = hidden_still ctl n s k ls old new e

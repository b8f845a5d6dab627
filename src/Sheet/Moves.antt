-- ===== src/Sheet/Moves.antt =====
-- The moves of the other sheets in `sheet_updown` (harib27f/haribote/sheet.c), and the stack after each.
use bxos.Common.{
  ℕ, suc, ◌+◌, ◌-◌, ◌≤◌, ◌<◌, ◌==◌, if◌then◌else◌, length, length-set, ◌≡◌, ◌≢◌, subst, refl, sym,
  ap, ◌∙◌, arith,
}
use bxos.Common.Int.{ℤ, pos, negsuc, ◌+ℤ◌, ◌-ℤ◌}
use bxos.Common.Bytes.{get_or-set}
use bxos.Sheet.{Sheet, ShtCtl, sheet_at, set_sheet, shown_at, no_sheet}
use bxos.Sheet.Stack.{lift_from, drop_from, shown, put_at}
use bxos.Sheet.Hole.{IsHole, IsMoving, height_at, height-if, lift_from-IsMoving, drop_from-IsMoving}
use bxos.Sheet.Order.{IsFull, IsStack, IsFull-put, IsFull-hide, IsHole-shown, IsHole-hidden}

-- the sheet `s` gets a height before the others are moved
abbrev pub with_height : ℕ → ℤ → ShtCtl → ShtCtl
with_height s z ctl = set_sheet ctl s (record (sheet_at ctl s) { height = z })

pub shown_top : (ctl : ShtCtl) (n : ℕ) → ctl.top ≡ pos n -ℤ pos 1 → shown ctl ≡ n
unfolding ◌+ℤ◌ ◌-ℤ◌
shown_top ctl n e = rw e (ground arith)

top_up : (n : ℕ) → (pos n -ℤ pos 1) +ℤ pos 1 ≡ pos (suc n) -ℤ pos 1
unfolding ◌+ℤ◌ ◌-ℤ◌
top_up n = ground arith

top_down : (n : ℕ) → (pos (suc n) -ℤ pos 1) -ℤ pos 1 ≡ pos n -ℤ pos 1
unfolding ◌-ℤ◌
top_down n = ground arith

module _ (ctl : ShtCtl) (n s : ℕ) (k : IsStack ctl n) (ls : s < length ctl.sheets0) (z : ℤ) where
  abbrev moved : Sheet
  moved = record (sheet_at ctl s) { height = z }

  heights : (u : ℕ) → height_at (with_height s z ctl) u ≡ (if u == s then z else height_at ctl u)
  heights u =
      ap (λ (sht : Sheet). sht.height) (get_or-set ctl.sheets0 s u moved no_sheet ls)
      ∙ height-if (u == s) moved (sheet_at ctl u)

  same_heights : (t : ℕ) → t ≢ s → height_at (with_height s z ctl) t ≡ height_at ctl t
  same_heights t c = ground (arith, heights t, c)

  own_height : height_at (with_height s z ctl) s ≡ z
  own_height = ground (arith, heights s)

  start :
      (m g : ℕ)
      → m ≤ length ctl.sheets
      → IsHole (shown_at ctl) (height_at (with_height s z ctl)) (length ctl.sheets0) m g s
      → IsMoving (pos n -ℤ pos 1) m z s (with_height s z ctl) g
  start m g room i =
      let (et, _, _) = k in
      (
        et,
        omega (arith, ls, length-set ctl.sheets0 s moved),
        own_height,
        room,
        subst (λ len. IsHole (shown_at ctl) (height_at (with_height s z ctl)) len m g s)
            (sym (length-set ctl.sheets0 s moved)) i,
      )

  start_shown :
      (old : ℕ)
      → height_at ctl s ≡ pos old
      → IsMoving (pos n -ℤ pos 1) n z s (with_height s z ctl) old
  start_shown old e =
      let (et, room, i) = k in
      start n old room (
        IsHole-shown (shown_at ctl) (height_at ctl) (height_at (with_height s z ctl))
          (length ctl.sheets0) n s i ls same_heights old e)

  start_hidden :
      (old : ℕ)
      → height_at ctl s ≡ negsuc old
      → n < length ctl.sheets
      → IsMoving (pos n -ℤ pos 1) (suc n) z s (with_height s z ctl) n
  start_hidden old e room =
      let (et, _, i) = k in
      start (suc n) n room (
        IsHole-hidden (shown_at ctl) (height_at ctl) (height_at (with_height s z ctl))
          (length ctl.sheets0) n s i ls same_heights old e)

-- The loose sheet goes into the hole.
settle :
    (ctl : ShtCtl) (top : ℤ) (n g s : ℕ)
    → IsMoving top n (pos g) s ctl g
    → g < n
    → (ctl.top ≡ top)
      × (n ≤ length (put_at g s ctl).sheets)
      × IsFull (shown_at (put_at g s ctl)) (height_at ctl) (length ctl.sheets0) n
settle ctl top n g s (et, ls, e, room, i) l = (
  et,
  omega (arith, room, length-set ctl.sheets g s),
  IsFull-put (shown_at ctl) (height_at ctl) (length ctl.sheets0) n g s i (shown_at (put_at g s ctl))
      (λ j. get_or-set ctl.sheets g j s 0 (omega (arith, room, l))) l ls e,
)

module _ (ctl : ShtCtl) (n s : ℕ) (k : IsStack ctl n) (ls : s < length ctl.sheets0) where
  pub lowered :
      (old new : ℕ)
      → height_at ctl s ≡ pos old
      → old < n
      → new < old
      → IsStack (put_at new s (lift_from (old - new) old (with_height s (pos new) ctl))) n
  lowered old new e lo l =
      let at : old - (old - new) ≡ new = omega arith in
      settle (lift_from (old - new) old (with_height s (pos new) ctl)) (pos n -ℤ pos 1) n new s
        (subst
          (IsMoving (pos n -ℤ pos 1) n (pos new) s
            (lift_from (old - new) old (with_height s (pos new) ctl)))
          at
          (lift_from-IsMoving (pos n -ℤ pos 1) n (pos new) s (old - new) old
            (with_height s (pos new) ctl) (start_shown ctl n s k ls (pos new) old e) lo
            (omega arith)))
        (omega arith)

  pub raised :
      (old new : ℕ)
      → height_at ctl s ≡ pos old
      → old < new
      → new < n
      → IsStack (put_at new s (drop_from (new - old) old (with_height s (pos new) ctl))) n
  raised old new e l ln =
      let at : old + (new - old) ≡ new = omega arith in
      settle (drop_from (new - old) old (with_height s (pos new) ctl)) (pos n -ℤ pos 1) n new s
        (subst
          (IsMoving (pos n -ℤ pos 1) n (pos new) s
            (drop_from (new - old) old (with_height s (pos new) ctl)))
          at
          (drop_from-IsMoving (pos n -ℤ pos 1) n (pos new) s (new - old) old
            (with_height s (pos new) ctl) (start_shown ctl n s k ls (pos new) old e) (omega arith)))
        ln

  pub stays :
      (old new : ℕ)
      → height_at ctl s ≡ pos old
      → new ≡ old
      → new < n
      → IsStack (with_height s (pos new) ctl) n
  stays old new e same ln =
      let (_, _, full) = k in
      let (et, lt, own, room, i) = start_shown ctl n s k ls (pos new) old e in
      let there : shown_at ctl old ≡ s = full.at_height s old ls e in
      (
        et,
        room,
        IsFull-put (shown_at ctl) (height_at (with_height s (pos new) ctl))
            (length (with_height s (pos new) ctl).sheets0) n old s i (shown_at ctl)
            (λ j. ground (arith, there, λ (c : j ≡ old). ap (shown_at ctl) c)) (omega (arith, same))
            lt (own ∙ ap pos same),
      )

  pub hidden_now :
      (old new m : ℕ)
      → height_at ctl s ≡ pos old
      → n ≡ suc m
      → old < n
      → (let c = drop_from (m - old) old (with_height s (negsuc new) ctl) in
          IsStack (record c { top = ctl.top -ℤ pos 1 }) m)
  hidden_now old new m e en lo =
      let (et, _, _) = k in
      let at : old + (m - old) ≡ m = omega arith in
      let c = drop_from (m - old) old (with_height s (negsuc new) ctl) in
      let (_, lt, own, room, i) =
        drop_from-IsMoving (pos n -ℤ pos 1) n (negsuc new) s (m - old) old
          (with_height s (negsuc new) ctl) (start_shown ctl n s k ls (negsuc new) old e)
          (omega arith) in
      (
        rw (et, en) (top_down m),
        omega (arith, room),
        IsFull-hide (shown_at c) (height_at c) (length c.sheets0) n (old + (m - old)) s i m new en
            at own,
      )

  pub shown_now :
      (old new : ℕ)
      → height_at ctl s ≡ negsuc old
      → new ≤ n
      → n < length ctl.sheets
      → (let c = put_at new s (lift_from (n - new) n (with_height s (pos new) ctl)) in
          IsStack (record c { top = ctl.top +ℤ pos 1 }) (suc n))
  shown_now old new e l room =
      let (et, _, _) = k in
      let at : n - (n - new) ≡ new = omega arith in
      let (_, room', full) =
        settle (lift_from (n - new) n (with_height s (pos new) ctl)) (pos n -ℤ pos 1) (suc n) new s
          (subst
            (IsMoving (pos n -ℤ pos 1) (suc n) (pos new) s
              (lift_from (n - new) n (with_height s (pos new) ctl)))
            at
            (lift_from-IsMoving (pos n -ℤ pos 1) (suc n) (pos new) s (n - new) n
              (with_height s (pos new) ctl) (start_hidden ctl n s k ls (pos new) old e room)
              (omega arith) (omega arith)))
          (omega arith) in
      (rw et (top_up n), room', full)

  pub hidden_still :
      (old new : ℕ) → height_at ctl s ≡ negsuc old → IsStack (with_height s (negsuc new) ctl) n
  hidden_still old new e =
      let (et, room, full) = k in
      let ha = height_at (with_height s (negsuc new) ctl) in
      (
        et,
        room,
        subst (λ len. IsFull (shown_at ctl) ha len n)
            (sym (length-set ctl.sheets0 s (record (sheet_at ctl s) { height = negsuc new })))
            (IsFull-hide (shown_at ctl) ha (length ctl.sheets0) (suc n) n s
              (IsHole-hidden (shown_at ctl) (height_at ctl) ha (length ctl.sheets0) n s full ls
                (same_heights ctl n s k ls (negsuc new)) old e)
              n new refl refl (own_height ctl n s k ls (negsuc new))),
      )

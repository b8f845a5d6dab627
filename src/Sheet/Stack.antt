-- ===== src/Sheet/Stack.antt =====
-- The stack of sheets (harib27f/haribote/sheet.c): which sheets are shown, from the lowest up, and the
-- calls that change it.
use bxos.Common.{
  ℕ, zero, suc, ◌+◌, ◌-◌, Option, none, some, List, [], ◌∷◌, ◌&&◌, ltb, ◌==◌, if◌then◌else◌, set,
}
use bxos.Common.Int.{ℤ, pos, negsuc, minus, is_neg, to_ℕ, ◌+ℤ◌, ◌-ℤ◌, ltb_ℤ, eqb_ℤ, max_ℤ, min_ℤ}
use bxos.Sheet.{
  Rect, Sheet, ShtCtl, max_sheets, sheet_at, set_sheet, shown_at, sheet_refreshmap,
  sheet_refreshsub,
}

-- the loop of `shtctl_init`
unfoldable pub unused_sheets : List Sheet → List Sheet
unused_sheets [] = []
unused_sheets (sht ∷ shts) = record sht { flags = 0 } ∷ unused_sheets shts

-- `shtctl_init` once its memory is there
unfoldable pub shtctl_init : List ℕ → List ℕ → ℤ → ℤ → List ℕ → List Sheet → ShtCtl
unfolding unused_sheets
shtctl_init vram map xsize ysize sheets sheets0 = record {
  vram = vram;
  map = map;
  xsize = xsize;
  ysize = ysize;
  top = minus 1;
  sheets = sheets;
  sheets0 = unused_sheets sheets0;
}

-- in use, and resizable
abbrev pub fresh_flags : ℕ
fresh_flags = 0x41

-- the loop of `sheet_alloc`
unfoldable pub alloc_sheet_from : ℕ → ℕ → ShtCtl → Option (ℕ × ShtCtl)
alloc_sheet_from zero i ctl = none
alloc_sheet_from (suc k) i ctl =
    let rest = alloc_sheet_from k (suc i) ctl in
    let sht = sheet_at ctl i in
    if sht.flags == 0
    then some
        (i, set_sheet ctl i (record sht { flags = fresh_flags; height = minus 1; dirty_count = 0 }))
    else rest

unfoldable pub sheet_alloc : ShtCtl → Option (ℕ × ShtCtl)
unfolding alloc_sheet_from
sheet_alloc ctl = alloc_sheet_from max_sheets 0 ctl

unfoldable pub sheet_setbuf : ℕ → List ℕ → ℤ → ℤ → ℤ → ShtCtl → ShtCtl
sheet_setbuf s buf xsize ysize col_inv ctl =
    set_sheet ctl s
      (record (sheet_at ctl s) { buf = buf; bxsize = xsize; bysize = ysize; col_inv = col_inv })

-- `sheets[h] = s; sheets[h]->height = h;`
abbrev pub place : ℕ → ℕ → ShtCtl → ShtCtl
place h s ctl = record ctl {
  sheets = set ctl.sheets h s;
  sheets0 = set ctl.sheets0 s (record (sheet_at ctl s) { height = pos h });
}

-- `for (; h > ...; h--) sheets[h] = sheets[h - 1], ...`, with the rounds left
unfoldable pub lift_from : ℕ → ℕ → ShtCtl → ShtCtl
lift_from zero h ctl = ctl
lift_from (suc k) h ctl = lift_from k (h - 1) (place h (shown_at ctl (h - 1)) ctl)

-- `for (; h < ...; h++) sheets[h] = sheets[h + 1], ...`, with the rounds left
unfoldable pub drop_from : ℕ → ℕ → ShtCtl → ShtCtl
drop_from zero h ctl = ctl
drop_from (suc k) h ctl = drop_from k (suc h) (place h (shown_at ctl (suc h)) ctl)

-- how many sheets are shown
abbrev pub shown : ShtCtl → ℕ
shown ctl = to_ℕ (ctl.top +ℤ pos 1)

abbrev pub put_at : ℕ → ℕ → ShtCtl → ShtCtl
put_at h s ctl = record ctl { sheets = set ctl.sheets h s }

-- The array after the move of sheet `s` between two heights, of which the sheet has the new one.
unfoldable pub restack : ℕ → ℤ → ℤ → ShtCtl → ShtCtl
unfolding lift_from drop_from ◌+ℤ◌ ◌-ℤ◌
restack s (pos old) (pos new) ctl =
    if ltb new old
    then put_at new s (lift_from (old - new) old ctl)
    else if ltb old new
    then put_at new s (drop_from (new - old) old ctl)
    else ctl
restack s (pos old) (negsuc new) ctl =
    let ctl' = drop_from (shown ctl - 1 - old) old ctl in record ctl' { top = ctl.top -ℤ pos 1 }
restack s (negsuc old) (pos new) ctl =
    let ctl' = put_at new s (lift_from (shown ctl - new) (shown ctl) ctl) in
    record ctl' { top = ctl.top +ℤ pos 1 }
restack s (negsuc old) (negsuc new) ctl = ctl

abbrev pub rect_at : Sheet → ℤ → ℤ → ℤ → ℤ → Rect
rect_at sht x0 y0 w h = record { x0 = x0; y0 = y0; x1 = x0 +ℤ w; y1 = y0 +ℤ h }

-- where a sheet lies
abbrev pub extent : Sheet → Rect
extent sht = rect_at sht sht.vx0 sht.vy0 sht.bxsize sht.bysize

abbrev pub refresh_both : Rect → ℕ → ℤ → ShtCtl → ShtCtl
refresh_both r h0 h1 ctl = sheet_refreshsub (sheet_refreshmap ctl r h0) r h0 h1

-- what is drawn again after the move
unfoldable pub repaint : Rect → ℤ → ℤ → ShtCtl → ShtCtl
unfolding sheet_refreshmap sheet_refreshsub ◌-ℤ◌
repaint r old new ctl =
    if ltb_ℤ new old
    then if is_neg new
      then refresh_both r 0 (old -ℤ pos 1) ctl
      else refresh_both r (to_ℕ new + 1) old ctl
    else if ltb_ℤ old new
    then refresh_both r (to_ℕ new) new ctl
    else ctl

-- the height asked for, within what is possible
abbrev pub clamped : ShtCtl → ℤ → ℤ
clamped ctl height = max_ℤ (min_ℤ height (ctl.top +ℤ pos 1)) (minus 1)

unfoldable pub sheet_updown : ℕ → ℤ → ShtCtl → ShtCtl
unfolding restack repaint ◌+ℤ◌
sheet_updown s height ctl =
    let sht = sheet_at ctl s in
    let new = clamped ctl height in
    let ctl' = set_sheet ctl s (record sht { height = new }) in
    repaint (extent sht) sht.height new (restack s sht.height new ctl')

unfoldable pub sheet_refresh : ℕ → Rect → ShtCtl → ShtCtl
unfolding sheet_refreshsub ◌+ℤ◌
sheet_refresh s r ctl =
    let sht = sheet_at ctl s in
    let r' : Rect = record {
      x0 = sht.vx0 +ℤ r.x0;
      y0 = sht.vy0 +ℤ r.y0;
      x1 = sht.vx0 +ℤ r.x1;
      y1 = sht.vy0 +ℤ r.y1;
    } in
    if is_neg sht.height then ctl else sheet_refreshsub ctl r' (to_ℕ sht.height) sht.height

-- the drawing of a sheet that has moved from `r` to `r'`
abbrev pub repaint_slide : ℕ → Rect → Rect → ShtCtl → ShtCtl
repaint_slide h r r' ctl =
    let c1 = sheet_refreshmap ctl r 0 in
    let c2 = sheet_refreshmap c1 r' h in
    let c3 = sheet_refreshsub c2 r 0 (pos h -ℤ pos 1) in sheet_refreshsub c3 r' h (pos h)

unfoldable pub sheet_slide : ℕ → ℤ → ℤ → ShtCtl → ShtCtl
unfolding sheet_refreshmap sheet_refreshsub ◌+ℤ◌ ◌-ℤ◌
sheet_slide s vx0 vy0 ctl =
    let sht = sheet_at ctl s in
    let sht' = record sht { vx0 = vx0; vy0 = vy0 } in
    let moved = set_sheet ctl s sht' in
    if eqb_ℤ vx0 sht.vx0 && eqb_ℤ vy0 sht.vy0
    then ctl
    else if is_neg sht.height
    then moved
    else repaint_slide (to_ℕ sht.height) (extent sht) (extent sht') moved

unfoldable pub sheet_free : ℕ → ShtCtl → ShtCtl
unfolding sheet_updown
sheet_free s ctl =
    let hidden = if is_neg (sheet_at ctl s).height then ctl else sheet_updown s (minus 1) ctl in
    set_sheet hidden s (record (sheet_at hidden s) { flags = 0; dirty_count = 0 })

unfoldable pub sheet_resize : ℕ → List ℕ → ℤ → ℤ → ShtCtl → ShtCtl
unfolding sheet_refreshmap sheet_refreshsub ◌+ℤ◌
sheet_resize s new_buf new_xsize new_ysize ctl =
    let sht = sheet_at ctl s in
    let ctl' =
      set_sheet ctl s (record sht { buf = new_buf; bxsize = new_xsize; bysize = new_ysize }) in
    let r = rect_at sht sht.vx0 sht.vy0 (max_ℤ sht.bxsize new_xsize) (max_ℤ sht.bysize new_ysize) in
    if is_neg sht.height then ctl' else refresh_both r 0 ctl'.top ctl'

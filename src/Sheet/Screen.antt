-- ===== src/Sheet/Screen.antt =====
-- What `sheet_refreshsub` (harib27f/haribote/sheet.c) leaves on the screen.
use bxos.Common.{
  ℕ, zero, suc, ◌+◌, ◌*◌, ◌≤◌, ◌<◌, List, [], ◌∷◌, true, ◌&&◌, ◌==◌, if◌then◌else◌, get_or, length,
  ◌≡◌, refl, ap, ◌∙◌, arith,
}
use bxos.Common.Int.{ℤ, pos, to_ℕ, ◌≤ℤ◌, max_ℤ, min_ℤ}
use bxos.Sheet.{
  Rect, ShtCtl, max_sheets, sheet_at, shown_at, area_of, copy_area, copy_sheet, copy_from, rounds,
  sheet_refreshmap, sheet_refreshsub,
}
use bxos.Sheet.Stack.{refresh_both}
use bxos.Sheet.Axis.{length_of-fits, min_le}
use bxos.Sheet.Pixels.{mul_le, mul_lt}
use bxos.Sheet.View.{
  colour_at, reaches, covers, in_rect, rect_from, topmost, covered, shown_in, topmost-covers,
  topmost-old,
}
use bxos.Sheet.CopyRows.{length-copy_area, get_or-copy_area}
use bxos.Sheet.Seen.{
  area_by, area-reaches, area-offsets, covers_lem, on_screen-clipped, in_rect-clipped,
  sheet_refreshmap-topmost, length-sheet_refreshmap,
}

copy_sheet_by :
    (ctl : ShtCtl) (x0 y0 : ℕ) (x1 y1 : ℤ) (s : ℕ) (m : List ℕ)
    → copy_sheet ctl (rect_from x0 y0 x1 y1) s m
      ≡ copy_area ctl s (sheet_at ctl s) (area_by (sheet_at ctl s) x0 y0 x1 y1) m
unfolding copy_sheet area_of
copy_sheet_by ctl x0 y0 x1 y1 s m = refl

module _ (ctl : ShtCtl) (x0 y0 : ℕ) (x1 y1 : ℤ) (ys : ℕ) (in_x : x1 ≤ℤ pos (to_ℕ ctl.xsize))
    (in_y : y1 ≤ℤ pos ys) where
  length-copy_sheet :
      (s : ℕ) (m : List ℕ) → length (copy_sheet ctl (rect_from x0 y0 x1 y1) s m) ≡ length m
  length-copy_sheet s m =
      rw (copy_sheet_by ctl x0 y0 x1 y1 s m)
        (length-copy_area ctl s (sheet_at ctl s) (area_by (sheet_at ctl s) x0 y0 x1 y1) m)

  get_or-copy_sheet :
      (s : ℕ) (m : List ℕ) (px py : ℕ)
      → px < to_ℕ ctl.xsize
      → ys * to_ℕ ctl.xsize ≤ length m
      → get_or (copy_sheet ctl (rect_from x0 y0 x1 y1) s m) (py * to_ℕ ctl.xsize + px) 0 ≡ (
          if in_rect (rect_from x0 y0 x1 y1) px py
            && reaches (sheet_at ctl s) px py
            && (get_or ctl.map (py * to_ℕ ctl.xsize + px) max_sheets == s)
          then colour_at (sheet_at ctl s) px py
          else get_or m (py * to_ℕ ctl.xsize + px) 0)
  get_or-copy_sheet s m px py p l =
      let sht = sheet_at ctl s in
      let a = area_by sht x0 y0 x1 y1 in
      rw (copy_sheet_by ctl x0 y0 x1 y1 s m) (
        get_or-copy_area ctl s sht a m px py
          (length_of-fits x0 (to_ℕ ctl.xsize) x1 sht.vx0 sht.bxsize in_x)
          (λ h. omega (
            arith,
            mul_le (a.y + a.h) ys (to_ℕ ctl.xsize)
                (length_of-fits y0 ys y1 sht.vy0 sht.bysize in_y h),
            l,
          ))
          p (area-offsets sht x0 y0 x1 y1 px py)
        ∙ ground (arith, area-reaches sht x0 y0 x1 y1 px py))

  get_or-copy_from :
      (k h : ℕ) (m : List ℕ) (px py : ℕ)
      → px < to_ℕ ctl.xsize
      → ys * to_ℕ ctl.xsize ≤ length m
      → get_or (copy_from ctl (rect_from x0 y0 x1 y1) k h m) (py * to_ℕ ctl.xsize + px) 0 ≡ (
          let s = get_or ctl.map (py * to_ℕ ctl.xsize + px) max_sheets in
          if in_rect (rect_from x0 y0 x1 y1) px py
            && reaches (sheet_at ctl s) px py
            && shown_in ctl.sheets k h s
          then colour_at (sheet_at ctl s) px py
          else get_or m (py * to_ℕ ctl.xsize + px) 0)
  unfolding copy_from shown_in
  get_or-copy_from zero h m px py p l = ground arith
  get_or-copy_from (suc k) h m px py p l =
      let s = shown_at ctl h in
      let s' = get_or ctl.map (py * to_ℕ ctl.xsize + px) max_sheets in
      let m' = copy_sheet ctl (rect_from x0 y0 x1 y1) s m in
      get_or-copy_from k (suc h) m' px py p (omega (arith, length-copy_sheet s m, l))
      ∙ rw (get_or-copy_sheet s m px py p l) (
          ground (
            arith,
            λ (e : s' ≡ s). ap (λ t. reaches (sheet_at ctl t) px py) e,
            λ (e : s' ≡ s). ap (λ t. colour_at (sheet_at ctl t) px py) e,
          ))

-- Within the rectangle a pixel gets the colour of the sheet that the map has there, when that sheet is
-- at one of the heights and has the pixel; the others stay as they were.
pub sheet_refreshsub-mapped :
    (ctl : ShtCtl) (r : Rect) (h0 : ℕ) (h1 : ℤ) (px py : ℕ)
    → px < to_ℕ ctl.xsize
    → py < to_ℕ ctl.ysize
    → to_ℕ ctl.ysize * to_ℕ ctl.xsize ≤ length ctl.vram
    → get_or (sheet_refreshsub ctl r h0 h1).vram (py * to_ℕ ctl.xsize + px) 0 ≡ (
        let s = get_or ctl.map (py * to_ℕ ctl.xsize + px) max_sheets in
        if in_rect r px py
          && reaches (sheet_at ctl s) px py
          && shown_in ctl.sheets (rounds h0 h1) h0 s
        then colour_at (sheet_at ctl s) px py
        else get_or ctl.vram (py * to_ℕ ctl.xsize + px) 0)
unfolding sheet_refreshsub
sheet_refreshsub-mapped ctl r h0 h1 px py hx hy l =
    let q = py * to_ℕ ctl.xsize + px in
    let s = get_or ctl.map q max_sheets in
    rw (on_screen-clipped ctl r) (
      get_or-copy_from ctl (to_ℕ (max_ℤ r.x0 (pos 0))) (to_ℕ (max_ℤ r.y0 (pos 0)))
        (min_ℤ r.x1 ctl.xsize) (min_ℤ r.y1 ctl.ysize) (to_ℕ ctl.ysize) (min_le r.x1 ctl.xsize)
        (min_le r.y1 ctl.ysize) (rounds h0 h1) h0 ctl.vram px py hx l
      ∙ ap
          (λ c.
            if c && reaches (sheet_at ctl s) px py && shown_in ctl.sheets (rounds h0 h1) h0 s
            then colour_at (sheet_at ctl s) px py
            else get_or ctl.vram q 0)
          (in_rect-clipped ctl r px py hx hy))

get_or-default : (xs : List ℕ) (i d e : ℕ) → i < length xs → get_or xs i d ≡ get_or xs i e
get_or-default [] i d e h = absurd (omega arith)
get_or-default (x ∷ xs) zero d e h = refl
get_or-default (x ∷ xs) (suc i) d e h = get_or-default xs i d e (omega arith)

-- the pixel of a sheet that the map has, is shown and has the pixel
copied :
    (ctl : ShtCtl) (m : List ℕ) (r : Rect) (h0 : ℕ) (h1 : ℤ) (px py t : ℕ)
    → px < to_ℕ ctl.xsize
    → py < to_ℕ ctl.ysize
    → to_ℕ ctl.ysize * to_ℕ ctl.xsize ≤ length ctl.vram
    → in_rect r px py ≡ true
    → get_or m (py * to_ℕ ctl.xsize + px) max_sheets ≡ t
    → shown_in ctl.sheets (rounds h0 h1) h0 t ≡ true
    → covers (sheet_at ctl t) px py ≡ true
    → get_or (sheet_refreshsub (record ctl { map = m }) r h0 h1).vram (py * to_ℕ ctl.xsize + px) 0
      ≡ colour_at (sheet_at ctl t) px py
copied ctl m r h0 h1 px py t hx hy l hr e hs hc =
    let has : reaches (sheet_at ctl t) px py ≡ true =
      ground (arith, covers_lem (sheet_at ctl t) px py, hc) in
    sheet_refreshsub-mapped (record ctl { map = m }) r h0 h1 px py hx hy l
    ∙ rw (e, hr, hs, has) refl

mapped :
    (ctl : ShtCtl) (r : Rect) (px py : ℕ)
    → px < to_ℕ ctl.xsize
    → py < to_ℕ ctl.ysize
    → to_ℕ ctl.ysize * to_ℕ ctl.xsize ≤ length ctl.map
    → in_rect r px py ≡ true
    → covered ctl (rounds 0 ctl.top) 0 px py ≡ true
    → get_or (sheet_refreshmap ctl r 0).map (py * to_ℕ ctl.xsize + px) max_sheets
      ≡ topmost ctl (rounds 0 ctl.top) 0 px py 0
mapped ctl r px py hx hy l hr hc =
    let q = py * to_ℕ ctl.xsize + px in
    get_or-default (sheet_refreshmap ctl r 0).map q max_sheets 0 (
      omega (
        arith,
        length-sheet_refreshmap ctl r 0,
        mul_lt py (to_ℕ ctl.ysize) (to_ℕ ctl.xsize) hy,
        hx,
        l,
      ))
    ∙ sheet_refreshmap-topmost ctl r 0 px py hx hy l
    ∙ rw hr (topmost-old ctl (rounds 0 ctl.top) 0 px py (get_or ctl.map q 0) 0 hc)

-- When the map and the screen are made again in a rectangle, from the lowest sheet to the top, each
-- pixel of it that some sheet covers has the colour of the topmost sheet that covers it.
pub refresh_both-topmost :
    (ctl : ShtCtl) (r : Rect) (px py : ℕ)
    → px < to_ℕ ctl.xsize
    → py < to_ℕ ctl.ysize
    → to_ℕ ctl.ysize * to_ℕ ctl.xsize ≤ length ctl.map
    → to_ℕ ctl.ysize * to_ℕ ctl.xsize ≤ length ctl.vram
    → in_rect r px py ≡ true
    → covered ctl (rounds 0 ctl.top) 0 px py ≡ true
    → get_or (refresh_both r 0 ctl.top ctl).vram (py * to_ℕ ctl.xsize + px) 0
      ≡ colour_at (sheet_at ctl (topmost ctl (rounds 0 ctl.top) 0 px py 0)) px py
unfolding sheet_refreshmap
refresh_both-topmost ctl r px py hx hy lm lv hr hc =
    let q = py * to_ℕ ctl.xsize + px in
    let m = (sheet_refreshmap ctl r 0).map in
    let t = topmost ctl (rounds 0 ctl.top) 0 px py 0 in
    let (shown, has) = topmost-covers ctl (rounds 0 ctl.top) 0 px py 0 hc in
    copied ctl m r 0 ctl.top px py t hx hy lv hr (mapped ctl r px py hx hy lm hr hc) shown has

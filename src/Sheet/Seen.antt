-- ===== src/Sheet/Seen.antt =====
-- What `sheet_refreshmap` (harib27f/haribote/sheet.c) leaves in the map: at each pixel the topmost sheet
-- that covers it.
use bxos.Common.{
  ℕ, zero, suc, ◌+◌, ◌-◌, ◌*◌, ◌≤◌, ◌<◌, List, ◌&&◌, if◌then◌else◌, get_or, length, ◌≡◌, refl, ap,
  ap₂, ◌∙◌, arith,
}
use bxos.Common.Int.{ℤ, pos, to_ℕ, ◌+ℤ◌, ◌-ℤ◌, ◌≤ℤ◌, max_ℤ, min_ℤ}
use bxos.Sheet.{
  Rect, Sheet, ShtCtl, Area, start_of, screen_of, length_of, sheet_at, shown_at, on_screen, area_of,
  is_opaque, map_area, map_sheet, map_from, rounds, sheet_refreshmap,
}
use bxos.Sheet.Runs.{within}
use bxos.Sheet.Axis.{
  between, max_zero, min_le, between-clip, length_of-fits, within-screen_of, start_of-offset,
}
use bxos.Sheet.Pixels.{mul_le}
use bxos.Sheet.View.{is_opaque_at, reaches, covers, in_rect, rect_from, topmost}
use bxos.Sheet.MapRows.{is_opaque-pixel, length-map_area, get_or-map_area}

reaches_lem :
    (sht : Sheet) (px py : ℕ)
    → reaches sht px py
      ≡ (between sht.vx0 (sht.vx0 +ℤ sht.bxsize) px && between sht.vy0 (sht.vy0 +ℤ sht.bysize) py)
unfolding reaches
reaches_lem sht px py = refl

pub covers_lem :
    (sht : Sheet) (px py : ℕ) → covers sht px py ≡ (reaches sht px py && is_opaque_at sht px py)
unfolding covers
covers_lem sht px py = refl

-- the area by the axes
abbrev pub area_by : Sheet → ℕ → ℕ → ℤ → ℤ → Area
area_by sht x0 y0 x1 y1 = record {
  bx = to_ℕ (start_of (pos x0) sht.vx0);
  by = to_ℕ (start_of (pos y0) sht.vy0);
  x = screen_of (pos x0) sht.vx0;
  y = screen_of (pos y0) sht.vy0;
  w = length_of (pos x0) x1 sht.vx0 sht.bxsize;
  h = length_of (pos y0) y1 sht.vy0 sht.bysize;
}

map_sheet_by :
    (ctl : ShtCtl) (x0 y0 : ℕ) (x1 y1 : ℤ) (s : ℕ) (m : List ℕ)
    → map_sheet ctl (rect_from x0 y0 x1 y1) s m
      ≡ map_area ctl s (sheet_at ctl s) (area_by (sheet_at ctl s) x0 y0 x1 y1) m
unfolding map_sheet area_of
map_sheet_by ctl x0 y0 x1 y1 s m = refl

-- the pixels of the area
pub area-reaches :
    (sht : Sheet) (x0 y0 : ℕ) (x1 y1 : ℤ) (px py : ℕ)
    → (let a = area_by sht x0 y0 x1 y1 in within a.y a.h py && within a.x a.w px)
      ≡ (in_rect (rect_from x0 y0 x1 y1) px py && reaches sht px py)
area-reaches sht x0 y0 x1 y1 px py = ground (
  arith,
  reaches_lem sht px py,
  within-screen_of y0 y1 sht.vy0 sht.bysize py,
  within-screen_of x0 x1 sht.vx0 sht.bxsize px,
)

pub area-offsets :
    (sht : Sheet) (x0 y0 : ℕ) (x1 y1 : ℤ) (px py : ℕ)
    → (let a = area_by sht x0 y0 x1 y1 in
        a.x ≤ px
        → a.y ≤ py
        → (a.bx + (px - a.x) ≡ to_ℕ (pos px -ℤ sht.vx0))
          × (a.by + (py - a.y) ≡ to_ℕ (pos py -ℤ sht.vy0)))
area-offsets sht x0 y0 x1 y1 px py hx hy =
    (start_of-offset x0 sht.vx0 px hx, start_of-offset y0 sht.vy0 py hy)

area-covers :
    (sht : Sheet) (x0 y0 : ℕ) (x1 y1 : ℤ) (px py : ℕ)
    → (let a = area_by sht x0 y0 x1 y1 in
        within a.y a.h py && within a.x a.w px && is_opaque sht a (py - a.y) (px - a.x))
      ≡ (in_rect (rect_from x0 y0 x1 y1) px py && covers sht px py)
area-covers sht x0 y0 x1 y1 px py =
    let a = area_by sht x0 y0 x1 y1 in
    ground (
      arith,
      area-reaches sht x0 y0 x1 y1 px py,
      covers_lem sht px py,
      λ (hx : a.x ≤ px) (hy : a.y ≤ py).
          let (ex, ey) = area-offsets sht x0 y0 x1 y1 px py hx hy in
          is_opaque-pixel sht a px py ex ey,
    )

module _ (ctl : ShtCtl) (x0 y0 : ℕ) (x1 y1 : ℤ) (ys : ℕ) (in_x : x1 ≤ℤ pos (to_ℕ ctl.xsize))
    (in_y : y1 ≤ℤ pos ys) where
  fits_rows :
      (e : ℕ) (m : List ℕ) → ys * to_ℕ ctl.xsize ≤ length m → e ≤ ys → e * to_ℕ ctl.xsize ≤ length m
  fits_rows e m l h = omega (arith, mul_le e ys (to_ℕ ctl.xsize) h, l)

  length-map_sheet :
      (s : ℕ) (m : List ℕ) → length (map_sheet ctl (rect_from x0 y0 x1 y1) s m) ≡ length m
  length-map_sheet s m =
      rw (map_sheet_by ctl x0 y0 x1 y1 s m)
        (length-map_area (sheet_at ctl s) (area_by (sheet_at ctl s) x0 y0 x1 y1) ctl s m)

  get_or-map_sheet :
      (s : ℕ) (m : List ℕ) (px py : ℕ)
      → px < to_ℕ ctl.xsize
      → ys * to_ℕ ctl.xsize ≤ length m
      → get_or (map_sheet ctl (rect_from x0 y0 x1 y1) s m) (py * to_ℕ ctl.xsize + px) 0 ≡ (
          if in_rect (rect_from x0 y0 x1 y1) px py && covers (sheet_at ctl s) px py
          then s
          else get_or m (py * to_ℕ ctl.xsize + px) 0)
  get_or-map_sheet s m px py p l =
      let sht = sheet_at ctl s in
      let a = area_by sht x0 y0 x1 y1 in
      rw (map_sheet_by ctl x0 y0 x1 y1 s m) (
        get_or-map_area sht a ctl s m px py
          (length_of-fits x0 (to_ℕ ctl.xsize) x1 sht.vx0 sht.bxsize in_x)
          (λ h. fits_rows (a.y + a.h) m l (length_of-fits y0 ys y1 sht.vy0 sht.bysize in_y h)) p
        ∙ ap (λ c. if c then s else get_or m (py * to_ℕ ctl.xsize + px) 0)
            (area-covers sht x0 y0 x1 y1 px py))

  length-map_from :
      (k h : ℕ) (m : List ℕ) → length (map_from ctl (rect_from x0 y0 x1 y1) k h m) ≡ length m
  unfolding map_from
  length-map_from zero h m = refl
  length-map_from (suc k) h m =
      length-map_from k (suc h) (map_sheet ctl (rect_from x0 y0 x1 y1) (shown_at ctl h) m)
      ∙ length-map_sheet (shown_at ctl h) m

  pub get_or-map_from :
      (k h : ℕ) (m : List ℕ) (px py : ℕ)
      → px < to_ℕ ctl.xsize
      → ys * to_ℕ ctl.xsize ≤ length m
      → get_or (map_from ctl (rect_from x0 y0 x1 y1) k h m) (py * to_ℕ ctl.xsize + px) 0 ≡ (
          if in_rect (rect_from x0 y0 x1 y1) px py
          then topmost ctl k h px py (get_or m (py * to_ℕ ctl.xsize + px) 0)
          else get_or m (py * to_ℕ ctl.xsize + px) 0)
  unfolding map_from topmost
  get_or-map_from zero h m px py p l = ground arith
  get_or-map_from (suc k) h m px py p l =
      let s = shown_at ctl h in
      let m' = map_sheet ctl (rect_from x0 y0 x1 y1) s m in
      get_or-map_from k (suc h) m' px py p (omega (arith, length-map_sheet s m, l))
      ∙ rw (get_or-map_sheet s m px py p l) (ground arith)

-- the rectangle that the loops go through
abbrev pub clipped : ShtCtl → Rect → Rect
clipped ctl r =
    rect_from (to_ℕ (max_ℤ r.x0 (pos 0))) (to_ℕ (max_ℤ r.y0 (pos 0))) (min_ℤ r.x1 ctl.xsize)
      (min_ℤ r.y1 ctl.ysize)

pub on_screen-clipped : (ctl : ShtCtl) (r : Rect) → on_screen ctl r ≡ clipped ctl r
on_screen-clipped ctl r =
    ap₂ (λ a b. record { x0 = a; y0 = b; x1 = min_ℤ r.x1 ctl.xsize; y1 = min_ℤ r.y1 ctl.ysize })
      (max_zero r.x0) (max_zero r.y0)

-- Clipping to the screen loses no pixel of it.
pub in_rect-clipped :
    (ctl : ShtCtl) (r : Rect) (px py : ℕ)
    → px < to_ℕ ctl.xsize
    → py < to_ℕ ctl.ysize
    → in_rect (clipped ctl r) px py ≡ in_rect r px py
in_rect-clipped ctl r px py hx hy =
    ap₂ (λ a b. a && b) (between-clip r.x0 r.x1 ctl.xsize px hx)
      (between-clip r.y0 r.y1 ctl.ysize py hy)

pub length-sheet_refreshmap :
    (ctl : ShtCtl) (r : Rect) (h0 : ℕ) → length (sheet_refreshmap ctl r h0).map ≡ length ctl.map
unfolding sheet_refreshmap
length-sheet_refreshmap ctl r h0 = rw (on_screen-clipped ctl r) (
    length-map_from ctl (to_ℕ (max_ℤ r.x0 (pos 0))) (to_ℕ (max_ℤ r.y0 (pos 0)))
      (min_ℤ r.x1 ctl.xsize) (min_ℤ r.y1 ctl.ysize) (to_ℕ ctl.ysize) (min_le r.x1 ctl.xsize)
      (min_le r.y1 ctl.ysize) (rounds h0 ctl.top) h0 ctl.map)

-- Within the rectangle the map has, at each pixel, the topmost sheet from the height on that covers
-- it; elsewhere, and where none does, what it had. The pixel is on the screen, and the map holds the
-- screen.
pub sheet_refreshmap-topmost :
    (ctl : ShtCtl) (r : Rect) (h0 px py : ℕ)
    → px < to_ℕ ctl.xsize
    → py < to_ℕ ctl.ysize
    → to_ℕ ctl.ysize * to_ℕ ctl.xsize ≤ length ctl.map
    → get_or (sheet_refreshmap ctl r h0).map (py * to_ℕ ctl.xsize + px) 0 ≡ (
        let old = get_or ctl.map (py * to_ℕ ctl.xsize + px) 0 in
        if in_rect r px py then topmost ctl (rounds h0 ctl.top) h0 px py old else old)
unfolding sheet_refreshmap
sheet_refreshmap-topmost ctl r h0 px py hx hy l =
    let old = get_or ctl.map (py * to_ℕ ctl.xsize + px) 0 in
    rw (on_screen-clipped ctl r) (
      get_or-map_from ctl (to_ℕ (max_ℤ r.x0 (pos 0))) (to_ℕ (max_ℤ r.y0 (pos 0)))
        (min_ℤ r.x1 ctl.xsize) (min_ℤ r.y1 ctl.ysize) (to_ℕ ctl.ysize) (min_le r.x1 ctl.xsize)
        (min_le r.y1 ctl.ysize) (rounds h0 ctl.top) h0 ctl.map px py hx l
      ∙ ap (λ c. if c then topmost ctl (rounds h0 ctl.top) h0 px py old else old)
          (in_rect-clipped ctl r px py hx hy))

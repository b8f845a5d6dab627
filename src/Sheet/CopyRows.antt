-- ===== src/Sheet/CopyRows.antt =====
-- The rows that `sheet_refreshsub` (harib27f/haribote/sheet.c) copies to the screen, by the pixel.
use bxos.Common.{
  ℕ, zero, suc, ◌+◌, ◌-◌, ◌*◌, ◌≤◌, ◌<◌, none, List, Bool, ◌&&◌, ◌==◌, if◌then◌else◌, get_or,
  length, ◌≡◌, refl, ap, ◌∙◌, arith,
}
use bxos.Common.Int.{pos, to_ℕ, ◌-ℤ◌}
use bxos.Common.Bytes.{memcpy, length-write_range}
use bxos.Sheet.{
  Sheet, ShtCtl, Area, max_sheets, runs, rows, screen_row, buffer_row, screen_part, copy_area,
}
use bxos.Sheet.Runs.{within, Writes, get_or-write_range, length-runs, get_or-runs}
use bxos.Sheet.Pixels.{length-rows, get_or-rows}
use bxos.Sheet.View.{colour_at, buffer_row-pixel}

same_source :
    (from start base q : ℕ)
    → base + start ≤ q
    → from + start + (q - (base + start)) ≡ from + (q - base)
same_source from start base q h = omega arith

-- Rows of no width change nothing.
rows-same :
    (row : ℕ → List ℕ → List ℕ)
    → ((j : ℕ) (m : List ℕ) → row j m ≡ m)
    → (k j : ℕ) (m : List ℕ) → rows row k j m ≡ m
unfolding rows
rows-same row same zero j m = refl
rows-same row same (suc k) j m = rows-same row same k (suc j) (row j m) ∙ same j m

memcpy-Writes :
    (base from : ℕ) (buf : List ℕ)
    → Writes
        (λ start len m. memcpy m (base + start) buf (from + start) len)
        base
        (λ i. get_or buf (from + i) 0)
memcpy-Writes base from buf = record {
  length-emit =
      λ start n m. length-write_range n (base + start) (from + start) (λ i. get_or buf i 0) m;
  get_or-emit = λ start n m q l.
      get_or-write_range n (base + start) (from + start) (λ i. get_or buf i 0) m q l
      ∙ ground (arith, same_source from start base q);
}

module _ (ctl : ShtCtl) (s : ℕ) (sht : Sheet) (a : Area) where
  abbrev is_mine : ℕ → ℕ → Bool
  is_mine j i = get_or ctl.map (screen_row ctl a j + i) max_sheets == s

  abbrev colour : ℕ → ℕ → ℕ
  colour j i = get_or sht.buf (buffer_row sht a j + i) 0

  length-screen_part : (j : ℕ) (m : List ℕ) → length (screen_part ctl s sht a j m) ≡ length m
  unfolding screen_part
  length-screen_part j m =
      length-runs (is_mine j) _ (screen_row ctl a j) (colour j)
        (memcpy-Writes (screen_row ctl a j) (buffer_row sht a j) sht.buf) a.w 0 none m

  get_or-screen_part :
      (j : ℕ) (m : List ℕ) (q : ℕ)
      → screen_row ctl a j + a.w ≤ length m
      → get_or (screen_part ctl s sht a j m) q 0 ≡ (
          if within (screen_row ctl a j) a.w q && is_mine j (q - screen_row ctl a j)
          then colour j (q - screen_row ctl a j)
          else get_or m q 0)
  unfolding screen_part
  get_or-screen_part j m q l =
      get_or-runs (is_mine j) _ (screen_row ctl a j) (colour j)
        (memcpy-Writes (screen_row ctl a j) (buffer_row sht a j) sht.buf) a.w 0 none m q
        (omega arith) (omega arith)
      ∙ ground arith

  screen_part-empty : a.w ≡ 0 → (j : ℕ) (m : List ℕ) → screen_part ctl s sht a j m ≡ m
  unfolding screen_part runs
  screen_part-empty e j m = rw e refl

  pub length-copy_area : (m : List ℕ) → length (copy_area ctl s sht a m) ≡ length m
  unfolding copy_area
  length-copy_area m = length-rows (screen_part ctl s sht a) length-screen_part a.h 0 m

  get_or-copy_area_rows :
      (m : List ℕ) (px py : ℕ)
      → (0 < a.w → a.x + a.w ≤ to_ℕ ctl.xsize)
      → (0 < a.h → (a.y + a.h) * to_ℕ ctl.xsize ≤ length m)
      → px < to_ℕ ctl.xsize
      → (w h : ℕ) → a.w ≡ w
      → a.h ≡ h
      → get_or (copy_area ctl s sht a m) (py * to_ℕ ctl.xsize + px) 0 ≡ (
          if within a.y a.h py && within a.x a.w px && is_mine (py - a.y) (px - a.x)
          then colour (py - a.y) (px - a.x)
          else get_or m (py * to_ℕ ctl.xsize + px) 0)
  unfolding copy_area rows
  get_or-copy_area_rows m px py fx fy p zero h ew eh =
      rw (rows-same (screen_part ctl s sht a) (screen_part-empty ew) a.h 0 m) (ground arith)
  get_or-copy_area_rows m px py fx fy p (suc w) zero ew eh = rw eh (ground arith)
  get_or-copy_area_rows m px py fx fy p (suc w) (suc h) ew eh =
      let base : a.y + 0 + a.h ≡ a.y + a.h = omega arith in
      get_or-rows (to_ℕ ctl.xsize) a.x a.w (screen_part ctl s sht a) a.y is_mine colour
        (fx (omega arith)) length-screen_part get_or-screen_part a.h 0 m px py p
        (rw base (fy (omega arith)))
      ∙ ground arith

  -- the map's index of a pixel
  screen_row-pixel :
      (px py : ℕ)
      → a.x ≤ px
      → a.y ≤ py
      → screen_row ctl a (py - a.y) + (px - a.x) ≡ py * to_ℕ ctl.xsize + px
  screen_row-pixel px py hx hy =
      let row_at : (a.y + (py - a.y)) * to_ℕ ctl.xsize ≡ py * to_ℕ ctl.xsize =
        ap (λ b. b * to_ℕ ctl.xsize) (omega arith) in
      omega (arith, row_at)

  pub get_or-copy_area :
      (m : List ℕ) (px py : ℕ)
      → (0 < a.w → a.x + a.w ≤ to_ℕ ctl.xsize)
      → (0 < a.h → (a.y + a.h) * to_ℕ ctl.xsize ≤ length m)
      → px < to_ℕ ctl.xsize
      → (a.x ≤ px
          → a.y ≤ py
          → (a.bx + (px - a.x) ≡ to_ℕ (pos px -ℤ sht.vx0))
            × (a.by + (py - a.y) ≡ to_ℕ (pos py -ℤ sht.vy0)))
      → get_or (copy_area ctl s sht a m) (py * to_ℕ ctl.xsize + px) 0 ≡ (
          if within a.y a.h py
            && within a.x a.w px
            && (get_or ctl.map (py * to_ℕ ctl.xsize + px) max_sheets == s)
          then colour_at sht px py
          else get_or m (py * to_ℕ ctl.xsize + px) 0)
  unfolding colour_at
  get_or-copy_area m px py fx fy p offsets =
      get_or-copy_area_rows m px py fx fy p a.w a.h refl refl
      ∙ ground (
        arith,
        λ (hx : a.x ≤ px) (hy : a.y ≤ py).
            ap (λ i. get_or ctl.map i max_sheets == s) (screen_row-pixel px py hx hy),
        λ (hx : a.x ≤ px) (hy : a.y ≤ py).
            let (ex, ey) = offsets hx hy in
            ap (λ i. get_or sht.buf i 0) (buffer_row-pixel sht a px py ex ey),
      )

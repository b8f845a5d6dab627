-- ===== src/Sheet.antt =====
-- The sheets of harib27f/haribote/sheet.c: windows in a stack, the map of which sheet is seen at each
-- pixel, and the copying of what is seen to the screen. A sheet is an index of `sheets0`. The time
-- measurement of bench.c has no part in it.
pub mod Stack
pub mod Dirty
mod Runs
mod Pixels
mod Axis
mod View
mod MapRows
mod Seen
mod CopyRows
mod Screen
mod Hole
mod Order
mod Moves
mod Restack
mod Updown
mod Rects
mod Pending
mod Tests
use bxos.Common.{
  ℕ, zero, suc, ◌+◌, ◌-◌, ◌*◌, ◌%◌, Option, none, some, List, [], ◌∷◌, Bool, true, false, ◌&&◌,
  ◌||◌, not, ltb, leb, ◌==◌, if◌then◌else◌, get_or, set, replicate,
}
use bxos.Common.Int.{ℤ, pos, negsuc, minus, is_neg, to_ℕ, ◌+ℤ◌, ◌-ℤ◌, ltb_ℤ, eqb_ℤ, max_ℤ, min_ℤ}
use bxos.Common.Bytes.{memset, memcpy}

abbrev pub max_sheets : ℕ
max_sheets = 256

-- corners in pixels; the second is outside
pub record Rect : Type 0 where
  pub x0 : ℤ
  pub y0 : ℤ
  pub x1 : ℤ
  pub y1 : ℤ

-- `struct SHEET`, less the pointers to its task, scroll area and controller
pub record Sheet : Type 0 where
  pub buf : List ℕ
  pub bxsize : ℤ
  pub bysize : ℤ
  pub vx0 : ℤ
  pub vy0 : ℤ
  pub col_inv : ℤ
  pub height : ℤ
  pub flags : ℕ
  pub dirty_count : ℕ
  pub dirty_rect : List Rect

-- `struct SHTCTL`
pub record ShtCtl : Type 0 where
  pub vram : List ℕ
  pub map : List ℕ
  pub xsize : ℤ
  pub ysize : ℤ
  pub top : ℤ
  pub sheets : List ℕ
  pub sheets0 : List Sheet

abbrev pub no_rect : Rect
no_rect = record { x0 = pos 0; y0 = pos 0; x1 = pos 0; y1 = pos 0 }

abbrev pub no_sheet : Sheet
no_sheet = record {
  buf = [];
  bxsize = pos 0;
  bysize = pos 0;
  vx0 = pos 0;
  vy0 = pos 0;
  col_inv = minus 1;
  height = minus 1;
  flags = 0;
  dirty_count = 0;
  dirty_rect = replicate 4 no_rect;
}

abbrev pub sheet_at : ShtCtl → ℕ → Sheet
sheet_at ctl s = get_or ctl.sheets0 s no_sheet

abbrev pub set_sheet : ShtCtl → ℕ → Sheet → ShtCtl
set_sheet ctl s sht = record ctl { sheets0 = set ctl.sheets0 s sht }

-- the sheet at a height
abbrev pub shown_at : ShtCtl → ℕ → ℕ
shown_at ctl h = get_or ctl.sheets h 0

-- `bx`, `by`: where a rectangle of the screen begins in a sheet; `x`, `y`: the same on the screen
pub record Area : Type 0 where
  pub bx : ℕ
  pub by : ℕ
  pub x : ℕ
  pub y : ℕ
  pub w : ℕ
  pub h : ℕ

-- a rectangle within the screen
abbrev pub on_screen : ShtCtl → Rect → Rect
on_screen ctl r = record {
  x0 = max_ℤ r.x0 (pos 0);
  y0 = max_ℤ r.y0 (pos 0);
  x1 = min_ℤ r.x1 ctl.xsize;
  y1 = min_ℤ r.y1 ctl.ysize;
}

-- The clipping along one axis, for a sheet at `v` of a size and a rectangle from `r0` to `r1`: where
-- its part in the sheet begins and ends in the sheet, where it begins on the screen, how long it is.
unfoldable pub start_of : ℤ → ℤ → ℤ
unfolding ◌-ℤ◌
start_of r0 v = max_ℤ (r0 -ℤ v) (pos 0)

unfoldable pub end_of : ℤ → ℤ → ℤ → ℤ
unfolding ◌-ℤ◌
end_of r1 v size = min_ℤ (r1 -ℤ v) size

unfoldable pub screen_of : ℤ → ℤ → ℕ
unfolding ◌+ℤ◌ start_of
screen_of r0 v = to_ℕ (v +ℤ start_of r0 v)

unfoldable pub length_of : ℤ → ℤ → ℤ → ℤ → ℕ
unfolding ◌-ℤ◌ start_of end_of
length_of r0 r1 v size = to_ℕ (end_of r1 v size -ℤ start_of r0 v)

-- The part of a rectangle of the screen that lies in a sheet; `w` or `h` is 0 when there is none.
unfoldable pub area_of : Sheet → Rect → Area
unfolding screen_of length_of
area_of sht r = record {
  bx = to_ℕ (start_of r.x0 sht.vx0);
  by = to_ℕ (start_of r.y0 sht.vy0);
  x = screen_of r.x0 sht.vx0;
  y = screen_of r.y0 sht.vy0;
  w = length_of r.x0 r.x1 sht.vx0 sht.bxsize;
  h = length_of r.y0 r.y1 sht.vy0 sht.bysize;
}

-- the end of a run that began at `start`
abbrev pub end_run : (ℕ → ℕ → List ℕ → List ℕ) → Option ℕ → ℕ → List ℕ → List ℕ
end_run emit none i m = m
end_run emit (some start) i m = emit start (i - start) m

abbrev pub go_on : Option ℕ → ℕ → Option ℕ
go_on none i = some i
go_on (some start) i = some start

-- The loop over a row: the runs of pixels that pass the test are written, each at its end. `k` pixels
-- are left, and `run` is `run_start`.
unfoldable pub runs : (ℕ → Bool) → (ℕ → ℕ → List ℕ → List ℕ) → ℕ → ℕ → Option ℕ → List ℕ → List ℕ
runs test emit zero i run m = end_run emit run i m
runs test emit (suc k) i run m =
    runs test emit k (suc i) (if test i then go_on run i else none)
      (if test i then m else end_run emit run i m)

-- the loop over the rows of an area
unfoldable pub rows : (ℕ → List ℕ → List ℕ) → ℕ → ℕ → List ℕ → List ℕ
rows row zero j m = m
rows row (suc k) j m = rows row k (suc j) (row j m)

-- row `j` of an area: where it begins on the screen, and in the sheet's buffer
abbrev pub screen_row : ShtCtl → Area → ℕ → ℕ
screen_row ctl a j = (a.y + j) * to_ℕ ctl.xsize + a.x

abbrev pub buffer_row : Sheet → Area → ℕ → ℕ
buffer_row sht a j = (a.by + j) * to_ℕ sht.bxsize + a.bx

-- Pixel `i` of a row is not of the colour that is seen through.
abbrev pub is_opaque : Sheet → Area → ℕ → ℕ → Bool
is_opaque sht a j i = not (eqb_ℤ (pos (get_or sht.buf (buffer_row sht a j + i) 0)) sht.col_inv)

-- a row of the map, for a sheet of number `s`
unfoldable pub map_row : ShtCtl → ℕ → Sheet → Area → ℕ → List ℕ → List ℕ
unfolding runs
map_row ctl s sht a j m =
    if eqb_ℤ sht.col_inv (minus 1)
    then memset m (screen_row ctl a j) s a.w
    else runs (is_opaque sht a j) (λ start len m'. memset m' (screen_row ctl a j + start) s len) a.w
        0 none m

-- the rows of the map that a sheet has in an area
unfoldable pub map_area : ShtCtl → ℕ → Sheet → Area → List ℕ → List ℕ
unfolding map_row rows
map_area ctl s sht a m = if (a.w == 0) || (a.h == 0) then m else rows (map_row ctl s sht a) a.h 0 m

-- one round of `sheet_refreshmap`
unfoldable pub map_sheet : ShtCtl → Rect → ℕ → List ℕ → List ℕ
unfolding map_area area_of
map_sheet ctl r s m = let sht = sheet_at ctl s in map_area ctl s sht (area_of sht r) m

-- the loop over heights, with the rounds left
unfoldable pub map_from : ShtCtl → Rect → ℕ → ℕ → List ℕ → List ℕ
unfolding map_sheet
map_from ctl r zero h m = m
map_from ctl r (suc k) h m = map_from ctl r k (suc h) (map_sheet ctl r (shown_at ctl h) m)

-- how many heights `for (h = h0; h <= h1; h++)` takes
abbrev pub rounds : ℕ → ℤ → ℕ
rounds h0 (pos h1) = h1 + 1 - h0
rounds h0 (negsuc _) = 0

unfoldable pub sheet_refreshmap : ShtCtl → Rect → ℕ → ShtCtl
unfolding map_from
sheet_refreshmap ctl r h0 = record ctl {
  map = map_from ctl (on_screen ctl r) (rounds h0 ctl.top) h0 ctl.map;
}

-- a row of the screen: the pixels whose map entry is the sheet
unfoldable pub screen_part : ShtCtl → ℕ → Sheet → Area → ℕ → List ℕ → List ℕ
unfolding runs
screen_part ctl s sht a j m =
    runs (λ i. get_or ctl.map (screen_row ctl a j + i) max_sheets == s)
      (λ start len m'.
        memcpy m' (screen_row ctl a j + start) sht.buf (buffer_row sht a j + start) len)
      a.w 0 none m

unfoldable pub copy_area : ShtCtl → ℕ → Sheet → Area → List ℕ → List ℕ
unfolding screen_part rows
copy_area ctl s sht a m = rows (screen_part ctl s sht a) a.h 0 m

-- one round of `sheet_refreshsub`
unfoldable pub copy_sheet : ShtCtl → Rect → ℕ → List ℕ → List ℕ
unfolding copy_area area_of
copy_sheet ctl r s m = let sht = sheet_at ctl s in copy_area ctl s sht (area_of sht r) m

unfoldable pub copy_from : ShtCtl → Rect → ℕ → ℕ → List ℕ → List ℕ
unfolding copy_sheet
copy_from ctl r zero h m = m
copy_from ctl r (suc k) h m = copy_from ctl r k (suc h) (copy_sheet ctl r (shown_at ctl h) m)

unfoldable pub sheet_refreshsub : ShtCtl → Rect → ℕ → ℤ → ShtCtl
unfolding copy_from
sheet_refreshsub ctl r h0 h1 = record ctl {
  vram = copy_from ctl (on_screen ctl r) (rounds h0 h1) h0 ctl.vram;
}

-- ===== src/Sheet/Dirty.antt =====
-- The rectangles of a sheet that wait to be drawn (harib27f/haribote/sheet.c): at most four; a fifth
-- is joined to the one that grows least.
use bxos.Common.{
  ℕ, zero, suc, ◌+◌, ◌-◌, ◌%◌, Bool, ◌&&◌, ◌||◌, not, ltb, ◌==◌, if◌then◌else◌, get_or, set,
}
use bxos.Common.Int.{ℤ, pos, negsuc, is_neg, ◌-ℤ◌, ◌*ℤ◌, ltb_ℤ, max_ℤ, min_ℤ}
use bxos.Sheet.{Rect, Sheet, ShtCtl, max_sheets, sheet_at, set_sheet, no_rect}
use bxos.Sheet.Stack.{sheet_refresh}

abbrev pub sheet_dirty_max : ℕ
sheet_dirty_max = 4

-- `(short) n`, from the 16 bits that are kept
abbrev pub short_of_bits : ℕ → ℤ
short_of_bits n = if ltb n 32768 then pos n else negsuc (65535 - n)

unfoldable pub short : ℤ → ℤ
short (pos n) = short_of_bits (n % 65536)
short (negsuc n) = short_of_bits (65535 - n % 65536)

unfoldable pub sheet_dirty_pending : Sheet → ℕ
sheet_dirty_pending sht = sht.dirty_count

abbrev pub is_empty : Rect → Bool
is_empty r = not (ltb_ℤ r.x0 r.x1) || not (ltb_ℤ r.y0 r.y1)

-- the smallest rectangle around two
abbrev pub around : Rect → Rect → Rect
around a b = record {
  x0 = min_ℤ a.x0 b.x0;
  y0 = min_ℤ a.y0 b.y0;
  x1 = max_ℤ a.x1 b.x1;
  y1 = max_ℤ a.y1 b.y1;
}

unfoldable pub rect_union : Rect → Rect → Rect
unfolding short
rect_union dst r = record {
  x0 = if ltb_ℤ r.x0 dst.x0 then short r.x0 else dst.x0;
  y0 = if ltb_ℤ r.y0 dst.y0 then short r.y0 else dst.y0;
  x1 = if ltb_ℤ dst.x1 r.x1 then short r.x1 else dst.x1;
  y1 = if ltb_ℤ dst.y1 r.y1 then short r.y1 else dst.y1;
}

abbrev pub rect_area : Rect → ℤ
rect_area r = (r.x1 -ℤ r.x0) *ℤ (r.y1 -ℤ r.y0)

unfoldable pub rect_merge_cost : Rect → Rect → ℤ
unfolding ◌-ℤ◌ ◌*ℤ◌
rect_merge_cost a r = rect_area (around a r) -ℤ rect_area a -ℤ rect_area r

abbrev pub dirty_at : Sheet → ℕ → Rect
dirty_at sht i = get_or sht.dirty_rect i no_rect

-- the loop that looks for the cheapest join, with the rounds left
unfoldable pub best_from : Sheet → Rect → ℕ → ℕ → ℕ → ℤ → ℕ
unfolding rect_merge_cost
best_from sht r zero i best_idx best_cost = best_idx
best_from sht r (suc k) i best_idx best_cost =
    let c = rect_merge_cost (dirty_at sht i) r in
    let better = ltb_ℤ c best_cost in
    best_from sht r k (suc i) (if better then i else best_idx) (if better then c else best_cost)

abbrev pub in_buffer : Sheet → Rect → Rect
in_buffer sht r = record {
  x0 = max_ℤ r.x0 (pos 0);
  y0 = max_ℤ r.y0 (pos 0);
  x1 = min_ℤ r.x1 sht.bxsize;
  y1 = min_ℤ r.y1 sht.bysize;
}

abbrev pub short_rect : Rect → Rect
short_rect r = record { x0 = short r.x0; y0 = short r.y0; x1 = short r.x1; y1 = short r.y1 }

-- A rectangle within the sheet's buffer joins those that wait.
unfoldable pub add_rect : Sheet → Rect → Sheet
unfolding best_from rect_union short rect_merge_cost
add_rect sht r =
    let best = best_from sht r (sheet_dirty_max - 1) 1 0 (rect_merge_cost (dirty_at sht 0) r) in
    if ltb sht.dirty_count sheet_dirty_max
    then record sht {
      dirty_rect = set sht.dirty_rect sht.dirty_count (short_rect r);
      dirty_count = sht.dirty_count + 1;
    }
    else record sht { dirty_rect = set sht.dirty_rect best (rect_union (dirty_at sht best) r) }

unfoldable pub sheet_dirty_add : Sheet → Rect → Sheet
unfolding add_rect
sheet_dirty_add sht r =
    let r' = in_buffer sht r in
    if (sht.flags % 2) == 0
    then sht
    else if is_empty r
    then sht
    else if is_empty r'
    then sht
    else add_rect sht r'

-- the loop of `sheet_dirty_flush`, with the rounds left
unfoldable pub flush_from : ℕ → ℕ → ℕ → ShtCtl → ShtCtl
unfolding sheet_refresh
flush_from s zero i ctl = ctl
flush_from s (suc k) i ctl =
    flush_from s k (suc i) (sheet_refresh s (dirty_at (sheet_at ctl s) i) ctl)

unfoldable pub sheet_dirty_flush : ℕ → ShtCtl → ShtCtl
unfolding flush_from
sheet_dirty_flush s ctl =
    let sht = sheet_at ctl s in
    let drawn = if is_neg sht.height then ctl else flush_from s sht.dirty_count 0 ctl in
    if sht.dirty_count == 0
    then ctl
    else set_sheet drawn s (record (sheet_at drawn s) { dirty_count = 0 })

abbrev pub flush_one : ℕ → ShtCtl → ShtCtl
flush_one s ctl =
    let sht = sheet_at ctl s in
    if not ((sht.flags % 2) == 0) && ltb 0 sht.dirty_count then sheet_dirty_flush s ctl else ctl

-- the loop of `sheet_dirty_flush_all`, with the sheets left
unfoldable pub flush_all_from : ℕ → ℕ → ShtCtl → ShtCtl
unfolding sheet_dirty_flush
flush_all_from zero i ctl = ctl
flush_all_from (suc k) i ctl = flush_all_from k (suc i) (flush_one i ctl)

unfoldable pub sheet_dirty_flush_all : ShtCtl → ShtCtl
unfolding flush_all_from
sheet_dirty_flush_all ctl = flush_all_from max_sheets 0 ctl

-- ===== src/Sheet/Tests.antt =====
-- Sheets on concrete inputs: a screen of 4 by 2 pixels, a background, a window and a pointer that is
-- seen through.
use bxos.Common.{
  ℕ, zero, suc, ◌<◌, List, [], ◌∷◌, true, get_or, replicate, ◌≡◌, refl, arith, if◌then◌else◌, ◌&&◌,
  ap, sym, not, ◌||◌, ◌%◌, ◌==◌, ◌*◌, ◌+◌,
}
use bxos.Common.Int.{ℤ, pos, minus, ◌+ℤ◌, ◌-ℤ◌}
use bxos.Common.Bytes.{write_range}
use bxos.Sheet.{
  Rect, Sheet, ShtCtl, sheet_refreshmap, sheet_refreshsub, no_sheet, sheet_at, shown_at,
}
use bxos.Sheet.Stack.{sheet_updown, sheet_slide, sheet_free, refresh_both}
use bxos.Sheet.Dirty.{sheet_dirty_add, in_buffer}
use bxos.Sheet.Pending.{pending, sheet_dirty_add-pending}
use bxos.Sheet.Axis.{between}
use bxos.Sheet.View.{topmost, colour_at, in_rect, covered}
use bxos.Sheet.Seen.{sheet_refreshmap-topmost}
use bxos.Sheet.Screen.{refresh_both-topmost}
use bxos.Sheet.Order.{IsStack}
use bxos.Sheet.Updown.{sheet_updown-IsStack}
use bxos.Sheet.Hole.{height_at, pos-inj}

abbrev pub sheet_of : List ℕ → ℕ → ℕ → ℕ → ℕ → ℤ → ℤ → Sheet
sheet_of buf w h x y inv height = record no_sheet {
  buf = buf;
  bxsize = pos w;
  bysize = pos h;
  vx0 = pos x;
  vy0 = pos y;
  col_inv = inv;
  height = height;
  flags = 1;
}

abbrev pub screen : ShtCtl
screen = record {
  vram = replicate 8 0;
  map = replicate 8 9;
  xsize = pos 4;
  ysize = pos 2;
  top = pos 1;
  sheets = 0 ∷ 1 ∷ 0 ∷ 0 ∷ [];
  sheets0 =
      sheet_of (replicate 8 7) 4 2 0 0 (minus 1) (pos 0)
      ∷ sheet_of (5 ∷ 6 ∷ []) 2 1 1 0 (minus 1) (pos 1)
      ∷ sheet_of (99 ∷ 3 ∷ []) 2 1 2 0 (pos 99) (minus 1)
      ∷ [];
}

abbrev pub whole : Rect
whole = record { x0 = pos 0; y0 = pos 0; x1 = pos 9; y1 = pos 9 }

map_test : (sheet_refreshmap screen whole 0).map ≡ 0 ∷ 1 ∷ 1 ∷ 0 ∷ 0 ∷ 0 ∷ 0 ∷ 0 ∷ []
unfolding sheet_refreshmap write_range
map_test = refl

picture_test : (refresh_both whole 0 (pos 1) screen).vram ≡ 7 ∷ 5 ∷ 6 ∷ 7 ∷ 7 ∷ 7 ∷ 7 ∷ 7 ∷ []
unfolding sheet_refreshmap sheet_refreshsub write_range
picture_test = refl

-- the pointer comes to the top
abbrev pub pointed : ShtCtl
pointed = sheet_updown 2 (pos 2) (refresh_both whole 0 (pos 1) screen)

shown_test : pointed.sheets ≡ 0 ∷ 1 ∷ 2 ∷ 0 ∷ []
unfolding sheet_updown sheet_refreshmap sheet_refreshsub write_range
shown_test = refl

pointed_test : pointed.vram ≡ 7 ∷ 5 ∷ 6 ∷ 3 ∷ 7 ∷ 7 ∷ 7 ∷ 7 ∷ []
unfolding sheet_updown sheet_refreshmap sheet_refreshsub write_range
pointed_test = refl

hidden_test : (sheet_updown 1 (minus 1) pointed).vram ≡ 7 ∷ 7 ∷ 7 ∷ 3 ∷ 7 ∷ 7 ∷ 7 ∷ 7 ∷ []
unfolding sheet_updown sheet_refreshmap sheet_refreshsub write_range
hidden_test = refl

slid_test : (sheet_slide 1 (pos 0) (pos 1) pointed).vram ≡ 7 ∷ 7 ∷ 7 ∷ 3 ∷ 5 ∷ 6 ∷ 7 ∷ 7 ∷ []
unfolding sheet_updown sheet_slide sheet_refreshmap sheet_refreshsub write_range
slid_test = refl

freed_test : (sheet_free 2 pointed).sheets ≡ 0 ∷ 1 ∷ 2 ∷ 0 ∷ []
unfolding sheet_free sheet_updown sheet_refreshmap sheet_refreshsub write_range
freed_test = refl

-- the pixel (2, 0), which the window covers
sheet_refreshmap-topmost_example :
    get_or (sheet_refreshmap screen whole 0).map (0 * 4 + 2) 0
    ≡ (if in_rect whole 2 0 then topmost screen 2 0 2 0 9 else 9)
sheet_refreshmap-topmost_example =
    sheet_refreshmap-topmost screen whole 0 2 0 (omega arith) (omega arith) (omega arith)

whole_has : in_rect whole 2 0 ≡ true
unfolding between
whole_has = refl

window_covers : covered screen 2 0 2 0 ≡ true
unfolding covered
window_covers = refl

refresh_both-topmost_example :
    get_or (refresh_both whole 0 (pos 1) screen).vram (0 * 4 + 2) 0
    ≡ colour_at (sheet_at screen (topmost screen 2 0 2 0 0)) 2 0
refresh_both-topmost_example =
    refresh_both-topmost screen whole 2 0 (omega arith) (omega arith) (omega arith) (omega arith)
      whole_has window_covers

screen_knows : (h : ℕ) → h < 2 → height_at screen (shown_at screen h) ≡ pos h
screen_knows zero l = refl
screen_knows (suc zero) l = refl
screen_knows (suc (suc h)) l = absurd (omega arith)

screen_exists : (h : ℕ) → h < 2 → shown_at screen h < 3
screen_exists zero l = omega arith
screen_exists (suc zero) l = omega arith
screen_exists (suc (suc h)) l = absurd (omega arith)

screen_in_range : (t h : ℕ) → t < 3 → height_at screen t ≡ pos h → h < 2
screen_in_range zero h l e = ground arith
screen_in_range (suc zero) h l e = ground arith
screen_in_range (suc (suc zero)) h l e = ground arith
screen_in_range (suc (suc (suc t))) h l e = absurd (omega arith)

screen_at_height : (t h : ℕ) → t < 3 → height_at screen t ≡ pos h → shown_at screen h ≡ t
screen_at_height zero h l e = ap (shown_at screen) (sym (pos-inj 0 h e))
screen_at_height (suc zero) h l e = ap (shown_at screen) (sym (pos-inj 1 h e))
screen_at_height (suc (suc zero)) h l e = ground (arith, e)
screen_at_height (suc (suc (suc t))) h l e = absurd (omega arith)

screen-IsStack : IsStack screen 2
unfolding ◌-ℤ◌
screen-IsStack = (
  refl,
  omega arith,
  record {
    knows = screen_knows;
    exists = screen_exists;
    in_range = screen_in_range;
    at_height = screen_at_height;
  },
)

sheet_updown-IsStack_example : IsStack (sheet_updown 2 (pos 5) screen) 3
unfolding ◌+ℤ◌
sheet_updown-IsStack_example =
    sheet_updown-IsStack 2 (pos 5) screen 2 screen-IsStack (omega arith) (omega arith)

window_has :
    (pending (sheet_at screen 1) 1 0
      || (not ((sheet_at screen 1).flags % 2 == 0)
          && in_rect (in_buffer (sheet_at screen 1) whole) 1 0))
    ≡ true
unfolding pending between
window_has = refl

-- a rectangle that reaches over the window's edge
sheet_dirty_add-pending_example : pending (sheet_dirty_add (sheet_at screen 1) whole) 1 0 ≡ true
sheet_dirty_add-pending_example =
    sheet_dirty_add-pending (sheet_at screen 1) whole 1 0
      (omega arith, refl, omega arith, omega arith) window_has

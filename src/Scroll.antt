-- ===== src/Scroll.antt =====
-- The scroll window of the consoles (harib27f/haribote/console.c, `scrollwin_`). A line is the list of its
-- cells before `len`, each a byte and a colour; the ring of lines is a function of the index. `shown` is
-- what was last drawn in each row of the window, and in which language mode: the pixels and the scroll bar are left out, and the
-- window has its sheet. The tab, the mouse and `scrollwin_puts` are not modelled. The table
-- g_euckr_to_uhs is a parameter: the build makes it.
mod Ring
mod Rows
mod Steps
mod Filled
mod Contents
mod Tests
use bxos.Common.{
  ℕ, zero, suc, ◌+◌, ◌-◌, ◌*◌, ◌/◌, ◌%◌, List, [], ◌∷◌, ◌++◌, Bool, true, false, ◌&&◌, ◌||◌, not,
  ltb, leb, ◌==◌, if◌then◌else◌, map, length, Option, none, some,
}
use bxos.Common.Int.{ℤ, pos, negsuc}

-- the byte and the colour of each character
abbrev pub Line : Type 0
Line = List (ℕ × ℕ)

-- What is drawn of a line: it depends on the language mode, unless there is nothing to draw.
abbrev pub Drawn : Type 0
Drawn = ℕ × Line

abbrev pub blank : Drawn
blank = (0, [])

unfoldable pub drawn : ℕ → Line → Drawn
drawn langmode [] = blank
drawn langmode (c ∷ cs) = (langmode, c ∷ cs)

-- SCROLL_MAX_LINES, SCROLL_LINE_CHARS, SCROLLBAR_W
abbrev pub max_lines : ℕ
max_lines = 512

abbrev pub line_chars : ℕ
line_chars = 100

abbrev pub bar_width : ℕ
bar_width = 10

pub record ScrollWin : Type 0 where
  pub x0 : ℕ
  pub y0 : ℕ
  pub wd : ℕ
  pub ht : ℕ
  pub cx : ℕ
  pub langmode : ℕ
  pub lines : ℕ → Line
  pub head : ℕ
  pub count : ℕ
  pub scroll_top : ℕ
  pub auto_follow : Bool
  pub shown : ℕ → Drawn

abbrev pub visible_lines : ScrollWin → ℕ
visible_lines w = w.ht / 16

abbrev pub text_cols : ScrollWin → ℕ
text_cols w = let cols = (w.wd - bar_width) / 8 in if ltb line_chars cols then line_chars else cols

abbrev pub cur_index : ScrollWin → ℕ
cur_index w = (w.head + max_lines - 1) % max_lines

abbrev pub cur_line : ScrollWin → Line
cur_line w = w.lines (cur_index w)

-- the index of the line that stands `i` places behind the oldest
abbrev pub slot : ℕ → ℕ → ℕ → ℕ
slot head count i = ((head + max_lines - count) % max_lines + i) % max_lines

abbrev pub line_at : ScrollWin → ℕ → Line
line_at w i = w.lines (slot w.head w.count i)

-- `(sw->count > vis) ? (sw->count - vis) : 0`, the place from which the newest lines are in the window
abbrev pub bottom : ScrollWin → ℕ
bottom w = if ltb (visible_lines w) w.count then w.count - visible_lines w else 0

-- What a row shows after it is cleared and its line, if it has one, is drawn.
unfoldable pub row : ScrollWin → ℕ → ℕ → Drawn
unfolding drawn
row w top r = if ltb (top + r) w.count then drawn w.langmode (line_at w (top + r)) else blank

abbrev pub redraw_line : ScrollWin → ℕ → ℕ → Drawn
redraw_line w v r = if r == v then row w w.scroll_top v else w.shown r

unfoldable pub scrollwin_redraw : ScrollWin → ScrollWin
scrollwin_redraw w = record w {
  shown = λ r. if ltb r (visible_lines w) then row w w.scroll_top r else w.shown r;
}

-- The row of the newest line is drawn if the window has not moved since `prev` and has that row; else
-- the whole window is.
unfoldable pub redrawn : ℕ → ScrollWin → ℕ → Drawn
unfolding scrollwin_redraw
redrawn prev w =
    let v = w.count - 1 - w.scroll_top in
    if ((w.scroll_top == prev) && ltb w.scroll_top w.count) && ltb v (visible_lines w)
    then redraw_line w v
    else (scrollwin_redraw w).shown

-- `if (sw->auto_follow) ...`
abbrev pub follow : ScrollWin → ScrollWin
follow w = record w { scroll_top = if w.auto_follow then bottom w else w.scroll_top }

-- the end that newline, putc and backspace have in common
abbrev pub settled : ScrollWin → ScrollWin
settled w = record (follow w) { shown = redrawn w.scroll_top (follow w) }

abbrev pub set_line : (ℕ → Line) → ℕ → Line → ℕ → Line
set_line lines i line j = if j == i then line else lines j

-- A window's arguments are not negative. Of the old window only what is in the lines' arrays is kept.
unfoldable pub scrollwin_init : ℕ → ℕ → ℕ → ℕ → ScrollWin → ScrollWin
unfolding scrollwin_redraw
scrollwin_init x0 y0 wd ht w =
    let wd' = wd / 8 * 8 in
    let ht' = ht / 16 * 16 in
    scrollwin_redraw (record {
      x0 = x0;
      y0 = y0;
      wd = if ltb wd' (16 + bar_width) then 16 + bar_width else wd';
      ht = if ltb ht' 16 then 16 else ht';
      cx = 0;
      langmode = 0;
      lines = λ i. if ltb i max_lines then [] else w.lines i;
      head = 1;
      count = 1;
      scroll_top = 0;
      auto_follow = true;
      shown = w.shown;
    })

-- the new line, before the window follows it
abbrev pub opened : ScrollWin → ScrollWin
opened w = record w {
  lines = set_line w.lines w.head [];
  head = (w.head + 1) % max_lines;
  count = if ltb w.count max_lines then w.count + 1 else w.count;
  cx = 0;
}

unfoldable pub scrollwin_newline : ScrollWin → ScrollWin
scrollwin_newline w = settled (opened w)

unfoldable pub without_last : Line → Line
without_last [] = []
without_last (c ∷ []) = []
without_last (c ∷ d ∷ cs) = c ∷ without_last (d ∷ cs)

abbrev pub with_cur_line : ScrollWin → Line → ℕ → ScrollWin
with_cur_line w line cx = record w { lines = set_line w.lines (cur_index w) line; cx = cx }

unfoldable pub scrollwin_backspace : ScrollWin → ScrollWin
scrollwin_backspace w =
    if ltb 0 (length (cur_line w))
    then settled (with_cur_line w (without_last (cur_line w)) (length (without_last (cur_line w))))
    else w

-- `new_top` is brought into 0 .. max_top
unfoldable pub clamped : ScrollWin → ℤ → ℕ
clamped w (negsuc n) = 0
clamped w (pos top) = if ltb (bottom w) top then bottom w else top

unfoldable pub scrollwin_scroll_to : ScrollWin → ℤ → ScrollWin
unfolding clamped scrollwin_redraw
scrollwin_scroll_to w new_top =
    scrollwin_redraw
      (record w { scroll_top = clamped w new_top; auto_follow = clamped w new_top == bottom w })

unfoldable pub cursor_row : ScrollWin → ℕ
cursor_row w =
    let line = w.count - 1 - w.scroll_top in
    if leb (visible_lines w) line then visible_lines w - 1 else line

-- `if (task != 0) sw->langmode = task->langmode;`
abbrev pub in_mode : Option ℕ → ScrollWin → ScrollWin
in_mode none w = w
in_mode (some langmode) w = record w { langmode = langmode }

abbrev in_range : ℕ → ℕ → ℕ → Bool
in_range low b high = leb low b && leb b high

module _ (g_euckr_to_uhs : ℕ → ℕ) where
  -- Columns and further bytes of a character of EUC-KR; none if its second byte is missing or wrong.
  unfoldable pub euc_glyph : ℕ → List ℕ → Option (ℕ × ℕ)
  euc_glyph b [] = none
  euc_glyph b (trail ∷ _) =
      if in_range 0xa1 trail 0xfe
        && not (g_euckr_to_uhs ((b - 0xa1) * 94 + (trail - 0xa1)) == 0xffff)
      then some (2, 1)
      else none

  -- the same for the Hangul syllables of UTF-8
  unfoldable pub utf_glyph : ℕ → List ℕ → Option (ℕ × ℕ)
  utf_glyph b [] = none
  utf_glyph b (b2 ∷ []) = none
  utf_glyph b (b2 ∷ b3 ∷ _) =
      let cp = (b % 16) * 4096 + (b2 % 64) * 64 + b3 % 64 in
      if (in_range 0x80 b2 0xbf && in_range 0x80 b3 0xbf) && in_range 0xac00 cp 0xd7a3
      then some (2, 2)
      else none

  unfoldable pub glyph : ℕ → ℕ → List ℕ → Option (ℕ × ℕ)
  unfolding euc_glyph utf_glyph
  glyph langmode b rest =
      if (langmode == 3) && in_range 0xa1 b 0xfe
      then euc_glyph b rest
      else if (langmode == 4) && in_range 0xea b 0xed
      then utf_glyph b rest
      else some (1, 0)

  -- the columns of the bytes behind the next `skip`
  unfoldable pub display_cols : ℕ → ℕ → List ℕ → ℕ
  unfolding glyph
  display_cols langmode skip [] = 0
  display_cols langmode (suc skip) (b ∷ rest) = display_cols langmode skip rest
  display_cols langmode zero (b ∷ rest) = elim (glyph langmode b rest) [
    | none ↦ 0
    | some (cols, skip) ↦ cols + display_cols langmode skip rest
  ]

  abbrev pub line_cols : ScrollWin → Line → ℕ
  line_cols w line = display_cols w.langmode 0 (map (λ c. c.1) line)

  -- a full line is left for a new one
  unfoldable pub with_room : ScrollWin → ScrollWin
  unfolding scrollwin_newline display_cols
  with_room w =
      if leb (text_cols w) (line_cols w (cur_line w)) || leb line_chars (length (cur_line w))
      then scrollwin_newline w
      else w

  -- a character that is no line feed, return or tab
  unfoldable pub put_glyph : ScrollWin → ℕ → ℕ → ScrollWin
  unfolding with_room display_cols
  put_glyph w chr fc =
      let w0 = with_room w in
      let line = cur_line w0 ++ (chr, fc) ∷ [] in
      settled (with_cur_line w0 line (line_cols w0 line))

  -- `scrollwin_putc` for a character that is no tab; `task` is the language mode of the task that runs
  unfoldable pub put_untabbed : Option ℕ → ScrollWin → ℕ → ℕ → ScrollWin
  unfolding scrollwin_newline put_glyph
  put_untabbed task w chr fc =
      let w1 = in_mode task w in
      if chr == 0x0a then scrollwin_newline w1 else if chr == 0x0d then w1 else put_glyph w1 chr fc

-- ===== src/Scroll/Tests.antt =====
-- A window of two rows and ten columns, and one whose ring is full.
use bxos.Common.{ℕ, ◌+◌, ◌≡◌, refl, some, [], ◌∷◌, ◌++◌, true, arith}
use bxos.Common.Int.{pos}
use bxos.Scroll.{
  ScrollWin, drawn, row, scrollwin_redraw, scrollwin_newline, scrollwin_init, scrollwin_scroll_to,
  redrawn, put_untabbed, put_glyph, display_cols,
}
use bxos.Scroll.Rows.{IsBounded, IsScroll}
use bxos.Scroll.Steps.{put, scroll}
use bxos.Scroll.Filled.{Filled, start, then_step, Filled-IsScroll}
use bxos.Scroll.Contents.{contents, newest, newline-contents}

abbrev no_hangul : ℕ → ℕ
no_hangul i = 0xffff

-- the ring has gone round once: its oldest line is that of index 7
abbrev full : ScrollWin
full = record {
  x0 = 0;
  y0 = 0;
  wd = 90;
  ht = 32;
  cx = 0;
  langmode = 0;
  lines = λ i. (i, 7) ∷ [];
  head = 7;
  count = 512;
  scroll_top = 510;
  auto_follow = true;
  shown = λ r. (0, (r + 5, 7) ∷ []);
}

full-IsBounded : IsBounded full
full-IsBounded = record {
  head = omega arith;
  some_line = omega arith;
  most = omega arith;
  top = omega arith;
}

-- The rows show the lines of the indices 5 and 6.
full-shown : row full 510 1 ≡ full.shown 1
unfolding row drawn
full-shown = refl

-- A new line in a full ring: the first row should show the line of index 6, and still shows the one
-- of index 5.
full-row : row (scrollwin_newline full) 510 0 ≡ drawn 0 ((6, 7) ∷ [])
unfolding row drawn scrollwin_newline redrawn
full-row = refl

full-stale : (scrollwin_newline full).shown 0 ≡ drawn 0 ((5, 7) ∷ [])
unfolding row drawn scrollwin_newline redrawn
full-stale = refl

newline-contents_example : contents (scrollwin_newline full) ≡ newest (contents full ++ ([] ∷ []))
newline-contents_example = newline-contents full full-IsBounded

abbrev empty : ScrollWin
empty = scrollwin_init 0 0 90 32 full

abbrev one_letter : ScrollWin
one_letter = put_untabbed no_hangul (some 3) empty 65 7

abbrev two_lines : ScrollWin
two_lines = put_untabbed no_hangul (some 3) one_letter 10 7

abbrev at_top : ScrollWin
at_top = scrollwin_scroll_to two_lines (pos 0)

two_lines-shown : two_lines.shown 0 ≡ drawn 3 ((65, 7) ∷ [])
unfolding scrollwin_init scrollwin_newline put_untabbed put_glyph redrawn scrollwin_redraw row drawn
two_lines-shown = refl

at_top-Filled : Filled no_hangul 3 at_top
unfolding scrollwin_init scrollwin_newline put_untabbed put_glyph
at_top-Filled =
    then_step two_lines at_top
      (then_step one_letter two_lines
        (then_step empty one_letter (start 0 0 90 32 full) (put empty 65 7 (λ e. omega (arith, e))))
        (put one_letter 10 7 (λ e. omega (arith, e))))
      (scroll two_lines (pos 0))

Filled-IsScroll_example : IsScroll at_top
unfolding scrollwin_init scrollwin_newline put_untabbed put_glyph scrollwin_redraw
    scrollwin_scroll_to
Filled-IsScroll_example = Filled-IsScroll no_hangul 3 at_top at_top-Filled (omega arith)

-- a Hangul syllable in EUC-KR: after a backspace the cursor is behind the one byte that is left
hangul-cols : display_cols (λ i. 0xac00) 3 0 (0xb0 ∷ 0xa1 ∷ []) ≡ 2
unfolding display_cols
hangul-cols = refl

half-cols : display_cols (λ i. 0xac00) 3 0 (0xb0 ∷ []) ≡ 0
unfolding display_cols
half-cols = refl

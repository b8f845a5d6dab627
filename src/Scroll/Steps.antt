-- ===== src/Scroll/Steps.antt =====
-- The operations of a window that is being filled, as steps.
use bxos.Common.{
  ℕ, ◌≤◌, ◌<◌, ◌≡◌, Bool, true, ltb, ◌==◌, if◌then◌else◌, arith, length, ==_iff, lt→ltb, false, ap,
  refl, ◌≢◌, Option, some,
}
use bxos.Common.Int.{ℤ, pos, negsuc}
use bxos.Scroll.{
  ScrollWin, visible_lines, bottom, row, scrollwin_redraw, scrollwin_newline, scrollwin_backspace,
  scrollwin_scroll_to, clamped, with_room, put_glyph, put_untabbed, in_mode, cur_line,
  scrollwin_init,
}
use bxos.Scroll.Rows.{IsBounded, IsScroll, newline-IsScroll, with_cur_line-IsScroll}

-- What the consoles of tasks with one language mode do.
pub data Step (g_euckr_to_uhs : ℕ → ℕ) (langmode : ℕ) : ScrollWin → ScrollWin → Type 0 where
  put :
      (w : ScrollWin) (chr fc : ℕ)
      → chr ≢ 0x09
      → Step g_euckr_to_uhs langmode w (put_untabbed g_euckr_to_uhs (some langmode) w chr fc)
  backspace : (w : ScrollWin) → Step g_euckr_to_uhs langmode w (scrollwin_backspace w)
  scroll : (w : ScrollWin) (top : ℤ) → Step g_euckr_to_uhs langmode w (scrollwin_scroll_to w top)

clamped-le : (w : ScrollWin) (top : ℤ) → clamped w top ≤ bottom w
unfolding clamped
clamped-le w (pos top) = ground arith
clamped-le w (negsuc n) = ground arith

-- A window that is drawn as a whole shows what it should.
redraw-IsScroll :
    (w : ScrollWin)
    → IsBounded w
    → (w.auto_follow ≡ true → w.scroll_top ≡ bottom w)
    → IsScroll (scrollwin_redraw w)
unfolding scrollwin_redraw row
redraw-IsScroll w b f = record {
  bounded = record { head = b.head; some_line = b.some_line; most = b.most; top = b.top };
  following = f;
  rows =
      λ r a. ap (λ t. if t then row w w.scroll_top r else w.shown r) (lt→ltb r (visible_lines w) a);
}

pub scrolled-IsScroll :
    (w : ScrollWin) (top : ℤ) → IsScroll w → IsScroll (scrollwin_scroll_to w top)
unfolding scrollwin_scroll_to
scrolled-IsScroll w top s =
    redraw-IsScroll
      (record w { scroll_top = clamped w top; auto_follow = clamped w top == bottom w })
      (record {
        head = s.bounded.head;
        some_line = s.bounded.some_line;
        most = s.bounded.most;
        top = clamped-le w top;
      })
      (λ e. (==_iff (clamped w top) (bottom w)).0 e)

if-IsScroll : (b : Bool) (v w : ScrollWin) → IsScroll v → IsScroll w → IsScroll (if b then v else w)
if-IsScroll true v w s t = s
if-IsScroll false v w s t = t

if-count :
    {n : ℕ} (b : Bool) (v w : ScrollWin)
    → n ≤ v.count
    → n ≤ w.count
    → n ≤ (if b then v else w).count
if-count true v w s t = s
if-count false v w s t = t

pub if-langmode :
    {m : ℕ} (b : Bool) (v w : ScrollWin)
    → v.langmode ≡ m
    → w.langmode ≡ m
    → (if b then v else w).langmode ≡ m
if-langmode true v w s t = s
if-langmode false v w s t = t

pub backspace-IsScroll : (w : ScrollWin) → IsScroll w → IsScroll (scrollwin_backspace w)
unfolding scrollwin_backspace
backspace-IsScroll w s =
    if-IsScroll (ltb 0 (length (cur_line w))) _ w (with_cur_line-IsScroll w s _ _) s

module _ (g_euckr_to_uhs : ℕ → ℕ) where
  with_room-IsScroll :
      (w : ScrollWin) → w.count < 512 → IsScroll w → IsScroll (with_room g_euckr_to_uhs w)
  unfolding with_room
  with_room-IsScroll w h s = if-IsScroll _ _ _ (newline-IsScroll w s h) s

  put_glyph-IsScroll :
      (w : ScrollWin) (chr fc : ℕ)
      → w.count < 512
      → IsScroll w
      → IsScroll (put_glyph g_euckr_to_uhs w chr fc)
  unfolding put_glyph
  put_glyph-IsScroll w chr fc h s =
      with_cur_line-IsScroll (with_room g_euckr_to_uhs w) (with_room-IsScroll w h s) _ _

  pub put_untabbed-IsScroll :
      (task : Option ℕ) (w : ScrollWin) (chr fc : ℕ)
      → (in_mode task w).count < 512
      → IsScroll (in_mode task w)
      → IsScroll (put_untabbed g_euckr_to_uhs task w chr fc)
  unfolding put_untabbed
  put_untabbed-IsScroll task w chr fc h s =
      let v = in_mode task w in
      if-IsScroll (chr == 0x0a) (scrollwin_newline v) _ (newline-IsScroll v s h)
        (if-IsScroll (chr == 0x0d) v _ s (put_glyph-IsScroll v chr fc h s))

  -- the language mode after a put
  pub langmode-put :
      (m : ℕ) (w : ScrollWin) (chr fc : ℕ)
      → (put_untabbed g_euckr_to_uhs (some m) w chr fc).langmode ≡ m
  unfolding put_untabbed put_glyph with_room scrollwin_newline
  langmode-put m w chr fc =
      let v = in_mode (some m) w in
      if-langmode (chr == 0x0a) (scrollwin_newline v) _ refl (
        if-langmode (chr == 0x0d) v (put_glyph g_euckr_to_uhs v chr fc) refl
          (if-langmode _ (scrollwin_newline v) v refl refl))

  -- No step takes a line away.
  pub count-Step : (m : ℕ) (w v : ScrollWin) → Step g_euckr_to_uhs m w v → w.count ≤ v.count
  unfolding put_untabbed scrollwin_newline put_glyph with_room scrollwin_backspace
      scrollwin_scroll_to scrollwin_redraw
  count-Step m _ _ (put w chr fc t) =
      let v = in_mode (some m) w in
      if-count (chr == 0x0a) (scrollwin_newline v) _ (ground arith) (
        if-count (chr == 0x0d) v (put_glyph g_euckr_to_uhs v chr fc) (omega arith)
          (if-count _ (scrollwin_newline v) v (ground arith) (omega arith)))
  count-Step m _ _ (backspace w) =
      if-count (ltb 0 (length (cur_line w))) _ w (omega arith) (omega arith)
  count-Step m _ _ (scroll w top) = omega arith

-- A window begins with one empty line and shows it.
pub init-IsScroll : (x0 y0 wd ht : ℕ) (w : ScrollWin) → IsScroll (scrollwin_init x0 y0 wd ht w)
unfolding scrollwin_init
init-IsScroll x0 y0 wd ht w =
    redraw-IsScroll _
      (record {
        head = omega arith;
        some_line = omega arith;
        most = omega arith;
        top = ground arith;
      })
      (λ e. ground arith)

-- ===== src/Scroll/Rows.antt =====
-- What the rows of the window show, and the lines as a queue that keeps the newest 512.
use bxos.Common.{
  ℕ, ◌+◌, ◌-◌, ◌%◌, ◌≤◌, ◌<◌, ◌≡◌, ◌≢◌, refl, sym, ap, ap₂, ◌∙◌, [], true, ltb, if◌then◌else◌,
  Bool-cases, inl, inr, arith, ltb→lt,
}
use bxos.Scroll.{
  ScrollWin, Line, visible_lines, slot, line_at, bottom, row, drawn, blank, redrawn,
  scrollwin_redraw, follow, settled, set_line, opened, cur_index, with_cur_line, scrollwin_newline,
}
use bxos.Scroll.Ring.{slot-grown, slot_newest, slot_cur, slot_apart}

-- The bounds of the ring, and the place of the window.
pub record IsBounded (w : ScrollWin) : Type 0 where
  pub head : w.head < 512
  pub some_line : 0 < w.count
  pub most : w.count ≤ 512
  pub top : w.scroll_top ≤ bottom w

-- Each row of the window shows what drawing all of it would show.
abbrev pub IsShown : ScrollWin → Type 0
IsShown w = (r : ℕ) → r < visible_lines w → w.shown r ≡ row w w.scroll_top r

pub record IsScroll (w : ScrollWin) : Type 0 where
  pub bounded : IsBounded w
  pub following : w.auto_follow ≡ true → w.scroll_top ≡ bottom w
  pub rows : IsShown w

pub set_line_other :
    (lines : ℕ → Line) (i : ℕ) (line : Line) (j : ℕ) → j ≢ i → set_line lines i line j ≡ lines j
set_line_other lines i line j n = ground arith

pub set_line_self : (lines : ℕ → Line) (i : ℕ) (line : Line) → set_line lines i line i ≡ line
set_line_self lines i line = ground arith

-- the rows but that of the newest line
abbrev IsShownAbove : ScrollWin → Type 0
IsShownAbove w =
    (r : ℕ)
    → r < visible_lines w
    → r ≢ w.count - 1 - w.scroll_top
    → w.shown r ≡ row w w.scroll_top r

redrawn-row :
    (w : ScrollWin) (prev r : ℕ)
    → r < visible_lines w
    → (w.scroll_top ≡ prev → r ≢ w.count - 1 - w.scroll_top → w.shown r ≡ row w w.scroll_top r)
    → redrawn prev w r ≡ row w w.scroll_top r
unfolding redrawn scrollwin_redraw
redrawn-row w prev r a h = ground (arith, h)

follow-top : (w : ScrollWin) → w.scroll_top ≤ bottom w → (follow w).scroll_top ≤ bottom w
follow-top w h = ground (arith, h)

-- a window whose newest line alone has changed
pub settled-IsScroll : (w : ScrollWin) → IsBounded w → IsShownAbove w → IsScroll (settled w)
unfolding row
settled-IsScroll w b h = record {
  bounded = record {
    head = b.head;
    some_line = b.some_line;
    most = b.most;
    top = follow-top w b.top;
  };
  following = λ e. ap (λ f. if f then bottom w else w.scroll_top) e;
  rows = λ r a.
      redrawn-row (follow w) w.scroll_top r a (λ e n.
        h r a (λ p. n (p ∙ ap (λ t. w.count - 1 - t) (sym e))) ∙ ap (λ t. row w t r) (sym e));
}

-- A row depends on the language mode, the count and the line that it shows, if it shows one.
row-same :
    (w v : ScrollWin) (top r : ℕ)
    → (w.langmode ≡ v.langmode)
    → (ltb (top + r) w.count ≡ ltb (top + r) v.count)
    → (top + r < w.count → line_at w (top + r) ≡ line_at v (top + r))
    → row w top r ≡ row v top r
unfolding row
row-same w v top r m e h = elim (Bool-cases (ltb (top + r) w.count)) [
  | inl e1 ↦
      ap₂ (λ b l. if b then drawn w.langmode l else blank) e (h (ltb→lt (top + r) w.count e1))
      ∙ ap (λ k. if ltb (top + r) v.count then drawn k (line_at v (top + r)) else blank) m
  | inr e0 ↦
      ap (λ b. if b then drawn w.langmode (line_at w (top + r)) else blank) e0
      ∙ ap (λ b. if b then drawn v.langmode (line_at v (top + r)) else blank) (sym e0 ∙ e)
]

pub count-opened : (w : ScrollWin) → w.count < 512 → (opened w).count ≡ w.count + 1
count-opened w h = ground arith

-- a line of a ring that grows keeps its place
pub line_at-opened :
    (w : ScrollWin) (i : ℕ)
    → IsBounded w
    → w.count < 512
    → i < w.count
    → line_at (opened w) i ≡ line_at w i
line_at-opened w i b h a =
    ap (λ c. set_line w.lines w.head [] (slot ((w.head + 1) % 512) c i)) (count-opened w h)
    ∙ ap (λ j. set_line w.lines w.head [] j) (slot-grown w.head w.count i b.head h (omega arith))
    ∙ set_line_other w.lines w.head [] (slot w.head w.count i) (λ e.
      slot_apart w.head w.count i w.count b.head b.most (omega arith) h (omega arith)
        (e ∙ sym (slot_newest w.head w.count b.head h)))

module _ (w : ScrollWin) (s : IsScroll w) where
  cur_line_other :
      (line : Line) (i : ℕ)
      → i + 1 < w.count
      → line_at w i ≡ set_line w.lines (cur_index w) line (slot w.head w.count i)
  cur_line_other line i a = sym (
      set_line_other w.lines (cur_index w) line (slot w.head w.count i) (λ e.
        slot_apart w.head w.count i (w.count - 1) s.bounded.head s.bounded.most
          (omega (arith, s.bounded.most)) (omega (arith, s.bounded.most)) (omega arith)
          (e ∙ sym (slot_cur w.head w.count s.bounded.head s.bounded.some_line s.bounded.most))))

  pub with_cur_line-IsScroll : (line : Line) (cx : ℕ) → IsScroll (settled (with_cur_line w line cx))
  with_cur_line-IsScroll line cx =
      settled-IsScroll (with_cur_line w line cx)
        (record {
          head = s.bounded.head;
          some_line = s.bounded.some_line;
          most = s.bounded.most;
          top = s.bounded.top;
        })
        (λ r a n.
          s.rows r a
          ∙ row-same w (with_cur_line w line cx) w.scroll_top r refl refl
              (λ h. cur_line_other line (w.scroll_top + r) (omega arith)))

  pub newline-IsScroll : w.count < 512 → IsScroll (scrollwin_newline w)
  unfolding scrollwin_newline
  newline-IsScroll h =
      settled-IsScroll (opened w)
        (record {
          head = omega arith;
          some_line = ground arith;
          most = ground arith;
          top = ground (arith, s.bounded.top);
        })
        (λ r a n.
          s.rows r a
          ∙ row-same w (opened w) w.scroll_top r refl (ground arith)
              (λ b. sym (line_at-opened w (w.scroll_top + r) s.bounded h b)))

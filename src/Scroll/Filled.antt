-- ===== src/Scroll/Filled.antt =====
-- The windows that tasks of one language mode fill.
use bxos.Common.{
  ℕ, ◌<◌, ◌≡◌, ltb, if◌then◌else◌, arith, length, lt→ltb, false, ap, sym, subst, refl, ◌∙◌, ◌+◌,
  ◌⊎◌, inl, inr, some, [],
}
use bxos.Scroll.{
  ScrollWin, row, scrollwin_redraw, scrollwin_backspace, scrollwin_scroll_to, in_mode, drawn, blank,
  line_at, slot, cur_index, cur_line, scrollwin_init,
}
use bxos.Scroll.Rows.{IsScroll}
use bxos.Scroll.Steps.{
  Step, put, backspace, scroll, put_untabbed-IsScroll, langmode-put, count-Step, backspace-IsScroll,
  scrolled-IsScroll, init-IsScroll, if-langmode,
}

-- A window without text shows the same in every language mode.
abbrev IsBlank : ScrollWin → Type 0
IsBlank w = (i : ℕ) → i < 512 → w.lines i ≡ []

row_blank :
    (m : ℕ) (w : ScrollWin) (top r : ℕ) → IsBlank w → row (in_mode (some m) w) top r ≡ row w top r
unfolding row drawn
row_blank m w top r b =
    let none_here : line_at w (top + r) ≡ [] = b (slot w.head w.count (top + r)) (omega arith) in
    ap (λ l. if ltb (top + r) w.count then drawn m l else blank) none_here
    ∙ sym (ap (λ l. if ltb (top + r) w.count then drawn w.langmode l else blank) none_here)

in_mode-IsScroll : (m : ℕ) (w : ScrollWin) → IsBlank w → IsScroll w → IsScroll (in_mode (some m) w)
in_mode-IsScroll m w b s = record {
  bounded = record {
    head = s.bounded.head;
    some_line = s.bounded.some_line;
    most = s.bounded.most;
    top = s.bounded.top;
  };
  following = s.following;
  rows = λ r a. s.rows r a ∙ sym (row_blank m w w.scroll_top r b);
}

-- what the steps keep, for the language mode of the tasks
record IsKept (m : ℕ) (w : ScrollWin) : Type 0 where
  now : IsScroll w
  mode : (w.langmode ≡ m) ⊎ IsBlank w

kept_in_mode : (m : ℕ) (w : ScrollWin) → IsKept m w → IsScroll (in_mode (some m) w)
kept_in_mode m w k = elim k.mode [
  | inl e ↦ subst IsScroll (ap (λ x. record w { langmode = x }) e) k.now
  | inr b ↦ in_mode-IsScroll m w b k.now
]

backspace_blank : (w : ScrollWin) → IsBlank w → scrollwin_backspace w ≡ w
unfolding scrollwin_backspace
backspace_blank w b =
    let none_here : ltb 0 (length (cur_line w)) ≡ false =
      ap (λ l. ltb 0 (length l)) (b (cur_index w) (omega arith)) in
    rw none_here refl

backspace_mode : (w : ScrollWin) → (scrollwin_backspace w).langmode ≡ w.langmode
unfolding scrollwin_backspace
backspace_mode w = if-langmode (ltb 0 (length (cur_line w))) _ w refl refl

Step-IsKept :
    (g_euckr_to_uhs : ℕ → ℕ) (m : ℕ) (w v : ScrollWin)
    → Step g_euckr_to_uhs m w v
    → w.count < 512
    → IsKept m w
    → IsKept m v
unfolding scrollwin_scroll_to scrollwin_redraw
Step-IsKept g_euckr_to_uhs m _ _ (put w chr fc t) h k = record {
  now = put_untabbed-IsScroll g_euckr_to_uhs (some m) w chr fc h (kept_in_mode m w k);
  mode = inl (langmode-put g_euckr_to_uhs m w chr fc);
}
Step-IsKept g_euckr_to_uhs m _ _ (backspace w) h k = record {
  now = backspace-IsScroll w k.now;
  mode = elim k.mode [
    | inl e ↦ inl (backspace_mode w ∙ e)
    | inr b ↦ inr (subst IsBlank (sym (backspace_blank w b)) b)
  ];
}
Step-IsKept g_euckr_to_uhs m _ _ (scroll w top) h k = record {
  now = scrolled-IsScroll w top k.now;
  mode = elim k.mode [ inl e ↦ inl e | inr b ↦ inr b ];
}

init-IsBlank : (x0 y0 wd ht : ℕ) (w : ScrollWin) → IsBlank (scrollwin_init x0 y0 wd ht w)
unfolding scrollwin_init scrollwin_redraw
init-IsBlank x0 y0 wd ht w i h = ap (λ b. if b then [] else w.lines i) (lt→ltb i 512 h)

-- The windows that the steps lead to from an initialised one.
pub data Filled (g_euckr_to_uhs : ℕ → ℕ) (langmode : ℕ) : ScrollWin → Type 0 where
  start :
      (x0 y0 wd ht : ℕ) (w : ScrollWin)
      → Filled g_euckr_to_uhs langmode (scrollwin_init x0 y0 wd ht w)
  then_step :
      (w v : ScrollWin)
      → Filled g_euckr_to_uhs langmode w
      → Step g_euckr_to_uhs langmode w v
      → Filled g_euckr_to_uhs langmode v

Filled-IsKept :
    (g_euckr_to_uhs : ℕ → ℕ) (m : ℕ) (w : ScrollWin)
    → Filled g_euckr_to_uhs m w
    → w.count < 512
    → IsKept m w
Filled-IsKept g_euckr_to_uhs m _ (start x0 y0 wd ht w) h = record {
  now = init-IsScroll x0 y0 wd ht w;
  mode = inr (init-IsBlank x0 y0 wd ht w);
}
Filled-IsKept g_euckr_to_uhs m _ (then_step w v f s) h =
    let room : w.count < 512 = omega (arith, count-Step g_euckr_to_uhs m w v s) in
    Step-IsKept g_euckr_to_uhs m w v s room (Filled-IsKept g_euckr_to_uhs m w f room)

-- Whatever characters but tabs the tasks of one language mode put, erase and scroll in an initialised
-- window, as long as its ring has room: the ring stays within bounds and the window within the lines,
-- at the newest ones while it follows them; and every row shows what a redraw of the whole window would
-- show there, in the mode that the window has, though often one row only is drawn again.
pub Filled-IsScroll :
    (g_euckr_to_uhs : ℕ → ℕ) (langmode : ℕ) (w : ScrollWin)
    → Filled g_euckr_to_uhs langmode w
    → w.count < 512
    → IsScroll w
Filled-IsScroll g_euckr_to_uhs langmode w f h = (Filled-IsKept g_euckr_to_uhs langmode w f h).now

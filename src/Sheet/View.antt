-- ===== src/Sheet/View.antt =====
-- What is to be seen at a pixel of the screen: which sheets of harib27f/haribote/sheet.c cover it, and
-- the topmost of them.
use bxos.Common.{
  ℕ, zero, suc, ◌+◌, ◌-◌, ◌*◌, List, Bool, true, false, ◌&&◌, ◌||◌, not, ◌==◌, if◌then◌else◌,
  get_or, ◌≡◌, refl, ap, ◌∙◌, arith, Bool-cases, inl, inr,
}
use bxos.Common.Int.{ℤ, pos, to_ℕ, ◌+ℤ◌, ◌-ℤ◌, eqb_ℤ}
use bxos.Sheet.{Rect, Sheet, ShtCtl, Area, sheet_at, shown_at, buffer_row}
use bxos.Sheet.Axis.{between}

abbrev pub in_rect : Rect → ℕ → ℕ → Bool
in_rect r px py = between r.x0 r.x1 px && between r.y0 r.y1 py

-- where the buffer of a sheet has a pixel of the screen
unfoldable pub buffer_at : Sheet → ℕ → ℕ → ℕ
unfolding ◌-ℤ◌
buffer_at sht px py = to_ℕ (pos py -ℤ sht.vy0) * to_ℕ sht.bxsize + to_ℕ (pos px -ℤ sht.vx0)

unfoldable pub colour_at : Sheet → ℕ → ℕ → ℕ
unfolding buffer_at
colour_at sht px py = get_or sht.buf (buffer_at sht px py) 0

-- the colour of a sheet at a pixel of the screen is not seen through
unfoldable pub is_opaque_at : Sheet → ℕ → ℕ → Bool
unfolding colour_at
is_opaque_at sht px py = not (eqb_ℤ (pos (colour_at sht px py)) sht.col_inv)

-- a sheet has a pixel of the screen
unfoldable pub reaches : Sheet → ℕ → ℕ → Bool
unfolding ◌+ℤ◌ between
reaches sht px py =
    between sht.vx0 (sht.vx0 +ℤ sht.bxsize) px && between sht.vy0 (sht.vy0 +ℤ sht.bysize) py

-- a sheet has a pixel of the screen, of a colour that is not seen through
unfoldable pub covers : Sheet → ℕ → ℕ → Bool
unfolding reaches is_opaque_at
covers sht px py = reaches sht px py && is_opaque_at sht px py

-- the topmost of the `k` sheets from height `h` that covers a pixel, or else `old`
unfoldable pub topmost : ShtCtl → ℕ → ℕ → ℕ → ℕ → ℕ → ℕ
topmost ctl zero h px py old = old
topmost ctl (suc k) h px py old =
    let s = shown_at ctl h in
    topmost ctl k (suc h) px py (if covers (sheet_at ctl s) px py then s else old)

abbrev pub rect_from : ℕ → ℕ → ℤ → ℤ → Rect
rect_from x0 y0 x1 y1 = record { x0 = pos x0; y0 = pos y0; x1 = x1; y1 = y1 }

-- one of the `k` sheets from height `h` covers a pixel
unfoldable pub covered : ShtCtl → ℕ → ℕ → ℕ → ℕ → Bool
unfolding covers
covered ctl zero h px py = false
covered ctl (suc k) h px py =
    covers (sheet_at ctl (shown_at ctl h)) px py || covered ctl k (suc h) px py

-- a sheet is one of the `k` from height `h`
unfoldable pub shown_in : List ℕ → ℕ → ℕ → ℕ → Bool
shown_in sheets zero h s = false
shown_in sheets (suc k) h s = (get_or sheets h 0 == s) || shown_in sheets k (suc h) s

pub topmost-uncovered :
    (ctl : ShtCtl) (k h px py old : ℕ)
    → covered ctl k h px py ≡ false
    → topmost ctl k h px py old ≡ old
unfolding topmost covered
topmost-uncovered ctl zero h px py old u = refl
topmost-uncovered ctl (suc k) h px py old u =
    let s = shown_at ctl h in
    topmost-uncovered ctl k (suc h) px py (if covers (sheet_at ctl s) px py then s else old)
      (ground (arith, u))
    ∙ ground (arith, u)

-- What was there before is of no account where a sheet covers the pixel.
pub topmost-old :
    (ctl : ShtCtl) (k h px py a b : ℕ)
    → covered ctl k h px py ≡ true
    → topmost ctl k h px py a ≡ topmost ctl k h px py b
unfolding topmost covered
topmost-old ctl zero h px py a b c = absurd (ground (arith, c))
topmost-old ctl (suc k) h px py a b c =
    let s = shown_at ctl h in
    elim (Bool-cases (covers (sheet_at ctl s) px py)) [
      | inl e ↦ rw e refl
      | inr e ↦ rw e (topmost-old ctl k (suc h) px py a b (ground (arith, c, e)))
    ]

-- The topmost sheet that covers a pixel is shown and covers it.
pub topmost-covers :
    (ctl : ShtCtl) (k h px py old : ℕ)
    → covered ctl k h px py ≡ true
    → (shown_in ctl.sheets k h (topmost ctl k h px py old) ≡ true)
      × (covers (sheet_at ctl (topmost ctl k h px py old)) px py ≡ true)
unfolding topmost covered shown_in
topmost-covers ctl zero h px py old c = absurd (ground (arith, c))
topmost-covers ctl (suc k) h px py old c =
    let s = shown_at ctl h in
    let old' = if covers (sheet_at ctl s) px py then s else old in
    elim (Bool-cases (covered ctl k (suc h) px py)) [
      | inl e ↦ let (i, j) = topmost-covers ctl k (suc h) px py old' e in (ground (arith, i), j)
      | inr e ↦
          let here : covers (sheet_at ctl s) px py ≡ true = ground (arith, c, e) in
          rw (topmost-uncovered ctl k (suc h) px py old' e, here) (ground arith, here)
    ]

-- the index that the loops compute
pub buffer_row-pixel :
    (sht : Sheet) (a : Area) (px py : ℕ)
    → a.bx + (px - a.x) ≡ to_ℕ (pos px -ℤ sht.vx0)
    → a.by + (py - a.y) ≡ to_ℕ (pos py -ℤ sht.vy0)
    → buffer_row sht a (py - a.y) + (px - a.x) ≡ buffer_at sht px py
unfolding buffer_at
buffer_row-pixel sht a px py ex ey =
    let rows_at : (a.by + (py - a.y)) * to_ℕ sht.bxsize
        ≡ to_ℕ (pos py -ℤ sht.vy0) * to_ℕ sht.bxsize =
      ap (λ b. b * to_ℕ sht.bxsize) ey in
    omega (arith, rows_at, ex)

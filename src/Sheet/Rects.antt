-- ===== src/Sheet/Rects.antt =====
-- Lists of rectangles (harib27f/haribote/sheet.c, `sheet_dirty_add`): the pixels that one of them has.
use bxos.Common.{
  ℕ, zero, suc, ◌+◌, ◌≤◌, ◌<◌, List, Bool, true, false, ◌||◌, ◌==◌, if◌then◌else◌, get_or, set,
  length, ◌≡◌, refl, ap, arith, Bool-cases, inl, inr,
}
use bxos.Common.Int.{ℤ, pos, negsuc, ◌≤ℤ◌, ltb_ℤ}
use bxos.Common.Bytes.{get_or-set}
use bxos.Sheet.{Rect, no_rect}
use bxos.Sheet.Axis.{between}
use bxos.Sheet.View.{in_rect}
use bxos.Sheet.Dirty.{short, rect_union, short_rect}

-- one of the first `k` rectangles has a pixel of the buffer
unfoldable pub pending_in : List Rect → ℕ → ℕ → ℕ → Bool
pending_in rects zero px py = false
pending_in rects (suc k) px py = in_rect (get_or rects k no_rect) px py || pending_in rects k px py

-- what a rectangle at an index has is pending
pub pending_in-at :
    (rects : List Rect) (k i px py : ℕ)
    → i < k
    → in_rect (get_or rects i no_rect) px py ≡ true
    → pending_in rects k px py ≡ true
unfolding pending_in
pending_in-at rects zero i px py l e = absurd (omega arith)
pending_in-at rects (suc k) i px py l e = elim (Bool-cases (i == k)) [
  | inl c ↦ ground (arith, e, λ (d : i ≡ k). ap (λ j. in_rect (get_or rects j no_rect) px py) d, c)
  | inr c ↦ ground (arith, c, pending_in-at rects k i px py)
]

-- `z` fits in the 15 bits of a coordinate
abbrev pub IsShort : ℤ → Type 0
IsShort z = (pos 0 ≤ℤ z) × (z ≤ℤ pos 32767)

short_same : (z : ℤ) → IsShort z → short z ≡ z
unfolding short
short_same (pos k) (lo, hi) = ground arith
short_same (negsuc k) (lo, hi) = absurd (omega arith)

between-wider :
    (a0 a1 r0 r1 : ℤ) (p : ℕ)
    → (between a0 a1 p || between r0 r1 p) ≡ true
    → between (if ltb_ℤ r0 a0 then r0 else a0) (if ltb_ℤ a1 r1 then r1 else a1) p ≡ true
unfolding between
between-wider a0 a1 r0 r1 p e = ground arith

-- A union has what either has.
pub rect_union-has :
    (a r : Rect) (px py : ℕ)
    → IsShort r.x0
    → IsShort r.y0
    → IsShort r.x1
    → IsShort r.y1
    → (in_rect a px py || in_rect r px py) ≡ true
    → in_rect (rect_union a r) px py ≡ true
unfolding rect_union
rect_union-has a r px py hx0 hy0 hx1 hy1 e =
    rw (short_same r.x0 hx0, short_same r.y0 hy0, short_same r.x1 hx1, short_same r.y1 hy1)
      (ground
        (arith, e, between-wider a.x0 a.x1 r.x0 r.x1 px, between-wider a.y0 a.y1 r.y0 r.y1 py))

-- Setting one of the rectangles to one that has more loses nothing.
pending_in-set :
    (rects : List Rect) (k i : ℕ) (r : Rect) (px py : ℕ)
    → i < length rects
    → (in_rect (get_or rects i no_rect) px py ≡ true → in_rect r px py ≡ true)
    → pending_in rects k px py ≡ true
    → pending_in (set rects i r) k px py ≡ true
unfolding pending_in
pending_in-set rects zero i r px py l f e = absurd (ground (arith, e))
pending_in-set rects (suc k) i r px py l f e =
    rw (get_or-set rects i k r no_rect l) (elim (Bool-cases (k == i)) [
      | inl c ↦ rw c (
          ground (
            arith,
            e,
            c,
            f,
            λ (d : k ≡ i). ap (λ j. in_rect (get_or rects j no_rect) px py) d,
            pending_in-set rects k i r px py l f,
          ))
      | inr c ↦ rw c (ground (arith, e, pending_in-set rects k i r px py l f))
    ])

pending_in-above :
    (rects : List Rect) (k i : ℕ) (r : Rect) (px py : ℕ)
    → i < length rects
    → k ≤ i
    → pending_in (set rects i r) k px py ≡ pending_in rects k px py
unfolding pending_in
pending_in-above rects zero i r px py l h = refl
pending_in-above rects (suc k) i r px py l h =
    let other : (k == i) ≡ false = ground arith in
    rw (get_or-set rects i k r no_rect l, other)
      (ap (λ b. in_rect (get_or rects k no_rect) px py || b)
        (pending_in-above rects k i r px py l (omega arith)))

-- One rectangle more.
pub pending_in-append :
    (rects : List Rect) (n : ℕ) (r : Rect) (px py : ℕ)
    → n < length rects
    → (pending_in rects n px py || in_rect r px py) ≡ true
    → pending_in (set rects n r) (n + 1) px py ≡ true
unfolding pending_in
pending_in-append rects n r px py l e =
    let next : n + 1 ≡ suc n = omega arith in
    let here : (n == n) ≡ true = ground arith in
    rw
      (
        next,
        get_or-set rects n n r no_rect l,
        here,
        pending_in-above rects n n r px py l (omega arith),
      )
      (ground (arith, e))

-- A rectangle that becomes wider.
pub pending_in-widen :
    (rects : List Rect) (k i : ℕ) (r u : Rect) (px py : ℕ)
    → i < length rects
    → i < k
    → ((in_rect (get_or rects i no_rect) px py || in_rect r px py) ≡ true → in_rect u px py ≡ true)
    → (pending_in rects k px py || in_rect r px py) ≡ true
    → pending_in (set rects i u) k px py ≡ true
pending_in-widen rects k i r u px py l h f e =
    let here : (i == i) ≡ true = ground arith in
    let at : get_or (set rects i u) i no_rect ≡ u =
      rw (get_or-set rects i i u no_rect l, here) refl in
    elim (Bool-cases (in_rect r px py)) [
      | inl c ↦ pending_in-at (set rects i u) k i px py h (rw at (f (ground (arith, c))))
      | inr c ↦
          pending_in-set rects k i u px py l (λ d. f (ground (arith, d))) (ground (arith, c, e))
    ]

pub short_rect-same :
    (r : Rect) → IsShort r.x0 → IsShort r.y0 → IsShort r.x1 → IsShort r.y1 → short_rect r ≡ r
short_rect-same r hx0 hy0 hx1 hy1 =
    rw (short_same r.x0 hx0, short_same r.y0 hy0, short_same r.x1 hx1, short_same r.y1 hy1) refl

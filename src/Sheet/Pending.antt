-- ===== src/Sheet/Pending.antt =====
-- `sheet_dirty_add` (harib27f/haribote/sheet.c) forgets no pixel that waits to be drawn.
use bxos.Common.{
  ℕ, zero, suc, ◌+◌, ◌-◌, ◌%◌, ◌≤◌, ◌<◌, Bool, true, false, ◌&&◌, ◌||◌, not, ltb, ◌==◌,
  if◌then◌else◌, length, ◌≡◌, refl, subst, arith, Bool-cases, inl, inr,
}
use bxos.Common.Int.{ℤ, pos, ◌≤ℤ◌, ltb_ℤ, max_ℤ, min_ℤ}
use bxos.Sheet.{Rect, Sheet}
use bxos.Sheet.Axis.{between}
use bxos.Sheet.View.{in_rect}
use bxos.Sheet.Dirty.{
  rect_union, rect_merge_cost, best_from, add_rect, sheet_dirty_add, dirty_at, sheet_dirty_max,
  in_buffer, is_empty,
}
use bxos.Sheet.Rects.{
  pending_in, IsShort, pending_in-append, pending_in-widen, rect_union-has, short_rect-same,
}

unfoldable pub pending : Sheet → ℕ → ℕ → Bool
unfolding pending_in
pending sht px py = pending_in sht.dirty_rect sht.dirty_count px py

best_from-in_range :
    (sht : Sheet) (r : Rect) (k i b : ℕ) (c : ℤ)
    → i + k ≤ sheet_dirty_max
    → b < sheet_dirty_max
    → best_from sht r k i b c < sheet_dirty_max
unfolding best_from
best_from-in_range sht r zero i b c l h = h
best_from-in_range sht r (suc k) i b c l h =
    let cost = rect_merge_cost (dirty_at sht i) r in
    let better = ltb_ℤ cost c in
    best_from-in_range sht r k (suc i) (if better then i else b) (if better then cost else c)
      (omega arith) (ground arith)

-- A sheet of which the buffer and the rectangles can be counted with `short`.
abbrev pub IsDirty : Sheet → Type 0
IsDirty sht =
    (sht.dirty_count ≤ sheet_dirty_max)
    × (length sht.dirty_rect ≡ sheet_dirty_max)
    × (sht.bxsize ≤ℤ pos 32767)
    × (sht.bysize ≤ℤ pos 32767)

not_lt : (a b : ℕ) → ltb a b ≡ false → b ≤ a
not_lt a b e = ground arith

not_or_left : (a b : Bool) → (not a || not b) ≡ false → a ≡ true
not_or_left a b e = ground (arith, e)

not_or_right : (a b : Bool) → (not a || not b) ≡ false → b ≡ true
not_or_right a b e = ground (arith, e)

or_only : (a b : Bool) → (a || b) ≡ true → b ≡ false → a ≡ true
or_only a b e h = ground (arith, e, h)

add_rect-pending :
    (sht : Sheet) (r : Rect) (px py : ℕ)
    → IsDirty sht
    → IsShort r.x0
    → IsShort r.y0
    → IsShort r.x1
    → IsShort r.y1
    → (pending sht px py || in_rect r px py) ≡ true
    → pending (add_rect sht r) px py ≡ true
unfolding add_rect pending pending_in
add_rect-pending sht r px py (lc, ll, _, _) hx0 hy0 hx1 hy1 e =
    let best = best_from sht r (sheet_dirty_max - 1) 1 0 (rect_merge_cost (dirty_at sht 0) r) in
    let low : best < sheet_dirty_max =
      best_from-in_range sht r (sheet_dirty_max - 1) 1 0 (rect_merge_cost (dirty_at sht 0) r)
        (omega arith) (omega arith) in
    elim (Bool-cases (ltb sht.dirty_count sheet_dirty_max)) [
      | inl c ↦
          rw (c, short_rect-same r hx0 hy0 hx1 hy1)
            (pending_in-append sht.dirty_rect sht.dirty_count r px py (ground (arith, ll, c)) e)
      | inr c ↦ rw c (
          pending_in-widen sht.dirty_rect sht.dirty_count best r (rect_union (dirty_at sht best) r)
            px py (omega (arith, low, ll))
            (omega (arith, low, not_lt sht.dirty_count sheet_dirty_max c))
            (rect_union-has (dirty_at sht best) r px py hx0 hy0 hx1 hy1) e)
    ]

clip_lem :
    (z0 z1 size : ℤ)
    → ltb_ℤ (max_ℤ z0 (pos 0)) (min_ℤ z1 size) ≡ true
    → size ≤ℤ pos 32767
    → IsShort (max_ℤ z0 (pos 0)) × IsShort (min_ℤ z1 size)
clip_lem z0 z1 size e h = ground arith

empty_lem : (a b : ℤ) (p : ℕ) → between a b p ≡ true → ltb_ℤ a b ≡ true
unfolding between
empty_lem a b p e = ground arith

wider_lem :
    (z0 z1 size : ℤ) (p : ℕ)
    → between (max_ℤ z0 (pos 0)) (min_ℤ z1 size) p ≡ true
    → ltb_ℤ z0 z1 ≡ true
unfolding between
wider_lem z0 z1 size p e = ground arith

-- An empty rectangle has no pixel.
in_rect-empty : (r : Rect) (px py : ℕ) → is_empty r ≡ true → in_rect r px py ≡ false
in_rect-empty r px py e = ground (arith, e, empty_lem r.x0 r.x1 px, empty_lem r.y0 r.y1 py)

in_buffer-empty :
    (sht : Sheet) (r : Rect) (px py : ℕ)
    → is_empty r ≡ true
    → in_rect (in_buffer sht r) px py ≡ false
in_buffer-empty sht r px py e =
    ground (arith, e, wider_lem r.x0 r.x1 sht.bxsize px, wider_lem r.y0 r.y1 sht.bysize py)

-- The clipped rectangle fits in the 16 bits.
add_clipped :
    (sht : Sheet) (r : Rect) (px py : ℕ)
    → IsDirty sht
    → is_empty (in_buffer sht r) ≡ false
    → (pending sht px py || in_rect (in_buffer sht r) px py) ≡ true
    → pending (add_rect sht (in_buffer sht r)) px py ≡ true
add_clipped sht r px py d e h =
    let (_, _, wx, wy) = d in
    let (sx0, sx1) =
      clip_lem r.x0 r.x1 sht.bxsize
        (not_or_left (ltb_ℤ (in_buffer sht r).x0 (in_buffer sht r).x1) _ e) wx in
    let (sy0, sy1) =
      clip_lem r.y0 r.y1 sht.bysize
        (not_or_right _ (ltb_ℤ (in_buffer sht r).y0 (in_buffer sht r).y1) e) wy in
    add_rect-pending sht (in_buffer sht r) px py d sx0 sy0 sx1 sy1 h

-- The pixels that wait to be drawn still wait after a rectangle is added, and those of the rectangle
-- that lie in the buffer of a sheet in use wait too. The sizes of the buffer are at most 32767.
pub sheet_dirty_add-pending :
    (sht : Sheet) (r : Rect) (px py : ℕ)
    → IsDirty sht
    → (pending sht px py || (not (sht.flags % 2 == 0) && in_rect (in_buffer sht r) px py)) ≡ true
    → pending (sheet_dirty_add sht r) px py ≡ true
unfolding sheet_dirty_add
sheet_dirty_add-pending sht r px py d e = elim (Bool-cases (sht.flags % 2 == 0)) [
  | inl unused ↦ rw unused (or_only (pending sht px py) _ e (rw unused refl))
  | inr used ↦ rw used (elim (Bool-cases (is_empty r)) [
    | inl c ↦ rw c (or_only (pending sht px py) _ e (rw (used, in_buffer-empty sht r px py c) refl))
    | inr c ↦ rw c (elim (Bool-cases (is_empty (in_buffer sht r))) [
      | inl c' ↦ rw c' (
          or_only (pending sht px py) _ e
            (rw (used, in_rect-empty (in_buffer sht r) px py c') refl))
      | inr c' ↦ rw c' (
          add_clipped sht r px py d c' (
            subst (λ u. (pending sht px py || (not u && in_rect (in_buffer sht r) px py)) ≡ true)
              used e))
    ])
  ])
]

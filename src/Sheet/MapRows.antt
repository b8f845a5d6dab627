-- ===== src/Sheet/MapRows.antt =====
-- The rows that a sheet has in the map (`sheet_refreshmap` of harib27f/haribote/sheet.c), by the pixel.
use bxos.Common.{
  ℕ, ◌+◌, ◌-◌, ◌*◌, ◌≤◌, ◌<◌, none, List, true, ◌&&◌, ◌||◌, not, ◌==◌, if◌then◌else◌, get_or,
  length, ◌≡◌, refl, ap, ◌∙◌, arith, Bool-cases, inl, inr,
}
use bxos.Common.Int.{ℤ, pos, minus, to_ℕ, ◌-ℤ◌, eqb_ℤ}
use bxos.Common.Bytes.{memset, length-write_range}
use bxos.Sheet.{Sheet, ShtCtl, Area, screen_row, buffer_row, is_opaque, map_row, map_area}
use bxos.Sheet.Runs.{within, Writes, get_or-write_range, length-runs, get_or-runs}
use bxos.Sheet.Pixels.{length-rows, get_or-rows}
use bxos.Sheet.View.{is_opaque_at, buffer_row-pixel}

memset-Writes : (base s : ℕ) → Writes (λ start len m. memset m (base + start) s len) base (λ _. s)
memset-Writes base s = record {
  length-emit = λ start n m. length-write_range n (base + start) 0 (λ _. s) m;
  get_or-emit = λ start n m q l. get_or-write_range n (base + start) 0 (λ _. s) m q l;
}

opaque_colour : (c : ℕ) (z : ℤ) → eqb_ℤ z (minus 1) ≡ true → not (eqb_ℤ (pos c) z) ≡ true
opaque_colour c z h = ground arith

module _ (ctl : ShtCtl) (s : ℕ) (sht : Sheet) (a : Area) where
  length-map_row : (j : ℕ) (m : List ℕ) → length (map_row ctl s sht a j m) ≡ length m
  unfolding map_row
  length-map_row j m = elim (Bool-cases (eqb_ℤ sht.col_inv (minus 1))) [
    | inl e ↦ rw e (length-write_range a.w (screen_row ctl a j) 0 (λ _. s) m)
    | inr e ↦ rw e (
        length-runs (is_opaque sht a j) _ (screen_row ctl a j) (λ _. s)
          (memset-Writes (screen_row ctl a j) s) a.w 0 none m)
  ]

  get_or-map_row :
      (j : ℕ) (m : List ℕ) (q : ℕ)
      → screen_row ctl a j + a.w ≤ length m
      → get_or (map_row ctl s sht a j m) q 0 ≡ (
          if within (screen_row ctl a j) a.w q && is_opaque sht a j (q - screen_row ctl a j)
          then s
          else get_or m q 0)
  unfolding map_row
  get_or-map_row j m q l = elim (Bool-cases (eqb_ℤ sht.col_inv (minus 1))) [
    | inl e ↦
        rw
          (
            e,
            opaque_colour (get_or sht.buf (buffer_row sht a j + (q - screen_row ctl a j)) 0)
                sht.col_inv e,
          )
          (get_or-write_range a.w (screen_row ctl a j) 0 (λ _. s) m q l ∙ ground arith)
    | inr e ↦ rw e (
        get_or-runs (is_opaque sht a j) _ (screen_row ctl a j) (λ _. s)
          (memset-Writes (screen_row ctl a j) s) a.w 0 none m q (omega arith) (omega arith)
        ∙ ground arith)
  ]

same_end : (y h : ℕ) → y + 0 + h ≡ y + h
same_end y h = omega arith

module _ (sht : Sheet) (a : Area) where
  -- The colour that the loop reads is that of the pixel.
  pub is_opaque-pixel :
      (px py : ℕ)
      → a.bx + (px - a.x) ≡ to_ℕ (pos px -ℤ sht.vx0)
      → a.by + (py - a.y) ≡ to_ℕ (pos py -ℤ sht.vy0)
      → is_opaque sht a (py - a.y) (px - a.x) ≡ is_opaque_at sht px py
  unfolding is_opaque_at
  is_opaque-pixel px py ex ey =
      ap (λ i. not (eqb_ℤ (pos (get_or sht.buf i 0)) sht.col_inv))
        (buffer_row-pixel sht a px py ex ey)

  module _ (ctl : ShtCtl) (s : ℕ) where
    pub length-map_area : (m : List ℕ) → length (map_area ctl s sht a m) ≡ length m
    unfolding map_area
    length-map_area m = elim (Bool-cases ((a.w == 0) || (a.h == 0))) [
      | inl e ↦ rw e refl
      | inr e ↦ rw e (length-rows (map_row ctl s sht a) (length-map_row ctl s sht a) a.h 0 m)
    ]

    pub get_or-map_area :
        (m : List ℕ) (px py : ℕ)
        → (0 < a.w → a.x + a.w ≤ to_ℕ ctl.xsize)
        → (0 < a.h → (a.y + a.h) * to_ℕ ctl.xsize ≤ length m)
        → px < to_ℕ ctl.xsize
        → get_or (map_area ctl s sht a m) (py * to_ℕ ctl.xsize + px) 0 ≡ (
            if within a.y a.h py && within a.x a.w px && is_opaque sht a (py - a.y) (px - a.x)
            then s
            else get_or m (py * to_ℕ ctl.xsize + px) 0)
    unfolding map_area
    get_or-map_area m px py fx fy p = elim (Bool-cases ((a.w == 0) || (a.h == 0))) [
      | inl e ↦ rw e (ground (arith, e))
      | inr e ↦ rw e (
          get_or-rows (to_ℕ ctl.xsize) a.x a.w (map_row ctl s sht a) a.y (is_opaque sht a)
            (λ _ _. s) (fx (ground (arith, e))) (length-map_row ctl s sht a)
            (get_or-map_row ctl s sht a) a.h 0 m px py p
            (rw (same_end a.y a.h) (fy (ground (arith, e))))
          ∙ ground arith)
    ]

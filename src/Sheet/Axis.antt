-- ===== src/Sheet/Axis.antt =====
-- The clipping of `sheet_refreshmap` and `sheet_refreshsub` (harib27f/haribote/sheet.c) along one axis:
-- from `r0` to `r1` on the screen, for a sheet at `v` of a size.
use bxos.Common.{
  ℕ, ◌+◌, ◌-◌, ◌≤◌, ◌<◌, Bool, ◌&&◌, not, ltb, leb, ◌≡◌, ◌⊎◌, inl, inr, ap, ap₂, ◌∙◌, Bool-cases,
  arith,
}
use bxos.Common.Int.{
  ℤ, pos, negsuc, to_ℕ, ◌+ℤ◌, ◌-ℤ◌, ◌≤ℤ◌, ltb_ℤ, max_ℤ, min_ℤ, pos_part, neg_part,
}
use bxos.Sheet.{start_of, screen_of, end_of, length_of}
use bxos.Sheet.Runs.{within}

-- `a ≤ p < b`
unfoldable pub between : ℤ → ℤ → ℕ → Bool
between a b p = not (ltb_ℤ (pos p) a) && ltb_ℤ (pos p) b

pub length_of-fits :
    (a n : ℕ) (r1 v size : ℤ)
    → r1 ≤ℤ pos n
    → 0 < length_of (pos a) r1 v size
    → screen_of (pos a) v + length_of (pos a) r1 v size ≤ n
unfolding ◌+ℤ◌ ◌-ℤ◌ start_of screen_of end_of length_of
length_of-fits a n r1 v size h k = ground arith

-- where the sheet's pixels begin to be on the screen
start_lem :
    (a : ℕ) (v : ℤ)
    → (start_of (pos a) v ≡ pos (to_ℕ (start_of (pos a) v)))
      × (pos_part v + to_ℕ (start_of (pos a) v) ≡ neg_part v + screen_of (pos a) v)
      × (a ≤ screen_of (pos a) v)
      × (pos_part v ≤ neg_part v + screen_of (pos a) v)
      × ((screen_of (pos a) v ≡ a) ⊎ (to_ℕ (start_of (pos a) v) ≡ 0))
unfolding ◌+ℤ◌ ◌-ℤ◌ start_of screen_of
start_lem a (pos v) = ground arith
start_lem a (negsuc v) = ground arith

ltb_length : (k b : ℕ) (e : ℤ) → ltb k (to_ℕ (e -ℤ pos b)) ≡ ltb_ℤ (pos (b + k)) e
unfolding ◌-ℤ◌
ltb_length k b (pos e) = ground arith
ltb_length k b (negsuc e) = ground arith

to_ℕ-sub_ℤ : (p : ℕ) (v : ℤ) (k : ℕ) → pos_part v + k ≡ neg_part v + p → k ≡ to_ℕ (pos p -ℤ v)
unfolding ◌-ℤ◌
to_ℕ-sub_ℤ p v k h = ground arith

ltb_shift : (p x n : ℕ) → x ≤ p → ltb p (x + n) ≡ ltb (p - x) n
ltb_shift p x n h = ground arith

ltb-min_ℤ : (x a b : ℤ) → ltb_ℤ x (min_ℤ a b) ≡ (ltb_ℤ x a && ltb_ℤ x b)
ltb-min_ℤ x a b = ground arith

ltb-sub_ℤ :
    (k p : ℕ) (r v : ℤ) → pos_part v + k ≡ neg_part v + p → ltb_ℤ (pos k) (r -ℤ v) ≡ ltb_ℤ (pos p) r
unfolding ◌-ℤ◌
ltb-sub_ℤ k p r v h = ground arith

ltb-add_ℤ :
    (k p : ℕ) (size v : ℤ)
    → pos_part v + k ≡ neg_part v + p
    → ltb_ℤ (pos k) size ≡ ltb_ℤ (pos p) (v +ℤ size)
unfolding ◌+ℤ◌
ltb-add_ℤ k p r v h = ground arith

ltb-length_of :
    (a : ℕ) (r1 v size : ℤ) (p : ℕ)
    → screen_of (pos a) v ≤ p
    → ltb p (screen_of (pos a) v + length_of (pos a) r1 v size)
      ≡ (ltb_ℤ (pos p) r1 && ltb_ℤ (pos p) (v +ℤ size))
unfolding length_of end_of
ltb-length_of a r1 v size p h =
    let x = screen_of (pos a) v in
    let b = to_ℕ (start_of (pos a) v) in
    let k = p - x in
    let (nonneg, same, _, _, _) = start_lem a v in
    let offset : pos_part v + (b + k) ≡ neg_part v + p = omega (arith, same) in
    let shifted : ltb p (x + length_of (pos a) r1 v size) ≡ ltb k (length_of (pos a) r1 v size) =
      ltb_shift p x (length_of (pos a) r1 v size) h in
    shifted
    ∙ ap (λ c. ltb k (to_ℕ (end_of r1 v size -ℤ c))) nonneg
    ∙ ltb_length k b (end_of r1 v size)
    ∙ ltb-min_ℤ (pos (b + k)) (r1 -ℤ v) size
    ∙ ap₂ (λ c d. c && d) (ltb-sub_ℤ (b + k) p r1 v offset) (ltb-add_ℤ (b + k) p size v offset)

-- The pixels that the loop takes are those in the stretch and in the sheet.
pub within-screen_of :
    (a : ℕ) (r1 v size : ℤ) (p : ℕ)
    → within (screen_of (pos a) v) (length_of (pos a) r1 v size) p
      ≡ (between (pos a) r1 p && between v (v +ℤ size) p)
unfolding between
within-screen_of a r1 v size p =
    let (_, same, low, low_v, or) = start_lem a v in
    elim (Bool-cases (leb (screen_of (pos a) v) p)) [
      | inl e ↦ ground (arith, e, low, low_v, ltb-length_of a r1 v size p)
      | inr e ↦ ground (arith, e, same, or)
    ]

-- the same pixel, in the sheet
pub start_of-offset :
    (a : ℕ) (v : ℤ) (p : ℕ)
    → screen_of (pos a) v ≤ p
    → to_ℕ (start_of (pos a) v) + (p - screen_of (pos a) v) ≡ to_ℕ (pos p -ℤ v)
start_of-offset a v p h =
    let (_, same, low, low_v, or) = start_lem a v in
    to_ℕ-sub_ℤ p v (to_ℕ (start_of (pos a) v) + (p - screen_of (pos a) v)) (omega (arith, same))

pub max_zero : (z : ℤ) → max_ℤ z (pos 0) ≡ pos (to_ℕ (max_ℤ z (pos 0)))
max_zero (pos n) = ground arith
max_zero (negsuc n) = ground arith

pub min_le : (a size : ℤ) → min_ℤ a size ≤ℤ pos (to_ℕ size)
min_le a (pos n) = ground arith
min_le a (negsuc n) = ground arith

pub between-clip :
    (a b size : ℤ) (p : ℕ)
    → p < to_ℕ size
    → between (pos (to_ℕ (max_ℤ a (pos 0)))) (min_ℤ b size) p ≡ between a b p
unfolding between
between-clip (pos a) b (pos n) p h = ground arith
between-clip (negsuc a) b (pos n) p h = ground arith
between-clip a b (negsuc n) p h = absurd (omega arith)

-- ===== src/Sheet/Pixels.antt =====
-- The rows of `sheet_refreshmap` and `sheet_refreshsub` (harib27f/haribote/sheet.c), seen by the pixel:
-- pixel (px, py) of an array of rows of `n` pixels is at `py * n + px`.
use bxos.Common.{
  ℕ, zero, suc, ◌+◌, ◌-◌, ◌*◌, ◌≤◌, ◌<◌, List, Bool, ◌&&◌, ◌==◌, if◌then◌else◌, get_or, length, ◌≡◌,
  refl, ap, ap₂, arith, ◌∙◌,
}
use bxos.Sheet.{rows}
use bxos.Sheet.Runs.{within}

pub mul_lt : (a b n : ℕ) → a < b → a * n + n ≤ b * n
mul_lt a zero n h = absurd (omega arith)
mul_lt zero (suc b) n h = omega arith
mul_lt (suc a) (suc b) n h = omega (arith, mul_lt a b n (omega arith))

-- A pixel is in a row's stretch when it is of that row and its column is.
within_row :
    (n c x w px py : ℕ)
    → px < n
    → x + w ≤ n
    → within (c * n + x) w (py * n + px) ≡ ((c == py) && within x w px)
within_row n c x w px py p h =
    ground (arith, mul_lt c py n, mul_lt py c n, λ (e : c ≡ py). ap (λ a. a * n) e)

pub mul_le : (a b n : ℕ) → a ≤ b → a * n ≤ b * n
mul_le zero b n h = omega arith
mul_le (suc a) zero n h = absurd (omega arith)
mul_le (suc a) (suc b) n h = omega (arith, mul_le a b n (omega arith))

pub length-rows :
    (row : ℕ → List ℕ → List ℕ)
    → ((j : ℕ) (m : List ℕ) → length (row j m) ≡ length m)
    → (k j : ℕ) (m : List ℕ) → length (rows row k j m) ≡ length m
unfolding rows
length-rows row same zero j m = refl
length-rows row same (suc k) j m = omega (arith, length-rows row same k (suc j) (row j m), same j m)

module _ (n x w : ℕ) (row : ℕ → List ℕ → List ℕ) (y : ℕ) (test : ℕ → ℕ → Bool) (val : ℕ → ℕ → ℕ)
    (fits : x + w ≤ n) (length-row : (j : ℕ) (m : List ℕ) → length (row j m) ≡ length m)
    (get_or-row : (j : ℕ) (m : List ℕ) (q : ℕ)
      → (y + j) * n + x + w ≤ length m
      → get_or (row j m) q 0 ≡ (
          if within ((y + j) * n + x) w q && test j (q - ((y + j) * n + x))
          then val j (q - ((y + j) * n + x))
          else get_or m q 0)) where
  same_pixel :
      {A : Type 0} (f : ℕ → ℕ → A) (j px py : ℕ)
      → y + j ≡ py
      → x ≤ px
      → f j (py * n + px - ((y + j) * n + x)) ≡ f (py - y) (px - x)
  same_pixel f j px py e h =
      let row_at : (y + j) * n ≡ py * n = ap (λ a. a * n) e in
      ap₂ f (omega arith) (omega (arith, row_at))

  -- a pixel after one row
  row_pixel :
      (j : ℕ) (m : List ℕ) (px py : ℕ)
      → px < n
      → (y + j + 1) * n ≤ length m
      → get_or (row j m) (py * n + px) 0 ≡ (
          if ((y + j) == py) && within x w px && test (py - y) (px - x)
          then val (py - y) (px - x)
          else get_or m (py * n + px) 0)
  row_pixel j m px py p l =
      get_or-row j m (py * n + px) (omega arith)
      ∙ rw (within_row n (y + j) x w px py p fits)
          (ground (arith, same_pixel {A = Bool} test j px py, same_pixel {A = ℕ} val j px py))

  pub get_or-rows :
      (k j : ℕ) (m : List ℕ) (px py : ℕ)
      → px < n
      → (y + j + k) * n ≤ length m
      → get_or (rows row k j m) (py * n + px) 0 ≡ (
          if within (y + j) k py && within x w px && test (py - y) (px - x)
          then val (py - y) (px - x)
          else get_or m (py * n + px) 0)
  unfolding rows
  get_or-rows zero j m px py p l = ground arith
  get_or-rows (suc k) j m px py p l =
      get_or-rows k (suc j) (row j m) px py p (omega (arith, length-row j m))
      ∙ ground (arith, row_pixel j m px py p (omega arith))

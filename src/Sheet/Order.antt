-- ===== src/Sheet/Order.antt =====
-- `sheet_updown` (harib27f/haribote/sheet.c) keeps the stack of sheets whole.
use bxos.Common.{
  ℕ, suc, ◌≤◌, ◌<◌, ◌==◌, if◌then◌else◌, length, ◌≡◌, ◌≢◌, subst, sym, ap, ◌∙◌, arith, inl, inr,
}
use bxos.Common.Int.{ℤ, pos, negsuc, ◌-ℤ◌}
use bxos.Sheet.{ShtCtl, shown_at}
use bxos.Sheet.Hole.{IsHole, height_at, pos-inj, same-cases}

-- Each of the `n` heights has a sheet that knows it, and a sheet that has a height is there.
pub record IsFull (sa : ℕ → ℕ) (ha : ℕ → ℤ) (len n : ℕ) : Type 0 where
  pub knows : (h : ℕ) → h < n → ha (sa h) ≡ pos h
  pub exists : (h : ℕ) → h < n → sa h < len
  pub in_range : (t h : ℕ) → t < len → ha t ≡ pos h → h < n
  pub at_height : (t h : ℕ) → t < len → ha t ≡ pos h → sa h ≡ t

-- a stack with `n` sheets shown
abbrev pub IsStack : ShtCtl → ℕ → Type 0
IsStack ctl n =
    (ctl.top ≡ pos n -ℤ pos 1)
    × (n ≤ length ctl.sheets)
    × IsFull (shown_at ctl) (height_at ctl) (length ctl.sheets0) n

module _ (sa : ℕ → ℕ) (ha : ℕ → ℤ) (len n g s : ℕ) (i : IsHole sa ha len n g s) where
  pub IsFull-put :
      (sa' : ℕ → ℕ)
      → ((j : ℕ) → sa' j ≡ (if j == g then s else sa j))
      → g < n
      → s < len
      → ha s ≡ pos g
      → IsFull sa' ha len n
  IsFull-put sa' eq l ls e =
      let here : (j : ℕ) → j ≡ g → sa' j ≡ s = λ j same. ground (arith, eq j, same) in
      let there : (j : ℕ) → j ≢ g → sa' j ≡ sa j = λ j other. ground (arith, eq j, other) in
      record {
        knows = λ h lh. elim (same-cases h g) [
          | inl c ↦ ap ha (here h c) ∙ e ∙ ap pos (sym c)
          | inr c ↦ ap ha (there h c) ∙ i.knows h lh c
        ];
        exists = λ h lh. elim (same-cases h g) [
          | inl c ↦ subst (λ t. t < len) (sym (here h c)) ls
          | inr c ↦ subst (λ t. t < len) (sym (there h c)) (i.exists h lh c)
        ];
        in_range = λ t h lt et. elim (same-cases t s) [
          | inl c ↦ subst (λ k. k < n) (pos-inj g h (sym e ∙ ap ha (sym c) ∙ et)) l
          | inr c ↦ i.in_range t h lt c et
        ];
        at_height = λ t h lt et. elim (same-cases t s) [
          | inl c ↦ here h (sym (pos-inj g h (sym e ∙ ap ha (sym c) ∙ et))) ∙ sym c
          | inr c ↦ there h (i.not_hole t h lt c et) ∙ i.at_height t h lt c et
        ];
      }

  -- The hole is at the top, and the loose sheet is hidden.
  pub IsFull-hide : (m z : ℕ) → n ≡ suc m → g ≡ m → ha s ≡ negsuc z → IsFull sa ha len m
  IsFull-hide m z en eg e = record {
    knows = λ h lh. i.knows h (omega arith) (λ c. omega (arith, c));
    exists = λ h lh. i.exists h (omega arith) (λ c. omega (arith, c));
    in_range = λ t h lt et. elim (same-cases t s) [
      | inl c ↦ ground (arith, e, ap ha c, et)
      | inr c ↦ ground (arith, i.in_range t h lt c et, i.not_hole t h lt c et)
    ];
    at_height = λ t h lt et. elim (same-cases t s) [
      | inl c ↦ ground (arith, e, ap ha c, et)
      | inr c ↦ i.at_height t h lt c et
    ];
  }

-- A sheet that is taken out leaves a hole.
module _ (sa : ℕ → ℕ) (ha ha' : ℕ → ℤ) (len n s : ℕ) (i : IsFull sa ha len n) (ls : s < len)
    (same : (t : ℕ) → t ≢ s → ha' t ≡ ha t) where
  pub IsHole-shown : (g : ℕ) → ha s ≡ pos g → IsHole sa ha' len n g s
  IsHole-shown g e =
      let alone : (h : ℕ) → h < n → h ≢ g → sa h ≢ s =
        λ h lh c d. c (pos-inj h g (sym (i.knows h lh) ∙ ap ha d ∙ e)) in
      record {
        knows = λ h lh c. same (sa h) (alone h lh c) ∙ i.knows h lh;
        exists = λ h lh c. i.exists h lh;
        others = alone;
        in_range = λ t h lt c et. i.in_range t h lt (sym (same t c) ∙ et);
        not_hole = λ t h lt c et d.
            c (sym (i.at_height t h lt (sym (same t c) ∙ et)) ∙ ap sa d ∙ i.at_height s g ls e);
        at_height = λ t h lt c et. i.at_height t h lt (sym (same t c) ∙ et);
      }

  pub IsHole-hidden : (z : ℕ) → ha s ≡ negsuc z → IsHole sa ha' len (suc n) n s
  IsHole-hidden z e =
      let alone : (h : ℕ) → h < n → sa h ≢ s = λ h lh d. ground (arith, i.knows h lh, ap ha d, e) in
      record {
        knows = λ h lh c.
            same (sa h) (alone h (omega (arith, lh, c))) ∙ i.knows h (omega (arith, lh, c));
        exists = λ h lh c. i.exists h (omega (arith, lh, c));
        others = λ h lh c. alone h (omega (arith, lh, c));
        in_range = λ t h lt c et. omega (arith, i.in_range t h lt (sym (same t c) ∙ et));
        not_hole = λ t h lt c et d. omega (arith, i.in_range t h lt (sym (same t c) ∙ et), d);
        at_height = λ t h lt c et. i.at_height t h lt (sym (same t c) ∙ et);
      }

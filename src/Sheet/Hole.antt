-- ===== src/Sheet/Hole.antt =====
-- The moves of `sheet_updown` (harib27f/haribote/sheet.c): while sheets are moved up or down by one
-- height, one height is a hole, and one sheet is loose.
use bxos.Common.{
  ℕ, zero, suc, ◌+◌, ◌-◌, ◌≤◌, ◌<◌, Bool, true, false, ◌==◌, if◌then◌else◌, length, length-set, ◌≡◌,
  ◌≢◌, ◌⊎◌, subst, refl, sym, ap, ◌∙◌, arith, inl, inr,
}
use bxos.Common.Int.{ℤ, pos, to_ℕ}
use bxos.Common.Bytes.{get_or-set}
use bxos.Sheet.{Sheet, ShtCtl, sheet_at, shown_at, no_sheet}
use bxos.Sheet.Stack.{place, lift_from, drop_from}

-- Of `n` heights `g` is a hole, and the sheet `s` of `len` is loose: every other height has a sheet that
-- knows it (`sa` is the sheet at a height, `ha` the height of a sheet), and every other sheet that is
-- shown is at its height.
pub record IsHole (sa : ℕ → ℕ) (ha : ℕ → ℤ) (len n g s : ℕ) : Type 0 where
  pub knows : (h : ℕ) → h < n → h ≢ g → ha (sa h) ≡ pos h
  pub exists : (h : ℕ) → h < n → h ≢ g → sa h < len
  pub others : (h : ℕ) → h < n → h ≢ g → sa h ≢ s
  pub in_range : (t h : ℕ) → t < len → t ≢ s → ha t ≡ pos h → h < n
  pub not_hole : (t h : ℕ) → t < len → t ≢ s → ha t ≡ pos h → h ≢ g
  pub at_height : (t h : ℕ) → t < len → t ≢ s → ha t ≡ pos h → sa h ≡ t

pub pos-inj : (a b : ℕ) → pos a ≡ pos b → a ≡ b
pos-inj a b e = ap to_ℕ e

pub same-cases : (a b : ℕ) → (a ≡ b) ⊎ (a ≢ b)
same-cases a b = ground arith

pub height-if :
    (b : Bool) (x y : Sheet) → (if b then x else y).height ≡ (if b then x.height else y.height)
height-if true x y = refl
height-if false x y = refl

-- The sheet at `h'` goes into the hole `h`, and leaves a hole.
module _ (sa : ℕ → ℕ) (ha : ℕ → ℤ) (len n h h' s : ℕ) (i : IsHole sa ha len n h s) (sa' : ℕ → ℕ)
    (ha' : ℕ → ℤ) (l : h < n) (l' : h' < n) (d : h' ≢ h)
    (sa_eq : (j : ℕ) → sa' j ≡ (if j == h then sa h' else sa j))
    (ha_eq : (u : ℕ) → ha' u ≡ (if u == sa h' then pos h else ha u)) where
  -- the sheet that moves is at no other height
  moves : (j : ℕ) → j < n → j ≢ h → j ≢ h' → sa j ≢ sa h'
  moves j lj dj dj' e = dj' (pos-inj j h' (sym (i.knows j lj dj) ∙ ap ha e ∙ i.knows h' l' d))

  ha_moved : (u : ℕ) → u ≡ sa h' → ha' u ≡ pos h
  ha_moved u e = ground (arith, ha_eq u, e)

  ha_same : (u : ℕ) → u ≢ sa h' → ha' u ≡ ha u
  ha_same u e = ground (arith, ha_eq u, e)

  sa_moved : sa' h ≡ sa h'
  sa_moved = ground (arith, sa_eq h)

  sa_same : (j : ℕ) → j ≢ h → sa' j ≡ sa j
  sa_same j e = ground (arith, sa_eq j, e)

  pub IsHole-moved : IsHole sa' ha' len n h' s
  IsHole-moved = record {
    knows = λ j lj dj. elim (same-cases j h) [
      | inl e ↦ ha_moved (sa' j) (ap sa' e ∙ sa_moved) ∙ ap pos (sym e)
      | inr e ↦ ap ha' (sa_same j e) ∙ ha_same (sa j) (moves j lj e dj) ∙ i.knows j lj e
    ];
    exists = λ j lj dj. elim (same-cases j h) [
      | inl e ↦ subst (λ t. t < len) (sym (ap sa' e ∙ sa_moved)) (i.exists h' l' d)
      | inr e ↦ subst (λ t. t < len) (sym (sa_same j e)) (i.exists j lj e)
    ];
    others = λ j lj dj. elim (same-cases j h) [
      | inl e ↦ λ same. i.others h' l' d (sym (ap sa' e ∙ sa_moved) ∙ same)
      | inr e ↦ λ same. i.others j lj e (sym (sa_same j e) ∙ same)
    ];
    in_range = λ u j lu du eu. elim (same-cases u (sa h')) [
      | inl e ↦ subst (λ k. k < n) (pos-inj h j (sym (ha_moved u e) ∙ eu)) l
      | inr e ↦ i.in_range u j lu du (sym (ha_same u e) ∙ eu)
    ];
    not_hole = λ u j lu du eu same. elim (same-cases u (sa h')) [
      | inl e ↦ d (sym same ∙ sym (pos-inj h j (sym (ha_moved u e) ∙ eu)))
      | inr e ↦ e (sym (i.at_height u j lu du (sym (ha_same u e) ∙ eu)) ∙ ap sa same)
    ];
    at_height = λ u j lu du eu. elim (same-cases u (sa h')) [
      | inl e ↦ ap sa' (sym (pos-inj h j (sym (ha_moved u e) ∙ eu))) ∙ sa_moved ∙ sym e
      | inr e ↦
          let was = sym (ha_same u e) ∙ eu in
          sa_same j (i.not_hole u j lu du was) ∙ i.at_height u j lu du was
    ];
  }

abbrev pub height_at : ShtCtl → ℕ → ℤ
height_at ctl s = (sheet_at ctl s).height

-- the state while sheets are moved: `z` is the height of the loose sheet
abbrev pub IsMoving : ℤ → ℕ → ℤ → ℕ → ShtCtl → ℕ → Type 0
IsMoving top n z s ctl g =
    (ctl.top ≡ top)
    × (s < length ctl.sheets0)
    × (height_at ctl s ≡ z)
    × (n ≤ length ctl.sheets)
    × IsHole (shown_at ctl) (height_at ctl) (length ctl.sheets0) n g s

module _ (top : ℤ) (n : ℕ) (z : ℤ) (s : ℕ) where
  IsMoving-place :
      (ctl : ShtCtl) (h h' : ℕ)
      → IsMoving top n z s ctl h
      → h < n
      → h' < n
      → h' ≢ h
      → IsMoving top n z s (place h (shown_at ctl h') ctl) h'
  IsMoving-place ctl h h' (et, ls, ez, room, i) l l' d =
      let t = shown_at ctl h' in
      let moved : Sheet = record (sheet_at ctl t) { height = pos h } in
      let there = i.exists h' l' d in
      let heights : (u : ℕ)
          → height_at (place h t ctl) u ≡ (if u == t then pos h else height_at ctl u) =
        λ u.
          ap (λ (sht : Sheet). sht.height) (get_or-set ctl.sheets0 t u moved no_sheet there)
          ∙ height-if (u == t) moved (sheet_at ctl u) in
      (
        et,
        omega (arith, ls, length-set ctl.sheets0 t moved),
        heights s ∙ ground (arith, i.others h' l' d, ez),
        omega (arith, room, length-set ctl.sheets h t),
        subst (λ len. IsHole (shown_at (place h t ctl)) (height_at (place h t ctl)) len n h' s)
            (sym (length-set ctl.sheets0 t moved))
            (IsHole-moved (shown_at ctl) (height_at ctl) (length ctl.sheets0) n h h' s i
              (shown_at (place h t ctl)) (height_at (place h t ctl)) l l' d
              (λ j. get_or-set ctl.sheets h j t 0 (omega (arith, room))) heights),
      )

  pub lift_from-IsMoving :
      (k h : ℕ) (ctl : ShtCtl)
      → IsMoving top n z s ctl h
      → h < n
      → k ≤ h
      → IsMoving top n z s (lift_from k h ctl) (h - k)
  unfolding lift_from
  lift_from-IsMoving zero h ctl i l f = let e : h - 0 ≡ h = omega arith in rw e i
  lift_from-IsMoving (suc k) h ctl i l f =
      let e : h - suc k ≡ h - 1 - k = omega arith in
      rw e (
        lift_from-IsMoving k (h - 1) (place h (shown_at ctl (h - 1)) ctl)
          (IsMoving-place ctl h (h - 1) i l (omega arith) (λ same. omega (arith, same)))
          (omega arith) (omega arith))

  pub drop_from-IsMoving :
      (k h : ℕ) (ctl : ShtCtl)
      → IsMoving top n z s ctl h
      → h + k < n
      → IsMoving top n z s (drop_from k h ctl) (h + k)
  unfolding drop_from
  drop_from-IsMoving zero h ctl i l = let e : h + 0 ≡ h = omega arith in rw e i
  drop_from-IsMoving (suc k) h ctl i l =
      let e : h + suc k ≡ suc h + k = omega arith in
      rw e (
        drop_from-IsMoving k (suc h) (place h (shown_at ctl (suc h)) ctl)
          (IsMoving-place ctl h (suc h) i (omega arith) (omega arith) (λ same. omega (arith, same)))
          (omega arith))

-- ===== src/Common/Members.antt =====
-- Members of lists of numbers, also when the list grows at its end or loses an element.
use Prim.Native.Nat.{ℕ, zero, suc, ◌<◌}
use mathlib.Core.Path.{◌≡◌, refl, sym, subst, ◌∙◌}
use mathlib.Core.Logic.{◌≢◌, ◌⊎◌, inl, inr}
use mathlib.Core.List.{List, [], ◌∷◌, ◌++◌}
use native.Mathlib.Omega.{arith}
use native.Mathlib.Decide.{ℕ_discrete}
use package.bxos.Common.Lists.{length, get_or, NotIn, NoRepeat}
use package.bxos.Common.Shift.{remove_at}

abbrev pub IsIn : ℕ → List ℕ → Type 0
IsIn t [] = ⊥
IsIn t (x ∷ xs) = (x ≡ t) ⊎ IsIn t xs

pub NotIn-intro : (t : ℕ) (xs : List ℕ) → (IsIn t xs → ⊥) → NotIn t xs
NotIn-intro t [] h = tt
NotIn-intro t (x ∷ xs) h = (λ e. h (inl (sym e)), NotIn-intro t xs (λ m. h (inr m)))

pub NotIn-IsIn : (t : ℕ) (xs : List ℕ) → NotIn t xs → IsIn t xs → ⊥
NotIn-IsIn t [] n m = m
NotIn-IsIn t (x ∷ xs) n (inl e) = n.0 (sym e)
NotIn-IsIn t (x ∷ xs) n (inr m) = NotIn-IsIn t xs n.1 m

pub IsIn-get_or : (xs : List ℕ) (i d : ℕ) → i < length xs → IsIn (get_or xs i d) xs
IsIn-get_or [] i d h = absurd (omega arith)
IsIn-get_or (x ∷ xs) zero d h = inl refl
IsIn-get_or (x ∷ xs) (suc i) d h = inr (IsIn-get_or xs i d (omega arith))

none_before :
    (d x : ℕ) (xs : List ℕ) (i : ℕ) {t : ℕ}
    → x ≢ t
    → ((j : ℕ) → j < i → get_or xs j d ≢ t)
    → (j : ℕ) → j < suc i
    → get_or (x ∷ xs) j d ≢ t
none_before d x xs i n f zero h = n
none_before d x xs i n f (suc j) h = f j (omega arith)

-- the first place of a member
pub first_place :
    (t d : ℕ) (xs : List ℕ)
    → IsIn t xs
    → (i : ℕ) × (i < length xs) × (get_or xs i d ≡ t) × ((j : ℕ) → j < i → get_or xs j d ≢ t)
first_place t d [] m = absurd m
first_place t d (x ∷ xs) (inl e) = (0, omega arith, e, λ j h. absurd (omega arith))
first_place t d (x ∷ xs) (inr m) = elim (ℕ_discrete x t) [
  | yes e ↦ (0, omega arith, e, λ j h. absurd (omega arith))
  | no n ↦
      let (i, h, e, f) = first_place t d xs m in (suc i, omega arith, e, none_before d x xs i n f)
]

pub IsIn-snoc : (u t : ℕ) (xs : List ℕ) → IsIn u (xs ++ (t ∷ [])) → IsIn u xs ⊎ (t ≡ u)
IsIn-snoc u t [] (inl e) = inr e
IsIn-snoc u t [] (inr m) = absurd m
IsIn-snoc u t (x ∷ xs) (inl e) = inl (inl e)
IsIn-snoc u t (x ∷ xs) (inr m) = elim (IsIn-snoc u t xs m) [ inl r ↦ inl (inr r) | inr e ↦ inr e ]

pub IsIn-append_left : (u : ℕ) (xs ys : List ℕ) → IsIn u xs → IsIn u (xs ++ ys)
IsIn-append_left u [] ys m = absurd m
IsIn-append_left u (x ∷ xs) ys (inl e) = inl e
IsIn-append_left u (x ∷ xs) ys (inr m) = inr (IsIn-append_left u xs ys m)

pub IsIn-last : (t : ℕ) (xs : List ℕ) → IsIn t (xs ++ (t ∷ []))
IsIn-last t [] = inl refl
IsIn-last t (x ∷ xs) = inr (IsIn-last t xs)

NotIn-snoc : (c t : ℕ) (xs : List ℕ) → NotIn c xs → c ≢ t → NotIn c (xs ++ (t ∷ []))
NotIn-snoc c t [] n d = (d, tt)
NotIn-snoc c t (x ∷ xs) n d = (n.0, NotIn-snoc c t xs n.1 d)

pub NoRepeat-snoc : (t : ℕ) (xs : List ℕ) → NoRepeat xs → NotIn t xs → NoRepeat (xs ++ (t ∷ []))
NoRepeat-snoc t [] r n = (tt, tt)
NoRepeat-snoc t (x ∷ xs) r n =
    (NotIn-snoc x t xs r.0 (λ e. n.0 (sym e)), NoRepeat-snoc t xs r.1 n.1)

pub IsIn-remove_at : (u i : ℕ) (xs : List ℕ) → IsIn u (remove_at i xs) → IsIn u xs
IsIn-remove_at u i [] m = m
IsIn-remove_at u zero (x ∷ xs) m = inr m
IsIn-remove_at u (suc i) (x ∷ xs) (inl e) = inl e
IsIn-remove_at u (suc i) (x ∷ xs) (inr m) = inr (IsIn-remove_at u i xs m)

-- Another member stays.
pub IsIn-remove_other :
    (u t i d : ℕ) (xs : List ℕ)
    → i < length xs
    → get_or xs i d ≡ t
    → t ≢ u
    → IsIn u xs
    → IsIn u (remove_at i xs)
IsIn-remove_other u t i d [] l e n m = m
IsIn-remove_other u t zero d (x ∷ xs) l e n (inl q) = absurd (n (sym e ∙ q))
IsIn-remove_other u t zero d (x ∷ xs) l e n (inr m) = m
IsIn-remove_other u t (suc i) d (x ∷ xs) l e n (inl q) = inl q
IsIn-remove_other u t (suc i) d (x ∷ xs) l e n (inr m) =
    inr (IsIn-remove_other u t i d xs (omega arith) e n m)

-- The element that is removed is gone, if it stood there once.
pub gone :
    (t i d : ℕ) (xs : List ℕ)
    → NoRepeat xs
    → i < length xs
    → get_or xs i d ≡ t
    → IsIn t (remove_at i xs)
    → ⊥
gone t i d [] r l e m = m
gone t zero d (x ∷ xs) r l e m = NotIn-IsIn x xs r.0 (subst (λ y. IsIn y xs) (sym e) m)
gone t (suc i) d (x ∷ xs) r l e (inl q) =
    NotIn-IsIn x xs r.0 (subst (λ y. IsIn y xs) (e ∙ sym q) (IsIn-get_or xs i d (omega arith)))
gone t (suc i) d (x ∷ xs) r l e (inr m) = gone t i d xs r.1 (omega arith) e m

NotIn-remove_at : (c i : ℕ) (xs : List ℕ) → NotIn c xs → NotIn c (remove_at i xs)
NotIn-remove_at c i [] n = n
NotIn-remove_at c zero (x ∷ xs) n = n.1
NotIn-remove_at c (suc i) (x ∷ xs) n = (n.0, NotIn-remove_at c i xs n.1)

pub NoRepeat-remove_at : (i : ℕ) (xs : List ℕ) → NoRepeat xs → NoRepeat (remove_at i xs)
NoRepeat-remove_at i [] r = r
NoRepeat-remove_at zero (x ∷ xs) r = r.1
NoRepeat-remove_at (suc i) (x ∷ xs) r = (NotIn-remove_at x i xs r.0, NoRepeat-remove_at i xs r.1)

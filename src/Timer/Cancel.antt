-- ===== src/Timer/Cancel.antt =====
-- `timer_cancel` (harib27f/haribote/timer.c) takes a timer out of the chain.
use bxos.Common.Members.{IsIn}
use bxos.Common.{
  ℕ, zero, suc, ◌≤◌, ◌<◌, some, List, [], ◌∷◌, true, false, ◌==◌, if◌then◌else◌, length, ◌≡◌, ◌≢◌,
  ◌⊎◌, refl, sym, ap, ◌∙◌, subst, arith, Bool-cases, inl, inr, NotIn, NoRepeat,
}
use bxos.Timer.{before, unlink, Timer, TimerCtl, timer_at}
use bxos.Timer.Queue.{Linked, IsSorted, IsBelow, next_of, set_here, set_other, Linked-set}
use bxos.Timer.Settime.{same-cases}

-- the list without a timer
unfoldable pub remove : ℕ → List ℕ → List ℕ
remove t [] = []
remove t (x ∷ xs) = let rest = remove t xs in if x == t then xs else x ∷ rest

pub remove_here : (t x : ℕ) (xs : List ℕ) → x ≡ t → remove t (x ∷ xs) ≡ xs
unfolding remove
remove_here t x xs e = ground (arith, e)

pub remove_there : (t x : ℕ) (xs : List ℕ) → x ≢ t → remove t (x ∷ xs) ≡ x ∷ remove t xs
unfolding remove
remove_there t x xs d = ground (arith, d)

pub NotIn-remove : (u t : ℕ) (xs : List ℕ) → NotIn u xs → NotIn u (remove t xs)
unfolding remove
NotIn-remove u t [] n = n
NotIn-remove u t (x ∷ xs) n = elim (Bool-cases (x == t)) [
  | inl e ↦ rw e n.1
  | inr e ↦ rw e (n.0, NotIn-remove u t xs n.1)
]

pub NoRepeat-remove : (t : ℕ) (xs : List ℕ) → NoRepeat xs → NoRepeat (remove t xs)
unfolding remove
NoRepeat-remove t [] r = r
NoRepeat-remove t (x ∷ xs) r = elim (Bool-cases (x == t)) [
  | inl e ↦ rw e r.1
  | inr e ↦ rw e (NotIn-remove x t xs r.0, NoRepeat-remove t xs r.1)
]

pub IsBelow-remove : (t m : ℕ) (xs : List ℕ) → IsBelow m xs → IsBelow m (remove t xs)
unfolding remove
IsBelow-remove t m [] b = b
IsBelow-remove t m (x ∷ xs) b = elim (Bool-cases (x == t)) [
  | inl e ↦ rw e b.1
  | inr e ↦ rw e (b.0, IsBelow-remove t m xs b.1)
]

pub IsSorted-lower :
    (to : ℕ → ℕ) (a b : ℕ) (xs : List ℕ) → a ≤ b → IsSorted to b xs → IsSorted to a xs
IsSorted-lower to a b [] l h = h
IsSorted-lower to a b (x ∷ xs) l h = (omega (arith, h.0), h.1)

pub IsSorted-remove :
    (to : ℕ → ℕ) (t b : ℕ) (xs : List ℕ) → IsSorted to b xs → IsSorted to b (remove t xs)
unfolding remove
IsSorted-remove to t b [] h = h
IsSorted-remove to t b (x ∷ xs) h = elim (Bool-cases (x == t)) [
  | inl e ↦ rw e (IsSorted-lower to b (to x) xs h.0 h.1)
  | inr e ↦ rw e (h.0, IsSorted-remove to t (to x) xs h.1)
]

-- what the search from `x`, in front of `xs`, finds, and the chain without the timer
pub record IsUnlinked (c : TimerCtl) (x timer s : ℕ) (xs : List ℕ) (z : ℕ) : Type 0 where
  pub linked :
      Linked (next_of (unlink s timer c)) (next_of (unlink s timer c) x) (remove timer xs) z
  pub below : s < length c.timers0
  pub found_in : (u : ℕ) → NotIn u (x ∷ xs) → u ≢ s

next-unlink_here :
    (c : TimerCtl) (s timer : ℕ)
    → s < length c.timers0
    → next_of (unlink s timer c) s ≡ next_of c timer
next-unlink_here c s timer l =
    ap (λ (t : Timer). t.next) (set_here c s (record (timer_at c s) { next = next_of c timer }) l)

pub next-unlink_other :
    (c : TimerCtl) (s timer : ℕ)
    → s < length c.timers0
    → (u : ℕ) → u ≢ s
    → next_of (unlink s timer c) u ≡ next_of c u
next-unlink_other c s timer l u d =
    ap (λ (t : Timer). t.next)
      (set_other c s (record (timer_at c s) { next = next_of c timer }) l u d)

pub IsIn-rest : (t y : ℕ) (ys : List ℕ) → y ≢ t → (y ≡ t) ⊎ IsIn t ys → IsIn t ys
IsIn-rest t y ys d (inl e) = absurd (d e)
IsIn-rest t y ys d (inr m) = m

pub before-IsUnlinked :
    (fuel x timer : ℕ) (c : TimerCtl) (xs : List ℕ) (z : ℕ)
    → length xs ≤ fuel
    → x < length c.timers0
    → IsBelow (length c.timers0) xs
    → NotIn x xs
    → NoRepeat xs
    → Linked (next_of c) (next_of c x) xs z
    → IsIn timer xs
    → (s : ℕ) × (before fuel x timer c ≡ some s) × IsUnlinked c x timer s xs z
unfolding before
before-IsUnlinked fuel x timer c [] z f lx b n r k m = absurd m
before-IsUnlinked zero x timer c (y ∷ ys) z f lx b n r k m = absurd (omega arith)
before-IsUnlinked (suc fuel) x timer c (y ∷ ys) z f lx b n r (e, k) m = elim (same-cases y timer) [
  | inl here ↦
      let found : (next_of c x == timer) ≡ true = ground (arith, e, here) in
      let other : (u : ℕ) → u ≢ x → u ≢ x → next_of (unlink x timer c) u ≡ next_of c u =
        λ u d _. next-unlink_other c x timer lx u d in
      (
        x,
        rw found refl,
        record {
          linked =
              subst (λ zs. Linked (next_of (unlink x timer c)) (next_of (unlink x timer c) x) zs z)
                (sym (remove_here timer y ys here))
                (subst (λ h. Linked (next_of (unlink x timer c)) h ys z)
                  (sym (next-unlink_here c x timer lx ∙ ap (next_of c) (sym here)))
                  (Linked-set (next_of c) (next_of (unlink x timer c)) x x (next_of c y) z ys other
                    n.1 n.1 k));
          below = lx;
          found_in = λ u nu. nu.0;
        },
      )
  | inr there ↦
      let missed : (next_of c x == timer) ≡ false = ground (arith, e, there) in
      let (s, found, i) =
        before-IsUnlinked fuel y timer c ys z (omega arith) b.0 b.1 r.0 r.1 k
          (IsIn-rest timer y ys there m) in
      let same : next_of (unlink s timer c) x ≡ y =
        next-unlink_other c s timer i.below x (i.found_in x n) ∙ e in
      (
        s,
        rw missed (subst (λ h. before fuel h timer c ≡ some s) (sym e) found),
        record {
          linked =
              subst (λ zs. Linked (next_of (unlink s timer c)) (next_of (unlink s timer c) x) zs z)
                (sym (remove_there timer y ys there)) (same, i.linked);
          below = i.below;
          found_in = λ u nu. i.found_in u nu.1;
        },
      )
]

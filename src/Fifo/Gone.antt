-- ===== src/Fifo/Gone.antt =====
-- The timers that a tick takes out of the chain, and those that it leaves.
use bxos.Common.{
  ℕ, ◌≤◌, ◌<◌, List, [], ◌∷◌, true, ltb, ◌||◌, ◌==◌, length, ◌≡◌, ◌≢◌, sym, ap, ◌∙◌, subst, arith,
  Bool-cases, inl, inr, NotIn, NoRepeat, ==_iff,
}
use mathlib.Core.Bool.{false≢true}
use bxos.Timer.{TimerCtl}
use bxos.Timer.Queue.{IsTimers, IsBelow, timeout_of}
use bxos.Fifo.Tick.{later_than, later_than_go}
use bxos.Fifo.Messages.{ended, has}
use bxos.Fifo.Loop.{ended-stop, ended-go, ended_nil}

-- the scheduler's timer, when it has run out, has a place in the chain that is left
NotIn-later_than :
    (count : ℕ) (to : ℕ → ℕ) (k : ℕ) (xs : List ℕ) → NotIn k xs → NotIn k (later_than count to xs)
unfolding later_than
NotIn-later_than count to k [] n = n
NotIn-later_than count to k (x ∷ xs) n = elim (Bool-cases (ltb count (to x))) [
  | inl e ↦ rw e n
  | inr e ↦ rw e (NotIn-later_than count to k xs n.1)
]

pub length-later_than :
    (count : ℕ) (to : ℕ → ℕ) (xs : List ℕ) → length (later_than count to xs) ≤ length xs
unfolding later_than
length-later_than count to [] = omega arith
length-later_than count to (x ∷ xs) = elim (Bool-cases (ltb count (to x))) [
  | inl e ↦ rw e (omega arith)
  | inr e ↦ rw e (omega (arith, length-later_than count to xs))
]

-- a timer of a list that is not repeated, and that has run out
pub record IsGone (count : ℕ) (to : ℕ → ℕ) (k n z : ℕ) (xs : List ℕ) : Type 0 where
  pub below : k < n
  pub other : k ≢ z
  pub out : NotIn k (later_than count to xs)

pub has-IsGone :
    (count : ℕ) (to : ℕ → ℕ) (k n z : ℕ) (xs : List ℕ)
    → NoRepeat xs
    → IsBelow n xs
    → NotIn z xs
    → has k (ended count to xs) ≡ true
    → IsGone count to k n z xs
unfolding has ended later_than
has-IsGone count to k n z [] d b a h = absurd (false≢true h)
has-IsGone count to k n z (x ∷ xs) d b a h = elim (Bool-cases (ltb count (to x))) [
  | inl e ↦ absurd (false≢true (sym (ap (has k) (ended-stop count to x xs e)) ∙ h))
  | inr e ↦
      let here' : ((x == k) || has k (ended count to xs)) ≡ true =
        sym (ap (has k) (ended-go count to x xs e)) ∙ h in
      let left : later_than count to (x ∷ xs) ≡ later_than count to xs =
        later_than_go count to x xs e in
      elim (Bool-cases (x == k)) [
        | inl here ↦
            let q : x ≡ k = (==_iff x k).0 here in
            record {
              below = subst (λ u. u < n) q b.0;
              other = λ c. a.0 (sym (q ∙ c));
              out =
                  subst (NotIn k) (sym left)
                    (NotIn-later_than count to k xs (subst (λ u. NotIn u xs) q d.0));
            }
        | inr differs ↦
            let r =
              has-IsGone count to k n z xs d.1 b.1 a.1
                (ap (λ y. y || has k (ended count to xs)) (sym differs) ∙ here') in
            record { below = r.below; other = r.other; out = subst (NotIn k) (sym left) r.out }
      ]
]

-- when the first timer ends later, none has run out
pub none_ended :
    (c : TimerCtl) (xs : List ℕ) (z : ℕ)
    → IsTimers c xs z
    → ltb c.count c.next ≡ true
    → ended c.count (timeout_of c) xs ≡ []
none_ended c [] z i e = ended_nil c.count (timeout_of c)
none_ended c (x ∷ xs) z i e =
    ended-stop c.count (timeout_of c) x xs
      (subst (λ t. ltb c.count t ≡ true) (i.front ∙ ap (timeout_of c) i.linked.0) e)

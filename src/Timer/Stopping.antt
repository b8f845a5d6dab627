-- ===== src/Timer/Stopping.antt =====
-- `timer_cancel` (harib27f/haribote/timer.c) keeps the chain of timers in order.
use bxos.Common.{
  ℕ, ◌≤◌, ◌<◌, some, List, [], ◌∷◌, true, false, ◌==◌, length, ◌≡◌, ◌≢◌, refl, sym, ap, ◌∙◌, subst,
  arith, inl, inr,
}
use bxos.Timer.{
  before, unlink, stopped, cancel_front, timer_cancel, timer_flags_alloc, Timer, TimerCtl, timer_at,
  max_timer, timer_flags_using,
}
use bxos.Timer.Queue.{
  Linked, IsBelow, IsTimers, IsSorted-all, next_of, timeout_of, set_here, set_other,
  length-set_timer,
}
use bxos.Timer.Settime.{same-cases, timeout-next}
use bxos.Common.Members.{IsIn}
use bxos.Timer.Cancel.{
  remove, remove_here, remove_there, NotIn-remove, NoRepeat-remove, IsBelow-remove, IsSorted-lower,
  IsSorted-remove, IsUnlinked, before-IsUnlinked, IsIn-rest,
}

module _ (c : TimerCtl) (timer : ℕ) (l : timer < length c.timers0) where
  abbrev idle : Timer
  idle = record (timer_at c timer) { flags = timer_flags_alloc }

  pub stopped-next : (u : ℕ) → next_of (stopped timer c) u ≡ next_of c u
  stopped-next u = elim (same-cases u timer) [
    | inl e ↦ rw e (ap (λ (t : Timer). t.next) (set_here c timer idle l))
    | inr d ↦ ap (λ (t : Timer). t.next) (set_other c timer idle l u d)
  ]

  pub stopped-timeout : (u : ℕ) → timeout_of (stopped timer c) u ≡ timeout_of c u
  stopped-timeout u = elim (same-cases u timer) [
    | inl e ↦ rw e (ap (λ (t : Timer). t.timeout) (set_here c timer idle l))
    | inr d ↦ ap (λ (t : Timer). t.timeout) (set_other c timer idle l u d)
  ]

  stopped-Linked :
      (h z : ℕ) (xs : List ℕ)
      → Linked (next_of c) h xs z
      → Linked (next_of (stopped timer c)) h xs z
  stopped-Linked h z [] k = k
  stopped-Linked h z (x ∷ xs) k = (
    k.0,
    subst (λ y. Linked (next_of (stopped timer c)) y xs z) (sym (stopped-next x))
        (stopped-Linked (next_of c x) z xs k.1),
  )

  -- The mark changes nothing of the chain.
  pub stopped-IsTimers : (xs : List ℕ) (z : ℕ) → IsTimers c xs z → IsTimers (stopped timer c) xs z
  stopped-IsTimers xs z i =
      let size = length-set_timer c timer idle l in
      record {
        linked = stopped-Linked c.t0 z xs i.linked;
        sorted =
            IsSorted-all (timeout_of c) (timeout_of (stopped timer c)) 0 xs stopped-timeout
              i.sorted;
        distinct = i.distinct;
        apart = i.apart;
        below = subst (λ m. IsBelow m xs) (sym size) i.below;
        last_below = omega (arith, size, i.last_below);
        last = stopped-timeout z ∙ i.last;
        front = i.front ∙ sym (stopped-timeout c.t0);
      }

-- The first timer is taken out.
pub cancel_front-IsTimers :
    (c : TimerCtl) (timer : ℕ) (xs : List ℕ) (z : ℕ)
    → IsTimers c (timer ∷ xs) z
    → IsTimers (cancel_front timer c) xs z
cancel_front-IsTimers c timer xs z i = record {
  linked = i.linked.1;
  sorted = IsSorted-lower (timeout_of c) 0 (timeout_of c timer) xs (omega arith) i.sorted.1;
  distinct = i.distinct.1;
  apart = i.apart.1;
  below = i.below.1;
  last_below = i.last_below;
  last = i.last;
  front = refl;
}

-- A timer behind the first is taken out.
unlink-IsTimers :
    (c : TimerCtl) (timer s x : ℕ) (xs : List ℕ) (z : ℕ)
    → IsTimers c (x ∷ xs) z
    → x ≢ timer
    → IsUnlinked c x timer s xs z
    → IsTimers (unlink s timer c) (remove timer (x ∷ xs)) z
unlink-IsTimers c timer s x xs z i d k =
    let v : Timer = record (timer_at c s) { next = next_of c timer } in
    let size = length-set_timer c s v k.below in
    let same = timeout-next c s (next_of c timer) k.below in
    record {
      linked = rw (remove_there timer x xs d) (i.linked.0, k.linked);
      sorted =
          IsSorted-all (timeout_of c) (timeout_of (unlink s timer c)) 0 (remove timer (x ∷ xs)) same
            (IsSorted-remove (timeout_of c) timer 0 (x ∷ xs) i.sorted);
      distinct = NoRepeat-remove timer (x ∷ xs) i.distinct;
      apart = NotIn-remove z timer (x ∷ xs) i.apart;
      below =
          subst (λ m. IsBelow m (remove timer (x ∷ xs))) (sym size)
            (IsBelow-remove timer (length c.timers0) (x ∷ xs) i.below);
      last_below = omega (arith, size, i.last_below);
      last = same z ∙ i.last;
      front = i.front ∙ sym (same c.t0);
    }

-- A timer that runs is taken out of the chain, which stays in the order of the timeouts: the call
-- returns, and tells that it did so. No more timers run than there are.
pub timer_cancel-IsTimers :
    (timer : ℕ) (c : TimerCtl) (xs : List ℕ) (z : ℕ)
    → IsTimers c xs z
    → length xs ≤ max_timer
    → timer < length c.timers0
    → IsIn timer xs
    → (timer_at c timer).flags ≡ timer_flags_using
    → (c' : TimerCtl) × (timer_cancel timer c ≡ some (true, c')) × IsTimers c' (remove timer xs) z
unfolding timer_cancel
timer_cancel-IsTimers timer c [] z i f l m u = absurd m
timer_cancel-IsTimers timer c (x ∷ xs) z i f l m u =
    let using : ((timer_at c timer).flags == timer_flags_using) ≡ true = ground (arith, u) in
    elim (same-cases x timer) [
      | inl here ↦
          let first : (timer == c.t0) ≡ true = ground (arith, here, i.linked.0) in
          let i' : IsTimers c (timer ∷ xs) z = subst (λ t. IsTimers c (t ∷ xs) z) here i in
          let c' = cancel_front timer c in
          (
            stopped timer c',
            rw (using, first) refl,
            subst (λ ys. IsTimers (stopped timer c') ys z) (sym (remove_here timer x xs here))
                (stopped-IsTimers c' timer l xs z (cancel_front-IsTimers c timer xs z i')),
          )
      | inr there ↦
          let other : (timer == c.t0) ≡ false = ground (arith, there, i.linked.0) in
          let (s, found, k) =
            before-IsUnlinked max_timer x timer c xs z (omega (arith, f)) i.below.0 i.below.1
              i.distinct.0 i.distinct.1 i.linked.1 (IsIn-rest timer x xs there m) in
          let c' = unlink s timer c in
          let at_t0 : before max_timer c.t0 timer c ≡ some s =
            subst (λ h. before max_timer h timer c ≡ some s) (sym i.linked.0) found in
          let value : Timer = record (timer_at c s) { next = next_of c timer } in
          let size = length-set_timer c s value k.below in
          (
            stopped timer c',
            rw (using, other, at_t0) refl,
            stopped-IsTimers c' timer (omega (arith, l, size)) (remove timer (x ∷ xs)) z
                (unlink-IsTimers c timer s x xs z i there k),
          )
    ]

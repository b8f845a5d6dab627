-- ===== src/Timer/Running.antt =====
-- `timer_settime` (harib27f/haribote/timer.c) keeps the chain of timers in order.
use bxos.Common.{
  ℕ, ◌+◌, ◌-◌, ◌%◌, ◌≤◌, ◌<◌, some, List, [], ◌∷◌, true, false, leb, length, ◌≡◌, ◌≢◌, refl, sym,
  ap, ◌∙◌, subst, arith, Bool-cases, inl, inr, NotIn, NoRepeat,
}
use bxos.Memory.{word}
use bxos.Timer.{
  Timer, TimerCtl, timer_at, set_timer, insert_behind, started, timer_settime, max_timer,
  timer_flags_using,
}
use bxos.Timer.Queue.{
  Linked, IsSorted, IsBelow, insert, IsTimers, IsSorted-all, next_of, timeout_of, set_here,
  set_other, length-set_timer, Linked-set, IsSorted-same, insert-IsSorted, NotIn-insert,
  NoRepeat-insert, IsBelow-insert,
}
use bxos.Timer.Settime.{
  same-cases, IsInserted, timeout-next, insert_front, insert_now, insert_later, le_test,
  insert_behind-IsInserted,
}

module _ (c : TimerCtl) (timer timeout : ℕ) (l : timer < length c.timers0) where
  abbrev value : Timer
  value = record (timer_at c timer) {
    timeout = (timeout + c.count) % word;
    flags = timer_flags_using;
  }

  started-next : (u : ℕ) → next_of (started timer timeout c) u ≡ next_of c u
  started-next u = elim (same-cases u timer) [
    | inl e ↦ rw e (ap (λ (t : Timer). t.next) (set_here c timer value l))
    | inr d ↦ ap (λ (t : Timer). t.next) (set_other c timer value l u d)
  ]

  started-timeout : (u : ℕ) → u ≢ timer → timeout_of (started timer timeout c) u ≡ timeout_of c u
  started-timeout u d = ap (λ (t : Timer). t.timeout) (set_other c timer value l u d)

  pub started-own : timeout_of (started timer timeout c) timer ≡ (timeout + c.count) % word
  started-own = ap (λ (t : Timer). t.timeout) (set_here c timer value l)

  -- The chain is the same before the timer is linked.
  started-Linked :
      (h z : ℕ) (xs : List ℕ)
      → Linked (next_of c) h xs z
      → Linked (next_of (started timer timeout c)) h xs z
  started-Linked h z [] k = k
  started-Linked h z (x ∷ xs) k = (
    k.0,
    subst (λ y. Linked (next_of (started timer timeout c)) y xs z) (sym (started-next x))
        (started-Linked (next_of c x) z xs k.1),
  )

first_other :
    (c : TimerCtl) (timer : ℕ) (xs : List ℕ) (z : ℕ)
    → Linked (next_of c) c.t0 xs z
    → NotIn timer xs
    → timer ≢ z
    → c.t0 ≢ timer
first_other c timer [] z k n d e = d (sym e ∙ k)
first_other c timer (x ∷ xs) z k n d e = n.0 (sym e ∙ k.0)

-- The chain is in order while the timer that starts is not yet in it.
started-IsTimers :
    (timer timeout : ℕ) (c : TimerCtl) (xs : List ℕ) (z : ℕ)
    → IsTimers c xs z
    → timer < length c.timers0
    → NotIn timer xs
    → timer ≢ z
    → IsTimers (started timer timeout c) xs z
started-IsTimers timer timeout c xs z i l n d =
    let size = length-set_timer c timer (value c timer timeout l) l in
    record {
      linked = started-Linked c timer timeout l c.t0 z xs i.linked;
      sorted =
          IsSorted-same (timeout_of c) (timeout_of (started timer timeout c)) 0 xs timer
            (started-timeout c timer timeout l) n i.sorted;
      distinct = i.distinct;
      apart = i.apart;
      below = subst (λ m. IsBelow m xs) (sym size) i.below;
      last_below = omega (arith, size, i.last_below);
      last = started-timeout c timer timeout l z (λ q. d (sym q)) ∙ i.last;
      front =
          i.front
          ∙ sym (started-timeout c timer timeout l c.t0 (first_other c timer xs z i.linked n d));
    }

mod_last : (n : ℕ) → n % word ≤ word - 1
mod_last n = ground arith

-- The chain after the timer has gone in front of all others.
front-IsTimers :
    (c : TimerCtl) (timer : ℕ) (xs : List ℕ) (z : ℕ)
    → Linked (next_of c) c.t0 xs z
    → IsSorted (timeout_of c) 0 xs
    → NoRepeat xs
    → NotIn z xs
    → IsBelow (length c.timers0) xs
    → z < length c.timers0
    → timeout_of c z ≡ word - 1
    → timer < length c.timers0
    → NotIn timer xs
    → timer ≢ z
    → insert (timeout_of c) timer xs ≡ timer ∷ xs
    → (let c' = set_timer c timer (record (timer_at c timer) { next = c.t0 }) in
        IsTimers
          (record c' { t0 = timer; next = timeout_of c timer })
          (insert (timeout_of c) timer xs)
          z)
front-IsTimers c timer xs z k so r a b lz ez l n d e =
    let v : Timer = record (timer_at c timer) { next = c.t0 } in
    let c' = set_timer c timer v in
    let same = timeout-next c timer c.t0 l in
    let own : next_of c' timer ≡ c.t0 = ap (λ (t : Timer). t.next) (set_here c timer v l) in
    let other : (u : ℕ) → u ≢ timer → u ≢ timer → next_of c' u ≡ next_of c u =
      λ u du _. ap (λ (t : Timer). t.next) (set_other c timer v l u du) in
    let size = length-set_timer c timer v l in
    record {
      linked = rw e (
        refl,
        subst (λ h. Linked (next_of c') h xs z) (sym own)
            (Linked-set (next_of c) (next_of c') timer timer c.t0 z xs other n n k),
      );
      sorted =
          IsSorted-all (timeout_of c) (timeout_of c') 0 (insert (timeout_of c) timer xs) same
            (insert-IsSorted (timeout_of c) timer 0 xs (omega arith) so);
      distinct = NoRepeat-insert (timeout_of c) timer xs n r;
      apart = NotIn-insert (timeout_of c) z timer xs (λ q. d (sym q)) a;
      below =
          subst (λ m. IsBelow m (insert (timeout_of c) timer xs)) (sym size)
            (IsBelow-insert (timeout_of c) timer (length c.timers0) xs l b);
      last_below = omega (arith, size, lz);
      last = same z ∙ ez;
      front = sym (same timer);
    }

-- The chain after the timer has gone behind the first.
behind-IsTimers :
    (c c' : TimerCtl) (timer x : ℕ) (xs : List ℕ) (z : ℕ)
    → c.t0 ≡ x
    → c.next ≡ timeout_of c x
    → IsSorted (timeout_of c) 0 (x ∷ xs)
    → NoRepeat (x ∷ xs)
    → NotIn z (x ∷ xs)
    → IsBelow (length c.timers0) (x ∷ xs)
    → z < length c.timers0
    → timeout_of c z ≡ word - 1
    → timer < length c.timers0
    → NotIn timer (x ∷ xs)
    → timer ≢ z
    → insert (timeout_of c) timer (x ∷ xs) ≡ x ∷ insert (timeout_of c) timer xs
    → IsInserted c c' x timer xs z
    → IsTimers c' (insert (timeout_of c) timer (x ∷ xs)) z
behind-IsTimers c c' timer x xs z et en so r a b lz ez l n d e i = record {
  linked = rw e (i.front.0 ∙ et, i.linked);
  sorted =
      IsSorted-all (timeout_of c) (timeout_of c') 0 (insert (timeout_of c) timer (x ∷ xs))
        i.timeouts (insert-IsSorted (timeout_of c) timer 0 (x ∷ xs) (omega arith) so);
  distinct = NoRepeat-insert (timeout_of c) timer (x ∷ xs) n r;
  apart = NotIn-insert (timeout_of c) z timer (x ∷ xs) (λ q. d (sym q)) a;
  below =
      subst (λ m. IsBelow m (insert (timeout_of c) timer (x ∷ xs))) (sym i.size)
        (IsBelow-insert (timeout_of c) timer (length c.timers0) (x ∷ xs) l b);
  last_below = omega (arith, i.size, lz);
  last = i.timeouts z ∙ ez;
  front = i.front.1 ∙ en ∙ sym (i.timeouts x) ∙ ap (timeout_of c') (sym (i.front.0 ∙ et));
}

-- A timer that does not run goes to its place in the chain: the chain stays in the order of the
-- timeouts, without repetition and with the sentinel at its end, and the time to wait for is that of
-- the first timer. The call returns when no more timers run than there are.
pub timer_settime-IsTimers :
    (timer timeout : ℕ) (c : TimerCtl) (xs : List ℕ) (z : ℕ)
    → IsTimers c xs z
    → length xs ≤ max_timer
    → timer < length c.timers0
    → NotIn timer xs
    → timer ≢ z
    → (c' : TimerCtl) × (timer_settime timer timeout c ≡ some c')
      × IsTimers c' (insert (timeout_of (started timer timeout c)) timer xs) z
unfolding timer_settime
timer_settime-IsTimers timer timeout c [] z i f l n d =
    let c1 = started timer timeout c in
    let i1 = started-IsTimers timer timeout c [] z i l n d in
    let l1 : timer < length c1.timers0 =
      omega (arith, l, length-set_timer c timer (value c timer timeout l) l) in
    let low : timeout_of c1 timer ≤ timeout_of c1 z =
      omega (arith, started-own c timer timeout l, mod_last (timeout + c.count), i1.last) in
    let sooner : leb (timeout_of c1 timer) (timeout_of c1 c1.t0) ≡ true =
      rw i1.linked (le_test (timeout_of c1 timer) (timeout_of c1 z) low) in
    (
      _,
      rw sooner refl,
      front-IsTimers c1 timer [] z i1.linked i1.sorted i1.distinct i1.apart i1.below i1.last_below
          i1.last l1 n d (insert_front (timeout_of c1) timer),
    )
timer_settime-IsTimers timer timeout c (x ∷ xs) z i f l n d =
    let c1 = started timer timeout c in
    let i1 = started-IsTimers timer timeout c (x ∷ xs) z i l n d in
    let l1 : timer < length c1.timers0 =
      omega (arith, l, length-set_timer c timer (value c timer timeout l) l) in
    let low : timeout_of c1 timer ≤ timeout_of c1 z =
      omega (arith, started-own c timer timeout l, mod_last (timeout + c.count), i1.last) in
    elim (Bool-cases (leb (timeout_of c1 timer) (timeout_of c1 x))) [
      | inl sooner ↦
          let sooner' : leb (timeout_of c1 timer) (timeout_of c1 c1.t0) ≡ true =
            rw (i1.linked.0) sooner in
          (
            _,
            rw sooner' refl,
            front-IsTimers c1 timer (x ∷ xs) z i1.linked i1.sorted i1.distinct i1.apart i1.below
                i1.last_below i1.last l1 n d (insert_now (timeout_of c1) timer x xs sooner),
          )
      | inr later ↦
          let later' : leb (timeout_of c1 timer) (timeout_of c1 c1.t0) ≡ false =
            rw (i1.linked.0) later in
          let (c', found, ins) =
            insert_behind-IsInserted max_timer x timer c1 xs z (omega (arith, f)) i1.below.0 l1
              i1.below.1 (λ q. n.0 (sym q)) i1.distinct.0 n.1 i1.distinct.1 i1.linked.1 low in
          (
            c',
            rw later'
                (subst (λ h. insert_behind max_timer h timer c1 ≡ some c') (sym i1.linked.0) found),
            behind-IsTimers c1 c' timer x xs z i1.linked.0
                (i1.front ∙ ap (timeout_of c1) i1.linked.0) i1.sorted i1.distinct i1.apart i1.below
                i1.last_below i1.last l1 n d (insert_later (timeout_of c1) timer x xs later) ins,
          )
    ]

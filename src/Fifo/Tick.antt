-- ===== src/Fifo/Tick.antt =====
-- A tick of the clock (`inthandler20`, harib27f/haribote/timer.c) against the chain of timers as a list.
use bxos.Common.{
  ℕ, zero, suc, ◌+◌, ◌-◌, ◌<◌, ◌%◌, Option, some, List, [], ◌∷◌, Bool, true, false, ltb, ◌==◌,
  if◌then◌else◌, length, ◌≡◌, refl, sym, ap, ◌∙◌, subst, arith, Bool-cases, inl, inr,
}
use bxos.Memory.{word}
use bxos.Timer.{TimerCtl, stopped, cancel_front}
use bxos.Timer.Queue.{Linked, IsTimers, next_of, timeout_of}
use bxos.Timer.Stopping.{stopped-IsTimers, stopped-next, stopped-timeout, cancel_front-IsTimers}
use bxos.Fifo.Interrupt.{Machine, put_to, expired, expire_from, new_front}

-- the timers that end after a count
unfoldable pub later_than : ℕ → (ℕ → ℕ) → List ℕ → List ℕ
later_than count to [] = []
later_than count to (x ∷ xs) =
    let rest = later_than count to xs in if ltb count (to x) then x ∷ xs else rest

-- the chain from a timer on
abbrev pub from_timer : ℕ → TimerCtl → TimerCtl
from_timer t c = record c { t0 = t; next = timeout_of c t }

pub from_timer-IsTimers :
    (c : TimerCtl) (t : ℕ) (xs : List ℕ) (z : ℕ)
    → IsTimers c xs z
    → c.t0 ≡ t
    → IsTimers (from_timer t c) xs z
from_timer-IsTimers c t xs z i e = record {
  linked = subst (λ h. Linked (next_of c) h xs z) e i.linked;
  sorted = i.sorted;
  distinct = i.distinct;
  apart = i.apart;
  below = i.below;
  last_below = i.last_below;
  last = i.last;
  front = refl;
}

-- A timer that runs out is stopped; nothing else of the timers changes.
pub expired-timers :
    (t : ℕ) (ts : Bool) (m : Machine)
    → (expired t ts m).1.kernel.timerctl ≡ stopped t m.kernel.timerctl
unfolding put_to
expired-timers t ts m = elim (Bool-cases (t == m.kernel.task_timer)) [
  | inl e ↦ rw e refl
  | inr e ↦ rw e refl
]

later_than_nil : (count : ℕ) (to : ℕ → ℕ) → later_than count to [] ≡ []
unfolding later_than
later_than_nil count to = refl

pub lt_test : (a b : ℕ) → a < b → ltb a b ≡ true
lt_test a b h = ground arith

-- The chain behind a timer that has been stopped.
pub behind_stopped :
    (c : TimerCtl) (t x : ℕ) (xs : List ℕ) (z : ℕ)
    → IsTimers (from_timer t c) (x ∷ xs) z
    → IsTimers (from_timer (next_of c t) (stopped t c)) xs z
behind_stopped c t x xs z i =
    let here : x ≡ t = sym i.linked.0 in
    let below : t < length c.timers0 = subst (λ u. u < length c.timers0) here i.below.0 in
    let c1 = stopped t (from_timer t c) in
    let i1 : IsTimers c1 (t ∷ xs) z =
      subst (λ u. IsTimers c1 (u ∷ xs) z) here
        (stopped-IsTimers (from_timer t c) t below (x ∷ xs) z i) in
    from_timer-IsTimers (cancel_front t c1) (next_of c t) xs z (cancel_front-IsTimers c1 t xs z i1)
      (stopped-next (from_timer t c) t below t)

later_than_stop :
    (count : ℕ) (to : ℕ → ℕ) (x : ℕ) (xs : List ℕ)
    → ltb count (to x) ≡ true
    → later_than count to (x ∷ xs) ≡ x ∷ xs
unfolding later_than
later_than_stop count to x xs e = rw e refl

pub later_than_go :
    (count : ℕ) (to : ℕ → ℕ) (x : ℕ) (xs : List ℕ)
    → ltb count (to x) ≡ false
    → later_than count to (x ∷ xs) ≡ later_than count to xs
unfolding later_than
later_than_go count to x xs e = rw e refl

later_than-same :
    (count : ℕ) (to to' : ℕ → ℕ) (xs : List ℕ)
    → ((u : ℕ) → to' u ≡ to u)
    → later_than count to' xs ≡ later_than count to xs
unfolding later_than
later_than-same count to to' [] same = refl
later_than-same count to to' (x ∷ xs) same = rw (same x, later_than-same count to to' xs same) refl

-- What the loop leaves, from a timer on: the result is not `none`, and the timers that are left are
-- those that end after the count.
abbrev TickResult : Option (ℕ × Bool × Machine) → List ℕ → ℕ → Type 0
TickResult o xs z =
    (t : ℕ) × (ts : Bool) × (m : Machine) × (o ≡ some (t, ts, m))
    × IsTimers (new_front t m).kernel.timerctl xs z

pub expire_from-IsTimers :
    (fuel t : ℕ) (ts : Bool) (m : Machine) (xs : List ℕ) (z : ℕ)
    → length xs < fuel
    → m.kernel.timerctl.count < word - 1
    → IsTimers (from_timer t m.kernel.timerctl) xs z
    → TickResult
        (expire_from fuel t ts m)
        (later_than m.kernel.timerctl.count (timeout_of m.kernel.timerctl) xs)
        z
unfolding expire_from
expire_from-IsTimers zero t ts m xs z f l i = absurd (omega arith)
expire_from-IsTimers (suc fuel) t ts m [] z f l i =
    let tc = m.kernel.timerctl in
    let low : tc.count < timeout_of tc t =
      subst (λ u. tc.count < timeout_of tc u) (sym i.linked) (omega (arith, l, i.last)) in
    let stops : ltb tc.count (timeout_of tc t) ≡ true = lt_test tc.count (timeout_of tc t) low in
    (
      t,
      ts,
      m,
      rw stops refl,
      subst (λ ys. IsTimers (from_timer t tc) ys z) (sym (later_than_nil tc.count (timeout_of tc)))
          i,
    )
expire_from-IsTimers (suc fuel) t ts m (x ∷ xs) z f l i =
    let tc = m.kernel.timerctl in
    let at : timeout_of tc t ≡ timeout_of tc x = ap (timeout_of tc) i.linked.0 in
    elim (Bool-cases (ltb tc.count (timeout_of tc x))) [
      | inl e ↦
          let stops : ltb tc.count (timeout_of tc t) ≡ true =
            subst (λ u. ltb tc.count u ≡ true) (sym at) e in
          (
            t,
            ts,
            m,
            rw stops refl,
            subst (λ ys. IsTimers (from_timer t tc) ys z)
                (sym (later_than_stop tc.count (timeout_of tc) x xs e)) i,
          )
      | inr e ↦
          let goes : ltb tc.count (timeout_of tc t) ≡ false =
            subst (λ u. ltb tc.count u ≡ false) (sym at) e in
          let m1 = (expired t ts m).1 in
          let same = expired-timers t ts m in
          let below : t < length tc.timers0 =
            subst (λ u. u < length tc.timers0) (sym i.linked.0) i.below.0 in
          let (t', ts', m', found, i') =
            expire_from-IsTimers fuel (next_of tc t) (expired t ts m).0 m1 xs z (omega arith)
              (subst (λ (c : TimerCtl). c.count < word - 1) (sym same) l)
              (subst (λ c. IsTimers (from_timer (next_of tc t) c) xs z) (sym same)
                (behind_stopped tc t x xs z i)) in
          let left : later_than m1.kernel.timerctl.count (timeout_of m1.kernel.timerctl) xs
              ≡ later_than tc.count (timeout_of tc) (x ∷ xs) =
            ap (λ (c : TimerCtl). later_than c.count (timeout_of c) xs) same
            ∙ later_than-same tc.count (timeout_of tc) (timeout_of (stopped t tc)) xs
                (stopped-timeout tc t below)
            ∙ sym (later_than_go tc.count (timeout_of tc) x xs e) in
          (
            t',
            ts',
            m',
            rw goes found,
            subst (λ ys. IsTimers (new_front t' m').kernel.timerctl ys z) left i',
          )
    ]

-- The count is not part of the chain.
pub counted-IsTimers :
    (c : TimerCtl) (n : ℕ) (xs : List ℕ) (z : ℕ)
    → IsTimers c xs z
    → IsTimers (record c { count = n }) xs z
counted-IsTimers c n xs z i = record {
  linked = i.linked;
  sorted = i.sorted;
  distinct = i.distinct;
  apart = i.apart;
  below = i.below;
  last_below = i.last_below;
  last = i.last;
  front = i.front;
}

-- when the first timer ends later, all do
pub all_later :
    (c : TimerCtl) (xs : List ℕ) (z : ℕ)
    → IsTimers c xs z
    → ltb c.count c.next ≡ true
    → later_than c.count (timeout_of c) xs ≡ xs
all_later c [] z i e = later_than_nil c.count (timeout_of c)
all_later c (x ∷ xs) z i e =
    later_than_stop c.count (timeout_of c) x xs
      (subst (λ t. ltb c.count t ≡ true) (i.front ∙ ap (timeout_of c) i.linked.0) e)

pub ticked_count : (n : ℕ) → n + 1 < word - 1 → (n + 1) % word ≡ n + 1
ticked_count n h = ground arith

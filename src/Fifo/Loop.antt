-- ===== src/Fifo/Loop.antt =====
-- The loop of `inthandler20` (harib27f/haribote/timer.c): its flag and its messages.
use bxos.Common.{
  ℕ, zero, suc, ◌-◌, ◌<◌, Option, none, some, List, [], ◌∷◌, Bool, true, false, ltb, ◌||◌, ◌==◌,
  length, ◌≡◌, refl, sym, ap, ap₂, ◌∙◌, subst, arith, Bool-cases, inl, inr,
}
use bxos.Memory.{word}
use bxos.Timer.{TimerCtl, timer_flags_alloc, timer_at, stopped}
use bxos.Timer.Queue.{IsTimers, next_of, timeout_of, length-set_timer}
use bxos.Timer.Stopping.{stopped-timeout}
use bxos.Fifo.Interrupt.{Machine, set_timers, expired, expire_from}
use bxos.Fifo.Tick.{from_timer, expired-timers, behind_stopped, lt_test}
use bxos.Fifo.Messages.{
  ended, has, sent, delivered, delivered-stopped, delivered-set_timers, if-task_timer, expired-sent,
}

ended-all :
    (count : ℕ) (to to' : ℕ → ℕ) (xs : List ℕ)
    → ((u : ℕ) → to' u ≡ to u)
    → ended count to' xs ≡ ended count to xs
unfolding ended
ended-all count to to' [] same = refl
ended-all count to to' (x ∷ xs) same = rw (same x, ended-all count to to' xs same) refl

-- What the loop leaves: the flag is set exactly if the scheduler's timer has run out, the messages of
-- the others are sent, and no timer is lost.
pub record IsSent (ts : Bool) (m : Machine) (gone : List ℕ) (ts' : Bool) (m' : Machine)
    : Type 0 where
  pub flag : ts' ≡ (has m.kernel.task_timer gone || ts)
  pub messages :
      m' ≡ set_timers (delivered m.kernel.timerctl m.kernel.task_timer gone m) m'.kernel.timerctl
  pub size : length m'.kernel.timerctl.timers0 ≡ length m.kernel.timerctl.timers0

-- the timers that the loop takes out
abbrev pub gone_from : Machine → List ℕ → List ℕ
gone_from m xs = ended m.kernel.timerctl.count (timeout_of m.kernel.timerctl) xs

IsSent-none : (ts : Bool) (m : Machine) → IsSent ts m [] ts m
unfolding delivered has
IsSent-none ts m = record { flag = refl; messages = refl; size = refl }

pub or_moves : (a b c : Bool) → (a || (b || c)) ≡ ((b || a) || c)
or_moves true true c = refl
or_moves true false c = refl
or_moves false true c = refl
or_moves false false c = refl

IsSent-suc :
    (t : ℕ) (ts : Bool) (m : Machine) (xs : List ℕ) (ts' : Bool) (m' : Machine)
    → t < length m.kernel.timerctl.timers0
    → IsSent (expired t ts m).0 (expired t ts m).1 xs ts' m'
    → IsSent ts m (t ∷ xs) ts' m'
unfolding delivered has
IsSent-suc t ts m xs ts' m' l s =
    let c = m.kernel.timerctl in
    let k = m.kernel.task_timer in
    let m1 = set_timers (sent c k t m) (stopped t c) in
    let s' : IsSent ((t == k) || ts) m1 xs ts' m' =
      subst (λ (r : Bool × Machine). IsSent r.0 r.1 xs ts' m') (expired-sent t ts m) s in
    let same : m1.kernel.task_timer ≡ k =
      if-task_timer (t == k) (timer_at c t).fifo (timer_at c t).«data» m in
    record {
      flag =
          s'.flag ∙ ap (λ j. has j xs || ((t == k) || ts)) same ∙ or_moves (has k xs) (t == k) ts;
      messages =
          s'.messages
          ∙ ap (λ d. set_timers d m'.kernel.timerctl)
              (ap (λ j. delivered (stopped t c) j xs m1) same
                ∙ delivered-stopped c k t xs m1 l
                ∙ delivered-set_timers c k xs (sent c k t m) (stopped t c));
      size = s'.size ∙ length-set_timer c t (record (timer_at c t) { flags = timer_flags_alloc }) l;
    }

pub ended-stop :
    (count : ℕ) (to : ℕ → ℕ) (x : ℕ) (xs : List ℕ)
    → ltb count (to x) ≡ true
    → ended count to (x ∷ xs) ≡ []
unfolding ended
ended-stop count to x xs e = rw e refl

pub ended-go :
    (count : ℕ) (to : ℕ → ℕ) (x : ℕ) (xs : List ℕ)
    → ltb count (to x) ≡ false
    → ended count to (x ∷ xs) ≡ x ∷ ended count to xs
unfolding ended
ended-go count to x xs e = rw e refl

-- the loop when it returns
abbrev pub Returns : Bool → Machine → List ℕ → Option (ℕ × Bool × Machine) → Type 0
Returns ts m gone none = Unit {0}
Returns ts m gone (some (t', ts', m')) = IsSent ts m gone ts' m'

Returns-suc :
    (t : ℕ) (ts : Bool) (m : Machine) (xs : List ℕ) (o : Option (ℕ × Bool × Machine))
    → t < length m.kernel.timerctl.timers0
    → Returns (expired t ts m).0 (expired t ts m).1 xs o
    → Returns ts m (t ∷ xs) o
Returns-suc t ts m xs none l r = tt
Returns-suc t ts m xs (some (t', ts', m')) l r = IsSent-suc t ts m xs ts' m' l r

pub ended_nil : (count : ℕ) (to : ℕ → ℕ) → ended count to [] ≡ []
unfolding ended
ended_nil count to = refl

pub expire_from-Returns :
    (fuel t : ℕ) (ts : Bool) (m : Machine) (xs : List ℕ) (z : ℕ)
    → m.kernel.timerctl.count < word - 1
    → IsTimers (from_timer t m.kernel.timerctl) xs z
    → Returns ts m (gone_from m xs) (expire_from fuel t ts m)
unfolding expire_from
expire_from-Returns zero t ts m xs z l i = tt
expire_from-Returns (suc fuel) t ts m [] z l i =
    let tc = m.kernel.timerctl in
    let low : tc.count < timeout_of tc t =
      subst (λ u. tc.count < timeout_of tc u) (sym i.linked) (omega (arith, l, i.last)) in
    let stops : ltb tc.count (timeout_of tc t) ≡ true = lt_test tc.count (timeout_of tc t) low in
    rw (stops, ended_nil tc.count (timeout_of tc)) (IsSent-none ts m)
expire_from-Returns (suc fuel) t ts m (x ∷ xs) z l i =
    let tc = m.kernel.timerctl in
    let at : timeout_of tc x ≡ timeout_of tc t = ap (timeout_of tc) (sym i.linked.0) in
    elim (Bool-cases (ltb tc.count (timeout_of tc x))) [
      | inl e ↦
          let stops : ltb tc.count (timeout_of tc t) ≡ true =
            subst (λ u. ltb tc.count u ≡ true) at e in
          rw (stops, ended-stop tc.count (timeout_of tc) x xs e) (IsSent-none ts m)
      | inr e ↦
          let goes : ltb tc.count (timeout_of tc t) ≡ false =
            subst (λ u. ltb tc.count u ≡ false) at e in
          let m1 = (expired t ts m).1 in
          let same = expired-timers t ts m in
          let below : t < length tc.timers0 =
            subst (λ u. u < length tc.timers0) (sym i.linked.0) i.below.0 in
          let rest =
            expire_from-Returns fuel (next_of tc t) (expired t ts m).0 m1 xs z
              (subst (λ (c : TimerCtl). c.count < word - 1) (sym same) l)
              (subst (λ c. IsTimers (from_timer (next_of tc t) c) xs z) (sym same)
                (behind_stopped tc t x xs z i)) in
          let gone : gone_from m1 xs ≡ ended tc.count (timeout_of tc) xs =
            ap (λ (c : TimerCtl). ended c.count (timeout_of c) xs) same
            ∙ ended-all tc.count (timeout_of tc) (timeout_of (stopped t tc)) xs
                (stopped-timeout tc t below) in
          let all : t ∷ gone_from m1 xs ≡ gone_from m (x ∷ xs) =
            ap₂ (λ y ys. y ∷ ys) i.linked.0 gone ∙ sym (ended-go tc.count (timeout_of tc) x xs e) in
          rw goes (
            subst (λ ys. Returns ts m ys (expire_from fuel (next_of tc t) (expired t ts m).0 m1))
              all
              (Returns-suc t ts m (gone_from m1 xs)
                (expire_from fuel (next_of tc t) (expired t ts m).0 m1) below rest))
    ]

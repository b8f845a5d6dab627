-- ===== src/Timer/Tests.antt =====
-- Timers on concrete chains.
use bxos.Common.{
  true, inl, inr, arith, ℕ, zero, suc, ◌-◌, ◌≡◌, refl, Option, none, some, List, [], ◌∷◌,
}
use bxos.Memory.{word}
use bxos.Timer.{
  TimerCtl, unused_timer, timer_at, timer_settime, insert_behind, timer_cancel, started,
}
use bxos.Timer.Queue.{IsTimers, insert, timeout_of}
use bxos.Timer.Running.{timer_settime-IsTimers}
use bxos.Timer.Cancel.{remove}
use bxos.Timer.Stopping.{timer_cancel-IsTimers}

abbrev idle_timers : TimerCtl
idle_timers = record {
  count = 10;
  next = word - 1;
  t0 = 0;
  timers0 =
      record unused_timer { timeout = word - 1; flags = 2 } ∷ unused_timer ∷ unused_timer ∷ [];
}

-- the chain from `t` on
unfoldable chain : ℕ → ℕ → TimerCtl → List ℕ
chain zero t c = []
chain (suc k) t c = t ∷ chain k (timer_at c t).next c

-- timer 1 in 50 ticks, then timer 2 in 20
abbrev two_set : Option TimerCtl
two_set = elim (timer_settime 1 50 idle_timers) [ none ↦ none | some c ↦ timer_settime 2 20 c ]

abbrev order_of : Option TimerCtl → List ℕ
order_of none = []
order_of (some c) = chain 3 c.t0 c

set_in_order : order_of two_set ≡ 2 ∷ 1 ∷ 0 ∷ []
unfolding timer_settime insert_behind chain
set_in_order = refl

idle-IsTimers : IsTimers idle_timers [] 0
idle-IsTimers = record {
  linked = refl;
  sorted = tt;
  distinct = tt;
  apart = tt;
  below = tt;
  last_below = omega arith;
  last = refl;
  front = refl;
}

timer_settime-IsTimers_example :
    (c' : TimerCtl) × (timer_settime 1 50 idle_timers ≡ some c')
    × IsTimers c' (insert (timeout_of (started 1 50 idle_timers)) 1 []) 0
timer_settime-IsTimers_example =
    timer_settime-IsTimers 1 50 idle_timers [] 0 idle-IsTimers (omega arith) (omega arith) tt
      (λ e. omega (arith, e))

-- timers 2 and 1 run
abbrev pub two_running : TimerCtl
two_running = record {
  count = 10;
  next = 30;
  t0 = 2;
  timers0 =
      record unused_timer { timeout = word - 1; flags = 2 }
      ∷ record unused_timer { timeout = 60; flags = 2; next = 0 }
      ∷ record unused_timer { timeout = 30; flags = 2; next = 1 }
      ∷ [];
}

pub two_running-IsTimers : IsTimers two_running (2 ∷ 1 ∷ []) 0
two_running-IsTimers = record {
  linked = (refl, (refl, refl));
  sorted = (omega arith, (omega arith, tt));
  distinct = (((λ e. omega (arith, e)), tt), (tt, tt));
  apart = ((λ e. omega (arith, e)), ((λ e. omega (arith, e)), tt));
  below = (omega arith, (omega arith, tt));
  last_below = omega arith;
  last = refl;
  front = refl;
}

timer_cancel-IsTimers_example :
    (c' : TimerCtl) × (timer_cancel 1 two_running ≡ some (true, c'))
    × IsTimers c' (remove 1 (2 ∷ 1 ∷ [])) 0
timer_cancel-IsTimers_example =
    timer_cancel-IsTimers 1 two_running (2 ∷ 1 ∷ []) 0 two_running-IsTimers (omega arith)
      (omega arith) (inr (inl refl)) refl

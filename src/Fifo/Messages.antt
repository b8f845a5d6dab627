-- ===== src/Fifo/Messages.antt =====
-- What a tick of the clock (`inthandler20`, harib27f/haribote/timer.c) sends, and the switch at its end.
use bxos.Common.{
  ℕ, ◌+◌, ◌<◌, ◌%◌, List, [], ◌∷◌, Bool, true, false, ltb, ◌||◌, ◌==◌, if◌then◌else◌, length, ◌≡◌,
  refl, sym, ap, ap₂, ◌∙◌, subst, Bool-cases, inl, inr,
}
use bxos.Common.Int.{ℤ}
use bxos.Memory.{word}
use bxos.Timer.{TimerCtl, Timer, timer_flags_alloc, timer_at, stopped}
use bxos.Timer.Queue.{set_here, set_other}
use bxos.Timer.Settime.{same-cases}
use bxos.Fifo.Interrupt.{Machine, put_to, set_timers, expired, ticked}

-- the timers that have run out at a count
unfoldable pub ended : ℕ → (ℕ → ℕ) → List ℕ → List ℕ
ended count to [] = []
ended count to (x ∷ xs) = let rest = ended count to xs in if ltb count (to x) then [] else x ∷ rest

unfoldable pub has : ℕ → List ℕ → Bool
has k [] = false
has k (x ∷ xs) = (x == k) || has k xs

-- the message of a timer, to its FIFO; the scheduler's timer sends none
abbrev pub sent : TimerCtl → ℕ → ℕ → Machine → Machine
sent c k x m = if x == k then m else put_to (timer_at c x).fifo (timer_at c x).«data» m

-- the messages of the timers, in their order
unfoldable pub delivered : TimerCtl → ℕ → List ℕ → Machine → Machine
delivered c k [] m = m
delivered c k (x ∷ xs) m = delivered c k xs (sent c k x m)

-- A message does not look at the timers.
put_to-set_timers :
    (f : ℕ) (v : ℤ) (c : TimerCtl) (m : Machine)
    → put_to f v (set_timers m c) ≡ set_timers (put_to f v m) c
unfolding put_to
put_to-set_timers f v c m = refl

if-set_timers :
    (b : Bool) (f : ℕ) (v : ℤ) (c : TimerCtl) (m : Machine)
    → (if b then set_timers m c else put_to f v (set_timers m c))
      ≡ set_timers (if b then m else put_to f v m) c
if-set_timers true f v c m = refl
if-set_timers false f v c m = put_to-set_timers f v c m

pub delivered-set_timers :
    (c : TimerCtl) (k : ℕ) (xs : List ℕ) (m : Machine) (d : TimerCtl)
    → delivered c k xs (set_timers m d) ≡ set_timers (delivered c k xs m) d
unfolding delivered
delivered-set_timers c k [] m d = refl
delivered-set_timers c k (x ∷ xs) m d =
    ap (delivered c k xs) (if-set_timers (x == k) (timer_at c x).fifo (timer_at c x).«data» d m)
    ∙ delivered-set_timers c k xs (sent c k x m) d

-- A timer that is stopped keeps its FIFO and its message.
stopped-message :
    (c : TimerCtl) (t u : ℕ)
    → t < length c.timers0
    → ((timer_at (stopped t c) u).fifo ≡ (timer_at c u).fifo)
      × ((timer_at (stopped t c) u).«data» ≡ (timer_at c u).«data»)
stopped-message c t u l = elim (same-cases u t) [
  | inl e ↦
      let here : timer_at (stopped t c) t ≡ record (timer_at c t) { flags = timer_flags_alloc } =
        set_here c t (record (timer_at c t) { flags = timer_flags_alloc }) l in
      let at : timer_at (stopped t c) u ≡ record (timer_at c u) { flags = timer_flags_alloc } =
        subst (λ v. timer_at (stopped t c) v ≡ record (timer_at c v) { flags = timer_flags_alloc })
          (sym e) here in
      (ap (λ (x : Timer). x.fifo) at, ap (λ (x : Timer). x.«data») at)
  | inr n ↦
      let at = set_other c t (record (timer_at c t) { flags = timer_flags_alloc }) l u n in
      (ap (λ (x : Timer). x.fifo) at, ap (λ (x : Timer). x.«data») at)
]

pub delivered-stopped :
    (c : TimerCtl) (k t : ℕ) (xs : List ℕ) (m : Machine)
    → t < length c.timers0
    → delivered (stopped t c) k xs m ≡ delivered c k xs m
unfolding delivered
delivered-stopped c k t [] m l = refl
delivered-stopped c k t (x ∷ xs) m l =
    let s = stopped-message c t x l in
    ap₂ (λ f v. delivered (stopped t c) k xs (if x == k then m else put_to f v m)) s.0 s.1
    ∙ delivered-stopped c k t xs (sent c k x m) l

-- one timer of the loop
pub expired-sent :
    (t : ℕ) (ts : Bool) (m : Machine)
    → expired t ts m ≡ (
      (t == m.kernel.task_timer) || ts,
      set_timers (sent m.kernel.timerctl m.kernel.task_timer t m) (stopped t m.kernel.timerctl),
    )
unfolding put_to
expired-sent t ts m = elim (Bool-cases (t == m.kernel.task_timer)) [
  | inl e ↦ rw e refl
  | inr e ↦ rw e refl
]

pub if-task_timer :
    (b : Bool) (f : ℕ) (v : ℤ) (m : Machine)
    → (if b then m else put_to f v m).kernel.task_timer ≡ m.kernel.task_timer
unfolding put_to
if-task_timer true f v m = refl
if-task_timer false f v m = refl

delivered-counted :
    (c : TimerCtl) (n k : ℕ) (xs : List ℕ) (m : Machine)
    → delivered (record c { count = n }) k xs m ≡ delivered c k xs m
unfolding delivered
delivered-counted c n k [] m = refl
delivered-counted c n k (x ∷ xs) m = delivered-counted c n k xs (sent c k x m)

-- the messages of the loop, sent from the state before the tick
pub delivered-ticked :
    (m : Machine) (xs : List ℕ) (c : TimerCtl)
    → set_timers (delivered (ticked m).kernel.timerctl (ticked m).kernel.task_timer xs (ticked m)) c
      ≡ set_timers (delivered m.kernel.timerctl m.kernel.task_timer xs m) c
delivered-ticked m xs c =
    let tc = m.kernel.timerctl in
    let k = m.kernel.task_timer in
    ap (λ d. set_timers d c)
      (delivered-counted tc ((tc.count + 1) % word) k xs (ticked m)
        ∙ delivered-set_timers tc k xs m (ticked m).kernel.timerctl)

pub delivered-task_timer :
    (c : TimerCtl) (k : ℕ) (xs : List ℕ) (m : Machine)
    → (delivered c k xs m).kernel.task_timer ≡ m.kernel.task_timer
unfolding delivered
delivered-task_timer c k [] m = refl
delivered-task_timer c k (x ∷ xs) m =
    delivered-task_timer c k xs (sent c k x m)
    ∙ if-task_timer (x == k) (timer_at c x).fifo (timer_at c x).«data» m

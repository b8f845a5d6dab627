-- ===== src/Timer.antt =====
-- The timers of harib27f/haribote/timer.c. A timer is an index of `timers0`, and `next` is the index
-- of the timer that ends after it; `null` stands for the null pointer. Interrupts are off while a
-- call changes the chain, so the calls are single steps.
pub mod Tests
pub mod Queue
pub mod Settime
pub mod Running
pub mod Cancel
pub mod Stopping
use bxos.Common.{
  ℕ, zero, suc, ◌+◌, ◌-◌, ◌%◌, ◌^◌, Option, none, some, List, Bool, true, false, ◌&&◌, not, map,
  ltb, leb, ◌==◌, if◌then◌else◌, get_or, set,
}
use bxos.Common.Int.{ℤ, pos}
use bxos.Memory.{word}

abbrev pub max_timer : ℕ
max_timer = 500

abbrev pub null : ℕ
null = max_timer

abbrev pub timer_flags_alloc : ℕ
timer_flags_alloc = 1

abbrev pub timer_flags_using : ℕ
timer_flags_using = 2

pub record Timer : Type 0 where
  pub next : ℕ
  pub timeout : ℕ
  pub flags : ℕ
  pub flags2 : ℕ
  pub fifo : ℕ
  pub «data» : ℤ

pub record TimerCtl : Type 0 where
  pub count : ℕ
  pub next : ℕ
  pub t0 : ℕ
  pub timers0 : List Timer

abbrev pub unused_timer : Timer
unused_timer = record { next = null; timeout = 0; flags = 0; flags2 = 0; fifo = 0; «data» = pos 0 }

abbrev pub timer_at : TimerCtl → ℕ → Timer
timer_at c t = get_or c.timers0 t unused_timer

abbrev pub set_timer : TimerCtl → ℕ → Timer → TimerCtl
set_timer c t v = record c { timers0 = set c.timers0 t v }

-- the first timer that is not in use
unfoldable pub alloc_from : ℕ → ℕ → TimerCtl → Option (ℕ × TimerCtl)
alloc_from zero i c = none
alloc_from (suc k) i c =
    let rest = alloc_from k (suc i) c in
    let t = timer_at c i in
    if t.flags == 0
    then some (i, set_timer c i (record t { flags = timer_flags_alloc; flags2 = 0 }))
    else rest

unfoldable pub timer_alloc : TimerCtl → Option (ℕ × TimerCtl)
unfolding alloc_from
timer_alloc c = alloc_from max_timer 0 c

unfoldable pub timer_free : ℕ → TimerCtl → TimerCtl
timer_free t c = set_timer c t (record (timer_at c t) { flags = 0 })

unfoldable pub timer_init : ℕ → ℕ → ℤ → TimerCtl → TimerCtl
timer_init t fifo value c = set_timer c t (record (timer_at c t) { fifo = fifo; «data» = value })

-- The sentinel at the end of the chain. The hardware's registers are not part of the state.
abbrev pub sentinel : TimerCtl → ℕ × TimerCtl → TimerCtl
sentinel c (t, c') =
    let c2 =
      set_timer c' t
        (record (timer_at c' t) { timeout = word - 1; flags = timer_flags_using; next = null }) in
    record c2 { t0 = t; next = word - 1 }

abbrev pub unused : Timer → Timer
unused t = record t { flags = 0 }

unfoldable pub init_pit : TimerCtl → TimerCtl
unfolding timer_alloc
init_pit c =
    let c' = record c { count = 0; timers0 = map unused c.timers0 } in
    elim (timer_alloc c') [ none ↦ c' | some r ↦ sentinel c' r ]

-- `s->next = timer; timer->next = t;`
abbrev pub link_after : TimerCtl → ℕ → ℕ → ℕ → TimerCtl
link_after c s timer t =
    let c' = set_timer c s (record (timer_at c s) { next = timer }) in
    set_timer c' timer (record (timer_at c' timer) { next = t })

-- The search for the place behind `s`; `none` when it is still going after `fuel` steps.
unfoldable pub insert_behind : ℕ → ℕ → ℕ → TimerCtl → Option TimerCtl
insert_behind zero s timer c = none
insert_behind (suc fuel) s timer c =
    let t = (timer_at c s).next in
    let rest = insert_behind fuel t timer c in
    if leb (timer_at c timer).timeout (timer_at c t).timeout
    then some (link_after c s timer t)
    else rest

-- `timeout` and `flags` of a timer that starts
abbrev pub started : ℕ → ℕ → TimerCtl → TimerCtl
started timer timeout c =
    set_timer c timer (record (timer_at c timer) {
      timeout = (timeout + c.count) % word;
      flags = timer_flags_using;
    })

unfoldable pub timer_settime : ℕ → ℕ → TimerCtl → Option TimerCtl
unfolding insert_behind
timer_settime timer timeout c =
    let c' = started timer timeout c in
    let front = set_timer c' timer (record (timer_at c' timer) { next = c'.t0 }) in
    if leb (timer_at c' timer).timeout (timer_at c' c'.t0).timeout
    then some (record front { t0 = timer; next = (timer_at c' timer).timeout })
    else insert_behind max_timer c'.t0 timer c'

-- the timer in front of `timer` in the chain, from `t` on
unfoldable pub before : ℕ → ℕ → ℕ → TimerCtl → Option ℕ
before zero t timer c = none
before (suc fuel) t timer c =
    let rest = before fuel (timer_at c t).next timer c in
    if (timer_at c t).next == timer then some t else rest

abbrev pub stopped : ℕ → TimerCtl → TimerCtl
stopped timer c = set_timer c timer (record (timer_at c timer) { flags = timer_flags_alloc })

abbrev pub cancel_front : ℕ → TimerCtl → TimerCtl
cancel_front timer c =
    let t = (timer_at c timer).next in record c { t0 = t; next = (timer_at c t).timeout }

abbrev pub unlink : ℕ → ℕ → TimerCtl → TimerCtl
unlink t timer c = set_timer c t (record (timer_at c t) { next = (timer_at c timer).next })

-- True when the timer was running and is now out of the chain.
unfoldable pub timer_cancel : ℕ → TimerCtl → Option (Bool × TimerCtl)
unfolding before
timer_cancel timer c =
    if (timer_at c timer).flags == timer_flags_using
    then if timer == c.t0
      then some (true, stopped timer (cancel_front timer c))
      else elim (before max_timer c.t0 timer c) [
        | none ↦ none
        | some t ↦ some (true, stopped timer (unlink t timer c))
      ]
    else some (false, c)

-- the round for timer `i`: if it is one of `fifo` that goes with its task, it is stopped and freed
unfoldable pub cancel_one : ℕ → ℕ → TimerCtl → Option TimerCtl
unfolding timer_cancel timer_free
cancel_one i fifo c =
    let t = timer_at c i in
    if not (t.flags == 0) && (not (t.flags2 == 0) && (t.fifo == fifo))
    then elim (timer_cancel i c) [ none ↦ none | some (_, c') ↦ some (timer_free i c') ]
    else some c

-- the loop of `timer_cancelall`, with the timers left
unfoldable pub cancel_from : ℕ → ℕ → ℕ → TimerCtl → Option TimerCtl
unfolding cancel_one
cancel_from zero i fifo c = some c
cancel_from (suc k) i fifo c = elim (cancel_one i fifo c) [
  | none ↦ none
  | some c' ↦ cancel_from k (suc i) fifo c'
]

unfoldable pub timer_cancelall : ℕ → TimerCtl → Option TimerCtl
unfolding cancel_from
timer_cancelall fifo c = cancel_from max_timer 0 fifo c

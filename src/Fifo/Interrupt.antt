-- ===== src/Fifo/Interrupt.antt =====
-- The interrupt handlers of harib27f/haribote/keyboard.c, mouse.c and timer.c: a byte from the
-- keyboard controller goes to a FIFO; a tick expires timers, wakes tasks and may switch the task. The
-- FIFOs are named by numbers. Port I/O gives the byte and is not part of the state.
use bxos.Common.{
  ℕ, zero, suc, ◌+◌, ◌%◌, Option, none, some, List, [], Bool, true, false, ltb, ◌==◌, if◌then◌else◌,
  get_or, set,
}
use bxos.Common.Int.{ℤ, pos}
use bxos.Memory.{word}
use bxos.Task.{Kernel, task_switch}
use bxos.Timer.{TimerCtl, timer_at, set_timer, timer_flags_alloc, max_timer}
use bxos.Fifo.{Fifo, fifo32_put}

pub record Machine : Type 0 where
  pub kernel : Kernel
  pub fifos : List Fifo
  pub keyfifo : ℕ
  pub keydata0 : ℕ
  pub mousefifo : ℕ
  pub mousedata0 : ℕ

abbrev pub no_fifo : Fifo
no_fifo = record { buf = []; p = 0; q = 0; size = 0; free = 0; flags = 0; task = none }

-- `fifo32_put` on a FIFO of the machine; the handlers do not look at its result
unfoldable pub put_to : ℕ → ℤ → Machine → Machine
unfolding fifo32_put
put_to f value m =
    let (rc, fifo, c) = fifo32_put value (get_or m.fifos f no_fifo) m.kernel.ctl in
    record m { kernel = record m.kernel { ctl = c }; fifos = set m.fifos f fifo }

unfoldable pub inthandler21 : ℕ → Machine → Machine
unfolding put_to
inthandler21 byte m = put_to m.keyfifo (pos (byte + m.keydata0)) m

unfoldable pub inthandler2c : ℕ → Machine → Machine
unfolding put_to
inthandler2c byte m = put_to m.mousefifo (pos (byte + m.mousedata0)) m

abbrev pub set_timers : Machine → TimerCtl → Machine
set_timers m tc = record m { kernel = record m.kernel { timerctl = tc } }

-- one timer that has run out: a message to its FIFO, or the flag for a task switch
abbrev pub expired : ℕ → Bool → Machine → Bool × Machine
expired t ts m =
    let tc = m.kernel.timerctl in
    let timer = timer_at tc t in
    let m' = set_timers m (set_timer tc t (record timer { flags = timer_flags_alloc })) in
    if t == m.kernel.task_timer then (true, m') else (ts, put_to timer.fifo timer.«data» m')

-- The loop over the timers that have run out, from `t` on; then the timer that is now in front, the
-- flag and the machine. `none` when it is still going after `fuel` timers.
unfoldable pub expire_from : ℕ → ℕ → Bool → Machine → Option (ℕ × Bool × Machine)
unfolding put_to
expire_from zero t ts m = none
expire_from (suc fuel) t ts m =
    let timer = timer_at m.kernel.timerctl t in
    let (ts', m') = expired t ts m in
    let rest = expire_from fuel timer.next ts' m' in
    if ltb m.kernel.timerctl.count timer.timeout then some (t, ts, m) else rest

abbrev pub ticked : Machine → Machine
ticked m = let tc = m.kernel.timerctl in set_timers m (record tc { count = (tc.count + 1) % word })

-- the front of the chain after the loop
abbrev pub new_front : ℕ → Machine → Machine
new_front t m =
    let tc = m.kernel.timerctl in
    set_timers m (record tc { t0 = t; next = (timer_at tc t).timeout })

abbrev pub switched : Machine → Option (Option ℕ × Kernel) → Option (Option ℕ × Machine)
switched m none = none
switched m (some (jump, k)) = some (jump, record m { kernel = k })

-- the end of the handler
abbrev pub finish_tick : Option (ℕ × Bool × Machine) → Option (Option ℕ × Machine)
finish_tick none = none
finish_tick (some (t, ts, m)) =
    let m' = new_front t m in if ts then switched m' (task_switch m'.kernel) else some (none, m')

-- The task that is jumped to, if any, and the machine.
unfoldable pub inthandler20 : Machine → Option (Option ℕ × Machine)
unfolding expire_from task_switch
inthandler20 m =
    let m1 = ticked m in
    let tc = m1.kernel.timerctl in
    if ltb tc.count tc.next
    then some (none, m1)
    else finish_tick (expire_from (max_timer + 1) tc.t0 false m1)

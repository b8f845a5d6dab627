-- ===== src/Task.antt =====
-- The scheduler of harib27f/haribote/mtask.c. A task is an index of `tasks0`. Of a level's array the
-- first `running` elements are in use. A task that is removed runs on its level, so `running` is
-- not 0 there. The jump to another task is a result: the task that runs next.
mod Data
pub mod Remove
pub mod Level
pub mod Schedule
pub mod Leaving
pub mod Kept
pub mod Running
pub mod Turns
pub mod Switch
pub mod Asleep
pub mod Rounds
pub mod Tests
mod RunTests
use bxos.Common.{
  ℕ, zero, suc, ◌+◌, ◌-◌, ◌%◌, Option, none, some, List, [], ◌∷◌, Bool, true, false, ◌&&◌, ◌||◌,
  not, map, ltb, leb, ◌==◌, if◌then◌else◌, get_or, set, replicate,
}
use bxos.Common.Int.{ℤ, is_neg, to_ℕ}
use bxos.Common.Shift.{shift_down}
use bxos.Memory.{word}
use bxos.Timer.{TimerCtl, timer_settime}
pub use Data.{
  max_tasks, max_tasklevels, Tss, Task, TaskLevel, TaskCtl, new_tss, new_task, no_task, no_level,
  task_at, level_at, level_of, set_flags, set_level,
}

unfoldable pub task_now : TaskCtl → ℕ
task_now c = let tl = level_at c c.now_lv in get_or tl.tasks tl.now max_tasks

-- a level that a task joins at the end
abbrev pub joined : TaskLevel → ℕ → TaskLevel
joined tl t = record tl { tasks = set tl.tasks tl.running t; running = tl.running + 1 }

unfoldable pub task_add : ℕ → TaskCtl → TaskCtl
task_add t c = set_flags (set_level c (task_at c t).level (joined (level_of c t) t)) t 2

-- the first of `k` elements from `i` on that is `t`, or the place behind them
unfoldable pub place_of : ℕ → ℕ → ℕ → List ℕ → ℕ
place_of t zero i tasks = i
place_of t (suc k) i tasks =
    let rest = place_of t k (suc i) tasks in if get_or tasks i max_tasks == t then i else rest

-- a level that the task at place `i` leaves
abbrev pub left_at : ℕ → TaskLevel → TaskLevel
left_at i tl =
    let running = tl.running - 1 in
    let now = if ltb i tl.now then tl.now - 1 else tl.now in
    record {
      running = running;
      now = if leb running now then 0 else now;
      tasks = shift_down (running - i) i tl.tasks;
    }

unfoldable pub without : ℕ → TaskLevel → TaskLevel
unfolding place_of
without t tl = left_at (place_of t tl.running 0 tl.tasks) tl

unfoldable pub task_remove : ℕ → TaskCtl → TaskCtl
unfolding without
task_remove t c = set_flags (set_level c (task_at c t).level (without t (level_of c t))) t 1

-- the first of `k` levels from `i` on with a task, or the number behind them
unfoldable pub top_level : ℕ → ℕ → TaskCtl → ℕ
top_level zero i c = i
top_level (suc k) i c =
    let rest = top_level k (suc i) c in if ltb 0 (level_at c i).running then i else rest

unfoldable pub task_switchsub : TaskCtl → TaskCtl
unfolding top_level
task_switchsub c = record c { now_lv = top_level max_tasklevels 0 c; lv_change = 0 }

-- the loop of `task_alloc`
unfoldable pub take_from : ℕ → ℕ → TaskCtl → Option (ℕ × TaskCtl)
take_from zero i c = none
take_from (suc k) i c =
    let rest = take_from k (suc i) c in
    if (task_at c i).flags == 0
    then some (
      i,
      record c {
        tasks0 = set c.tasks0 i (new_task (task_at c i));
        alloc = if leb c.alloc i then i + 1 else c.alloc;
        alive = c.alive + 1;
      },
    )
    else rest

unfoldable pub task_alloc : TaskCtl → Option (ℕ × TaskCtl)
unfolding take_from
task_alloc c = take_from max_tasks 0 c

-- the place and the priority of a task that `task_run` starts
abbrev pub placed : ℕ → ℕ → TaskCtl → TaskCtl
placed t level c = record c { tasks0 = set c.tasks0 t (record (task_at c t) { level = level }) }

abbrev pub with_priority : ℕ → ℤ → TaskCtl → TaskCtl
with_priority t priority c =
    if ltb 0 (to_ℕ priority)
    then record c { tasks0 = set c.tasks0 t (record (task_at c t) { priority = to_ℕ priority }) }
    else c

-- the rest of `task_run`, when the level is known and the priority is set
unfoldable pub started : ℕ → ℕ → TaskCtl → TaskCtl
started t l c =
    let moves = ((task_at c t).flags == 2) && not ((task_at c t).level == l) in
    let c2 = if moves then task_remove t c else c in
    let c3 = if (task_at c2 t).flags == 2 then c2 else task_add t (placed t l c2) in
    record c3 { lv_change = 1 }

unfoldable pub task_run : ℕ → ℤ → ℤ → TaskCtl → TaskCtl
unfolding started task_add task_remove
task_run t level priority c =
    started t (if is_neg level then (task_at c t).level else to_ℕ level)
      (with_priority t priority c)

-- `task_free`; `alloc` goes down to behind the last task in use
unfoldable pub last_used : ℕ → TaskCtl → ℕ
last_used zero c = 0
last_used (suc j) c = let rest = last_used j c in if (task_at c j).flags == 0 then rest else suc j

unfoldable pub task_free : ℕ → TaskCtl → TaskCtl
unfolding last_used
task_free t c =
    let c' = set_flags c t 0 in
    record c' {
      alloc = if leb c.alloc (t + 1) then last_used t c' else c.alloc;
      alive = c.alive - 1;
    }

-- The scheduler with the timers: the globals `taskctl`, `prev_count`, `timerctl` and `task_timer`.
pub record Kernel : Type 0 where
  pub ctl : TaskCtl
  pub prev_count : ℕ
  pub timerctl : TimerCtl
  pub task_timer : ℕ

-- the time since the last switch goes to task `t`
abbrev pub charge : ℕ → Kernel → Kernel
charge t k =
    let spent = ((task_at k.ctl t).time + (k.timerctl.count + word - k.prev_count) % word) % word in
    record k {
      ctl = record k.ctl {
        tasks0 = set k.ctl.tasks0 t (record (task_at k.ctl t) { time = spent });
      };
      prev_count = k.timerctl.count;
    }

-- The task that is jumped to, if any.
unfoldable pub task_sleep : ℕ → Kernel → Option ℕ × Kernel
task_sleep t k =
    if (task_at k.ctl t).flags == 2
    then (let now = task_now k.ctl in
        let k1 = charge now k in
        let c = task_remove t k1.ctl in
        if t == now
        then (some (task_now (task_switchsub c)), record k1 { ctl = task_switchsub c })
        else (none, record k1 { ctl = c }))
    else (none, k)

-- `now` moves on to the next task of its level, round about
abbrev pub moved_on : TaskLevel → TaskLevel
moved_on tl = record tl { now = if (tl.now + 1) == tl.running then 0 else tl.now + 1 }

-- the scheduler after `task_switch`
unfoldable pub switched : Kernel → TaskCtl
switched k =
    let c = (charge (task_now k.ctl) k).ctl in
    let c1 = set_level c c.now_lv (moved_on (level_at c c.now_lv)) in
    if c1.lv_change == 0 then c1 else task_switchsub c1

-- The jump and the new state; `none` when the timer's chain has no place.
unfoldable pub task_switch : Kernel → Option (Option ℕ × Kernel)
task_switch k =
    let now = task_now k.ctl in
    let c = switched k in
    let new = task_now c in
    elim (timer_settime k.task_timer (task_at c new).priority k.timerctl) [
      | none ↦ none
      | some tc ↦
          some (
            if new == now then none else some new,
            record (charge now k) { ctl = c; timerctl = tc },
          )
    ]

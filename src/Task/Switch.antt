-- ===== src/Task/Switch.antt =====
-- `task_switch` (harib27f/haribote/mtask.c) with the timer that it sets.
use bxos.Common.{
  ℕ, ◌≤◌, ◌<◌, ◌≡◌, refl, sym, ap, subst, ◌∙◌, length, ◌==◌, Option, none, some, if◌then◌else◌,
  NotIn, List, ◌≢◌,
}
use bxos.Task.{Kernel, task_at, task_now, task_switch, switched, charge}
use bxos.Timer.{TimerCtl, max_timer, started}
use bxos.Timer.Queue.{IsTimers, insert, timeout_of}
use bxos.Timer.Running.{timer_settime-IsTimers}
use bxos.Task.Kept.{flag_of, lev_of}
use bxos.Task.Turns.{IsWorking, task_now-runs, switched-IsWorking, jump_to, after_switch}

-- A timer that does not run can be set: it is none of the timers `xs` of the chain, nor the sentinel.
pub record HasPlace (t : ℕ) (c : TimerCtl) (xs : List ℕ) (z : ℕ) : Type 0 where
  pub chain : IsTimers c xs z
  pub few : length xs ≤ max_timer
  pub below : t < length c.timers0
  pub out : NotIn t xs
  pub no_sentinel : t ≢ z

-- the ticks of the task that gets the processor
abbrev pub ticks : Kernel → ℕ
ticks k = (task_at (switched k) (task_now (switched k))).priority

-- the chain in which the scheduler's timer has its place
abbrev pub with_timer : Kernel → List ℕ → List ℕ
with_timer k xs = insert (timeout_of (started k.task_timer (ticks k) k.timerctl)) k.task_timer xs

-- A switch returns when the scheduler's timer does not run.
pub task_switch-returns :
    (k : Kernel) (xs : List ℕ) (z : ℕ)
    → HasPlace k.task_timer k.timerctl xs z
    → (jump : Option ℕ) × (k' : Kernel) × (task_switch k ≡ some (jump, k'))
      × IsTimers k'.timerctl (with_timer k xs) z
unfolding task_switch
task_switch-returns k xs z h =
    let (tc, e, i) =
      timer_settime-IsTimers k.task_timer (ticks k) k.timerctl xs z h.chain h.few h.below h.out
        h.no_sentinel in
    let k1 : Kernel = record (charge (task_now k.ctl) k) { ctl = switched k; timerctl = tc } in
    (jump_to (task_now (switched k)) (task_now k.ctl), k1, rw (e, task_switch) refl, i)

-- a switch from `k` to `k'`: the scheduler works, the task that has the processor is marked as running
-- and is on the level that is on, and there is a jump to it if it is another than before
pub record IsSwitch (k k' : Kernel) (jump : Option ℕ) : Type 0 where
  pub works : IsWorking k'.ctl
  pub runs : flag_of k'.ctl (task_now k'.ctl) ≡ 2
  pub on_level : lev_of k'.ctl (task_now k'.ctl) ≡ k'.ctl.now_lv
  pub jumps : jump ≡ (if task_now k'.ctl == task_now k.ctl then none else some (task_now k'.ctl))

-- task_switch returns, if the scheduler's timer does not run. It keeps the scheduler working, and the
-- processor goes to a task that is marked as running and is on the level that is on; there is a jump
-- exactly if that is another task than before. The timer has then its place in the chain, which stays
-- in the order of the timeouts.
pub task_switch-IsWorking :
    (k : Kernel) (xs : List ℕ) (z : ℕ)
    → IsWorking k.ctl
    → HasPlace k.task_timer k.timerctl xs z
    → (jump : Option ℕ) × (k' : Kernel) × (task_switch k ≡ some (jump, k'))
      × IsSwitch k k' jump
      × IsTimers k'.timerctl (with_timer k xs) z
task_switch-IsWorking k xs z w h =
    let (jump, k', e, i) = task_switch-returns k xs z h in
    let a = after_switch k k' jump e in
    let w' : IsWorking k'.ctl = subst IsWorking (sym a.0) (switched-IsWorking k w) in
    let r = task_now-runs k'.ctl w'.schedule w'.on in
    (
      jump,
      k',
      e,
      record {
        works = w';
        runs = r.1;
        on_level = r.2;
        jumps = a.1 ∙ ap (λ c. jump_to (task_now c) (task_now k.ctl)) (sym a.0);
      },
      i,
    )

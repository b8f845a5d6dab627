-- ===== src/Task/RunTests.antt =====
-- Tasks are started one after the other on an empty scheduler, sleep, and take turns.
use bxos.Common.{
  NoRepeat, ℕ, zero, suc, ◌-◌, ◌≤◌, ◌<◌, ◌≡◌, refl, inl, inr, [], ◌∷◌, replicate, arith, get_or,
  Option, some, none, length,
}
use bxos.Common.Int.{pos}
use bxos.Common.Members.{IsIn}
use bxos.Timer.{unused_timer, timer_settime}
use bxos.Task.{
  Task, TaskLevel, TaskCtl, Kernel, max_tasks, max_tasklevels, no_task, no_level, level_at,
  task_now, task_run, task_sleep, task_switch, switched,
}
use bxos.Task.Remove.{active}
use bxos.Task.Kept.{IsScheduler, flag_of, lev_of}
use bxos.Task.Running.{Runs, task_run-Runs}
use bxos.Task.Turns.{IsWorking}
use bxos.Task.Switch.{HasPlace, IsSwitch, with_timer, task_switch-IsWorking}
use bxos.Timer.Queue.{IsTimers}
use bxos.Task.Asleep.{IsAsleep, task_sleep-IsAsleep}
use bxos.Task.Rounds.{IsClock, switches, switches-turn}

abbrev bare_level : TaskLevel
bare_level = record { running = 0; now = 0; tasks = replicate 4 max_tasks }

abbrev bare : TaskCtl
bare = record {
  now_lv = 0;
  lv_change = 0;
  level = replicate max_tasklevels bare_level;
  tasks0 = replicate 4 no_task;
  alloc = 0;
  alive = 0;
}

bare_at {ℓ} :
    {A : Type 0} (P : A → Type ℓ) (n : ℕ) (a d : A)
    → P a
    → P d
    → (i : ℕ) → P (get_or (replicate n a) i d)
bare_at P zero a d p q i = q
bare_at P (suc n) a d p q zero = p
bare_at P (suc n) a d p q (suc i) = bare_at P n a d p q i

-- No level has a task, and none is marked as running.
bare-IsScheduler : IsScheduler bare
bare-IsScheduler =
    let at = λ (P : TaskLevel → Type 0) (p : P bare_level) (q : P no_level).
      bare_at P max_tasklevels bare_level no_level p q in
    record {
      ten = refl;
      agree = record {
        fits = λ l h. at (λ tl. tl.running ≤ length tl.tasks) (omega arith) (omega arith) l;
        turn = λ l h. at (λ tl. tl.now ≤ tl.running - 1) (omega arith) (omega arith) l;
        once = λ l h. at (λ tl. NoRepeat (active tl)) tt tt l;
        runs = λ l t h.
            at (λ tl. IsIn t (active tl) → (t < 4) × (flag_of bare t ≡ 2) × (lev_of bare t ≡ l))
              (λ m. absurd m) (λ m. absurd m) l;
        listed = λ t h f. absurd (
            bare_at (λ (x : Task). x.flags ≡ 2 → ⊥) 4 no_task no_task (λ e. omega arith)
              (λ e. omega arith) t f);
      };
    }

-- 0 and 1 run on the level 0, and 2 on the level 9
abbrev first_on : TaskCtl
first_on = task_run 0 (pos 0) (pos 2) bare

task_run-Runs_example : Runs 0 0 (task_run 0 (pos 0) (pos 2) bare)
task_run-Runs_example =
    task_run-Runs 0 (pos 0) (pos 2) bare (omega arith) (omega arith) (omega arith) bare-IsScheduler

first_on-Runs : Runs 0 0 first_on
first_on-Runs =
    task_run-Runs 0 (pos 0) (pos 2) bare (omega arith) (omega arith) (omega arith) bare-IsScheduler

abbrev both_on : TaskCtl
both_on = task_run 1 (pos 0) (pos 2) first_on

both_on-Runs : Runs 1 0 both_on
unfolding task_run
both_on-Runs =
    task_run-Runs 1 (pos 0) (pos 2) first_on (omega arith) (omega arith) (omega arith)
      first_on-Runs.0

abbrev kernel : Kernel
kernel = record {
  ctl = record both_on { lv_change = 0 };
  prev_count = 3;
  timerctl = record {
    count = 10;
    next = 0xffffffff;
    t0 = 0;
    timers0 = record unused_timer { timeout = 0xffffffff; flags = 2 } ∷ unused_timer ∷ [];
  };
  task_timer = 1;
}

kernel-IsWorking : IsWorking kernel.ctl
unfolding task_run
kernel-IsWorking = record {
  schedule = record { ten = both_on-Runs.0.ten; agree = both_on-Runs.0.agree };
  on = (omega arith, omega arith);
}

task_sleep-IsAsleep_example : IsAsleep 0 kernel (task_sleep 0 kernel).0 (task_sleep 0 kernel).1
unfolding task_run
task_sleep-IsAsleep_example =
    task_sleep-IsAsleep 0 1 kernel kernel-IsWorking (omega arith) (omega arith) (λ e. omega arith)
      refl

abbrev outcome : Option ℕ × Kernel
outcome = elim (task_switch kernel) [ none ↦ (none, kernel) | some r ↦ r ]

switch_goes_on : task_now outcome.1.ctl ≡ 1
unfolding task_run task_switch switched task_now timer_settime
switch_goes_on = refl

kernel-HasPlace : HasPlace 1 kernel.timerctl [] 0
kernel-HasPlace = record {
  chain = record {
    linked = refl;
    sorted = tt;
    distinct = tt;
    apart = tt;
    below = tt;
    last_below = omega arith;
    last = refl;
    front = refl;
  };
  few = omega arith;
  below = omega arith;
  out = tt;
  no_sentinel = λ e. omega (arith, e);
}

task_switch-IsWorking_example :
    (jump : Option ℕ) × (k' : Kernel) × (task_switch kernel ≡ some (jump, k'))
    × IsSwitch kernel k' jump
    × IsTimers k'.timerctl (with_timer kernel []) 0
task_switch-IsWorking_example = task_switch-IsWorking kernel [] 0 kernel-IsWorking kernel-HasPlace

-- No other timer runs: when the scheduler's timer has run out, the sentinel alone is left.
abbrev run_out : Kernel → Kernel
run_out k = record k { timerctl = kernel.timerctl; task_timer = 1 }

run_out-IsClock : IsClock run_out
run_out-IsClock = record { same_ctl = λ k. refl; ready = λ k k' jump r e. ([], 0, kernel-HasPlace) }

switches-turn_example :
    (n : ℕ) × (k' : Kernel) × (n < (level_at kernel.ctl 0).running)
    × (switches run_out n kernel ≡ some k')
    × (task_now k'.ctl ≡ 1)
unfolding task_run
switches-turn_example =
    switches-turn run_out kernel 1 run_out-IsClock kernel-IsWorking ([], 0, kernel-HasPlace) refl
      (inr (inl refl))

-- ===== src/Task/Turns.antt =====
-- `task_sleep` and `task_switch`: the scheduler stays well formed, and the processor goes to a task
-- that runs.
use bxos.Common.{
  ℕ, ◌+◌, ◌-◌, ◌≤◌, ◌<◌, ◌≡◌, refl, sym, ap, subst, ◌∙◌, inl, inr, arith, length, length-set,
  get_or, get_or-take, ◌==◌, Option, none, some, if◌then◌else◌, Bool-cases, Option-cases,
  length-take, NoRepeat,
}
use mathlib.Core.Path.{fun_ext}
use bxos.Common.Members.{IsIn, IsIn-get_or, first_place}
use bxos.Task.{
  TaskLevel, TaskCtl, Kernel, max_tasks, max_tasklevels, task_at, level_at, task_now,
  task_switchsub, task_switch, switched, charge, set_level,
}
use bxos.Timer.{timer_settime}
use bxos.Task.Remove.{active}
use bxos.Task.Level.{task_switchsub-top}
use bxos.Task.Schedule.{IsSchedule, changed_here, changed-elim}
use bxos.Task.Kept.{IsScheduler, flag_of, lev_of, field_set, same_task, level_set, changed_same}

-- The level that is on has a task.
abbrev pub IsOn : TaskCtl → Type 0
IsOn c = (c.now_lv < max_tasklevels) × (0 < (level_at c c.now_lv).running)

-- the task that has the processor
pub task_now-runs :
    (c : TaskCtl)
    → IsScheduler c
    → IsOn c
    → (task_now c < length c.tasks0)
      × (flag_of c (task_now c) ≡ 2)
      × (lev_of c (task_now c) ≡ c.now_lv)
unfolding task_now
task_now-runs c s on =
    let tl = level_at c c.now_lv in
    let turn : tl.now < tl.running = omega (arith, s.agree.turn c.now_lv on.0, on.1) in
    let full : length (active tl) ≡ tl.running =
      omega (arith, length-take tl.running tl.tasks, s.agree.fits c.now_lv on.0) in
    s.agree.runs c.now_lv (get_or tl.tasks tl.now max_tasks) on.0 (
      subst (λ t. IsIn t (active tl)) (get_or-take tl.running tl.now tl.tasks max_tasks turn)
        (IsIn-get_or (active tl) tl.now max_tasks (omega (arith, full, turn))))

-- A level with a task in its list has one.
pub member_runs : (t : ℕ) (tl : TaskLevel) → IsIn t (active tl) → 0 < tl.running
member_runs t tl m =
    let (i, h, e, f) = first_place t max_tasks (active tl) m in
    omega (arith, length-take tl.running tl.tasks, h)

-- If some task runs, then `task_switchsub` finds a level that is on.
pub task_switchsub-IsOn :
    (c : TaskCtl) (u : ℕ)
    → IsScheduler c
    → u < length c.tasks0
    → flag_of c u ≡ 2
    → IsScheduler (task_switchsub c) × IsOn (task_switchsub c)
unfolding task_switchsub
task_switchsub-IsOn c u s h f =
    let m = s.agree.listed u h f in
    let top = task_switchsub-top c (lev_of c u) m.0 (member_runs u (level_at c (lev_of c u)) m.1) in
    (record { ten = s.ten; agree = s.agree }, (omega (arith, top.0, m.0), top.1))

-- The time that is charged to a task has no part in this.
pub charged :
    (t : ℕ) (k : Kernel)
    → t < length k.ctl.tasks0
    → IsScheduler k.ctl
    → IsScheduler (charge t k).ctl
charged t k h s = same_task t _ k.ctl h refl refl s

pub charge_flag :
    (t u : ℕ) (k : Kernel) → t < length k.ctl.tasks0 → flag_of (charge t k).ctl u ≡ flag_of k.ctl u
charge_flag t u k h =
    field_set (λ x. x.flags) t _ k.ctl.tasks0 u h ∙ changed_same t (flag_of k.ctl) u

-- Another turn on a level.
turned :
    (l i : ℕ) (c : TaskCtl)
    → l < max_tasklevels
    → i ≤ (level_at c l).running - 1
    → IsScheduler c
    → IsScheduler (set_level c l (record (level_at c l) { now = i }))
turned l i c h b s =
    let tl : TaskLevel = record (level_at c l) { now = i } in
    let at = λ (m : ℕ). level_set l tl c m (omega (arith, s.ten, h)) in
    record {
      ten = length-set c.level l tl ∙ s.ten;
      agree =
          subst (IsSchedule (length c.tasks0) (flag_of c) (lev_of c)) (sym (fun_ext at)) (record {
            fits = λ m q.
                changed-elim (λ tl. tl.running ≤ length tl.tasks) l tl (level_at c) m
                  (λ e. s.agree.fits l h) (λ d. s.agree.fits m q);
            turn = λ m q.
                changed-elim (λ tl. tl.now ≤ tl.running - 1) l tl (level_at c) m (λ e. b)
                  (λ d. s.agree.turn m q);
            once = λ m q.
                changed-elim (λ tl. NoRepeat (active tl)) l tl (level_at c) m
                  (λ e. s.agree.once l h) (λ d. s.agree.once m q);
            runs = λ m u q.
                changed-elim
                  (λ tl.
                    IsIn u (active tl)
                    → (u < length c.tasks0) × (flag_of c u ≡ 2) × (lev_of c u ≡ m))
                  l tl (level_at c) m
                  (λ e.
                    subst
                      (λ k.
                        IsIn u (active (level_at c k))
                        → (u < length c.tasks0) × (flag_of c u ≡ 2) × (lev_of c u ≡ m))
                      e (s.agree.runs m u q))
                  (λ d. s.agree.runs m u q);
            listed = λ u q f.
                let r = s.agree.listed u q f in
                (
                  r.0,
                  changed-elim (λ tl. IsIn u (active tl)) l tl (level_at c) (lev_of c u)
                      (λ e. subst (λ k. IsIn u (active (level_at c k))) e r.1) (λ d. r.1),
                );
          });
    }

-- a scheduler whose levels and tasks agree, and that has a task to run
pub record IsWorking (c : TaskCtl) : Type 0 where
  pub schedule : IsScheduler c
  pub on : IsOn c

-- After a switch the scheduler is still working.
pub switched-IsWorking : (k : Kernel) → IsWorking k.ctl → IsWorking (switched k)
unfolding switched
switched-IsWorking k w =
    let t = task_now k.ctl in
    let r = task_now-runs k.ctl w.schedule w.on in
    let c = (charge t k).ctl in
    let l = k.ctl.now_lv in
    let tl = level_at k.ctl l in
    let b = w.schedule.agree.turn l w.on.0 in
    let next : ℕ = if (tl.now + 1) == tl.running then 0 else tl.now + 1 in
    let inside : next ≤ tl.running - 1 = ground (arith, b, w.on.1) in
    let c1 = set_level c l (record tl { now = next }) in
    let s1 = turned l next c w.on.0 inside (charged t k r.0 w.schedule) in
    let size : length c.tasks0 ≡ length k.ctl.tasks0 = length-set k.ctl.tasks0 t _ in
    elim (Bool-cases (c.lv_change == 0)) [
      | inl stay ↦ rw stay (record {
        schedule = s1;
        on = (
          w.on.0,
          subst (λ (tl : TaskLevel). 0 < tl.running)
              (sym (
                level_set l (record tl { now = next }) c l (omega (arith, w.schedule.ten, w.on.0))
                ∙ changed_here l (record tl { now = next }) (level_at c) l refl))
              w.on.1,
        );
      })
      | inr change ↦
          let top =
            task_switchsub-IsOn c1 t s1 (omega (arith, size, r.0)) (charge_flag t t k r.0 ∙ r.1) in
          rw change (record { schedule = top.0; on = top.1 })
    ]

-- what a switch that returns has done
abbrev pub jump_to : ℕ → ℕ → Option ℕ
jump_to new now = if new == now then none else some new

pub after_switch :
    (k k' : Kernel) (jump : Option ℕ)
    → task_switch k ≡ some (jump, k')
    → (k'.ctl ≡ switched k) × (jump ≡ jump_to (task_now (switched k)) (task_now k.ctl))
unfolding task_switch
after_switch k k' jump e =
    let new = task_now (switched k) in
    elim (Option-cases
      (timer_settime k.task_timer (task_at (switched k) new).priority k.timerctl)) [
        | inl fails ↦ let q : task_switch k ≡ none = rw (fails, task_switch) in cc
        | inr (tc, set_) ↦
            let k1 : Kernel = record (charge (task_now k.ctl) k) {
              ctl = switched k;
              timerctl = tc;
            } in
            let q : task_switch k ≡ some (jump_to new (task_now k.ctl), k1) =
              rw (set_, task_switch) in
            let found : Option ℕ × Kernel = (jump_to new (task_now k.ctl), k1) in
            let given : Option ℕ × Kernel = (jump, k') in
            let p : found ≡ given = cc in (ap (λ r. r.1.ctl) (sym p), ap (λ r. r.0) (sym p))
      ]

-- ===== src/Task/Asleep.antt =====
-- `task_sleep` of harib27f/haribote/mtask.c: the processor goes on to a task that runs.
use bxos.Common.{
  ℕ, ◌<◌, ◌≡◌, ◌≢◌, refl, sym, ap, subst, ◌∙◌, false, inl, inr, arith, length, length-set, ◌==◌,
  ==_iff, Option, none, some, if◌then◌else◌, Bool-cases,
}
use bxos.Task.{
  Task, TaskCtl, Kernel, task_at, level_at, task_now, task_remove, task_switchsub, task_sleep,
  charge,
}
use bxos.Task.Schedule.{changed_here, changed_there}
use bxos.Task.Kept.{IsScheduler, flag_of, lev_of, field_set, task_remove-IsScheduler, changed_same}
use bxos.Task.Turns.{
  IsWorking, task_now-runs, member_runs, task_switchsub-IsOn, charged, charge_flag,
}

-- The marks and levels after a removal; the level that is on is the same.
removed_marks :
    (t : ℕ) (c : TaskCtl)
    → t < length c.tasks0
    → (flag_of (task_remove t c) t ≡ 1)
      × ((u : ℕ) → u ≢ t → flag_of (task_remove t c) u ≡ flag_of c u)
      × ((u : ℕ) → lev_of (task_remove t c) u ≡ lev_of c u)
      × (length (task_remove t c).tasks0 ≡ length c.tasks0)
      × ((task_remove t c).now_lv ≡ c.now_lv)
unfolding task_remove
removed_marks t c h =
    let v : Task = record (task_at c t) { flags = 1 } in
    (
      field_set (λ x. x.flags) t v c.tasks0 t h ∙ changed_here t 1 (flag_of c) t refl,
      λ u d. field_set (λ x. x.flags) t v c.tasks0 u h ∙ changed_there t 1 (flag_of c) u d,
      λ u. field_set (λ x. x.level) t v c.tasks0 u h ∙ changed_same t (lev_of c) u,
      length-set c.tasks0 t v,
      refl,
    )

-- what is promised of a task that sleeps
pub record IsAsleep (t : ℕ) (k : Kernel) (jump : Option ℕ) (k' : Kernel) : Type 0 where
  pub works : IsWorking k'.ctl
  pub asleep : flag_of k'.ctl t ≢ 2
  pub on_task : flag_of k'.ctl (task_now k'.ctl) ≡ 2
  pub jumps : jump ≡ (if t == task_now k.ctl then some (task_now k'.ctl) else none)

-- the level that is on keeps the task that has the processor
still_on :
    (t : ℕ) (c : TaskCtl)
    → IsScheduler (task_remove t c)
    → IsWorking c
    → t < length c.tasks0
    → t ≢ task_now c
    → IsWorking (task_remove t c)
still_on t c s w h d =
    let m = removed_marks t c h in
    let r = task_now-runs c w.schedule w.on in
    let now = task_now c in
    let c' = task_remove t c in
    let here = s.agree.listed now (omega (arith, m.3, r.0)) (m.1 now (λ e. d (sym e)) ∙ r.1) in
    let at : lev_of c' now ≡ c'.now_lv = m.2 now ∙ r.2 ∙ sym m.4 in
    record {
      schedule = s;
      on = (
        omega (arith, at, here.0),
        subst (λ l. 0 < (level_at c' l).running) at
            (member_runs now (level_at c' (lev_of c' now)) here.1),
      );
    }

-- the task that has the processor is the same when its time is charged
charge_now : (t : ℕ) (k : Kernel) → task_now (charge t k).ctl ≡ task_now k.ctl
unfolding task_now
charge_now t k = refl

-- The choice of the level changes no mark.
switchsub_flag : (c : TaskCtl) (t : ℕ) → flag_of (task_switchsub c) t ≡ flag_of c t
unfolding task_switchsub
switchsub_flag c t = refl

-- task_sleep of any task keeps the scheduler working, if some other task runs: the task is then not
-- marked as running, the task that has the processor is, and there is a jump to it exactly if the
-- task that sleeps had the processor.
pub task_sleep-IsAsleep :
    (t u : ℕ) (k : Kernel)
    → IsWorking k.ctl
    → t < length k.ctl.tasks0
    → u < length k.ctl.tasks0
    → u ≢ t
    → flag_of k.ctl u ≡ 2
    → IsAsleep t k (task_sleep t k).0 (task_sleep t k).1
unfolding task_sleep
task_sleep-IsAsleep t u k w h hu d fu =
    let now = task_now k.ctl in
    let r = task_now-runs k.ctl w.schedule w.on in
    let c = (charge now k).ctl in
    let size : length c.tasks0 ≡ length k.ctl.tasks0 = length-set k.ctl.tasks0 now _ in
    let s = charged now k r.0 w.schedule in
    let m = removed_marks t c (omega (arith, size, h)) in
    elim (Bool-cases (flag_of k.ctl t == 2)) [
      | inr idle ↦
          let marked_not : flag_of k.ctl t ≢ 2 = ground (arith, idle) in
          let differs : t ≢ now = λ e. marked_not (ap (flag_of k.ctl) e ∙ r.1) in
          let other : (t == now) ≡ false = ground (arith, differs) in
          simp idle (record { works = w; asleep = marked_not; on_task = r.1; jumps = rw other })
      | inl runs ↦
          let two : flag_of c t ≡ 2 = charge_flag now t k r.0 ∙ (==_iff _ _).0 runs in
          let s' = task_remove-IsScheduler t c (omega (arith, size, h)) two s in
          let left = task_remove t c in
          elim (Bool-cases (t == now)) [
            | inl it ↦
                let top =
                  task_switchsub-IsOn left u s' (omega (arith, m.3, size, hu))
                    (m.1 u d ∙ charge_flag now u k r.0 ∙ fu) in
                simp (runs, it)
                  (record {
                    works = record { schedule = top.0; on = top.1 };
                    asleep = λ e. omega (arith, m.0, sym (switchsub_flag left t) ∙ e);
                    on_task = (task_now-runs (task_switchsub left) top.0 top.1).1;
                    jumps = rw it;
                  })
            | inr other ↦
                let differs : t ≢ task_now c = λ e. ground (arith, other, e ∙ charge_now now k) in
                let wc : IsWorking c = record { schedule = s; on = w.on } in
                let on = still_on t c s' wc (omega (arith, size, h)) differs in
                simp (runs, other)
                  (record {
                    works = on;
                    asleep = λ e. omega (arith, m.0, e);
                    on_task = (task_now-runs left on.schedule on.on).1;
                    jumps = rw other;
                  })
          ]
    ]

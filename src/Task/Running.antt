-- ===== src/Task/Running.antt =====
-- `task_run` keeps the levels and the marks of the tasks in agreement.
use bxos.Common.{
  ℕ, ◌<◌, ◌≡◌, ◌≢◌, refl, sym, ap, subst, ◌∙◌, false, inl, inr, arith, length, length-set, get_or,
  ◌==◌, ==_iff, ltb, if◌then◌else◌, Bool-cases,
}
use bxos.Common.Int.{ℤ, is_neg, to_ℕ}
use bxos.Task.{
  Task, TaskLevel, TaskCtl, max_tasklevels, no_level, task_at, level_at, without, placed,
  with_priority, task_add, task_remove, started, task_run,
}
use bxos.Task.Schedule.{changed_here, changed_there}
use bxos.Task.Kept.{
  IsScheduler, flag_of, lev_of, field_set, same_task, level_set, task_remove-IsScheduler,
  task_add-IsScheduler, task_add-marks, changed_same,
}

-- A priority has no part in this.
with_priority-IsScheduler :
    (t : ℕ) (priority : ℤ) (c : TaskCtl)
    → t < length c.tasks0
    → IsScheduler c
    → IsScheduler (with_priority t priority c)
with_priority-IsScheduler t priority c h s = elim (Bool-cases (ltb 0 (to_ℕ priority))) [
  | inl given ↦
      rw given (same_task t (record (task_at c t) { priority = to_ℕ priority }) c h refl refl s)
  | inr none ↦ rw none s
]

-- a well-formed state in which the task runs on the level
abbrev pub Runs : ℕ → ℕ → TaskCtl → Type 0
Runs t l c = IsScheduler c × (flag_of c t ≡ 2) × (lev_of c t ≡ l)

-- Also `lv_change` has none.
marked : (t l : ℕ) (c : TaskCtl) (b : ℕ) → Runs t l c → Runs t l (record c { lv_change = b })
marked t l c b r = (record { ten = r.0.ten; agree = r.0.agree }, r.1, r.2)

joins :
    (t l : ℕ) (c : TaskCtl)
    → t < length c.tasks0
    → flag_of c t ≢ 2
    → l < max_tasklevels
    → (level_at c l).running < length (level_at c l).tasks
    → IsScheduler c
    → Runs t l (task_add t (placed t l c))
joins t l c h f real room s =
    let m = task_add-marks t l c h in (task_add-IsScheduler t l c h f real room s, m.0, m.1)

-- What a removal leaves of the task and of another level.
removed :
    (t m : ℕ) (c : TaskCtl)
    → t < length c.tasks0
    → lev_of c t < length c.level
    → m ≢ lev_of c t
    → (flag_of (task_remove t c) t ≡ 1)
      × (level_at (task_remove t c) m ≡ level_at c m)
      × (length (task_remove t c).tasks0 ≡ length c.tasks0)
unfolding task_remove
removed t m c h r d =
    let v : Task = record (task_at c t) { flags = 1 } in
    (
      field_set (λ x. x.flags) t v c.tasks0 t h ∙ changed_here t 1 (flag_of c) t refl,
      level_set (lev_of c t) (without t (level_at c (lev_of c t))) c m r
          ∙ changed_there (lev_of c t) (without t (level_at c (lev_of c t))) (level_at c) m d,
      length-set c.tasks0 t v,
    )

started-Runs :
    (t l : ℕ) (c : TaskCtl)
    → t < length c.tasks0
    → l < max_tasklevels
    → (level_at c l).running < length (level_at c l).tasks
    → IsScheduler c
    → Runs t l (started t l c)
unfolding started
started-Runs t l c h real room s = elim (Bool-cases (flag_of c t == 2)) [
  | inr idle ↦
      simp idle (
        marked t l (task_add t (placed t l c)) 1 (joins t l c h (ground (arith, idle)) real room s))
  | inl runs ↦
      let two : flag_of c t ≡ 2 = (==_iff _ _).0 runs in
      elim (Bool-cases (lev_of c t == l)) [
        | inl same ↦ simp (runs, same) (marked t l c 1 (s, two, (==_iff _ _).0 same))
        | inr other ↦
            let on_it = (s.agree.listed t h two).0 in
            let c2 = task_remove t c in
            let r = removed t l c h (omega (arith, s.ten, on_it)) (ground (arith, other)) in
            let idle : (flag_of c2 t == 2) ≡ false = ground (arith, r.0) in
            let h2 : t < length c2.tasks0 = omega (arith, r.2, h) in
            let room2 = subst (λ (tl : TaskLevel). tl.running < length tl.tasks) (sym r.1) room in
            simp (runs, other, idle)
              (marked t l (task_add t (placed t l c2)) 1 (
                joins t l c2 h2 (λ e. omega (arith, e, r.0)) real room2
                  (task_remove-IsScheduler t c h two s)))
      ]
]

-- What a new priority leaves.
with_priority_same :
    (t : ℕ) (priority : ℤ) (c : TaskCtl)
    → t < length c.tasks0
    → (lev_of (with_priority t priority c) t ≡ lev_of c t)
      × ((with_priority t priority c).level ≡ c.level)
      × (length (with_priority t priority c).tasks0 ≡ length c.tasks0)
with_priority_same t priority c h = elim (Bool-cases (ltb 0 (to_ℕ priority))) [
  | inl given ↦
      let v : Task = record (task_at c t) { priority = to_ℕ priority } in
      rw given (
        field_set (λ x. x.level) t v c.tasks0 t h ∙ changed_same t (lev_of c) t,
        refl,
        length-set c.tasks0 t v,
      )
  | inr none ↦ rw none (refl, refl, refl)
]

-- the level that `task_run` is asked for
abbrev pub wanted : ℕ → ℤ → TaskCtl → ℕ
wanted t level c = if is_neg level then (task_at c t).level else to_ℕ level

-- task_run keeps the levels and the marks of the tasks in agreement, whatever the task was doing, and
-- then the task runs, on the level that is asked for or on its own. The task and the level exist,
-- and the array of the level has room.
pub task_run-Runs :
    (t : ℕ) (level priority : ℤ) (c : TaskCtl)
    → t < length c.tasks0
    → wanted t level c < max_tasklevels
    → (level_at c (wanted t level c)).running < length (level_at c (wanted t level c)).tasks
    → IsScheduler c
    → Runs t (wanted t level c) (task_run t level priority c)
unfolding task_run
task_run-Runs t level priority c h real room s =
    let k = with_priority_same t priority c h in
    let c1 = with_priority t priority c in
    let l = wanted t level c in
    let same : level_at c1 l ≡ level_at c l = ap (λ ls. get_or ls l no_level) k.1 in
    started-Runs t l c1 (omega (arith, k.2, h)) real
      (subst (λ (tl : TaskLevel). tl.running < length tl.tasks) (sym same) room)
      (with_priority-IsScheduler t priority c h s)

-- ===== src/Task/Kept.antt =====
-- A task that is added to a level or removed keeps the levels and the marks in agreement.
use bxos.Common.{
  ℕ, ◌<◌, ◌≡◌, ◌≢◌, refl, sym, ap, subst, ◌∙◌, List, Bool, true, false, arith, length, length-set,
  get_or, set, ◌==◌, if◌then◌else◌,
}
use mathlib.Core.Path.{fun_ext}
use native.Mathlib.Decide.{ℕ_discrete}
use bxos.Common.Bytes.{get_or-set}
use bxos.Task.{
  Task, TaskLevel, TaskCtl, max_tasklevels, no_task, no_level, task_at, level_at, joined, without,
  placed, task_add, task_remove, set_level,
}
use bxos.Task.Schedule.{IsSchedule, IsSchedule-add, changed_at, changed_here, changed_there}
use bxos.Task.Leaving.{IsSchedule-remove}

-- the marks, the levels of the tasks, and the levels
abbrev pub flag_of : TaskCtl → ℕ → ℕ
flag_of c u = (task_at c u).flags

abbrev pub lev_of : TaskCtl → ℕ → ℕ
lev_of c u = (task_at c u).level

pub record IsScheduler (c : TaskCtl) : Type 0 where
  pub ten : length c.level ≡ max_tasklevels
  pub agree : IsSchedule (length c.tasks0) (flag_of c) (lev_of c) (level_at c)

-- A state is well formed if its functions are those of a schedule.
IsScheduler-of :
    (c : TaskCtl) (n : ℕ) (flag lev : ℕ → ℕ) (on : ℕ → TaskLevel)
    → length c.level ≡ max_tasklevels
    → length c.tasks0 ≡ n
    → ((u : ℕ) → flag_of c u ≡ flag u)
    → ((u : ℕ) → lev_of c u ≡ lev u)
    → ((m : ℕ) → level_at c m ≡ on m)
    → IsSchedule n flag lev on
    → IsScheduler c
IsScheduler-of c n flag lev on ten size f l o s = record {
  ten = ten;
  agree =
      subst (λ n. IsSchedule n (flag_of c) (lev_of c) (level_at c)) (sym size)
        (subst (λ g. IsSchedule n g (lev_of c) (level_at c)) (sym (fun_ext f))
          (subst (λ g. IsSchedule n flag g (level_at c)) (sym (fun_ext l))
            (subst (λ g. IsSchedule n flag lev g) (sym (fun_ext o)) s)));
}

ap-if {ℓ κ} :
    {A : Type ℓ} {B : Type κ} (g : A → B) (b : Bool) (x y : A)
    → g (if b then x else y) ≡ (if b then g x else g y)
ap-if g true x y = refl
ap-if g false x y = refl

pub changed_same {ℓ} : {A : Type ℓ} (t : ℕ) (f : ℕ → A) (u : ℕ) → changed_at t (f t) f u ≡ f u
changed_same t f u = elim (ℕ_discrete u t) [
  | yes e ↦ changed_here t (f t) f u e ∙ ap f (sym e)
  | no n ↦ changed_there t (f t) f u n
]

-- what a write of a task does to a field
pub field_set {ℓ} :
    {A : Type ℓ} (g : Task → A) (t : ℕ) (v : Task) (tasks : List Task) (u : ℕ)
    → t < length tasks
    → g (get_or (set tasks t v) u no_task) ≡ changed_at t (g v) (λ u. g (get_or tasks u no_task)) u
field_set g t v tasks u h =
    ap g (get_or-set tasks t u v no_task h) ∙ ap-if g (u == t) v (get_or tasks u no_task)

-- A write of a task that keeps its mark and its level.
pub same_task :
    (t : ℕ) (v : Task) (c : TaskCtl)
    → t < length c.tasks0
    → v.flags ≡ flag_of c t
    → v.level ≡ lev_of c t
    → IsScheduler c
    → IsScheduler (record c { tasks0 = set c.tasks0 t v })
same_task t v c h f l s =
    IsScheduler-of (record c { tasks0 = set c.tasks0 t v }) (length c.tasks0) (flag_of c) (lev_of c)
      (level_at c) s.ten (length-set c.tasks0 t v)
      (λ u.
        field_set (λ x. x.flags) t v c.tasks0 u h
        ∙ ap (λ k. changed_at t k (flag_of c) u) f
        ∙ changed_same t (flag_of c) u)
      (λ u.
        field_set (λ x. x.level) t v c.tasks0 u h
        ∙ ap (λ k. changed_at t k (lev_of c) u) l
        ∙ changed_same t (lev_of c) u)
      (λ m. refl) s.agree

pub level_set :
    (l : ℕ) (tl : TaskLevel) (c : TaskCtl) (m : ℕ)
    → l < length c.level
    → level_at (set_level c l tl) m ≡ changed_at l tl (level_at c) m
level_set l tl c m h = get_or-set c.level l m tl no_level h

-- A task that is marked as running leaves its level.
pub task_remove-IsScheduler :
    (t : ℕ) (c : TaskCtl)
    → t < length c.tasks0
    → flag_of c t ≡ 2
    → IsScheduler c
    → IsScheduler (task_remove t c)
unfolding task_remove
task_remove-IsScheduler t c h f s =
    let l = lev_of c t in
    let real = (s.agree.listed t h f).0 in
    IsScheduler-of (task_remove t c) (length c.tasks0) (changed_at t 1 (flag_of c)) (lev_of c)
      (changed_at l (without t (level_at c l)) (level_at c))
      (length-set c.level l (without t (level_at c l)) ∙ s.ten)
      (length-set c.tasks0 t (record (task_at c t) { flags = 1 }))
      (λ u. field_set (λ x. x.flags) t (record (task_at c t) { flags = 1 }) c.tasks0 u h)
      (λ u.
        field_set (λ x. x.level) t (record (task_at c t) { flags = 1 }) c.tasks0 u h
        ∙ changed_same t (lev_of c) u)
      (λ m. level_set l (without t (level_at c l)) c m (omega (arith, s.ten, real)))
      (IsSchedule-remove (length c.tasks0) t (flag_of c) (lev_of c) (level_at c) s.agree h f 1
        (λ e. omega arith))

-- A task that is not marked as running joins a level.
pub task_add-IsScheduler :
    (t l : ℕ) (c : TaskCtl)
    → t < length c.tasks0
    → flag_of c t ≢ 2
    → l < max_tasklevels
    → (level_at c l).running < length (level_at c l).tasks
    → IsScheduler c
    → IsScheduler (task_add t (placed t l c))
unfolding task_add
task_add-IsScheduler t l c h f real room s =
    let v1 : Task = record (task_at c t) { level = l } in
    let ts1 = set c.tasks0 t v1 in
    let p = placed t l c in
    let v2 : Task = record (task_at p t) { flags = 2 } in
    let h1 : t < length ts1 = omega (arith, length-set c.tasks0 t v1, h) in
    let lev1 = λ (u : ℕ). field_set (λ x. x.level) t v1 c.tasks0 u h in
    let flag1 =
      λ (u : ℕ). field_set (λ x. x.flags) t v1 c.tasks0 u h ∙ changed_same t (flag_of c) u in
    let e : lev_of p t ≡ l = lev1 t ∙ changed_here t l (lev_of c) t refl in
    IsScheduler-of (task_add t p) (length c.tasks0) (changed_at t 2 (flag_of c))
      (changed_at t l (lev_of c)) (changed_at l (joined (level_at c l) t) (level_at c))
      (length-set c.level (lev_of p t) (joined (level_at c (lev_of p t)) t) ∙ s.ten)
      (length-set ts1 t v2 ∙ length-set c.tasks0 t v1)
      (λ u.
        field_set (λ x. x.flags) t v2 ts1 u h1
        ∙ ap (λ (g : ℕ → ℕ). changed_at t 2 g u) (fun_ext flag1))
      (λ u. field_set (λ x. x.level) t v2 ts1 u h1 ∙ changed_same t (lev_of p) u ∙ lev1 u)
      (λ m.
        level_set (lev_of p t) (joined (level_at c (lev_of p t)) t) c m
          (omega (arith, s.ten, e, real))
        ∙ ap (λ k. changed_at k (joined (level_at c k) t) (level_at c) m) e)
      (IsSchedule-add (length c.tasks0) t l (flag_of c) (lev_of c) (level_at c) s.agree h f real
        room)

-- The task is then marked, and has the level.
pub task_add-marks :
    (t l : ℕ) (c : TaskCtl)
    → t < length c.tasks0
    → (flag_of (task_add t (placed t l c)) t ≡ 2) × (lev_of (task_add t (placed t l c)) t ≡ l)
unfolding task_add
task_add-marks t l c h =
    let v1 : Task = record (task_at c t) { level = l } in
    let p = placed t l c in
    let v2 : Task = record (task_at p t) { flags = 2 } in
    let h1 : t < length p.tasks0 = omega (arith, length-set c.tasks0 t v1, h) in
    (
      field_set (λ x. x.flags) t v2 p.tasks0 t h1 ∙ changed_here t 2 (flag_of p) t refl,
      field_set (λ x. x.level) t v2 p.tasks0 t h1
          ∙ changed_same t (lev_of p) t
          ∙ field_set (λ x. x.level) t v1 c.tasks0 t h
          ∙ changed_here t l (lev_of c) t refl,
    )

-- ===== src/Task/Remove.antt =====
-- A level of the scheduler as the list of its tasks: a task joins at the end and leaves from its place,
-- and the current task stays the current one.
use bxos.Common.{
  ℕ, zero, suc, ◌+◌, ◌-◌, ◌≤◌, ◌<◌, ◌≡◌, ◌≢◌, ◌⊎◌, refl, ap, ◌∙◌, List, [], ◌∷◌, ◌++◌, Bool-cases,
  inl, inr, arith, length, take, set, get_or, ◌==◌, ltb, if◌then◌else◌,
}
use native.Mathlib.Decide.{ℕ_discrete}
use bxos.Common.Shift.{take-shift_down, length-shift_down, remove_at}
use bxos.Task.{
  Task, TaskLevel, TaskCtl, max_tasks, no_task, no_level, task_at, level_at, level_of, joined,
  left_at, place_of, without, task_add, task_remove, set_flags, set_level,
}

-- the tasks of a level, in the order of the array
abbrev pub active : TaskLevel → List ℕ
active tl = take tl.running tl.tasks

-- the task that has the processor when the level is on
abbrev pub current : TaskLevel → ℕ
current tl = get_or (active tl) tl.now max_tasks

pub record IsLevel (tl : TaskLevel) : Type 0 where
  pub fits : tl.running ≤ length tl.tasks
  pub turn : tl.now < tl.running

-- `i` is the first place of `t` among the tasks of a level
pub record IsFirst (t i : ℕ) (tl : TaskLevel) : Type 0 where
  pub inside : i < tl.running
  pub here : get_or tl.tasks i max_tasks ≡ t
  pub earlier : (j : ℕ) → j < i → get_or tl.tasks j max_tasks ≢ t

place_of-first :
    (t k i p : ℕ) (tasks : List ℕ)
    → i ≤ p
    → p < i + k
    → get_or tasks p max_tasks ≡ t
    → ((j : ℕ) → j < p → get_or tasks j max_tasks ≢ t)
    → place_of t k i tasks ≡ p
unfolding place_of
place_of-first t zero i p tasks h l e n = absurd (omega arith)
place_of-first t (suc k) i p tasks h l e n = elim (Bool-cases (i == p)) [
  | inl same ↦ ground arith
  | inr other ↦ ground (arith, n i, place_of-first t k (suc i) p tasks)
]

get_or-remove_at_below :
    (xs : List ℕ) (i j d : ℕ) → j < i → get_or (remove_at i xs) j d ≡ get_or xs j d
get_or-remove_at_below [] i j d h = refl
get_or-remove_at_below (x ∷ xs) zero j d h = absurd (omega arith)
get_or-remove_at_below (x ∷ xs) (suc i) zero d h = refl
get_or-remove_at_below (x ∷ xs) (suc i) (suc j) d h = get_or-remove_at_below xs i j d (omega arith)

get_or-remove_at_above :
    (xs : List ℕ) (i j d : ℕ) → i ≤ j → get_or (remove_at i xs) j d ≡ get_or xs (suc j) d
get_or-remove_at_above [] i j d h = refl
get_or-remove_at_above (x ∷ xs) zero j d h = refl
get_or-remove_at_above (x ∷ xs) (suc i) zero d h = absurd (omega arith)
get_or-remove_at_above (x ∷ xs) (suc i) (suc j) d h = get_or-remove_at_above xs i j d (omega arith)

module _ (tl : TaskLevel) (i : ℕ) (v : IsLevel tl) (h : i < tl.running) where
  left-active : active (left_at i tl) ≡ remove_at i (active tl)
  left-active =
      take-shift_down i (tl.running - 1 - i) (tl.running - 1) tl.tasks (omega arith)
        (omega (arith, v.fits))
      ∙ ap (λ n. remove_at i (take n tl.tasks))
          (let e : suc (tl.running - 1) ≡ tl.running = omega arith in e)

  -- the current task stays current when another leaves
  left-now : tl.now ≢ i → (left_at i tl).now ≡ (if ltb i tl.now then tl.now - 1 else tl.now)
  left-now n = ground (arith, v.turn)

  left-current : tl.now ≢ i → current (left_at i tl) ≡ current tl
  left-current n =
      ap (λ xs. get_or xs (left_at i tl).now max_tasks) left-active
      ∙ ap (λ j. get_or (remove_at i (active tl)) j max_tasks) (left-now n)
      ∙ elim (Bool-cases (ltb i tl.now)) [
        | inl below ↦ rw below (
            get_or-remove_at_above (active tl) i (tl.now - 1) max_tasks (ground arith)
            ∙ ap (λ j. get_or (active tl) j max_tasks)
                (let e : suc (tl.now - 1) ≡ tl.now = ground arith in e))
        | inr above ↦
            rw above (get_or-remove_at_below (active tl) i tl.now max_tasks (ground arith))
      ]

-- When the task at place `i` of its level is removed, the level's tasks are those before and behind
-- it, in their order; the current task stays the current one unless it is the one that leaves; and
-- the level stays well formed unless it was the last one.
pub without-active :
    (t i : ℕ) (tl : TaskLevel)
    → IsLevel tl
    → IsFirst t i tl
    → (active (without t tl) ≡ remove_at i (active tl))
      × ((tl.now ≡ i) ⊎ (current (without t tl) ≡ current tl))
      × ((tl.running ≡ 1) ⊎ IsLevel (without t tl))
unfolding without
without-active t i tl v h =
    rw
      (place_of-first t tl.running 0 i tl.tasks (omega arith) (omega (arith, h.inside)) h.here
        h.earlier)
      (
        left-active tl i v h.inside,
        elim (ℕ_discrete tl.now i) [ yes e ↦ inl e | no n ↦ inr (left-current tl i v h.inside n) ],
        elim (ℕ_discrete tl.running 1) [
          | yes e ↦ inl e
          | no n ↦ inr (record {
            fits = omega (arith, length-shift_down (tl.running - 1 - i) i tl.tasks, v.fits);
            turn = ground (arith, v.turn, h.inside);
          })
        ],
      )

take-append_last :
    (n : ℕ) (xs : List ℕ) (t : ℕ)
    → n < length xs
    → take (suc n) (set xs n t) ≡ take n xs ++ (t ∷ [])
take-append_last n [] t h = absurd (omega arith)
take-append_last zero (x ∷ xs) t h = refl
take-append_last (suc n) (x ∷ xs) t h = ap (λ r. x ∷ r) (take-append_last n xs t (omega arith))

-- A task that joins a level with room in its array comes behind the others.
pub joined-active :
    (t : ℕ) (tl : TaskLevel)
    → tl.running < length tl.tasks
    → active (joined tl t) ≡ active tl ++ (t ∷ [])
joined-active t tl room =
    ap (λ n. take n (set tl.tasks tl.running t))
      (let e : tl.running + 1 ≡ suc tl.running = omega arith in e)
    ∙ take-append_last tl.running tl.tasks t room

-- a task that exists, on a level that exists
pub record IsTask (t : ℕ) (c : TaskCtl) : Type 0 where
  pub exists : t < length c.tasks0
  pub on : (task_at c t).level < length c.level

get_or-set_same :
    {A : Type 0} (xs : List A) (i : ℕ) (v d : A) → i < length xs → get_or (set xs i v) i d ≡ v
get_or-set_same [] i v d h = absurd (omega arith)
get_or-set_same (x ∷ xs) zero v d h = refl
get_or-set_same (x ∷ xs) (suc i) v d h = get_or-set_same xs i v d (omega arith)

-- What `set_flags` and `set_level` leave of a task and its level.
changed :
    (t f : ℕ) (tl : TaskLevel) (c : TaskCtl)
    → IsTask t c
    → let c' = set_flags (set_level c (task_at c t).level tl) t f in
      (task_at c' t ≡ record (task_at c t) { flags = f }) × (level_of c' t ≡ tl)
changed t f tl c v =
    let e = get_or-set_same c.tasks0 t (record (task_at c t) { flags = f }) no_task v.exists in
    (
      e,
      ap (λ u. level_at (set_level c (task_at c t).level tl) (Task.level u)) e
          ∙ get_or-set_same c.level (task_at c t).level tl no_level v.on,
    )

-- `task_add` puts a task behind the others of its level, whose array has room, and marks it as
-- running.
pub task_add-active :
    (t : ℕ) (c : TaskCtl)
    → IsTask t c
    → (level_of c t).running < length (level_of c t).tasks
    → (active (level_of (task_add t c) t) ≡ active (level_of c t) ++ (t ∷ []))
      × ((task_at (task_add t c) t).flags ≡ 2)
unfolding task_add
task_add-active t c v room =
    let e = changed t 2 (joined (level_of c t) t) c v in
    (ap active e.1 ∙ joined-active t (level_of c t) room, ap (λ u. Task.flags u) e.0)

-- `task_remove` takes a task from its first place on its level, where the others keep their order,
-- and marks it as sleeping; the current task of the level stays the current one unless it is the
-- one that leaves.
pub task_remove-active :
    (t i : ℕ) (c : TaskCtl)
    → IsTask t c
    → IsLevel (level_of c t)
    → IsFirst t i (level_of c t)
    → (active (level_of (task_remove t c) t) ≡ remove_at i (active (level_of c t)))
      × ((task_at (task_remove t c) t).flags ≡ 1)
      × (((level_of c t).now ≡ i)
          ⊎ (current (level_of (task_remove t c) t) ≡ current (level_of c t)))
unfolding task_remove
task_remove-active t i c v l h =
    let e = changed t 1 (without t (level_of c t)) c v in
    let gone = without-active t i (level_of c t) l h in
    (
      ap active e.1 ∙ gone.0,
      ap (λ u. Task.flags u) e.0,
      elim gone.1 [ inl at_turn ↦ inl at_turn | inr same ↦ inr (ap current e.1 ∙ same) ],
    )

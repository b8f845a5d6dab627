-- ===== src/Task/Level.antt =====
-- The level that `task_switchsub` chooses.
use bxos.Common.{ℕ, zero, suc, ◌+◌, ◌≤◌, ◌<◌, ◌≡◌, sym, ap, ◌∙◌, Bool-cases, inl, inr, arith, ltb}
use native.Mathlib.Decide.{ℕ_discrete}
use bxos.Task.{TaskCtl, max_tasklevels, level_at, top_level, task_switchsub}

top_level-least :
    (k i l : ℕ) (c : TaskCtl)
    → i ≤ l
    → l < i + k
    → 0 < (level_at c l).running
    → (top_level k i c ≤ l)
      × (0 < (level_at c (top_level k i c)).running)
      × ((j : ℕ) → i ≤ j → j < top_level k i c → (level_at c j).running ≡ 0)
unfolding top_level
top_level-least zero i l c h b r = absurd (omega arith)
top_level-least (suc k) i l c h b r = elim (Bool-cases (ltb 0 (level_at c i).running)) [
  | inl busy ↦ rw busy (h, ground arith, λ j a o. absurd (omega arith))
  | inr idle ↦
      let none : (level_at c i).running ≡ 0 = ground arith in
      let least =
        top_level-least k (suc i) l c
          (elim (ℕ_discrete i l) [
            | yes e ↦ absurd (omega (arith, none, r, ap (λ x. (level_at c x).running) e))
            | no n ↦ omega arith
          ])
          (omega arith) r in
      rw idle (
        least.0,
        least.1,
        λ j a o. elim (ℕ_discrete i j) [
          | yes e ↦ ap (λ x. (level_at c x).running) (sym e) ∙ none
          | no n ↦ least.2 j (omega arith) o
        ],
      )
]

-- If a level has a task, then the level that `task_switchsub` chooses is the highest one that has:
-- it has a task, and every level above it has none.
pub task_switchsub-top :
    (c : TaskCtl) (l : ℕ)
    → l < max_tasklevels
    → 0 < (level_at c l).running
    → let top = (task_switchsub c).now_lv in
      (top ≤ l)
      × (0 < (level_at (task_switchsub c) top).running)
      × ((j : ℕ) → j < top → (level_at (task_switchsub c) j).running ≡ 0)
unfolding task_switchsub
task_switchsub-top c l h r =
    let least = top_level-least max_tasklevels 0 l c (omega arith) (omega arith) r in
    (least.0, least.1, λ j b. least.2 j (omega arith) b)

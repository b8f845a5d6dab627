-- ===== src/Task/Tests.antt =====
-- Three tasks: 0 and 2 on level 1, where 2 is the current one, and 1 asleep.
use bxos.Common.{ℕ, ◌≡◌, ◌⊎◌, refl, [], ◌∷◌, replicate, arith}
use bxos.Common.Int.{pos, minus}
use bxos.Common.Shift.{shift_down}
use bxos.Task.{
  Task, TaskLevel, TaskCtl, no_task, task_at, level_at, level_of, task_add, task_remove, task_run,
  task_free, place_of, without, last_used,
}
use bxos.Task.Remove.{active, current, IsLevel, IsFirst, task_remove-active}

abbrev pub on_level : ℕ → ℕ → Task
on_level f l = record no_task { flags = f; level = l }

abbrev pub pair_level : TaskLevel
pair_level = record { running = 2; now = 1; tasks = 0 ∷ 2 ∷ replicate 98 0 }

abbrev pub empty_level : TaskLevel
empty_level = record { running = 0; now = 0; tasks = replicate 100 0 }

abbrev pub three : TaskCtl
three = record {
  now_lv = 1;
  lv_change = 0;
  level = empty_level ∷ pair_level ∷ replicate 8 empty_level;
  tasks0 = on_level 2 1 ∷ on_level 1 1 ∷ on_level 2 1 ∷ [];
  alloc = 3;
  alive = 3;
}

run_wakes : active (level_at (task_run 1 (minus 1) (pos 0) three) 1) ≡ 0 ∷ 2 ∷ 1 ∷ []
unfolding task_run task_add task_remove
run_wakes = refl

run_moves : active (level_at (task_run 0 (pos 0) (pos 0) three) 0) ≡ 0 ∷ []
unfolding task_run task_add task_remove without place_of shift_down
run_moves = refl

free_last : (task_free 2 three).alloc ≡ 2
unfolding task_free last_used
free_last = refl

pair-IsLevel : IsLevel pair_level
pair-IsLevel = record { fits = omega arith; turn = omega arith }

zero-IsFirst : IsFirst 0 0 pair_level
zero-IsFirst = record { inside = omega arith; here = refl; earlier = λ j h. absurd (omega arith) }

task_remove-active_example :
    (active (level_of (task_remove 0 three) 0) ≡ 2 ∷ [])
    × ((task_at (task_remove 0 three) 0).flags ≡ 1)
    × ((pair_level.now ≡ 0) ⊎ (current (level_of (task_remove 0 three) 0) ≡ 2))
task_remove-active_example =
    task_remove-active 0 0 three (record { exists = omega arith; on = omega arith }) pair-IsLevel
      zero-IsFirst

-- ===== src/Task/Leaving.antt =====
-- A task leaves its level, and the levels still agree with the marks of the tasks.
use bxos.Common.{
  ℕ, ◌-◌, ◌≤◌, ◌<◌, ◌≡◌, ◌≢◌, sym, ap, subst, ◌∙◌, arith, length, get_or, get_or-take, length-take,
  NoRepeat,
}
use native.Mathlib.Decide.{ℕ_discrete}
use bxos.Common.Members.{
  IsIn, first_place, IsIn-remove_at, IsIn-remove_other, gone, NoRepeat-remove_at,
}
use bxos.Common.Shift.{remove_at, length-shift_down}
use bxos.Task.{TaskLevel, max_tasks, max_tasklevels, without, place_of}
use bxos.Task.Remove.{active, IsLevel, IsFirst, without-active}
use bxos.Task.Schedule.{IsSchedule, changed_at, changed_here, changed_there, changed-elim}

-- the length of the list of the tasks of a level
length-active : (tl : TaskLevel) → tl.running ≤ length tl.tasks → length (active tl) ≡ tl.running
length-active tl h = omega (arith, length-take tl.running tl.tasks)

without_bounds :
    (t : ℕ) (tl : TaskLevel)
    → tl.running ≤ length tl.tasks
    → tl.now ≤ tl.running - 1
    → ((without t tl).running ≤ length (without t tl).tasks)
      × ((without t tl).now ≤ (without t tl).running - 1)
unfolding without
without_bounds t tl f w =
    let i = place_of t tl.running 0 tl.tasks in
    (omega (arith, length-shift_down (tl.running - 1 - i) i tl.tasks, f), ground (arith, w))

module _ (n t : ℕ) (flag lev : ℕ → ℕ) (on : ℕ → TaskLevel) (s : IsSchedule n flag lev on)
    (exists : t < n) (runs : flag t ≡ 2) where
  abbrev its_level : ℕ
  its_level = lev t

  abbrev without_it : TaskLevel
  without_it = without t (on its_level)

  listed_there : (its_level < max_tasklevels) × IsIn t (active (on its_level))
  listed_there = s.listed t exists runs

  -- where the task stands
  its_place : (i : ℕ) × IsFirst t i (on its_level)
  its_place =
      let whole = length-active (on its_level) (s.fits its_level listed_there.0) in
      let (i, h, e, f) = first_place t max_tasks (active (on its_level)) listed_there.1 in
      let below : i < (on its_level).running = omega (arith, whole, h) in
      (
        i,
        record {
          inside = below;
          here =
              sym (get_or-take (on its_level).running i (on its_level).tasks max_tasks below) ∙ e;
          earlier = λ j q r. f j q (
              get_or-take (on its_level).running j (on its_level).tasks max_tasks
                (omega (arith, q, below))
              ∙ r);
        },
      )

  without_it-active : active without_it ≡ remove_at its_place.0 (active (on its_level))
  without_it-active =
      let (i, first) = its_place in
      let level : IsLevel (on its_level) = record {
        fits = s.fits its_level listed_there.0;
        turn = omega (arith, s.turn its_level listed_there.0, first.inside);
      } in
      (without-active t i (on its_level) level first).0

  -- the place, in the list
  place_in :
      (its_place.0 < length (active (on its_level)))
      × (get_or (active (on its_level)) its_place.0 max_tasks ≡ t)
  place_in =
      let (i, first) = its_place in
      (
        omega (arith, length-active (on its_level) (s.fits its_level listed_there.0), first.inside),
        get_or-take (on its_level).running i (on its_level).tasks max_tasks first.inside
            ∙ first.here,
      )

  -- the tasks that stay on a level
  pub stays :
      (m u : ℕ)
      → m < max_tasklevels
      → IsIn u (active (changed_at its_level without_it on m))
      → IsIn u (active (on m)) × (u ≢ t)
  stays m u h =
      changed-elim (λ tl. IsIn u (active tl) → IsIn u (active (on m)) × (u ≢ t)) its_level
        without_it on m
        (λ e i.
          let j = subst (λ xs. IsIn u xs) without_it-active i in
          (
            subst (λ k. IsIn u (active (on k))) (sym e)
                (IsIn-remove_at u its_place.0 (active (on its_level)) j),
            λ q.
                gone t its_place.0 max_tasks (active (on its_level))
                  (s.once its_level listed_there.0) place_in.0 place_in.1
                  (subst (λ w. IsIn w (remove_at its_place.0 (active (on its_level)))) q j),
          ))
        (λ d i. (i, λ q. d (sym (s.runs m u h i).2 ∙ ap lev q)))

  removed-listed :
      (f u : ℕ)
      → f ≢ 2
      → u < n
      → changed_at t f flag u ≡ 2
      → (lev u < max_tasklevels) × IsIn u (active (changed_at its_level without_it on (lev u)))
  removed-listed f u nf h e = elim (ℕ_discrete u t) [
    | yes q ↦ absurd (nf (sym (changed_here t f flag u q) ∙ e))
    | no d ↦
        let r = s.listed u h (sym (changed_there t f flag u d) ∙ e) in
        (
          r.0,
          changed-elim (λ tl. IsIn u (active tl)) its_level without_it on (lev u)
              (λ q.
                subst (λ xs. IsIn u xs) (sym without_it-active)
                  (IsIn-remove_other u t its_place.0 max_tasks (active (on its_level)) place_in.0
                    place_in.1 (λ w. d (sym w)) (subst (λ k. IsIn u (active (on k))) q r.1)))
              (λ o. r.1),
        )
  ]

  -- A task that leaves its level and gets another mark.
  pub IsSchedule-remove :
      (f : ℕ) → f ≢ 2 → IsSchedule n (changed_at t f flag) lev (changed_at its_level without_it on)
  IsSchedule-remove f nf =
      let l = its_level in
      let real = listed_there.0 in
      let b = without_bounds t (on l) (s.fits l real) (s.turn l real) in
      record {
        fits = λ m h.
            changed-elim (λ tl. tl.running ≤ length tl.tasks) l without_it on m (λ e. b.0)
              (λ d. s.fits m h);
        turn = λ m h.
            changed-elim (λ tl. tl.now ≤ tl.running - 1) l without_it on m (λ e. b.1)
              (λ d. s.turn m h);
        once = λ m h.
            changed-elim (λ tl. NoRepeat (active tl)) l without_it on m
              (λ e.
                subst NoRepeat (sym without_it-active)
                  (NoRepeat-remove_at its_place.0 (active (on l)) (s.once l real)))
              (λ d. s.once m h);
        runs = λ m u h i.
            let (old, other) = stays m u h i in
            let r = s.runs m u h old in (r.0, changed_there t f flag u other ∙ r.1, r.2);
        listed = λ u h e. removed-listed f u nf h e;
      }

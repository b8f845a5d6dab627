-- ===== src/Task/Schedule.antt =====
-- The levels of the scheduler agree with the marks of the tasks: what is true of the levels and the
-- tasks as functions, and that it stays true when a task joins a level or leaves it.
use bxos.Common.{
  ℕ, ◌-◌, ◌≤◌, ◌<◌, ◌≡◌, ◌≢◌, ◌⊎◌, refl, sym, subst, ◌∙◌, [], ◌∷◌, ◌++◌, true, false, inl, inr,
  arith, length, length-set, ◌==◌, ==_iff, if◌then◌else◌, NoRepeat,
}
use native.Mathlib.Decide.{ℕ_discrete}
use bxos.Common.Members.{IsIn, NotIn-intro, IsIn-snoc, IsIn-append_left, IsIn-last, NoRepeat-snoc}
use bxos.Task.{TaskLevel, max_tasklevels, joined}
use bxos.Task.Remove.{active, joined-active}

-- `flag` and `lev` are the marks and the levels of the `n` tasks, and `on` the levels. A task is on a
-- level exactly if it is marked as running, and then on its own, once.
pub record IsSchedule (n : ℕ) (flag lev : ℕ → ℕ) (on : ℕ → TaskLevel) : Type 0 where
  pub fits : (l : ℕ) → l < max_tasklevels → (on l).running ≤ length (on l).tasks
  pub turn : (l : ℕ) → l < max_tasklevels → (on l).now ≤ (on l).running - 1
  pub once : (l : ℕ) → l < max_tasklevels → NoRepeat (active (on l))
  pub runs :
      (l t : ℕ) → l < max_tasklevels → IsIn t (active (on l)) → (t < n) × (flag t ≡ 2) × (lev t ≡ l)
  pub listed :
      (t : ℕ) → t < n → flag t ≡ 2 → (lev t < max_tasklevels) × IsIn t (active (on (lev t)))

-- a function that differs at one place
abbrev pub changed_at {ℓ} : {A : Type ℓ} → ℕ → A → (ℕ → A) → ℕ → A
changed_at t v f u = if u == t then v else f u

pub changed_here {ℓ} :
    {A : Type ℓ} (t : ℕ) (v : A) (f : ℕ → A) (u : ℕ) → u ≡ t → changed_at t v f u ≡ v
changed_here t v f u e = let q : (u == t) ≡ true = (==_iff u t).1 e in rw q

pub changed_there {ℓ} :
    {A : Type ℓ} (t : ℕ) (v : A) (f : ℕ → A) (u : ℕ) → u ≢ t → changed_at t v f u ≡ f u
changed_there t v f u n = let q : (u == t) ≡ false = ground (arith, n) in rw q

-- A property of such a function, at the place and elsewhere.
pub changed-elim {ℓ κ} :
    {A : Type ℓ} (P : A → Type κ) (t : ℕ) (v : A) (f : ℕ → A) (u : ℕ)
    → (u ≡ t → P v)
    → (u ≢ t → P (f u))
    → P (changed_at t v f u)
changed-elim P t v f u here there = elim (ℕ_discrete u t) [
  | yes e ↦ subst P (sym (changed_here t v f u e)) (here e)
  | no n ↦ subst P (sym (changed_there t v f u n)) (there n)
]

module _ (n t l : ℕ) (flag lev : ℕ → ℕ) (on : ℕ → TaskLevel) (s : IsSchedule n flag lev on)
    (exists : t < n) (idle : flag t ≢ 2) (real : l < max_tasklevels)
    (room : (on l).running < length (on l).tasks) where
  -- no level has the task yet
  absent : (m : ℕ) → m < max_tasklevels → IsIn t (active (on m)) → ⊥
  absent m h i = idle (s.runs m t h i).1

  not_it : (m u : ℕ) → m < max_tasklevels → IsIn u (active (on m)) → u ≢ t
  not_it m u h i e = absent m h (subst (λ w. IsIn w (active (on m))) e i)

  -- the list of the level when the task has joined it
  abbrev with_it : TaskLevel
  with_it = joined (on l) t

  with_it-active : (u : ℕ) → IsIn u (active with_it) → IsIn u (active (on l)) ⊎ (t ≡ u)
  with_it-active u i =
      IsIn-snoc u t (active (on l)) (subst (λ xs. IsIn u xs) (joined-active t (on l) room) i)

  active-with_it : (u : ℕ) → IsIn u (active (on l) ++ (t ∷ [])) → IsIn u (active with_it)
  active-with_it u i = subst (λ xs. IsIn u xs) (sym (joined-active t (on l) room)) i

  other_runs :
      (m u : ℕ)
      → m < max_tasklevels
      → IsIn u (active (on m))
      → (u < n) × (changed_at t 2 flag u ≡ 2) × (changed_at t l lev u ≡ m)
  other_runs m u h i =
      let r = s.runs m u h i in
      let d = not_it m u h i in
      (r.0, changed_there t 2 flag u d ∙ r.1, changed_there t l lev u d ∙ r.2)

  added-runs :
      (m u : ℕ)
      → m < max_tasklevels
      → IsIn u (active (changed_at l with_it on m))
      → (u < n) × (changed_at t 2 flag u ≡ 2) × (changed_at t l lev u ≡ m)
  added-runs m u h =
      changed-elim
        (λ tl.
          IsIn u (active tl) → (u < n) × (changed_at t 2 flag u ≡ 2) × (changed_at t l lev u ≡ m))
        l with_it on m
        (λ e i. elim (with_it-active u i) [
          | inl old ↦ other_runs m u h (subst (λ k. IsIn u (active (on k))) (sym e) old)
          | inr it ↦ (
            omega (arith, it, exists),
            changed_here t 2 flag u (sym it),
            changed_here t l lev u (sym it) ∙ sym e,
          )
        ])
        (λ d i. other_runs m u h i)

  added-listed :
      (u : ℕ)
      → u < n
      → changed_at t 2 flag u ≡ 2
      → (changed_at t l lev u < max_tasklevels)
        × IsIn u (active (changed_at l with_it on (changed_at t l lev u)))
  added-listed u h f =
      let P = λ (k : ℕ). (k < max_tasklevels) × IsIn u (active (changed_at l with_it on k)) in
      elim (ℕ_discrete u t) [
        | yes e ↦ subst P (sym (changed_here t l lev u e)) (
          real,
          subst (λ tl. IsIn u (active tl)) (sym (changed_here l with_it on l refl))
              (active-with_it u (
                subst (λ w. IsIn w (active (on l) ++ (t ∷ []))) (sym e)
                  (IsIn-last t (active (on l))))),
        )
        | no d ↦
            let r = s.listed u h (sym (changed_there t 2 flag u d) ∙ f) in
            subst P (sym (changed_there t l lev u d)) (
              r.0,
              changed-elim (λ tl. IsIn u (active tl)) l with_it on (lev u)
                  (λ e. active-with_it u (
                    IsIn-append_left u (active (on l)) (t ∷ [])
                      (subst (λ k. IsIn u (active (on k))) e r.1)))
                  (λ d. r.1),
            )
      ]

  -- A task that joins a level.
  pub IsSchedule-add :
      IsSchedule n (changed_at t 2 flag) (changed_at t l lev) (changed_at l (joined (on l) t) on)
  IsSchedule-add = record {
    fits = λ m h.
        changed-elim (λ tl. tl.running ≤ length tl.tasks) l (joined (on l) t) on m
          (λ e. omega (arith, length-set (on l).tasks (on l).running t, room)) (λ d. s.fits m h);
    turn = λ m h.
        changed-elim (λ tl. tl.now ≤ tl.running - 1) l (joined (on l) t) on m
          (λ e. omega (arith, s.turn l real)) (λ d. s.turn m h);
    once = λ m h.
        changed-elim (λ tl. NoRepeat (active tl)) l (joined (on l) t) on m
          (λ e. subst NoRepeat (sym (joined-active t (on l) room)) (
            NoRepeat-snoc t (active (on l)) (s.once l real)
              (NotIn-intro t (active (on l)) (absent l real))))
          (λ d. s.once m h);
    runs = added-runs;
    listed = added-listed;
  }

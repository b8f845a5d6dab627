-- ===== src/Task/Rounds.antt =====
-- The tasks of a level take turns: `task_switch` of harib27f/haribote/mtask.c goes round the level.
use bxos.Common.{
  ℕ, zero, suc, ◌+◌, ◌-◌, ◌≤◌, ◌<◌, ◌≡◌, refl, sym, ap, subst, ◌∙◌, true, inl, inr, arith,
  length-take, get_or, get_or-take, ◌==◌, ==_iff, Option, none, some, List, if◌then◌else◌,
  Bool-cases, leb,
}
use bxos.Common.Members.{IsIn, first_place}
use bxos.Task.{
  TaskCtl, Kernel, max_tasks, level_at, task_now, task_switch, switched, charge, moved_on,
  set_level,
}
use bxos.Task.Remove.{active}
use bxos.Task.Schedule.{changed_here}
use bxos.Task.Kept.{level_set}
use bxos.Task.Turns.{IsWorking, switched-IsWorking, after_switch}
use bxos.Task.Switch.{HasPlace, task_switch-returns}

-- the scheduler's timer does not run
abbrev pub IsReady : Kernel → Type 0
IsReady k = (xs : List ℕ) × (z : ℕ) × HasPlace k.task_timer k.timerctl xs z

-- What happens to a kernel until the scheduler's timer has run out: the tasks stay as they are, and
-- the timer that the switch has set is out of the chain again.
pub record IsClock (clock : Kernel → Kernel) : Type 0 where
  pub same_ctl : (k : Kernel) → (clock k).ctl ≡ k.ctl
  pub ready :
      (k k' : Kernel) (jump : Option ℕ)
      → IsReady k
      → task_switch k ≡ some (jump, k')
      → IsReady (clock k')

-- `n` switches, and after each the time until the next
unfoldable pub switches : (Kernel → Kernel) → ℕ → Kernel → Option Kernel
switches clock zero k = some k
switches clock (suc n) k = elim (task_switch k) [
  | none ↦ none
  | some (jump, k') ↦ switches clock n (clock k')
]

-- the next place on a level of `r` tasks, and the place after `n` turns
abbrev pub next : ℕ → ℕ → ℕ
next r i = if (i + 1) == r then 0 else i + 1

pub turns : ℕ → ℕ → ℕ → ℕ
turns zero r i = i
turns (suc n) r i = turns n r (next r i)

turns_up : (n r i : ℕ) → i + n < r → turns n r i ≡ i + n
unfolding turns
turns_up zero r i h = omega arith
turns_up (suc n) r i h =
    let e : next r i ≡ i + 1 = ground arith in
    rw e (turns_up n r (i + 1) (omega arith) ∙ omega arith)

turns-add : (m n r i : ℕ) → turns (m + n) r i ≡ turns n r (turns m r i)
unfolding turns
turns-add zero n r i = let e : 0 + n ≡ n = omega arith in rw e
turns-add (suc m) n r i =
    let e : suc m + n ≡ suc (m + n) = omega arith in rw e (turns-add m n r (next r i))

-- Every place has its turn in one round.
turns_reach : (r i j : ℕ) → i < r → j < r → (n : ℕ) × (n < r) × (turns n r i ≡ j)
unfolding turns
turns_reach r i j hi hj = elim (Bool-cases (leb i j)) [
  | inl up ↦
      let le : i ≤ j = ground (arith, up) in
      (j - i, omega arith, turns_up (j - i) r i (omega arith) ∙ omega arith)
  | inr down ↦
      let lt : j < i = ground (arith, down) in
      let m = r - 1 - i in
      let last : turns m r i ≡ r - 1 = turns_up m r i (omega arith) ∙ omega arith in
      let wrap : next r (r - 1) ≡ 0 = ground arith in
      (
        m + suc j,
        omega arith,
        turns-add m (suc j) r i
            ∙ ap (λ p. turns j r (next r p)) last
            ∙ ap (turns j r) wrap
            ∙ turns_up j r 0 (omega arith)
            ∙ omega arith,
      )
]

-- what the switches leave of the level that is on
pub record IsRound (n : ℕ) (c c' : TaskCtl) : Type 0 where
  pub works : IsWorking c'
  pub same_level : c'.now_lv ≡ c.now_lv
  pub settled : c'.lv_change ≡ 0
  pub tasks : (level_at c' c.now_lv).tasks ≡ (level_at c c.now_lv).tasks
  pub running : (level_at c' c.now_lv).running ≡ (level_at c c.now_lv).running
  pub place :
      (level_at c' c.now_lv).now ≡ turns n (level_at c c.now_lv).running (level_at c c.now_lv).now

-- one switch
switched-IsRound :
    (k : Kernel) → IsWorking k.ctl → k.ctl.lv_change ≡ 0 → IsRound (suc zero) k.ctl (switched k)
unfolding switched turns
switched-IsRound k w z =
    let c = (charge (task_now k.ctl) k).ctl in
    let l = k.ctl.now_lv in
    let stay : (c.lv_change == 0) ≡ true = (==_iff k.ctl.lv_change 0).1 z in
    let at : level_at (set_level c l (moved_on (level_at c l))) l ≡ moved_on (level_at c l) =
      level_set l (moved_on (level_at c l)) c l (omega (arith, w.schedule.ten, w.on.0))
      ∙ changed_here l (moved_on (level_at c l)) (level_at c) l refl in
    let sw : switched k ≡ set_level c l (moved_on (level_at c l)) = rw (stay, switched) in
    record {
      works = switched-IsWorking k w;
      same_level = ap (λ x. x.now_lv) sw;
      settled = ap (λ x. x.lv_change) sw ∙ z;
      tasks = ap (λ x. (level_at x l).tasks) sw ∙ ap (λ x. x.tasks) at;
      running = ap (λ x. (level_at x l).running) sw ∙ ap (λ x. x.running) at;
      place = ap (λ x. (level_at x l).now) sw ∙ ap (λ x. x.now) at;
    }

IsRound-suc :
    (n : ℕ) (c c1 c2 : TaskCtl) → IsRound (suc zero) c c1 → IsRound n c1 c2 → IsRound (suc n) c c2
unfolding turns
IsRound-suc n c c1 c2 one rest =
    let l = c.now_lv in
    let back = λ (P : ℕ → Type 0) (p : P c1.now_lv). subst P one.same_level p in
    record {
      works = rest.works;
      same_level = rest.same_level ∙ one.same_level;
      settled = rest.settled;
      tasks = back (λ m. (level_at c2 m).tasks ≡ (level_at c1 m).tasks) rest.tasks ∙ one.tasks;
      running =
          back (λ m. (level_at c2 m).running ≡ (level_at c1 m).running) rest.running ∙ one.running;
      place =
          back (λ m. (level_at c2 m).now ≡ turns n (level_at c1 m).running (level_at c1 m).now)
            rest.place
          ∙ ap (λ r. turns n r (level_at c1 l).now) one.running
          ∙ ap (turns n (level_at c l).running) one.place;
    }

switches-suc :
    (clock : Kernel → Kernel) (n : ℕ) (k k1 : Kernel) (jump : Option ℕ)
    → task_switch k ≡ some (jump, k1)
    → switches clock (suc n) k ≡ switches clock n (clock k1)
unfolding switches
switches-suc clock n k k1 jump e = rw (e, switches) refl

switches-IsRound :
    (clock : Kernel → Kernel) (n : ℕ) (k : Kernel)
    → IsClock clock
    → IsWorking k.ctl
    → IsReady k
    → k.ctl.lv_change ≡ 0
    → (k' : Kernel) × (switches clock n k ≡ some k') × IsRound n k.ctl k'.ctl
unfolding switches turns
switches-IsRound clock zero k c w r z =
    let here : IsRound zero k.ctl k.ctl = record {
      works = w;
      same_level = refl;
      settled = z;
      tasks = refl;
      running = refl;
      place = refl;
    } in
    (k, refl, here)
switches-IsRound clock (suc n) k c w (xs, last, place) z =
    let (jump, k1, e, timers) = task_switch-returns k xs last place in
    let to : switched k ≡ (clock k1).ctl = sym (c.same_ctl k1 ∙ (after_switch k k1 jump e).0) in
    let one : IsRound (suc zero) k.ctl (clock k1).ctl =
      subst (IsRound (suc zero) k.ctl) to (switched-IsRound k w z) in
    let (k', e', rest) =
      switches-IsRound clock n (clock k1) c one.works (c.ready k k1 jump (xs, last, place) e)
        one.settled in
    (k', switches-suc clock n k k1 jump e ∙ e', IsRound-suc n k.ctl (clock k1).ctl k'.ctl one rest)

-- the task that has the processor after a round
at_turn :
    (n : ℕ) (c c' : TaskCtl) (j : ℕ)
    → IsRound n c c'
    → turns n (level_at c c.now_lv).running (level_at c c.now_lv).now ≡ j
    → task_now c' ≡ get_or (level_at c c.now_lv).tasks j max_tasks
unfolding task_now
at_turn n c c' j r e =
    ap (λ l. get_or (level_at c' l).tasks (level_at c' l).now max_tasks) r.same_level
    ∙ ap (λ i. get_or (level_at c' c.now_lv).tasks i max_tasks) (r.place ∙ e)
    ∙ ap (λ xs. get_or xs j max_tasks) r.tasks

-- While no other level asks to be looked at, each task of the level that is on gets the processor
-- within one round: there is a number of switches, less than the tasks of the level, that all return,
-- and after which it is the task that has the processor. The scheduler's timer does not run at first,
-- and between the switches only the timers change, and it runs out.
pub switches-turn :
    (clock : Kernel → Kernel) (k : Kernel) (t : ℕ)
    → IsClock clock
    → IsWorking k.ctl
    → IsReady k
    → k.ctl.lv_change ≡ 0
    → IsIn t (active (level_at k.ctl k.ctl.now_lv))
    → (n : ℕ) × (k' : Kernel) × (n < (level_at k.ctl k.ctl.now_lv).running)
      × (switches clock n k ≡ some k')
      × (task_now k'.ctl ≡ t)
switches-turn clock k t c w ready z m =
    let tl = level_at k.ctl k.ctl.now_lv in
    let (j, h, e, f) = first_place t max_tasks (active tl) m in
    let below : j < tl.running = omega (arith, length-take tl.running tl.tasks, h) in
    let (n, few, there) =
      turns_reach tl.running tl.now j
        (omega (arith, w.schedule.agree.turn k.ctl.now_lv w.on.0, w.on.1)) below in
    let (k', found, r) = switches-IsRound clock n k c w ready z in
    (
      n,
      k',
      few,
      found,
      at_turn n k.ctl k'.ctl j r there
          ∙ sym (get_or-take tl.running j tl.tasks max_tasks below)
          ∙ e,
    )

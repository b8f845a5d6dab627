-- ===== src/Timer/Settime.antt =====
-- `timer_settime` (harib27f/haribote/timer.c) puts a timer at its place in the chain.
use bxos.Common.{
  ℕ, zero, suc, ◌≤◌, ◌<◌, Option, some, List, [], ◌∷◌, true, false, leb, length, ◌≡◌, ◌≢◌, ◌⊎◌,
  refl, sym, ap, ◌∙◌, subst, arith, Bool-cases, inl, inr, NotIn, NoRepeat,
}
use bxos.Timer.{Timer, TimerCtl, timer_at, set_timer, link_after, insert_behind}
use bxos.Timer.Queue.{
  Linked, IsBelow, insert, next_of, timeout_of, set_here, set_other, length-set_timer, Linked-set,
}

-- what a link behind `s` makes of the timers
record IsLinked (c c' : TimerCtl) (s timer t : ℕ) : Type 0 where
  at_s : next_of c' s ≡ timer
  at_timer : next_of c' timer ≡ t
  nexts : (u : ℕ) → u ≢ s → u ≢ timer → next_of c' u ≡ next_of c u
  timeouts : (u : ℕ) → timeout_of c' u ≡ timeout_of c u
  size : length c'.timers0 ≡ length c.timers0

pub same-cases : (a b : ℕ) → (a ≡ b) ⊎ (a ≢ b)
same-cases a b = ground arith

-- a change of `next` alone
pub timeout-next :
    (c : TimerCtl) (s v : ℕ)
    → s < length c.timers0
    → (u : ℕ) → timeout_of (set_timer c s (record (timer_at c s) { next = v })) u ≡ timeout_of c u
timeout-next c s v l u = elim (same-cases u s) [
  | inl e ↦
      rw e (ap (λ (t : Timer). t.timeout) (set_here c s (record (timer_at c s) { next = v }) l))
  | inr d ↦ ap (λ (t : Timer). t.timeout) (set_other c s (record (timer_at c s) { next = v }) l u d)
]

link_after-IsLinked :
    (c : TimerCtl) (s timer t : ℕ)
    → s < length c.timers0
    → timer < length c.timers0
    → s ≢ timer
    → IsLinked c (link_after c s timer t) s timer t
link_after-IsLinked c s timer t ls lt d =
    let v : Timer = record (timer_at c s) { next = timer } in
    let c1 = set_timer c s v in
    let w : Timer = record (timer_at c1 timer) { next = t } in
    let lt1 : timer < length c1.timers0 = omega (arith, lt, length-set_timer c s v ls) in
    record {
      at_s = ap (λ (r : Timer). r.next) (set_other c1 timer w lt1 s d ∙ set_here c s v ls);
      at_timer = ap (λ (r : Timer). r.next) (set_here c1 timer w lt1);
      nexts = λ u du dt.
          ap (λ (r : Timer). r.next) (set_other c1 timer w lt1 u dt ∙ set_other c s v ls u du);
      timeouts = λ u. timeout-next c1 timer t lt1 u ∙ timeout-next c s timer ls u;
      size = length-set_timer c1 timer w lt1 ∙ length-set_timer c s v ls;
    }

-- what the search behind `s`, in front of `xs`, makes of the timers
pub record IsInserted (c c' : TimerCtl) (s timer : ℕ) (xs : List ℕ) (z : ℕ) : Type 0 where
  pub linked : Linked (next_of c') (next_of c' s) (insert (timeout_of c) timer xs) z
  pub nexts : (u : ℕ) → u ≢ s → u ≢ timer → NotIn u xs → next_of c' u ≡ next_of c u
  pub timeouts : (u : ℕ) → timeout_of c' u ≡ timeout_of c u
  pub size : length c'.timers0 ≡ length c.timers0
  pub front : (c'.t0 ≡ c.t0) × (c'.next ≡ c.next)

-- The timer goes behind `s`.
here-IsInserted :
    (c : TimerCtl) (s timer : ℕ) (xs : List ℕ) (z : ℕ)
    → s < length c.timers0
    → timer < length c.timers0
    → s ≢ timer
    → NotIn s xs
    → NotIn timer xs
    → Linked (next_of c) (next_of c s) xs z
    → insert (timeout_of c) timer xs ≡ timer ∷ xs
    → IsInserted c (link_after c s timer (next_of c s)) s timer xs z
here-IsInserted c s timer xs z ls lt d ns nt l e =
    let c' = link_after c s timer (next_of c s) in
    let i = link_after-IsLinked c s timer (next_of c s) ls lt d in
    record {
      linked = rw e (
        i.at_s,
        subst (λ h. Linked (next_of c') h xs z) (sym i.at_timer)
            (Linked-set (next_of c) (next_of c') s timer (next_of c s) z xs i.nexts ns nt l),
      );
      nexts = λ u du dt _. i.nexts u du dt;
      timeouts = i.timeouts;
      size = i.size;
      front = (refl, refl);
    }

-- The timer goes further back.
later-IsInserted :
    (c c' : TimerCtl) (s x timer : ℕ) (xs : List ℕ) (z : ℕ)
    → next_of c s ≡ x
    → s ≢ x
    → s ≢ timer
    → NotIn s xs
    → insert (timeout_of c) timer (x ∷ xs) ≡ x ∷ insert (timeout_of c) timer xs
    → IsInserted c c' x timer xs z
    → IsInserted c c' s timer (x ∷ xs) z
later-IsInserted c c' s x timer xs z e dx dt n ei i = record {
  linked = rw ei (i.nexts s dx dt n ∙ e, i.linked);
  nexts = λ u du dt' nu. i.nexts u nu.0 dt' nu.1;
  timeouts = i.timeouts;
  size = i.size;
  front = i.front;
}

pub insert_front : (to : ℕ → ℕ) (k : ℕ) → insert to k [] ≡ k ∷ []
unfolding insert
insert_front to k = refl

pub insert_now :
    (to : ℕ → ℕ) (k x : ℕ) (xs : List ℕ)
    → leb (to k) (to x) ≡ true
    → insert to k (x ∷ xs) ≡ k ∷ x ∷ xs
unfolding insert
insert_now to k x xs e = rw e refl

pub insert_later :
    (to : ℕ → ℕ) (k x : ℕ) (xs : List ℕ)
    → leb (to k) (to x) ≡ false
    → insert to k (x ∷ xs) ≡ x ∷ insert to k xs
unfolding insert
insert_later to k x xs e = rw e refl

pub le_test : (a b : ℕ) → a ≤ b → leb a b ≡ true
le_test a b h = ground arith

abbrev pub InsertResult : TimerCtl → Option TimerCtl → ℕ → ℕ → List ℕ → ℕ → Type 0
InsertResult c o s timer xs z = (c' : TimerCtl) × (o ≡ some c') × IsInserted c c' s timer xs z

pub insert_behind-IsInserted :
    (fuel s timer : ℕ) (c : TimerCtl) (xs : List ℕ) (z : ℕ)
    → length xs < fuel
    → s < length c.timers0
    → timer < length c.timers0
    → IsBelow (length c.timers0) xs
    → s ≢ timer
    → NotIn s xs
    → NotIn timer xs
    → NoRepeat xs
    → Linked (next_of c) (next_of c s) xs z
    → timeout_of c timer ≤ timeout_of c z
    → InsertResult c (insert_behind fuel s timer c) s timer xs z
unfolding insert_behind
insert_behind-IsInserted zero s timer c xs z f ls lt b d ns nt r l o = absurd (omega arith)
insert_behind-IsInserted (suc fuel) s timer c [] z f ls lt b d ns nt r l o =
    let sooner : leb (timeout_of c timer) (timeout_of c (next_of c s)) ≡ true =
      rw l (le_test (timeout_of c timer) (timeout_of c z) o) in
    (
      link_after c s timer (next_of c s),
      rw sooner refl,
      here-IsInserted c s timer [] z ls lt d ns nt l (insert_front (timeout_of c) timer),
    )
insert_behind-IsInserted (suc fuel) s timer c (x ∷ xs) z f ls lt b d ns nt r (e, l) o =
    elim (Bool-cases (leb (timeout_of c timer) (timeout_of c x))) [
      | inl sooner ↦
          let sooner' : leb (timeout_of c timer) (timeout_of c (next_of c s)) ≡ true =
            rw e sooner in
          (
            link_after c s timer (next_of c s),
            rw sooner' refl,
            here-IsInserted c s timer (x ∷ xs) z ls lt d ns nt (e, l)
                (insert_now (timeout_of c) timer x xs sooner),
          )
      | inr later ↦
          let later' : leb (timeout_of c timer) (timeout_of c (next_of c s)) ≡ false = rw e later in
          let (c', found, i) =
            insert_behind-IsInserted fuel x timer c xs z (omega arith) b.0 lt b.1
              (λ q. nt.0 (sym q)) r.0 nt.1 r.1 l o in
          (
            c',
            rw (later', e) found,
            later-IsInserted c c' s x timer xs z e ns.0 d ns.1
                (insert_later (timeout_of c) timer x xs later) i,
          )
    ]

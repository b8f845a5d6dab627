-- ===== src/Timer/Queue.antt =====
-- The chain of timers (harib27f/haribote/timer.c) as a list in the order of the timeouts.
use bxos.Common.{
  ℕ, ◌-◌, ◌≤◌, ◌<◌, List, [], ◌∷◌, leb, ◌==◌, if◌then◌else◌, length, length-set, ◌≡◌, ◌≢◌, sym,
  subst, arith, Bool-cases, inl, inr, NotIn, NoRepeat,
}
use bxos.Common.Bytes.{get_or-set}
use bxos.Memory.{word}
use bxos.Timer.{Timer, TimerCtl, timer_at, set_timer, unused_timer}

-- The timers `xs` from `h` on; `z` is the sentinel behind them.
abbrev pub Linked : (ℕ → ℕ) → ℕ → List ℕ → ℕ → Type 0
Linked nx h [] z = h ≡ z
Linked nx h (x ∷ xs) z = (h ≡ x) × Linked nx (nx x) xs z

-- The timeouts are at least `b`, and in order.
abbrev pub IsSorted : (ℕ → ℕ) → ℕ → List ℕ → Type 0
IsSorted to b [] = Unit {0}
IsSorted to b (x ∷ xs) = (b ≤ to x) × IsSorted to (to x) xs

abbrev pub IsBelow : ℕ → List ℕ → Type 0
IsBelow n [] = Unit {0}
IsBelow n (x ∷ xs) = (x < n) × IsBelow n xs

-- a timer goes in front of the first that does not end before it
unfoldable pub insert : (ℕ → ℕ) → ℕ → List ℕ → List ℕ
insert to k [] = k ∷ []
insert to k (x ∷ xs) =
    let rest = insert to k xs in if leb (to k) (to x) then k ∷ x ∷ xs else x ∷ rest

-- Two timers that are not in the chain do not matter.
pub Linked-set :
    (nx nx' : ℕ → ℕ) (s t h z : ℕ) (xs : List ℕ)
    → ((u : ℕ) → u ≢ s → u ≢ t → nx' u ≡ nx u)
    → NotIn s xs
    → NotIn t xs
    → Linked nx h xs z
    → Linked nx' h xs z
Linked-set nx nx' s t h z [] same n n' l = l
Linked-set nx nx' s t h z (x ∷ xs) same n n' l =
    let e = same x (λ c. n.0 (sym c)) (λ c. n'.0 (sym c)) in
    (
      l.0,
      subst (λ y. Linked nx' y xs z) (sym e) (Linked-set nx nx' s t (nx x) z xs same n.1 n'.1 l.1),
    )

pub IsSorted-same :
    (to to' : ℕ → ℕ) (b : ℕ) (xs : List ℕ) (s : ℕ)
    → ((u : ℕ) → u ≢ s → to' u ≡ to u)
    → NotIn s xs
    → IsSorted to b xs
    → IsSorted to' b xs
IsSorted-same to to' b [] s same n h = h
IsSorted-same to to' b (x ∷ xs) s same n h =
    let e = same x (λ c. n.0 (sym c)) in
    (
      omega (arith, h.0, e),
      subst (λ t. IsSorted to' t xs) (sym e) (IsSorted-same to to' (to x) xs s same n.1 h.1),
    )

pub IsSorted-all :
    (to to' : ℕ → ℕ) (b : ℕ) (xs : List ℕ)
    → ((u : ℕ) → to' u ≡ to u)
    → IsSorted to b xs
    → IsSorted to' b xs
IsSorted-all to to' b [] same h = h
IsSorted-all to to' b (x ∷ xs) same h = (
  omega (arith, h.0, same x),
  subst (λ t. IsSorted to' t xs) (sym (same x)) (IsSorted-all to to' (to x) xs same h.1),
)

pub insert-IsSorted :
    (to : ℕ → ℕ) (k b : ℕ) (xs : List ℕ)
    → b ≤ to k
    → IsSorted to b xs
    → IsSorted to b (insert to k xs)
unfolding insert
insert-IsSorted to k b [] l h = (l, h)
insert-IsSorted to k b (x ∷ xs) l h = elim (Bool-cases (leb (to k) (to x))) [
  | inl e ↦ rw e (l, (ground (arith, e), h.1))
  | inr e ↦ rw e (h.0, insert-IsSorted to k (to x) xs (ground (arith, e)) h.1)
]

pub NotIn-insert :
    (to : ℕ → ℕ) (u k : ℕ) (xs : List ℕ) → u ≢ k → NotIn u xs → NotIn u (insert to k xs)
unfolding insert
NotIn-insert to u k [] d n = (d, n)
NotIn-insert to u k (x ∷ xs) d n = elim (Bool-cases (leb (to k) (to x))) [
  | inl e ↦ rw e (d, n)
  | inr e ↦ rw e (n.0, NotIn-insert to u k xs d n.1)
]

pub NoRepeat-insert :
    (to : ℕ → ℕ) (k : ℕ) (xs : List ℕ) → NotIn k xs → NoRepeat xs → NoRepeat (insert to k xs)
unfolding insert
NoRepeat-insert to k [] n r = (n, r)
NoRepeat-insert to k (x ∷ xs) n r = elim (Bool-cases (leb (to k) (to x))) [
  | inl e ↦ rw e (n, r)
  | inr e ↦ rw e (NotIn-insert to x k xs (λ c. n.0 (sym c)) r.0, NoRepeat-insert to k xs n.1 r.1)
]

pub IsBelow-insert :
    (to : ℕ → ℕ) (k m : ℕ) (xs : List ℕ) → k < m → IsBelow m xs → IsBelow m (insert to k xs)
unfolding insert
IsBelow-insert to k m [] l b = (l, b)
IsBelow-insert to k m (x ∷ xs) l b = elim (Bool-cases (leb (to k) (to x))) [
  | inl e ↦ rw e (l, b)
  | inr e ↦ rw e (b.0, IsBelow-insert to k m xs l b.1)
]

abbrev pub next_of : TimerCtl → ℕ → ℕ
next_of c t = (timer_at c t).next

abbrev pub timeout_of : TimerCtl → ℕ → ℕ
timeout_of c t = (timer_at c t).timeout

-- The timers that run are `xs`, in the order of their timeouts, and `z` is the sentinel.
pub record IsTimers (c : TimerCtl) (xs : List ℕ) (z : ℕ) : Type 0 where
  pub linked : Linked (next_of c) c.t0 xs z
  pub sorted : IsSorted (timeout_of c) 0 xs
  pub distinct : NoRepeat xs
  pub apart : NotIn z xs
  pub below : IsBelow (length c.timers0) xs
  pub last_below : z < length c.timers0
  pub last : timeout_of c z ≡ word - 1
  pub front : c.next ≡ timeout_of c c.t0

module _ (c : TimerCtl) (t : ℕ) (v : Timer) (l : t < length c.timers0) where
  pub timer_at-set_timer :
      (u : ℕ) → timer_at (set_timer c t v) u ≡ (if u == t then v else timer_at c u)
  timer_at-set_timer u = get_or-set c.timers0 t u v unused_timer l

  pub set_here : timer_at (set_timer c t v) t ≡ v
  set_here = ground (arith, timer_at-set_timer t)

  pub set_other : (u : ℕ) → u ≢ t → timer_at (set_timer c t v) u ≡ timer_at c u
  set_other u d = ground (arith, timer_at-set_timer u, d)

  pub length-set_timer : length (set_timer c t v).timers0 ≡ length c.timers0
  length-set_timer = length-set c.timers0 t v

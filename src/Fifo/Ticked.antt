-- ===== src/Fifo/Ticked.antt =====
-- A tick of the clock as a whole (`inthandler20`, harib27f/haribote/timer.c).
use bxos.Common.{
  ℕ, ◌+◌, ◌-◌, ◌≤◌, ◌<◌, ◌%◌, Option, none, some, List, [], Bool, true, false, ltb, ◌||◌, length,
  ◌≡◌, ◌⊎◌, refl, sym, ap, ◌∙◌, subst, arith, Bool-cases, inl, inr,
}
use bxos.Memory.{word}
use bxos.Timer.{TimerCtl, max_timer}
use bxos.Timer.Queue.{IsTimers, timeout_of}
use bxos.Task.{Kernel, task_switch}
use bxos.Task.Switch.{HasPlace, with_timer, task_switch-returns}
use bxos.Fifo.Interrupt.{
  Machine, set_timers, expire_from, new_front, ticked, switched, inthandler20, finish_tick,
}
use bxos.Fifo.Tick.{
  later_than, from_timer-IsTimers, counted-IsTimers, ticked_count, expire_from-IsTimers, all_later,
}
use bxos.Fifo.Messages.{ended, has, delivered, delivered-ticked, delivered-task_timer}
use bxos.Fifo.Loop.{IsSent, Returns, gone_from, expire_from-Returns}
use bxos.Fifo.Gone.{has-IsGone, length-later_than, none_ended}

-- What a tick does: the timers whose timeout the count has reached are out of the chain, and each but
-- the scheduler's has sent its message to its FIFO, in their order. If the scheduler's is among them,
-- then the handler ends with a task switch, which gives that timer its place in the chain of the
-- others; else there is no jump.
pub record IsTick (m : Machine) (xs : List ℕ) (z : ℕ) (jump : Option ℕ) (m' : Machine)
    : Type 0 where
  pub gone : List ℕ
  pub left : List ℕ
  pub are_gone : gone ≡ ended (m.kernel.timerctl.count + 1) (timeout_of m.kernel.timerctl) xs
  pub are_left : left ≡ later_than (m.kernel.timerctl.count + 1) (timeout_of m.kernel.timerctl) xs
  pub fifos : m'.fifos ≡ (delivered m.kernel.timerctl m.kernel.task_timer gone m).fifos
  pub switch :
      ((has m.kernel.task_timer gone ≡ false)
        × (jump ≡ none)
        × (m'.kernel.ctl ≡ (delivered m.kernel.timerctl m.kernel.task_timer gone m).kernel.ctl)
        × IsTimers m'.kernel.timerctl left z)
      ⊎ ((has m.kernel.task_timer gone ≡ true)
          × ((k : Kernel) × (c : TimerCtl) × (k
                ≡ record (delivered m.kernel.timerctl m.kernel.task_timer gone m).kernel {
                  timerctl = c;
                })
              × IsTimers c left z
              × (task_switch k ≡ some (jump, m'.kernel))
              × IsTimers m'.kernel.timerctl (with_timer k left) z))

or_false : (b : Bool) → (b || false) ≡ b
or_false true = refl
or_false false = refl

-- no timer has run out
quiet-IsTick :
    (m : Machine) (xs : List ℕ) (z : ℕ)
    → IsTimers m.kernel.timerctl xs z
    → (m.kernel.timerctl.count + 1) % word ≡ m.kernel.timerctl.count + 1
    → ltb ((m.kernel.timerctl.count + 1) % word) m.kernel.timerctl.next ≡ true
    → IsTick m xs z none (ticked m)
unfolding delivered has
quiet-IsTick m xs z i exact e =
    let tc = m.kernel.timerctl in
    let to = timeout_of tc in
    let m1 = ticked m in
    let i1 = counted-IsTimers tc ((tc.count + 1) % word) xs z i in
    let stay : later_than (tc.count + 1) to xs ≡ xs =
      ap (λ n. later_than n to xs) (sym exact) ∙ all_later m1.kernel.timerctl xs z i1 e in
    record {
      gone = [];
      left = xs;
      are_gone =
          sym (ap (λ n. ended n to xs) (sym exact) ∙ none_ended m1.kernel.timerctl xs z i1 e);
      are_left = sym stay;
      fifos = refl;
      switch = inl (refl, refl, refl, i1);
    }

abbrev gone_now : Machine → List ℕ → List ℕ
gone_now m xs = ended (m.kernel.timerctl.count + 1) (timeout_of m.kernel.timerctl) xs

abbrev left_now : Machine → List ℕ → List ℕ
left_now m xs = later_than (m.kernel.timerctl.count + 1) (timeout_of m.kernel.timerctl) xs

abbrev all_sent : Machine → List ℕ → Machine
all_sent m xs = delivered m.kernel.timerctl m.kernel.task_timer (gone_now m xs) m

finish_on :
    (t : ℕ) (ts : Bool) (m : Machine) (jump : Option ℕ) (k : Kernel)
    → ts ≡ true
    → task_switch (new_front t m).kernel ≡ some (jump, k)
    → finish_tick (some (t, ts, m)) ≡ some (jump, record (new_front t m) { kernel = k })
finish_on t ts m jump k on e = rw on (ap (switched (new_front t m)) e)

-- the end of the handler, after a loop that has stopped
module _ (m : Machine) (xs : List ℕ) (z t : ℕ) (ts : Bool) (m2 : Machine) where
  finish-IsTick :
      IsTimers m.kernel.timerctl xs z
      → length xs ≤ max_timer
      → IsTimers (new_front t m2).kernel.timerctl (left_now m xs) z
      → ts ≡ has m.kernel.task_timer (gone_now m xs)
      → m2 ≡ set_timers (all_sent m xs) m2.kernel.timerctl
      → length m2.kernel.timerctl.timers0 ≡ length m.kernel.timerctl.timers0
      → (jump : Option ℕ) × (m' : Machine) × (finish_tick (some (t, ts, m2)) ≡ some (jump, m'))
        × IsTick m xs z jump m'
  finish-IsTick i f i' flag sent size =
      let mf = new_front t m2 in
      let c = mf.kernel.timerctl in
      let k = m.kernel.task_timer in
      elim (Bool-cases ts) [
        | inl on ↦
            let gone =
              has-IsGone (m.kernel.timerctl.count + 1) (timeout_of m.kernel.timerctl) k
                (length m.kernel.timerctl.timers0) z xs i.distinct i.below i.apart
                (sym flag ∙ on) in
            let timer : mf.kernel.task_timer ≡ k =
              ap (λ x. x.kernel.task_timer) sent
              ∙ delivered-task_timer m.kernel.timerctl k (gone_now m xs) m in
            let place : HasPlace mf.kernel.task_timer c (left_now m xs) z =
              subst (λ j. HasPlace j c (left_now m xs) z) (sym timer)
                (record {
                  chain = i';
                  few = omega (
                    arith,
                    f,
                    length-later_than (m.kernel.timerctl.count + 1) (timeout_of m.kernel.timerctl)
                        xs,
                  );
                  below = omega (arith, size, gone.below);
                  out = gone.out;
                  no_sentinel = gone.other;
                }) in
            let (jump, k', e, last) = task_switch-returns mf.kernel (left_now m xs) z place in
            (
              jump,
              record mf { kernel = k' },
              finish_on t ts m2 jump k' on e,
              record {
                gone = gone_now m xs;
                left = left_now m xs;
                are_gone = refl;
                are_left = refl;
                fifos = ap (λ x. x.fifos) sent;
                switch = inr (
                  sym flag ∙ on,
                  (mf.kernel, c, ap (λ x. record x.kernel { timerctl = c }) sent, i', e, last),
                );
              },
            )
        | inr off ↦ (
          none,
          mf,
          rw off refl,
          record {
            gone = gone_now m xs;
            left = left_now m xs;
            are_gone = refl;
            are_left = refl;
            fifos = ap (λ x. x.fifos) sent;
            switch = inl (sym flag ∙ off, refl, ap (λ x. x.kernel.ctl) sent, i');
          },
        )
      ]

handler_end :
    (m : Machine) (o : Option (ℕ × Bool × Machine))
    → ltb (ticked m).kernel.timerctl.count (ticked m).kernel.timerctl.next ≡ false
    → expire_from (max_timer + 1) m.kernel.timerctl.t0 false (ticked m) ≡ o
    → inthandler20 m ≡ finish_tick o
unfolding inthandler20
handler_end m o e found = rw e (ap finish_tick found)

-- The handler of the clock returns. After it the timers whose timeout the count has reached are out of
-- the chain, the others stay in it in their order, and each that has run out has sent its message to
-- its FIFO, in their order, but for the scheduler's timer. Exactly if that timer has run out, the
-- handler ends with a task switch, which gives it its place in the chain; else there is no jump. The
-- count does not reach its last two values, and no more timers run than there are.
pub inthandler20-IsTick :
    (m : Machine) (xs : List ℕ) (z : ℕ)
    → IsTimers m.kernel.timerctl xs z
    → length xs ≤ max_timer
    → m.kernel.timerctl.count + 1 < word - 1
    → (jump : Option ℕ) × (m' : Machine) × (inthandler20 m ≡ some (jump, m'))
      × IsTick m xs z jump m'
unfolding inthandler20
inthandler20-IsTick m xs z i f l =
    let tc = m.kernel.timerctl in
    let tc_timer = m.kernel.task_timer in
    let m1 = ticked m in
    let exact = ticked_count tc.count l in
    let i1 = counted-IsTimers tc ((tc.count + 1) % word) xs z i in
    elim (Bool-cases (ltb ((tc.count + 1) % word) tc.next)) [
      | inl e ↦ (none, m1, rw e refl, quiet-IsTick m xs z i exact e)
      | inr e ↦
          let i2 = from_timer-IsTimers m1.kernel.timerctl tc.t0 xs z i1 refl in
          let low : m1.kernel.timerctl.count < word - 1 = omega (arith, exact, l) in
          let (t, ts, m2, found, i') =
            expire_from-IsTimers (max_timer + 1) tc.t0 false m1 xs z (omega (arith, f)) low i2 in
          let s : IsSent false m1 (gone_from m1 xs) ts m2 =
            subst (Returns false m1 (gone_from m1 xs)) found
              (expire_from-Returns (max_timer + 1) tc.t0 false m1 xs z low i2) in
          let same : gone_from m1 xs ≡ gone_now m xs = ap (λ n. ended n (timeout_of tc) xs) exact in
          let (jump, m', e', tick) =
            finish-IsTick m xs z t ts m2 i f
              (subst
                (λ n. IsTimers (new_front t m2).kernel.timerctl (later_than n (timeout_of tc) xs) z)
                exact i')
              (s.flag ∙ or_false (has tc_timer (gone_from m1 xs)) ∙ ap (has tc_timer) same)
              (s.messages
                ∙ delivered-ticked m (gone_from m1 xs) m2.kernel.timerctl
                ∙ ap (λ ys. set_timers (delivered tc tc_timer ys m) m2.kernel.timerctl) same)
              s.size in
          (jump, m', handler_end m (some (t, ts, m2)) e found ∙ e', tick)
    ]

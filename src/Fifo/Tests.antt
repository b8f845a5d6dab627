-- ===== src/Fifo/Tests.antt =====
-- A ring of four whose contents, 10 and 11, go round its end; it wakes task 1.
use bxos.Common.{ℕ, Option, none, ◌<◌, ◌≡◌, ◌⊎◌, refl, inr, some, [], ◌∷◌, ◌++◌, length, arith}
use bxos.Common.Int.{pos, minus}
use bxos.Task.{task_add, task_at, task_run}
use bxos.Task.Tests.{three}
use bxos.Timer.Tests.{two_running, two_running-IsTimers}
use bxos.Fifo.Interrupt.{Machine, put_to, expire_from, inthandler20}
use bxos.Fifo.Tick.{counted-IsTimers}
use bxos.Fifo.Ticked.{IsTick, inthandler20-IsTick}
use bxos.Fifo.{Fifo, wake, fifo32_put, fifo32_get}
use bxos.Fifo.Queue.{IsValid, contents, fifo32_put-contents, fifo32_get-contents}

abbrev ring : Fifo
ring = record {
  buf = pos 11 ∷ pos 0 ∷ pos 0 ∷ pos 10 ∷ [];
  p = 1;
  q = 3;
  size = 4;
  free = 2;
  flags = 0;
  task = some 1;
}

ring-IsValid : IsValid ring
ring-IsValid = record {
  sized = refl;
  write = omega arith;
  read = omega arith;
  room = omega arith;
  apart = inr refl;
}

put_wakes : (task_at (fifo32_put (pos 12) ring three).2 1).flags ≡ 2
unfolding fifo32_put wake task_run task_add
put_wakes = refl

fifo32_put-contents_example :
    let (rc, ring', c') = fifo32_put (pos 12) ring three in
    IsValid ring'
    × (((length (contents ring) ≡ 4)
          × (rc ≡ minus 1)
          × (contents ring' ≡ contents ring)
          × (c' ≡ three))
        ⊎ ((length (contents ring) < 4)
            × (rc ≡ pos 0)
            × (contents ring' ≡ contents ring ++ (pos 12 ∷ []))
            × (c' ≡ wake (some 1) three)))
fifo32_put-contents_example = fifo32_put-contents (pos 12) ring three ring-IsValid

fifo32_get-contents_example :
    let (value, ring') = fifo32_get ring in
    IsValid ring'
    × ((contents ring ≡ []) × (value ≡ minus 1) × (ring' ≡ ring)
        ⊎ (contents ring ≡ value ∷ contents ring'))
fifo32_get-contents_example = fifo32_get-contents ring ring-IsValid

-- the tick at which timer 2 runs out: the count goes from 29 to 30
abbrev at_29 : Machine
at_29 = record {
  kernel = record {
    ctl = three;
    prev_count = 0;
    timerctl = record two_running { count = 29 };
    task_timer = 1;
  };
  fifos = ring ∷ [];
  keyfifo = 0;
  keydata0 = 256;
  mousefifo = 0;
  mousedata0 = 512;
}

abbrev chain_left : Option (Option ℕ × Machine) → ℕ
chain_left none = 99
chain_left (some (jump, m)) = m.kernel.timerctl.t0

tick_test : chain_left (inthandler20 at_29) ≡ 1
unfolding inthandler20 expire_from put_to fifo32_put wake task_run task_add
tick_test = refl

inthandler20-IsTick_example :
    (jump : Option ℕ) × (m' : Machine) × (inthandler20 at_29 ≡ some (jump, m'))
    × IsTick at_29 (2 ∷ 1 ∷ []) 0 jump m'
inthandler20-IsTick_example =
    inthandler20-IsTick at_29 (2 ∷ 1 ∷ []) 0
      (counted-IsTimers two_running 29 (2 ∷ 1 ∷ []) 0 two_running-IsTimers) (omega arith)
      (omega arith)

-- ===== src/Fifo.antt =====
-- The ring buffers of harib27f/haribote/fifo.c, and the interrupt handlers of keyboard.c, mouse.c and
-- timer.c, which fill them. `task` is the task that a put wakes.
pub mod Queue
pub mod Interrupt
mod Messages
mod Loop
mod Gone
mod Ticked
mod Tests
mod Tick
use bxos.Common.{ℕ, ◌+◌, ◌-◌, ◌%◌, Option, none, some, List, ◌==◌, if◌then◌else◌, get_or, set}
use bxos.Common.Int.{ℤ, pos, minus}
use bxos.Task.{TaskCtl, task_at, task_run}

pub record Fifo : Type 0 where
  pub buf : List ℤ
  pub p : ℕ
  pub q : ℕ
  pub size : ℕ
  pub free : ℕ
  pub flags : ℕ
  pub task : Option ℕ

unfoldable pub fifo32_init : ℕ → List ℤ → Option ℕ → Fifo
fifo32_init size buf task = record {
  buf = buf;
  p = 0;
  q = 0;
  size = size;
  free = size;
  flags = 0;
  task = task;
}

-- `flags |= FLAGS_OVERRUN`, bit 0
abbrev pub overrun : Fifo → Fifo
overrun fifo = record fifo { flags = if (fifo.flags % 2) == 1 then fifo.flags else fifo.flags + 1 }

-- an index of the ring one further
abbrev pub next_index : Fifo → ℕ → ℕ
next_index fifo i = if (i + 1) == fifo.size then 0 else i + 1

-- the ring part of `fifo32_put`, when there is room
abbrev pub stored : Fifo → ℤ → Fifo
stored fifo value = record fifo {
  buf = set fifo.buf fifo.p value;
  p = next_index fifo fifo.p;
  free = fifo.free - 1;
}

-- A sleeping task is run on its own level, with its own priority.
unfoldable pub wake : Option ℕ → TaskCtl → TaskCtl
wake none c = c
wake (some t) c = if (task_at c t).flags == 2 then c else task_run t (minus 1) (pos 0) c

unfoldable pub fifo32_put : ℤ → Fifo → TaskCtl → ℤ × Fifo × TaskCtl
unfolding wake
fifo32_put value fifo c =
    if fifo.free == 0
    then (minus 1, overrun fifo, c)
    else (pos 0, stored fifo value, wake fifo.task c)

-- The result is -1 when the buffer is empty.
unfoldable pub fifo32_get : Fifo → ℤ × Fifo
fifo32_get fifo = if fifo.free == fifo.size then (minus 1, fifo) else (
  get_or fifo.buf fifo.q (pos 0),
  record fifo { q = next_index fifo fifo.q; free = fifo.free + 1 },
)

unfoldable pub fifo32_status : Fifo → ℕ
fifo32_status fifo = fifo.size - fifo.free

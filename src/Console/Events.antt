-- ===== src/Console/Events.antt =====
-- The events of a window that wait for its task (harib27f/haribote/console.c, `bx_event_post`, and the
-- part of `api_getevent` that takes one): a ring of which `p` is the oldest.
use bxos.Common.{
  ℕ, zero, suc, ◌+◌, ◌-◌, ◌%◌, Option, none, some, List, ◌&&◌, ltb, leb, ◌==◌, if◌then◌else◌,
  get_or, set,
}
use bxos.Common.Int.{ℤ, pos}
use bxos.Task.{TaskCtl}
use bxos.Fifo.{Fifo, fifo32_put}

abbrev pub bx_event_resize : ℕ
bx_event_resize = 6

abbrev pub bx_event_fifo_marker : ℤ
bx_event_fifo_marker = pos 0x10000

-- `struct BX_EVENT`; `kind` is its `type`
pub record BxEvent : Type 0 where
  pub kind : ℕ
  pub win : ℕ
  pub x : ℤ
  pub y : ℤ
  pub button : ℤ
  pub key : ℤ
  pub w : ℤ
  pub h : ℤ

abbrev pub no_event : BxEvent
no_event = record {
  kind = 0;
  win = 0;
  x = pos 0;
  y = pos 0;
  button = pos 0;
  key = pos 0;
  w = pos 0;
  h = pos 0;
}

-- the part of a task that holds its events
pub record EventQueue : Type 0 where
  pub event_buf : List BxEvent
  pub event_size : ℕ
  pub event_p : ℕ
  pub event_count : ℕ

-- the place of an event, counted from the oldest
abbrev pub slot_of : EventQueue → ℕ → ℕ
slot_of q scan = (q.event_p + scan) % q.event_size

abbrev pub event_at : EventQueue → ℕ → BxEvent
event_at q scan = get_or q.event_buf (slot_of q scan) no_event

-- the search for a resize of the same window, with the rounds left
unfoldable pub find_resize : ℕ → ℕ → ℕ → EventQueue → Option ℕ
find_resize zero scan win q = none
find_resize (suc k) scan win q =
    let rest = find_resize k (suc scan) win q in
    let ev = event_at q scan in
    if (ev.kind == bx_event_resize) && (ev.win == win) then some scan else rest

abbrev pub resized : ℕ → BxEvent → EventQueue → EventQueue
resized scan ev q = record q {
  event_buf = set q.event_buf (slot_of q scan) (record (event_at q scan) { w = ev.w; h = ev.h });
}

abbrev pub appended : BxEvent → EventQueue → EventQueue
appended ev q = record q {
  event_buf = set q.event_buf (slot_of q q.event_count) ev;
  event_count = q.event_count + 1;
}

-- A full queue drops the event; a message wakes the task when one was added.
abbrev pub post_new : BxEvent → EventQueue → Fifo → TaskCtl → EventQueue × Fifo × TaskCtl
post_new ev q fifo c =
    let (_, fifo', c') = fifo32_put bx_event_fifo_marker fifo c in
    if leb q.event_size q.event_count then (q, fifo, c) else (appended ev q, fifo', c')

unfoldable pub bx_event_post : BxEvent → EventQueue → Fifo → TaskCtl → EventQueue × Fifo × TaskCtl
unfolding find_resize fifo32_put
bx_event_post ev q fifo c =
    let same = if ev.kind == bx_event_resize then find_resize q.event_count 0 ev.win q else none in
    if q.event_size == 0
    then (q, fifo, c)
    else elim same [ none ↦ post_new ev q fifo c | some scan ↦ (resized scan ev q, fifo, c) ]

-- The oldest event is taken, if there is one.
unfoldable pub take_event : EventQueue → Option (BxEvent × EventQueue)
take_event q =
    if ltb 0 q.event_count
    then some (
      get_or q.event_buf q.event_p no_event,
      record q { event_p = (q.event_p + 1) % q.event_size; event_count = q.event_count - 1 },
    )
    else none

-- ===== src/Task/Data.antt =====
-- The data of the scheduler: struct TSS32, TASK, TASKLEVEL and TASKCTL of bootpack.h, what a new task
-- starts with, and access to the arrays.
use bxos.Common.{ℕ, List, [], get_or, set}

abbrev pub max_tasks : ℕ
max_tasks = 1000

abbrev pub max_tasklevels : ℕ
max_tasklevels = 10

-- `struct TSS32`: the registers that a new task gets
pub record Tss : Type 0 where
  pub eflags : ℕ
  pub eax : ℕ
  pub ecx : ℕ
  pub edx : ℕ
  pub ebx : ℕ
  pub ebp : ℕ
  pub esi : ℕ
  pub edi : ℕ
  pub es : ℕ
  pub ds : ℕ
  pub fs : ℕ
  pub gs : ℕ
  pub iomap : ℕ
  pub ss0 : ℕ

-- `struct TASK`, less the FIFO and the memory that belong to a task
pub record Task : Type 0 where
  pub flags : ℕ
  pub level : ℕ
  pub priority : ℕ
  pub tss : Tss
  pub app_type : ℕ
  pub cons : ℕ
  pub cwd_clus : ℕ
  pub cwd_path : List ℕ
  pub cmdline : ℕ
  pub cons_stack : ℕ
  pub fhandle : ℕ
  pub dhandle : ℕ
  pub event_buf : ℕ
  pub event_size : ℕ
  pub event_count : ℕ
  pub event_p : ℕ
  pub ds_base : ℕ
  pub langmode : ℕ
  pub langbyte1 : ℕ
  pub langbyte2 : ℕ
  pub name : List ℕ
  pub time : ℕ

pub record TaskLevel : Type 0 where
  pub running : ℕ
  pub now : ℕ
  pub tasks : List ℕ

pub record TaskCtl : Type 0 where
  pub now_lv : ℕ
  pub lv_change : ℕ
  pub level : List TaskLevel
  pub tasks0 : List Task
  pub alloc : ℕ
  pub alive : ℕ

-- the registers as `task_alloc` leaves them
abbrev pub new_tss : Tss
new_tss = record {
  eflags = 0x00000202;
  eax = 0;
  ecx = 0;
  edx = 0;
  ebx = 0;
  ebp = 0;
  esi = 0;
  edi = 0;
  es = 0;
  ds = 0;
  fs = 0;
  gs = 0;
  iomap = 0x40000000;
  ss0 = 0;
}

-- a task as `task_alloc` leaves it; level and priority are those of the last use
abbrev pub new_task : Task → Task
new_task t = record {
  flags = 1;
  level = t.level;
  priority = t.priority;
  tss = new_tss;
  app_type = 0;
  cons = 0;
  cwd_clus = 0;
  cwd_path = [];
  cmdline = 0;
  cons_stack = 0;
  fhandle = 0;
  dhandle = 0;
  event_buf = 0;
  event_size = 0;
  event_count = 0;
  event_p = 0;
  ds_base = 0;
  langmode = 0;
  langbyte1 = 0;
  langbyte2 = 0;
  name = [];
  time = 0;
}

abbrev pub no_task : Task
no_task =
    let t : Task = record {
      flags = 0;
      level = 0;
      priority = 0;
      tss = new_tss;
      app_type = 0;
      cons = 0;
      cwd_clus = 0;
      cwd_path = [];
      cmdline = 0;
      cons_stack = 0;
      fhandle = 0;
      dhandle = 0;
      event_buf = 0;
      event_size = 0;
      event_count = 0;
      event_p = 0;
      ds_base = 0;
      langmode = 0;
      langbyte1 = 0;
      langbyte2 = 0;
      name = [];
      time = 0;
    } in
    t

abbrev pub no_level : TaskLevel
no_level = record { running = 0; now = 0; tasks = [] }

abbrev pub task_at : TaskCtl → ℕ → Task
task_at c t = get_or c.tasks0 t no_task

abbrev pub level_at : TaskCtl → ℕ → TaskLevel
level_at c l = get_or c.level l no_level

-- the level of a task
abbrev pub level_of : TaskCtl → ℕ → TaskLevel
level_of c t = level_at c (task_at c t).level

abbrev pub set_flags : TaskCtl → ℕ → ℕ → TaskCtl
set_flags c t f = record c { tasks0 = set c.tasks0 t (record (task_at c t) { flags = f }) }

abbrev pub set_level : TaskCtl → ℕ → TaskLevel → TaskCtl
set_level c l tl = record c { level = set c.level l tl }

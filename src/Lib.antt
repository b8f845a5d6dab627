-- ===== src/Lib.antt =====
-- Verification of the kernel of bxos: the memory manager, the FAT file system, and the scheduler
-- with its timers, FIFOs and input.
--
-- The C sources are those of harib27f/haribote. A C function is a function of the same name; a
-- loop is a helper that recurses on the rounds that are left. A C unsigned int is a native number
-- below `word`, with the wrap-around written out; an int is an element of ℤ, or a native number
-- where it is never negative. A pointer argument that the function stores through is a part of
-- the result, and a pointer into an array is an index.
--
-- The parts:
--   Common            the shared names, arrays that are shifted in place, C integers
--   Memory            memory.c: struct MEMMAN, `memman_alloc`, `memman_free`, ...
--     Memory/Blocks   the free blocks as a list: what is well formed, what is covered
--     Memory/Live     the entries of the table that are in use
--     Memory/Places, Branches, Alloc, Free, Cycle    the operations against that list
--   Entry             fs_fat.c, bootpack.h: struct FILEINFO, 8.3 names, struct BX_DIRINFO
--     Entry/Bytes     an entry as 32 bytes
--     Entry/Names     the names that are accepted
--   Fat               fs_fat.c: struct FS_MOUNT and the cached FAT
--     Fat/Table       the FAT as a table of entries
--     Fat/Search      the search for a free cluster
--     Fat/Chains      chains as lists of clusters
--     Fat/Sectors     where clusters lie on the disk
--   Fs                fs_fat.c: the volume's state over the disk driver; sectors and clusters
--     Fs/Monad        early returns with a code, keeping the state
--     Fs/Chain        cluster chains
--     Fs/Dir, Slots   directory iteration, search, entries on disk
--     Fs/Path         `fs_resolve_path`
--     Fs/File, Trunc  reading, writing, truncating, removing
--     Fs/Api, User    the calls that take a path
--     Fs/Mounting     `fs_mount_data`
--     Fs/Facts        what these operations leave as it was
--     Fs/Free, Append, Nth    freeing, extending and walking a chain
--   Tables            dsctbl.c and int.c: the descriptor tables, the interrupt controllers
--     Tables/Fields, Vectors    what the processor reads from them
--   Timer             timer.c: struct TIMERCTL and the chain of timers
--     Timer/Queue     the chain as a list in the order of the timeouts
--     Timer/Settime, Running    a timer is put into it
--     Timer/Cancel, Stopping    a timer is taken out of it
--   Task              mtask.c: struct TASKCTL, levels, `task_run`, `task_sleep`, `task_switch`
--     Task/Data       the records
--     Task/Remove     a level as the list of its tasks
--     Task/Level      the choice of the level
--     Task/Schedule, Leaving    levels and marks that agree, when a task joins or leaves
--     Task/Kept, Running    `task_add`, `task_remove`, `task_run`
--     Task/Turns, Switch, Asleep, Rounds    `task_switch`, `task_sleep`, and the turns of a level
--   Fifo              fifo.c: struct FIFO32
--     Fifo/Queue      a FIFO as a queue
--     Fifo/Tick, Messages, Loop, Gone, Ticked    the tick: the chain of timers, the messages, the switch
--     Fifo/Interrupt  the handlers of timer.c, keyboard.c and mouse.c over all of these
--   Disk              ata.c: the driver over the ports
--     Disk/Drive      what a drive that works does
--     Disk/Read, Write    `ata_read_sectors`, `ata_write_sectors` against such a drive
--     Disk/Report, Identify    `ata_identify`
--     Disk/Volume     the clusters of a volume on such a drive
--   Loader            file.c: `file_readfat`, `file_search`, `file_loadfile`
--     Loader/Unpacked, Chain, Search    the FAT, the bytes and the entry
--     Loader/Volume   fs_fat.c: `fs_read_chain`, `fs_data_loadfile`
--     Loader/Blocks, Ends    the memory that is taken, and that the loaders return
--   Console           console.c: the arguments of a command
--     Console/Paths, Bounds    paths, and that they fit
--     Console/History, Commands    the past commands
--     Console/Events  the events that wait for a task
--   Scroll            console.c: the scroll window (`scrollwin_`)
--     Scroll/Ring, Rows, Steps, Filled    the ring's indices, what the rows show, and that every step
--       keeps it
--     Scroll/Contents  the lines as a queue that keeps the newest 512
--   Sheet             sheet.c: struct SHEET, struct SHTCTL, `sheet_refreshmap`, `sheet_refreshsub`
--     Sheet/Stack     the calls that move sheets
--     Sheet/Dirty     the rectangles that wait to be drawn
--     Sheet/Runs, Pixels, Axis, MapRows, CopyRows    runs, rows and clipping, by the pixel
--     Sheet/View, Seen, Screen    what is to be seen, in the map and on the screen
--     Sheet/Hole, Order, Moves, Restack, Updown    the stack while sheets are moved, and after
--     Sheet/Rects, Pending    the pixels that wait to be drawn
--   Mouse             mouse.c: `mouse_decode`
--     Mouse/Packet    packets
--
-- A C string is the list of its bytes before the terminator, and a pointer into it is the rest of
-- the list. A sheet is an index of `sheets0`, and the screen and the map are lists of bytes, row
-- by row; coordinates are elements of ℤ.
--
-- The file system calls the disk driver (ata.c) through the record `Ata`: a call fails, or
-- transfers all its sectors, and the driver's state decides which. Disk/Volume fills this record
-- with the driver of Disk, which reaches the drive through the record `Ports` of the processor's
-- instructions for input and output; what is proved of it takes the laws `IsDrive`, of a drive
-- that answers before the driver's 1000000 polls are over and reports no error. A file-system
-- call returns a result and the state, so what was changed before a failure stays changed. A loop
-- of the source that follows links of the disk runs on fuel, and a run that uses it up is the
-- result `hang`; the fuel is larger than any chain that does not repeat a cluster, and a round of
-- the freeing of a chain frees one entry more. A walk along the chain of timers has one round for
-- each of the 500 timers, and gives `none` when it is still going after them.
--
-- A put into a FIFO wakes the FIFO's task through the scheduler; a tick of the clock expires
-- timers, puts into their FIFOs, and switches the task when the scheduler's own timer is among
-- them. Interrupts are off in the handlers and in the parts of the source that change shared
-- state, so each call is one step. The jump to another task is the task's index in a result.
--
-- Not modelled: decompression (tek.c, a copy of another project's code, and the parameter `Tek`
-- of the loaders), `task_init`, the drawing of windows, the tab and the scroll bar of the scroll
-- window, the commands of the console and the system calls, the main loop and the applications.
-- Tests of an argument against the null pointer have no counterpart.
pub mod Common
pub mod Memory
pub mod Entry
pub mod Fat
pub mod Fs
pub mod Disk
pub mod Loader
pub mod Tables
pub mod Timer
pub mod Task
pub mod Fifo
pub mod Mouse
pub mod Sheet
pub mod Console
pub mod Scroll

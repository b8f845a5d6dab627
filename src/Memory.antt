-- ===== src/Memory.antt =====
-- The memory manager of harib27f/haribote/memory.c: a table of free blocks in address order.
-- `free` is the whole array; its first `frees` entries are in use. Addresses and sizes are unsigned
-- 32-bit words, whose sums and differences wrap.
pub mod Blocks
pub mod Live
pub mod Places
pub mod Alloc
pub mod Branches
pub mod Free
pub mod Cycle
mod Tests
use bxos.Common.{
  ℕ, zero, suc, ◌+◌, ◌-◌, ◌*◌, ◌/◌, ◌%◌, ◌^◌, Option, none, some, List, Bool, ◌&&◌, ltb, leb, ◌==◌,
  if◌then◌else◌, get_or, set,
}
use bxos.Common.Int.{ℤ, pos, minus}
use bxos.Common.Shift.{shift_down, shift_up}

abbrev pub memman_frees : ℕ
memman_frees = 4090

abbrev pub word : ℕ
word = 2 ^ 32

pub record FreeInfo : Type 0 where
  pub addr : ℕ
  pub size : ℕ

pub record MemMan : Type 0 where
  pub frees : ℕ
  pub maxfrees : ℕ
  pub lostsize : ℕ
  pub losts : ℕ
  pub free : List FreeInfo

abbrev pub block : ℕ → ℕ → FreeInfo
block a s = record { addr = a; size = s }

-- `free[i]`; the loops below read entries in use only
abbrev pub at : List FreeInfo → ℕ → FreeInfo
at free i = get_or free i (block 0 0)

pub memman_init : MemMan → MemMan
memman_init man = record man { frees = 0; maxfrees = 0; lostsize = 0; losts = 0 }

-- `for (i = 0; i < frees; i++) t += free[i].size;`
pub total_loop : ℕ → ℕ → ℕ → List FreeInfo → ℕ
total_loop zero i t free = t
total_loop (suc k) i t free = total_loop k (suc i) ((t + (at free i).size) % word) free

pub memman_total : MemMan → ℕ
unfolding total_loop
memman_total man = total_loop man.frees 0 0 man.free

-- the first entry that is large enough
pub first_fit : ℕ → ℕ → ℕ → List FreeInfo → Option ℕ
first_fit size zero i free = none
first_fit size (suc k) i free =
    let rest = first_fit size k (suc i) free in if leb size (at free i).size then some i else rest

-- the entry at `i` gives its first `size` bytes, and goes when nothing is left of it
pub take_block : MemMan → ℕ → ℕ → ℕ × MemMan
take_block man i size =
    let f = at man.free i in
    let left = block ((f.addr + size) % word) ((f.size + word - size) % word) in
    let free = set man.free i left in
    if left.size == 0
    then (
      f.addr,
      record man { frees = man.frees - 1; free = shift_down (man.frees - 1 - i) i free },
    )
    else (f.addr, record man { free = free })

pub memman_alloc : MemMan → ℕ → ℕ × MemMan
memman_alloc man size = elim (first_fit size man.frees 0 man.free) [
  | none ↦ (0, man)
  | some i ↦ take_block man i size
]

-- the first entry behind `addr`, or the number of entries
pub first_above : ℕ → ℕ → ℕ → List FreeInfo → ℕ
first_above addr zero i free = i
first_above addr (suc k) i free =
    let rest = first_above addr k (suc i) free in if ltb addr (at free i).addr then i else rest

-- the block joins the entry before it, and perhaps the one behind
pub join_front : MemMan → ℕ → ℕ → ℕ → MemMan
join_front man i addr size =
    let f = at man.free (i - 1) in
    let grown = block f.addr ((f.size + size) % word) in
    let next = at man.free i in
    if ltb i man.frees && (((addr + size) % word) == next.addr)
    then record man {
      frees = man.frees - 1;
      free =
          shift_down (man.frees - 1 - i) i
            (set man.free (i - 1) (block f.addr ((grown.size + next.size) % word)));
    }
    else record man { free = set man.free (i - 1) grown }

-- the block becomes an entry of its own
pub insert_block : MemMan → ℕ → ℕ → ℕ → MemMan
insert_block man i addr size = record man {
  frees = man.frees + 1;
  maxfrees = if ltb man.maxfrees (man.frees + 1) then man.frees + 1 else man.maxfrees;
  free = set (shift_up (man.frees - i) man.frees man.free) i (block addr size);
}

-- the cases of `memman_free` once the place `i` is known
pub free_at : MemMan → ℕ → ℕ → ℕ → ℤ × MemMan
free_at man i addr size =
    let prev = at man.free (i - 1) in
    let next = at man.free i in
    if ltb 0 i && (((prev.addr + prev.size) % word) == addr)
    then (pos 0, join_front man i addr size)
    else if ltb i man.frees && (((addr + size) % word) == next.addr)
    then (pos 0, record man { free = set man.free i (block addr ((next.size + size) % word)) })
    else if ltb man.frees memman_frees
    then (pos 0, insert_block man i addr size)
    else (minus 1, record man { losts = man.losts + 1; lostsize = (man.lostsize + size) % word })

pub memman_free : MemMan → ℕ → ℕ → ℤ × MemMan
memman_free man addr size = free_at man (first_above addr man.frees 0 man.free) addr size

-- `(size + 0xfff) & 0xfffff000`
pub round_4k : ℕ → ℕ
round_4k size = (size + 0xfff) % word / 4096 * 4096

unfoldable pub memman_alloc_4k : MemMan → ℕ → ℕ × MemMan
memman_alloc_4k man size = memman_alloc man (round_4k size)

unfoldable pub memman_free_4k : MemMan → ℕ → ℕ → ℤ × MemMan
memman_free_4k man addr size = memman_free man addr (round_4k size)

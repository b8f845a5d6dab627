-- ===== src/Memory/Tests.antt =====
-- The memory manager at a table with two free blocks, 100..149 and 200..229.
use bxos.Common.{
  ◌≡◌, refl, not, ◌&&◌, ◌||◌, false, List, [], ◌∷◌, arith, inr, inl, length, replicate,
  length-replicate,
}
use bxos.Common.Int.{pos}
use bxos.Common.Shift.{shift_down, shift_up}
use bxos.Memory.{
  FreeInfo, MemMan, block, memman_alloc, memman_free, memman_init, memman_alloc_4k, memman_free_4k,
  first_fit, take_block, first_above, free_at, join_front, insert_block, round_4k,
}
use bxos.Memory.Blocks.{within, covers}
use bxos.Memory.Live.{live, IsValid}
use bxos.Memory.Alloc.{memman_alloc-IsValid, covers-memman_alloc}
use bxos.Memory.Free.{memman_free-IsValid, covers-memman_free}
use bxos.Memory.Cycle.{memman_free-memman_alloc}

spare : List FreeInfo
spare = replicate 4088 (block 0 0)

length-spare : length spare ≡ 4088
unfolding spare
length-spare = length-replicate 4088 (block 0 0)

abbrev two : MemMan
two = record {
  frees = 2;
  maxfrees = 2;
  lostsize = 0;
  losts = 0;
  free = block 100 50 ∷ block 200 30 ∷ spare;
}

two-IsValid : IsValid two
two-IsValid = record {
  table = omega (arith, length-spare);
  room = omega arith;
  blocks = omega arith;
}

alloc_second_fit : (memman_alloc two 40).0 ≡ 100
unfolding memman_alloc first_fit take_block
alloc_second_fit = refl

alloc_all_left : live (memman_alloc two 50).1 ≡ block 200 30 ∷ []
unfolding memman_alloc first_fit take_block shift_down
alloc_all_left = refl

free_between : (memman_free two 150 50).0 ≡ pos 0
unfolding memman_free first_above free_at
free_between = refl

free_joins : live (memman_free two 150 50).1 ≡ block 100 130 ∷ []
unfolding memman_free first_above free_at join_front shift_down
free_joins = refl

free_apart : live (memman_free two 160 10).1 ≡ block 100 50 ∷ block 160 10 ∷ block 200 30 ∷ []
unfolding memman_free first_above free_at insert_block shift_up spare
free_apart = refl

init_empties : live (memman_init two) ≡ []
unfolding memman_init
init_empties = refl

abbrev pages : MemMan
pages = record {
  frees = 1;
  maxfrees = 1;
  lostsize = 0;
  losts = 0;
  free = block 0x100000 0x4000 ∷ spare;
}

-- 5000 bytes are asked for as 8192, and come back as such
alloc_4k_rounds : live (memman_alloc_4k pages 5000).1 ≡ block 0x102000 0x2000 ∷ []
unfolding memman_alloc_4k memman_alloc first_fit take_block round_4k
alloc_4k_rounds = refl

free_4k_rounds : live (memman_free_4k pages 0x104000 5000).1 ≡ block 0x100000 0x6000 ∷ []
unfolding memman_free_4k memman_free first_above free_at join_front round_4k
free_4k_rounds = refl

memman_alloc-IsValid_example : IsValid (memman_alloc two 40).1
memman_alloc-IsValid_example = memman_alloc-IsValid two 40 two-IsValid

covers-memman_alloc_example :
    let (a, man') = memman_alloc two 40 in
    (covers (live man') 120 ≡ (covers (live two) 120 && not (within a 40 120)))
    × ((within a 40 120 && not (covers (live two) 120)) ≡ false)
unfolding memman_alloc first_fit take_block
covers-memman_alloc_example = covers-memman_alloc two 40 two-IsValid (omega arith) 120

memman_free-IsValid_example : IsValid (memman_free two 150 50).1
memman_free-IsValid_example =
    memman_free-IsValid two 150 50 two-IsValid (inr (omega arith), (inl (omega arith), tt))
      (omega arith) (omega arith) (omega arith)

covers-memman_free_example :
    covers (live (memman_free two 150 50).1) 170 ≡ (covers (live two) 170 || within 150 50 170)
covers-memman_free_example =
    covers-memman_free two 150 50 170 two-IsValid (omega arith) free_between

memman_free-memman_alloc_example :
    let (a, man') = memman_alloc two 40 in
    let (rc, man'') = memman_free man' a 40 in (rc ≡ pos 0) × (live man'' ≡ live two)
unfolding memman_alloc first_fit take_block
memman_free-memman_alloc_example =
    memman_free-memman_alloc two 40 two-IsValid (omega arith) (omega arith) (omega arith)

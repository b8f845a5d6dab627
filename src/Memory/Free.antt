-- ===== src/Memory/Free.antt =====
-- `memman_free`: what it does to the table on each of its branches.
use bxos.Common.{
  ℕ, zero, suc, ◌+◌, ◌%◌, ◌≤◌, ◌<◌, ◌≡◌, ◌≢◌, refl, ap, ◌⊎◌, inl, inr, ◌||◌, ◌&&◌, Bool-cases,
  arith, ltb, ltb→lt, ◌==◌, ==_iff, if◌then◌else◌, set,
}
use native.Mathlib.Decide.{ℕ_discrete}
use bxos.Common.Int.{ℤ, pos, minus}
use bxos.Memory.{
  MemMan, block, at, word, memman_frees, first_above, join_front, insert_block, free_at,
  memman_free, memman_total, round_4k,
}
use bxos.Memory.Blocks.{
  Apart, within, covers, total, release, release-Separated, covers-release, total-release,
}
use bxos.Memory.Live.{
  live, IsValid, IsPlace, first_above-IsPlace, IsPlace-le-length, memman_total-eq-total,
}
use bxos.Memory.Places.{NoTouch}
use bxos.Memory.Branches.{
  Freed, Lost, in_use, at-live, in_word, join_front-both, join_front-front, put_back,
  insert_block-Freed,
}

abbrev pub Outcome : MemMan → ℕ → ℕ → ℤ × MemMan → Type 0
Outcome man a s r = Freed man a s r ⊎ Lost man s r

-- the part of `free_at` behind the test of the entry in front
behind : MemMan → ℕ → ℕ → ℕ → ℤ × MemMan
behind man p a s =
    let next = at man.free p in
    if ltb p man.frees && (((a + s) % word) == next.addr)
    then (pos 0, record man { free = set man.free p (block a ((next.size + s) % word)) })
    else if ltb man.frees memman_frees
    then (pos 0, insert_block man p a s)
    else (minus 1, record man { losts = man.losts + 1; lostsize = (man.lostsize + s) % word })

module _ (man : MemMan) (a s : ℕ) where
  behind-Outcome :
      (p : ℕ)
      → IsValid man
      → IsPlace a p (live man)
      → NoTouch a p (live man)
      → a + s < word
      → Outcome man a s (behind man p a s)
  unfolding behind
  behind-Outcome p v h t w =
      elim (Bool-cases (ltb p man.frees && (((a + s) % word) == (at man.free p).addr))) [
        | inl meets ↦ rw meets (inl (put_back man a s p v h t w (ground arith) (ground arith)))
        | inr apart ↦ elim (Bool-cases (ltb man.frees memman_frees)) [
          | inl space ↦
              rw (apart, space)
                (inl (insert_block-Freed man a s p v h t (ltb→lt _ _ space) (λ k. ground arith)))
          | inr full ↦
              rw (apart, full)
                (inr (record {
                  full = ground arith;
                  failed = refl;
                  kept = (refl, refl);
                  counted = (refl, refl);
                }))
        ]
      ]

  free_at_front :
      (q : ℕ)
      → (((at man.free q).addr + (at man.free q).size) % word) ≡ a
      → free_at man (suc q) a s ≡ (pos 0, join_front man (suc q) a s)
  unfolding free_at
  free_at_front q e = ground arith

  free_at-behind :
      (q : ℕ)
      → (((at man.free q).addr + (at man.free q).size) % word) ≢ a
      → free_at man (suc q) a s ≡ behind man (suc q) a s
  unfolding free_at behind
  free_at-behind q e = ground arith

  join_front-Freed :
      (q : ℕ)
      → IsValid man
      → IsPlace a (suc q) (live man)
      → a + s < word
      → q < man.frees
      → (at man.free q).addr + (at man.free q).size ≡ a
      → Freed man a s (pos 0, join_front man (suc q) a s)
  join_front-Freed q v h w n e = elim (Bool-cases (ltb (suc q) man.frees)) [
    | inl more ↦ elim (Bool-cases ((a + s) == (at man.free (suc q)).addr)) [
      | inl meets ↦ join_front-both man a s q v h w (ltb→lt _ _ more) e ((==_iff _ _).0 meets)
      | inr apart ↦ join_front-front man a s q v h w n e (λ k. ground arith)
    ]
    | inr last ↦ join_front-front man a s q v h w n e (λ k. ground arith)
  ]

  free_at-Outcome :
      (p : ℕ)
      → IsValid man
      → IsPlace a p (live man)
      → a + s < word
      → Outcome man a s (free_at man p a s)
  free_at-Outcome zero v h w = (unfold free_at behind in behind-Outcome zero v h tt w)
  free_at-Outcome (suc q) v h w =
      let n : q < man.frees =
        omega (arith, in_use man a s v, IsPlace-le-length a (suc q) (live man) h) in
      let small = in_word man a s q v n in
      elim (ℕ_discrete (((at man.free q).addr + (at man.free q).size) % word) a) [
        | yes touches ↦
            rw (free_at_front q touches) (inl (join_front-Freed q v h w n (omega arith)))
        | no apart ↦
            rw (free_at-behind q apart)
              (behind-Outcome (suc q) v h (λ e. apart (ground (arith, at-live man a s q n))) w)
      ]

  -- A release of any block into a well-formed table either joins it to the free blocks it touches, or
  -- enters it in address order, or finds the table full; then it is counted as lost and no entry
  -- changes.
  pub memman_free-Outcome : IsValid man → a + s < word → Outcome man a s (memman_free man a s)
  unfolding memman_free
  memman_free-Outcome v w =
      free_at-Outcome (first_above a man.frees 0 man.free) v
        (first_above-IsPlace a man.frees man.free (omega arith)) w

  -- A release keeps the table well formed, also when it is full: entries in address order, not empty,
  -- within the word, and joined wherever they touch. The block is not empty, not at address 0, ends
  -- within the word and meets no free block.
  pub memman_free-IsValid :
      IsValid man
      → Apart a s (live man)
      → 0 < a
      → 0 < s
      → a + s < word
      → IsValid (memman_free man a s).1
  memman_free-IsValid v d p q w = elim (memman_free-Outcome v w) [
    | inl f ↦ record {
      table = f.table;
      room = f.room;
      blocks = rw f.put (release-Separated 1 a s (live man) v.blocks d p q w);
    }
    | inr l ↦ record {
      table = rw (l.kept.0) v.table;
      room = rw (l.kept.1) v.room;
      blocks = rw (l.kept.0, l.kept.1) v.blocks;
    }
  ]

  pub released :
      IsValid man
      → a + s < word
      → (memman_free man a s).0 ≡ pos 0
      → live (memman_free man a s).1 ≡ release a s (live man)
  released v w e = elim (memman_free-Outcome v w) [ inl f ↦ f.put | inr l ↦ cc (l.failed) ]

  -- When a release into a well-formed table returns 0, then a byte is free afterwards exactly if it
  -- was free before or lies in the block. The block ends within the word.
  pub covers-memman_free :
      (b : ℕ)
      → IsValid man
      → a + s < word
      → (memman_free man a s).0 ≡ pos 0
      → covers (live (memman_free man a s).1) b ≡ (covers (live man) b || within a s b)
  covers-memman_free b v w e = rw (released v w e) (covers-release 1 a s b (live man) v.blocks)

  -- When a release of a block that meets no free block returns 0, then the reported total grows by
  -- the block's size.
  pub memman_total-memman_free :
      IsValid man
      → Apart a s (live man)
      → 0 < a
      → 0 < s
      → a + s < word
      → (memman_free man a s).0 ≡ pos 0
      → memman_total (memman_free man a s).1 ≡ memman_total man + s
  memman_total-memman_free v d p q w e = omega (
    arith,
    memman_total-eq-total man v,
    memman_total-eq-total (memman_free man a s).1 (memman_free-IsValid v d p q w),
    ap total (released v w e),
    total-release a s (live man),
  )

  -- A release into a well-formed table with a spare entry succeeds.
  pub memman_free_succeeds :
      IsValid man → a + s < word → man.frees < memman_frees → (memman_free man a s).0 ≡ pos 0
  memman_free_succeeds v w h = elim (memman_free-Outcome v w) [
    | inl f ↦ f.done
    | inr l ↦ absurd (omega (arith, l.full))
  ]

-- The rounding of the 4k interface: for a size whose sum with 0xfff does not wrap, the result is the
-- least multiple of 4096 that is not below it.
pub round_4k_lem :
    (size : ℕ)
    → size + 0xfff < word
    → (size ≤ round_4k size) × (round_4k size < size + 4096) × (round_4k size % 4096 ≡ 0)
unfolding round_4k
round_4k_lem size h = omega arith

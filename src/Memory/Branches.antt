-- ===== src/Memory/Branches.antt =====
-- The branches of `memman_free` that change the table: the block joins its neighbours, or becomes an
-- entry of its own.
use bxos.Common.{
  ℕ, suc, ◌+◌, ◌-◌, ◌%◌, ◌≤◌, ◌<◌, ◌≡◌, ◌≢◌, refl, sym, ap, ap₂, ◌∙◌, inl, inr, Bool-cases, arith,
  ltb, ltb→lt, length, set, length-set, get_or-take, take-set, length-take,
}
use bxos.Common.Int.{ℤ, pos, minus}
use bxos.Common.Shift.{
  remove_at, shift_down, take-shift_down, length-shift_down, shift_up, take-shift_up,
  length-shift_up,
}
use bxos.Memory.{FreeInfo, MemMan, block, at, word, memman_frees, join_front, insert_block}
use bxos.Memory.Blocks.{at_above, release}
use bxos.Memory.Live.{live, IsValid, IsPlace, IsPlace-le-length}
use bxos.Memory.Places.{
  NoTouch, NoMeet, NoMeet-intro, release_join_both, release_join_front, release_join_back,
  release_insert,
}

-- the block went into the table
pub record Freed (man : MemMan) (a s : ℕ) (r : ℤ × MemMan) : Type 0 where
  pub done : r.0 ≡ pos 0
  pub table : length r.1.free ≡ memman_frees
  pub room : r.1.frees ≤ memman_frees
  pub put : live r.1 ≡ release a s (live man)

-- the table was full
pub record Lost (man : MemMan) (s : ℕ) (r : ℤ × MemMan) : Type 0 where
  pub full : man.frees ≡ memman_frees
  pub failed : r.0 ≡ minus 1
  pub kept : (r.1.free ≡ man.free) × (r.1.frees ≡ man.frees)
  pub counted : (r.1.losts ≡ man.losts + 1) × (r.1.lostsize ≡ (man.lostsize + s) % word)

module _ (man : MemMan) (a s : ℕ) where
  pub in_use : IsValid man → length (live man) ≡ man.frees
  in_use v = omega (arith, length-take man.frees man.free, v.table, v.room)

  pub at-live : (i : ℕ) → i < man.frees → at (live man) i ≡ at man.free i
  at-live i h = get_or-take man.frees i man.free (block 0 0) h

  pub in_word :
      (i : ℕ) → IsValid man → i < man.frees → ((at man.free i).addr + (at man.free i).size < word)
  in_word i v h =
      ground (arith, at-live i h, at_above 1 i (live man) v.blocks (omega (arith, in_use v)))

  abbrev merged : ℕ → FreeInfo
  merged q = block (at man.free q).addr ((at man.free q).size + s + (at man.free (suc q)).size)

  abbrev grown : ℕ → FreeInfo
  grown q = block (at man.free q).addr ((at man.free q).size + s)

  join_both_eq :
      (q : ℕ)
      → IsValid man
      → a + s < word
      → suc q < man.frees
      → (at man.free q).addr + (at man.free q).size ≡ a
      → a + s ≡ (at man.free (suc q)).addr
      → join_front man (suc q) a s ≡ record man {
        frees = man.frees - 1;
        free = shift_down (man.frees - 1 - suc q) (suc q) (set man.free q (merged q));
      }
  unfolding join_front
  join_both_eq q v w n e m = ground (arith, in_word (suc q) v n)

  pub join_front-both :
      (q : ℕ)
      → IsValid man
      → IsPlace a (suc q) (live man)
      → a + s < word
      → suc q < man.frees
      → (at man.free q).addr + (at man.free q).size ≡ a
      → a + s ≡ (at man.free (suc q)).addr
      → Freed man a s (pos 0, join_front man (suc q) a s)
  join_front-both q v h w n e m = rw (join_both_eq q v w n e m) (record {
    done = refl;
    table =
        length-shift_down (man.frees - 1 - suc q) (suc q) (set man.free q (merged q))
        ∙ length-set man.free q (merged q)
        ∙ v.table;
    room = omega arith;
    put =
        take-shift_down (suc q) (man.frees - 1 - suc q) (man.frees - 1) (set man.free q (merged q))
          (omega arith) (omega (arith, length-set man.free q (merged q)))
        ∙ ap (remove_at (suc q)) (
            (let e' : suc (man.frees - 1) ≡ man.frees = omega arith in rw e')
            ∙ take-set man.frees q man.free (merged q))
        ∙ ap
            (λ (f : FreeInfo × FreeInfo).
              remove_at (suc q) (set (live man) q (block f.0.addr (f.0.size + s + f.1.size))))
            (ap₂ (λ x y. (x, y)) (sym (at-live q (omega arith))) (sym (at-live (suc q) n)))
        ∙ sym (
            release_join_both 1 q a s (live man) v.blocks h (rw (at-live q (omega arith)) e)
              (omega (arith, in_use v)) (rw (at-live (suc q) n) m));
  })

  join_front_eq :
      (q : ℕ)
      → IsValid man
      → a + s < word
      → q < man.frees
      → (at man.free q).addr + (at man.free q).size ≡ a
      → ((suc q < man.frees) → a + s ≢ (at man.free (suc q)).addr)
      → join_front man (suc q) a s ≡ record man { free = set man.free q (grown q) }
  unfolding join_front
  join_front_eq q v w n e m = elim (Bool-cases (ltb (suc q) man.frees)) [
    | inl more ↦ ground (arith, m (ltb→lt _ _ more))
    | inr last ↦ ground arith
  ]

  no_meet :
      (p : ℕ)
      → IsValid man
      → ((p < man.frees) → a + s ≢ (at man.free p).addr)
      → NoMeet (a + s) p (live man)
  no_meet p v m =
      NoMeet-intro (a + s) p (live man)
        λ k. let k' : p < man.frees = omega (arith, in_use v) in rw (at-live p k') (m k')

  pub join_front-front :
      (q : ℕ)
      → IsValid man
      → IsPlace a (suc q) (live man)
      → a + s < word
      → q < man.frees
      → (at man.free q).addr + (at man.free q).size ≡ a
      → ((suc q < man.frees) → a + s ≢ (at man.free (suc q)).addr)
      → Freed man a s (pos 0, join_front man (suc q) a s)
  join_front-front q v h w n e m = rw (join_front_eq q v w n e m) (record {
    done = refl;
    table = length-set man.free q (grown q) ∙ v.table;
    room = v.room;
    put =
        take-set man.frees q man.free (grown q)
        ∙ ap (λ (f : FreeInfo). set (live man) q (block f.addr (f.size + s))) (sym (at-live q n))
        ∙ sym (
            release_join_front 1 q a s (live man) v.blocks h (rw (at-live q n) e)
              (no_meet (suc q) v m));
  })

  pub put_back :
      (p : ℕ)
      → IsValid man
      → IsPlace a p (live man)
      → NoTouch a p (live man)
      → a + s < word
      → p < man.frees
      → a + s ≡ (at man.free p).addr
      → Freed man a s (
        pos 0,
        record man { free = set man.free p (block a (((at man.free p).size + s) % word)) },
      )
  put_back p v h t w n m =
      let e : ((at man.free p).size + s) % word ≡ (at man.free p).size + s =
        omega (arith, in_word p v n) in
      rw e (record {
        done = refl;
        table = length-set man.free p _ ∙ v.table;
        room = v.room;
        put =
            take-set man.frees p man.free _
            ∙ ap (λ (f : FreeInfo). set (live man) p (block a (f.size + s))) (sym (at-live p n))
            ∙ sym (
                release_join_back 1 p a s (live man) v.blocks h t (omega (arith, in_use v))
                  (rw (at-live p n) m));
      })

  pub insert_block-Freed :
      (p : ℕ)
      → IsValid man
      → IsPlace a p (live man)
      → NoTouch a p (live man)
      → man.frees < memman_frees
      → ((p < man.frees) → a + s ≢ (at man.free p).addr)
      → Freed man a s (pos 0, insert_block man p a s)
  unfolding insert_block
  insert_block-Freed p v h t n m =
      let top : suc man.frees ≡ man.frees + 1 = omega arith in
      record {
        done = refl;
        table =
            length-set (shift_up (man.frees - p) man.frees man.free) p (block a s)
            ∙ length-shift_up (man.frees - p) man.frees man.free
            ∙ v.table;
        room = omega arith;
        put = rw (← top) (
            take-shift_up p (man.frees - p) man.frees (block a s) man.free
              (omega (arith, IsPlace-le-length a p (live man) h, in_use v)) (omega arith)
            ∙ sym (release_insert 1 p a s (live man) v.blocks h t (no_meet p v m)));
      }

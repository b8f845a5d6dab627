-- ===== src/Loader/Blocks.antt =====
-- The memory that the loaders take and give back (file.c and fs_fat.c of harib27f/haribote).
use bxos.Common.{
  ℕ, ◌+◌, ◌<◌, ◌≡◌, ◌≢◌, inl, inr, refl, arith, Option, none, some, List, Bool, true, false, not,
  ◌&&◌, ◌||◌, ap, Bool-cases, ◌==◌, ltb, leb, ==_iff,
}
use bxos.Common.Int.{is_neg, to_ℕ}
use bxos.Memory.{
  MemMan, word, memman_frees, round_4k, memman_alloc, memman_free, memman_alloc_4k, memman_free_4k,
}
use bxos.Memory.Blocks.{within, covers}
use bxos.Memory.Live.{live, IsValid}
use bxos.Memory.Alloc.{
  memman_alloc-IsValid, memman_alloc_fails, memman_alloc-frees, covers-memman_alloc,
  memman_alloc_end,
}
use bxos.Memory.Free.{memman_free_succeeds, covers-memman_free, round_4k_lem}
use bxos.Memory.Cycle.{memman_free-memman_alloc}
use bxos.Fs.{Ata, Fs}
use bxos.Fs.Monad.{Result, ok, err, hang}
use bxos.Loader.{Tek, Loaded, unpacked}
use bxos.Loader.Volume.{after_read, fs_read_chain, fs_data_loadfile}

-- a size that the rounding to 4096 bytes keeps within the word
abbrev pub IsSize : ℕ → Type 0
IsSize size = (0 < size) × (size + 0xfff < word)

-- Exactly the bytes of a block left the free memory.
abbrev pub IsTaken : MemMan → ℕ → ℕ → MemMan → Type 0
IsTaken man addr size man' =
    (b : ℕ) → covers (live man') b ≡ (covers (live man) b && not (within addr (round_4k size) b))

module _ (man : MemMan) (v : IsValid man) (spare : man.frees < memman_frees) where
  -- A block of 4096 bytes that is taken and given back.
  given_back :
      (size : ℕ)
      → IsSize size
      → (memman_alloc_4k man size).0 ≢ 0
      → live (memman_free_4k (memman_alloc_4k man size).1 (memman_alloc_4k man size).0 size).1
        ≡ live man
  unfolding memman_alloc_4k memman_free_4k
  given_back size h given =
      (memman_free-memman_alloc man (round_4k size) v spare
        (omega (arith, round_4k_lem size h.1, h.0)) given).1

  taken :
      (size : ℕ)
      → (memman_alloc_4k man size).0 ≢ 0
      → IsTaken man (memman_alloc_4k man size).0 size (memman_alloc_4k man size).1
  unfolding memman_alloc_4k
  taken size given b = (covers-memman_alloc man (round_4k size) v given b).0

-- A block `w` was free and is taken, then `w2` is taken, and then `w` is given back.
exchanged :
    (c w w2 c1 c2 c3 : Bool)
    → c1 ≡ (c && not w)
    → (w && not c) ≡ false
    → c2 ≡ (c1 && not w2)
    → (w2 && not c1) ≡ false
    → c3 ≡ (c2 || w)
    → c3 ≡ (c && not w2)
exchanged true true true c1 c2 c3 a b d e f = ground arith
exchanged true true false c1 c2 c3 a b d e f = ground arith
exchanged true false w2 c1 c2 c3 a b d e f = ground arith
exchanged false true w2 c1 c2 c3 a b d e f = ground arith
exchanged false false w2 c1 c2 c3 a b d e f = ground arith

module _ (man : MemMan) (v : IsValid man) (spare : man.frees < memman_frees) where
  -- The block of the compressed file is exchanged for that of the file.
  swapped :
      (size size2 : ℕ)
      → (memman_alloc_4k man size).0 ≢ 0
      → (memman_alloc_4k (memman_alloc_4k man size).1 size2).0 ≢ 0
      → let (buf, man1) = memman_alloc_4k man size in
        let (buf2, man2) = memman_alloc_4k man1 size2 in
        IsTaken man buf2 size2 (memman_free_4k man2 buf size).1
  unfolding memman_alloc_4k memman_free_4k
  swapped size size2 given given2 b =
      let r = round_4k size in
      let r2 = round_4k size2 in
      let buf = (memman_alloc man r).0 in
      let man1 = (memman_alloc man r).1 in
      let v1 = memman_alloc-IsValid man r v in
      let buf2 = (memman_alloc man1 r2).0 in
      let man2 = (memman_alloc man1 r2).1 in
      let v2 = memman_alloc-IsValid man1 r2 v1 in
      let end = memman_alloc_end man r v given in
      let room : man2.frees < memman_frees =
        omega (arith, memman_alloc-frees man r v, memman_alloc-frees man1 r2 v1, spare) in
      let done = memman_free_succeeds man2 buf r v2 end room in
      let first = covers-memman_alloc man r v given b in
      let second = covers-memman_alloc man1 r2 v1 given2 b in
      exchanged (covers (live man) b) (within buf r b) (within buf2 r2 b) (covers (live man1) b)
        (covers (live man2) b) (covers (live (memman_free man2 buf r).1) b) first.0 first.1 second.0
        second.1 (covers-memman_free man2 buf r b v2 end done)

  -- The file that is returned has the only block that left the free memory.
  unpacked-IsTaken :
      (tek : Tek) (size : ℕ) (bytes : List ℕ)
      → (memman_alloc_4k man size).0 ≢ 0
      → let (buf, man1) = memman_alloc_4k man size in
        let (f, man2) = unpacked tek (record { addr = buf; size = size; bytes = bytes }) man1 in
        f.addr ≢ 0 → IsTaken man f.addr f.size man2
  unfolding unpacked
  unpacked-IsTaken tek size bytes given =
      let size2 = tek.getsize bytes in
      elim (Bool-cases (leb 17 size && (not (is_neg size2) && ltb 0 (to_ℕ size2)))) [
        | inl packed ↦ rw packed (λ given2. swapped size (to_ℕ size2) given given2)
        | inr plain ↦ rw plain (λ given2. taken man v spare size given)
      ]

-- What is true of the free memory when a file is loaded, or not.
abbrev pub Accounts : MemMan → Result (Option Loaded) → MemMan → Type 0
Accounts man (ok (some f)) man' = f.addr ≢ 0 → IsTaken man f.addr f.size man'
Accounts man (ok none) man' = live man' ≡ live man
Accounts man (err code) man' = ⊥
Accounts man hang man' = Unit {0}

module _ (man : MemMan) (v : IsValid man) (spare : man.frees < memman_frees) where
  after_read-Accounts :
      (tek : Tek) (size : ℕ) (r : Result (List ℕ))
      → IsSize size
      → (memman_alloc_4k man size).0 ≢ 0
      → let (buf, man1) = memman_alloc_4k man size in
        let (file, man2) = after_read tek buf size man1 r in Accounts man file man2
  unfolding after_read
  after_read-Accounts tek size hang h given = tt
  after_read-Accounts tek size (err code) h given = given_back man v spare size h given
  after_read-Accounts tek size (ok bytes) h given =
      unpacked-IsTaken man v spare tek size bytes given

  no_block :
      (size : ℕ) → (memman_alloc_4k man size).0 ≡ 0 → live (memman_alloc_4k man size).1 ≡ live man
  unfolding memman_alloc_4k
  no_block size e = ap live (memman_alloc_fails man (round_4k size) v e)

  -- fs_data_loadfile takes no other memory than that of the file it returns, and none if it returns
  -- the null pointer, on every path: no volume, no memory, a failed read, a plain or a compressed
  -- file. The table is well formed and has a spare entry, the size is not 0 and its rounding does
  -- not wrap; the file is not at address 0, where it is if there is no memory for decompression.
  pub fs_data_loadfile-Accounts :
      {D : Type 0} (ata : Ata D) (tek : Tek) (clustno size : ℕ) (s : Fs D)
      → IsSize size
      → let (file, man', s') = fs_data_loadfile ⦃ata = ata⦄ tek clustno size man s in
        Accounts man file man'
  unfolding fs_data_loadfile
  fs_data_loadfile-Accounts ata tek clustno size s h = elim (Bool-cases s.mounted) [
    | inr no_volume ↦ simp no_volume refl
    | inl mounted ↦ elim (Bool-cases ((memman_alloc_4k man size).0 == 0)) [
      | inl full ↦ simp (mounted, full) (no_block size ((==_iff _ _).0 full))
      | inr given ↦
          simp (mounted, given)
            (after_read-Accounts tek size (fs_read_chain ⦃ata = ata⦄ clustno size s).0 h
              (ground (arith, given)))
    ]
  ]

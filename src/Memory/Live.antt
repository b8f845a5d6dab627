-- ===== src/Memory/Live.antt =====
-- The entries of the memory manager's table that are in use, and the invariant of the table.
use bxos.Common.{
  ℕ, zero, suc, ◌+◌, ◌%◌, ◌≤◌, ◌<◌, ◌≡◌, refl, List, [], ◌∷◌, Bool-cases, inl, inr, none, some,
  arith, ltb, ltb→lt, length, take, ◌==◌,
}
use bxos.Memory.{
  FreeInfo, MemMan, at, word, memman_frees, total_loop, memman_total, first_fit, first_above,
}
use bxos.Memory.Blocks.{Separated, total}

abbrev pub live : MemMan → List FreeInfo
live man = take man.frees man.free

-- The table has all its entries, and those in use are separated and not at address 0.
pub record IsValid (man : MemMan) : Type 0 where
  pub table : length man.free ≡ memman_frees
  pub room : man.frees ≤ memman_frees
  pub blocks : Separated 1 (live man)

pub first_fit-some :
    (size k i j : ℕ) (free : List FreeInfo)
    → first_fit size k i free ≡ some j
    → (i ≤ j) × (j < i + k) × (size ≤ (at free j).size)
unfolding first_fit
first_fit-some size zero i j free h = cc
first_fit-some size (suc k) i j free h = ground (arith, first_fit-some size k (suc i) j free)

pub first_fit-none :
    (size k i j : ℕ) (free : List FreeInfo)
    → first_fit size k i free ≡ none
    → i ≤ j
    → j < i + k
    → (at free j).size < size
unfolding first_fit
first_fit-none size zero i j free h p q = absurd (omega arith)
first_fit-none size (suc k) i j free h p q = elim (Bool-cases (i == j)) [
  | inl e ↦ ground arith
  | inr e ↦ ground (arith, first_fit-none size k (suc i) j free)
]

-- `a` belongs in front of entry `p`
abbrev pub IsPlace : ℕ → ℕ → List FreeInfo → Type 0
IsPlace a zero [] = Unit {0}
IsPlace a zero (f ∷ fs) = a < f.addr
IsPlace a (suc p) [] = ⊥
IsPlace a (suc p) (f ∷ fs) = (f.addr ≤ a) × IsPlace a p fs

first_above-cons :
    (a k i : ℕ) (f : FreeInfo) (fs : List FreeInfo)
    → first_above a k (suc i) (f ∷ fs) ≡ suc (first_above a k i fs)
unfolding first_above
first_above-cons a zero i f fs = refl
first_above-cons a (suc k) i f fs = ground (arith, first_above-cons a k (suc i) f fs)

pub first_above-IsPlace :
    (a k : ℕ) (l : List FreeInfo) → k ≤ length l → IsPlace a (first_above a k 0 l) (take k l)
unfolding first_above
first_above-IsPlace a zero l h = tt
first_above-IsPlace a (suc k) [] h = absurd (omega arith)
first_above-IsPlace a (suc k) (f ∷ fs) h = elim (Bool-cases (ltb a f.addr)) [
  | inl before ↦ rw before (ltb→lt _ _ before)
  | inr behind ↦
      rw (behind, first_above-cons a k 0 f fs)
        (ground arith, first_above-IsPlace a k fs (omega arith))
]

pub IsPlace-le-length : (a p : ℕ) (l : List FreeInfo) → IsPlace a p l → p ≤ length l
IsPlace-le-length a zero [] h = omega arith
IsPlace-le-length a zero (f ∷ fs) h = omega arith
IsPlace-le-length a (suc p) [] h = absurd h
IsPlace-le-length a (suc p) (f ∷ fs) h = omega (arith, IsPlace-le-length a p fs h.1)

total_loop-cons :
    (k i t : ℕ) (f : FreeInfo) (fs : List FreeInfo)
    → total_loop k (suc i) t (f ∷ fs) ≡ total_loop k i t fs
unfolding total_loop
total_loop-cons zero i t f fs = refl
total_loop-cons (suc k) i t f fs = total_loop-cons k (suc i) _ f fs

total_loop_lem :
    (k t : ℕ) (l : List FreeInfo)
    → k ≤ length l
    → t + total (take k l) < word
    → total_loop k 0 t l ≡ t + total (take k l)
unfolding total_loop
total_loop_lem zero t l h w = omega arith
total_loop_lem (suc k) t [] h w = absurd (omega arith)
total_loop_lem (suc k) t (f ∷ fs) h w = omega (
  arith,
  total_loop-cons k 0 ((t + f.size) % word) f fs,
  total_loop_lem k ((t + f.size) % word) fs (omega arith) (omega arith),
)

total-lt-word : (lo : ℕ) (l : List FreeInfo) → lo ≤ word → Separated lo l → lo + total l ≤ word
total-lt-word lo [] h v = omega arith
total-lt-word lo (f ∷ fs) h v =
    omega (arith, total-lt-word (f.addr + f.size + 1) fs (omega arith) v.3)

-- `memman_total` reports the bytes of the entries in use; the sum does not wrap.
pub memman_total-eq-total : (man : MemMan) → IsValid man → memman_total man ≡ total (live man)
unfolding memman_total
memman_total-eq-total man v = omega (
  arith,
  total-lt-word 1 (live man) (omega arith) v.blocks,
  total_loop_lem man.frees 0 man.free (omega arith)
      (omega (arith, total-lt-word 1 (live man) (omega arith) v.blocks)),
)

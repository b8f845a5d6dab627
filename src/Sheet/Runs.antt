-- ===== src/Sheet/Runs.antt =====
-- The loop over a row of `sheet_refreshmap` and `sheet_refreshsub` (harib27f/haribote/sheet.c) writes
-- whole runs of pixels; this is what it leaves at each pixel.
use bxos.Common.{
  ℕ, zero, suc, ◌+◌, ◌-◌, ◌≤◌, ◌<◌, Option, none, some, List, Bool, ◌&&◌, ltb, leb, ◌==◌,
  if◌then◌else◌, get_or, length, ◌≡◌, refl, ap, arith, set, length-set, Bool-cases, inl, inr, ◌∙◌,
}
use bxos.Common.Bytes.{write_range, get_or-set}
use bxos.Sheet.{runs, end_run, go_on}

-- `at ≤ q < at + n`
abbrev pub within : ℕ → ℕ → ℕ → Bool
within at n q = leb at q && ltb q (at + n)

-- the value written at an index, counted from the index before
value_at : (f : ℕ → ℕ) (from at q : ℕ) → at < q → f (suc from + (q - suc at)) ≡ f (from + (q - at))
value_at f from at q h = let e : suc from + (q - suc at) ≡ from + (q - at) = omega arith in ap f e

-- a byte after `write_range`
pub get_or-write_range :
    (n at from : ℕ) (f : ℕ → ℕ) (dst : List ℕ) (q : ℕ)
    → at + n ≤ length dst
    → get_or (write_range n at from f dst) q 0
      ≡ (if within at n q then f (from + (q - at)) else get_or dst q 0)
unfolding write_range
get_or-write_range zero at from f dst q l = ground arith
get_or-write_range (suc n) at from f dst q l =
    let rest =
      get_or-write_range n (suc at) (suc from) f (set dst at (f from)) q
        (omega (arith, length-set dst at (f from))) in
    elim (Bool-cases (q == at)) [
      | inl e ↦
          ground (arith, rest, get_or-set dst at q (f from) 0 (omega arith), value_at f from at q)
      | inr e ↦
          ground (arith, rest, get_or-set dst at q (f from) 0 (omega arith), value_at f from at q)
    ]

-- `emit` writes a run of the row that begins at `base`, `val` at each pixel.
pub record Writes (emit : ℕ → ℕ → List ℕ → List ℕ) (base : ℕ) (val : ℕ → ℕ) : Type 0 where
  pub length-emit : (s n : ℕ) (m : List ℕ) → length (emit s n m) ≡ length m
  pub get_or-emit :
      (s n : ℕ) (m : List ℕ) (q : ℕ)
      → base + s + n ≤ length m
      → get_or (emit s n m) q 0 ≡ (if within (base + s) n q then val (q - base) else get_or m q 0)

-- a run that began is not ahead of the pixel
abbrev pub IsBehind : Option ℕ → ℕ → Type 0
IsBehind none i = 0 ≤ i
IsBehind (some s) i = s ≤ i

module _ (test : ℕ → Bool) (emit : ℕ → ℕ → List ℕ → List ℕ) (base : ℕ) (val : ℕ → ℕ)
    (w : Writes emit base val) where
  length-end_run : (run : Option ℕ) (i : ℕ) (m : List ℕ) → length (end_run emit run i m) ≡ length m
  length-end_run none i m = refl
  length-end_run (some s) i m = w.length-emit s (i - s) m

  pub length-runs :
      (k i : ℕ) (run : Option ℕ) (m : List ℕ) → length (runs test emit k i run m) ≡ length m
  unfolding runs
  length-runs zero i run m = length-end_run run i m
  length-runs (suc k) i run m = ground (
    arith,
    length-end_run run i m,
    length-runs k (suc i) (if test i then go_on run i else none)
        (if test i then m else end_run emit run i m),
  )

  -- the pixel that joins the run
  end_run-go_on :
      (i : ℕ) (run : Option ℕ) (m : List ℕ) (q : ℕ)
      → IsBehind run i
      → base + suc i ≤ length m
      → get_or (end_run emit (go_on run i) (suc i) m) q 0
        ≡ (if q == (base + i) then val (q - base) else get_or (end_run emit run i m) q 0)
  end_run-go_on i none m q b l = ground (arith, w.get_or-emit i (suc i - i) m q (omega arith))
  end_run-go_on i (some s) m q b l = ground (
    arith,
    w.get_or-emit s (suc i - s) m q (omega arith),
    w.get_or-emit s (i - s) m q (omega arith),
  )

  go_on-IsBehind : (run : Option ℕ) (i : ℕ) → IsBehind run i → IsBehind (go_on run i) (suc i)
  go_on-IsBehind none i b = omega arith
  go_on-IsBehind (some s) i b = omega arith

  test_at : (q i : ℕ) → q ≡ base + i → test (q - base) ≡ test i
  test_at q i h = let e : q - base ≡ i = omega arith in ap test e

  pub get_or-runs :
      (k i : ℕ) (run : Option ℕ) (m : List ℕ) (q : ℕ)
      → IsBehind run i
      → base + i + k ≤ length m
      → get_or (runs test emit k i run m) q 0 ≡ (
          if within (base + i) k q && test (q - base)
          then val (q - base)
          else get_or (end_run emit run i m) q 0)
  unfolding runs
  get_or-runs zero i run m q b l = ground arith
  get_or-runs (suc k) i run m q b l = elim (Bool-cases (test i)) [
    | inl e ↦ rw e (
        get_or-runs k (suc i) (go_on run i) m q (go_on-IsBehind run i b) (omega arith)
        ∙ ground (arith, e, test_at q i, end_run-go_on i run m q b (omega arith)))
    | inr e ↦ rw e (
        get_or-runs k (suc i) none (end_run emit run i m) q (omega arith)
          (omega (arith, length-end_run run i m))
        ∙ ground (arith, e, test_at q i))
  ]

-- ===== src/Common/Bytes.antt =====
-- `memset` and `memcpy` on byte arrays, and the byte at an index afterwards.
use Prim.Native.Nat.{ℕ, zero, suc, ◌+◌, ◌≤◌, ◌<◌}
use mathlib.Core.Path.{◌≡◌, refl}
use mathlib.Core.Logic.{◌⊎◌, inl}
use mathlib.Core.Path.{◌∙◌}
use mathlib.Core.List.{List, [], ◌∷◌}
use native.Mathlib.Omega.{arith}
use package.bxos.Common.Tests.{◌==◌, if◌then◌else◌}
use package.bxos.Common.Lists.{length, set, get_or, length-set}

abbrev pub IsBytes : List ℕ → Type 0
IsBytes [] = Unit {0}
IsBytes (x ∷ xs) = (x < 256) × IsBytes xs

pub byte_lt : (bytes : List ℕ) (i : ℕ) → IsBytes bytes → get_or bytes i 0 < 256
byte_lt [] i h = omega arith
byte_lt (x ∷ xs) zero h = h.0
byte_lt (x ∷ xs) (suc i) h = byte_lt xs i h.1

-- `for (k = 0; k < n; k++) dst[at + k] = f(k + from);`
unfoldable pub write_range : ℕ → ℕ → ℕ → (ℕ → ℕ) → List ℕ → List ℕ
write_range zero at from f dst = dst
write_range (suc n) at from f dst = write_range n (suc at) (suc from) f (set dst at (f from))

abbrev pub memset : List ℕ → ℕ → ℕ → ℕ → List ℕ
memset dst at v n = write_range n at 0 (λ _. v) dst

abbrev pub memcpy : List ℕ → ℕ → List ℕ → ℕ → ℕ → List ℕ
memcpy dst at src from n = write_range n at from (λ i. get_or src i 0) dst

pub get_or-set {ℓ} :
    {A : Type ℓ} (xs : List A) (i j : ℕ) (v d : A)
    → i < length xs
    → get_or (set xs i v) j d ≡ (if j == i then v else get_or xs j d)
get_or-set [] i j v d h = absurd (omega arith)
get_or-set (x ∷ xs) zero zero v d h = refl
get_or-set (x ∷ xs) zero (suc j) v d h = ground arith
get_or-set (x ∷ xs) (suc i) zero v d h = ground arith
get_or-set (x ∷ xs) (suc i) (suc j) v d h = ground (arith, get_or-set xs i j v d (omega arith))

pub length-write_range :
    (n at from : ℕ) (f : ℕ → ℕ) (dst : List ℕ) → length (write_range n at from f dst) ≡ length dst
unfolding write_range
length-write_range zero at from f dst = refl
length-write_range (suc n) at from f dst = omega (
  arith,
  length-write_range n (suc at) (suc from) f (set dst at (f from)),
  length-set dst at (f from),
)

pub get_or-write_range_out :
    (n at from : ℕ) (f : ℕ → ℕ) (dst : List ℕ) (p : ℕ)
    → at + n ≤ length dst
    → (p < at) ⊎ (at + n ≤ p)
    → get_or (write_range n at from f dst) p 0 ≡ get_or dst p 0
unfolding write_range
get_or-write_range_out zero at from f dst p l h = refl
get_or-write_range_out (suc n) at from f dst p l h = ground (
  arith,
  get_or-set dst at p (f from) 0 (omega arith),
  get_or-write_range_out n (suc at) (suc from) f (set dst at (f from)) p
      (omega (arith, length-set dst at (f from))) (omega arith),
)

pub get_or-write_range_in :
    (n at from : ℕ) (f : ℕ → ℕ) (dst : List ℕ) (k : ℕ)
    → at + n ≤ length dst
    → k < n
    → get_or (write_range n at from f dst) (at + k) 0 ≡ f (from + k)
unfolding write_range
get_or-write_range_in zero at from f dst k l h = absurd (omega arith)
get_or-write_range_in (suc n) at from f dst zero l h =
    let here : at + 0 ≡ at = omega arith in
    let first : from + 0 ≡ from = omega arith in
    rw (here, first)
      (get_or-write_range_out n (suc at) (suc from) f (set dst at (f from)) at
          (omega (arith, length-set dst at (f from))) (inl (omega arith))
        ∙ ground (arith, get_or-set dst at at (f from) 0))
get_or-write_range_in (suc n) at from f dst (suc k) l h =
    let here : at + suc k ≡ suc at + k = omega arith in
    let next : from + suc k ≡ suc from + k = omega arith in
    rw (here, next)
      (get_or-write_range_in n (suc at) (suc from) f (set dst at (f from)) k
        (omega (arith, length-set dst at (f from))) (omega arith))

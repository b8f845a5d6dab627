-- ===== src/Common/Shift.antt =====
-- C loops that move the elements of an array by one place, and what they leave in it.
use Prim.Native.Nat.{ℕ, zero, suc, ◌+◌, ◌≤◌, ◌<◌}
use mathlib.Core.Path.{◌≡◌, refl, ap}
use mathlib.Core.List.{List, [], ◌∷◌}
use mathlib.Core.Option.{Option, none, some}
use native.Mathlib.Omega.{arith}
use package.bxos.Common.Lists.{length, get_elem?, set, take, length-set}

module _ {ℓ} {A : Type ℓ} where
  -- `a[i] = a[j]`; an access out of bounds changes nothing
  abbrev pub copy : List A → ℕ → ℕ → List A
  copy xs i j = elim (get_elem? xs j) [ none ↦ xs | some v ↦ set xs i v ]

  -- `for (; i < i + k; i++) a[i] = a[i + 1];`
  unfoldable pub shift_down : ℕ → ℕ → List A → List A
  shift_down zero i xs = xs
  shift_down (suc k) i xs = shift_down k (suc i) (copy xs i (suc i))

  -- `for (; j > j - k; j--) a[j] = a[j - 1];`
  unfoldable pub shift_up : ℕ → ℕ → List A → List A
  shift_up zero j xs = xs
  shift_up (suc k) zero xs = xs
  shift_up (suc k) (suc j) xs = shift_up k j (copy xs (suc j) j)

  abbrev pub remove_at : ℕ → List A → List A
  remove_at i [] = []
  remove_at zero (x ∷ xs) = xs
  remove_at (suc i) (x ∷ xs) = x ∷ remove_at i xs

  abbrev pub insert_at : ℕ → A → List A → List A
  insert_at zero v xs = v ∷ xs
  insert_at (suc i) v [] = v ∷ []
  insert_at (suc i) v (x ∷ xs) = x ∷ insert_at i v xs

  copy-cons : (x : A) (xs : List A) (i j : ℕ) → copy (x ∷ xs) (suc i) (suc j) ≡ x ∷ copy xs i j
  copy-cons x xs i j = ground arith

  pub length-copy : (xs : List A) (i j : ℕ) → length (copy xs i j) ≡ length xs
  length-copy xs i j = go (get_elem? xs j)
    where
      go : (o : Option A) → length (elim o [ none ↦ xs | some v ↦ set xs i v ]) ≡ length xs
      go none = refl
      go (some v) = length-set xs i v

  pub length-shift_down : (k i : ℕ) (xs : List A) → length (shift_down k i xs) ≡ length xs
  unfolding shift_down
  length-shift_down zero i xs = refl
  length-shift_down (suc k) i xs =
      omega (arith, length-shift_down k (suc i) (copy xs i (suc i)), length-copy xs i (suc i))

  shift_down-cons :
      (k i : ℕ) (x : A) (xs : List A) → shift_down k (suc i) (x ∷ xs) ≡ x ∷ shift_down k i xs
  unfolding shift_down
  shift_down-cons zero i x xs = refl
  shift_down-cons (suc k) i x xs =
      ground (arith, copy-cons x xs i (suc i), shift_down-cons k (suc i) x (copy xs i (suc i)))

  shift_down_front :
      (k : ℕ) (x : A) (xs : List A) → k ≤ length xs → take k (shift_down k 0 (x ∷ xs)) ≡ take k xs
  unfolding shift_down
  shift_down_front zero x xs h = refl
  shift_down_front (suc k) x [] h = absurd (omega arith)
  shift_down_front (suc k) x (y ∷ xs) h =
      ground (arith, shift_down-cons k 0 y (y ∷ xs), shift_down_front k y xs)

  -- Moving `k` elements down over index `i` removes that element from the first `i + k + 1`.
  pub take-shift_down :
      (i k n : ℕ) (xs : List A)
      → n ≡ i + k
      → n < length xs
      → take n (shift_down k i xs) ≡ remove_at i (take (suc n) xs)
  take-shift_down i k n [] e h = absurd (omega arith)
  take-shift_down zero k n (x ∷ xs) e h =
      let e' : k ≡ n = omega arith in rw (e', shift_down_front n x xs (omega arith))
  take-shift_down (suc i) k zero (x ∷ xs) e h = absurd (omega arith)
  take-shift_down (suc i) k (suc n) (x ∷ xs) e h =
      rw (shift_down-cons k i x xs, take-shift_down i k n xs (omega arith) (omega arith))

  pub length-shift_up : (k j : ℕ) (xs : List A) → length (shift_up k j xs) ≡ length xs
  unfolding shift_up
  length-shift_up zero j xs = refl
  length-shift_up (suc k) zero xs = refl
  length-shift_up (suc k) (suc j) xs =
      omega (arith, length-shift_up k j (copy xs (suc j) j), length-copy xs (suc j) j)

  shift_up-cons :
      (k j : ℕ) (x : A) (xs : List A) → k ≤ j → shift_up k (suc j) (x ∷ xs) ≡ x ∷ shift_up k j xs
  unfolding shift_up
  shift_up-cons zero j x xs h = refl
  shift_up-cons (suc k) zero x xs h = absurd (omega arith)
  shift_up-cons (suc k) (suc j) x xs h =
      ground (arith, copy-cons x xs (suc j) j, shift_up-cons k j x (copy xs (suc j) j))

  -- the last round of a shift of the whole front
  shift_up_last :
      (k : ℕ) (xs : List A) → shift_up (suc k) (suc k) xs ≡ copy (shift_up k (suc k) xs) 1 0
  unfolding shift_up
  shift_up_last zero xs = refl
  shift_up_last (suc k) xs = shift_up_last k (copy xs (suc (suc k)) (suc k))

  shift_up_front :
      (n : ℕ) (v : A) (xs : List A)
      → n < length xs
      → take (suc n) (set (shift_up n n xs) 0 v) ≡ v ∷ take n xs
  unfolding shift_up
  shift_up_front n v [] h = absurd (omega arith)
  shift_up_front zero v (x ∷ xs) h = refl
  shift_up_front (suc n) v (x ∷ xs) h =
      rw (shift_up_last n (x ∷ xs), shift_up-cons n n x xs (omega arith))
        (ap (λ r. v ∷ r) (shift_up_front n x xs (omega arith)))

  -- Moving `k` elements up, down to index `i`, makes room for a new element at `i`.
  pub take-shift_up :
      (i k n : ℕ) (v : A) (xs : List A)
      → n ≡ i + k
      → n < length xs
      → take (suc n) (set (shift_up k n xs) i v) ≡ insert_at i v (take n xs)
  take-shift_up i k n v [] e h = absurd (omega arith)
  take-shift_up zero k n v (x ∷ xs) e h =
      let e' : k ≡ n = omega arith in rw (e', shift_up_front n v (x ∷ xs) h)
  take-shift_up (suc i) k zero v (x ∷ xs) e h = absurd (omega arith)
  take-shift_up (suc i) k (suc n) v (x ∷ xs) e h =
      rw
        (shift_up-cons k n x xs (omega arith), take-shift_up i k n v xs (omega arith) (omega arith))

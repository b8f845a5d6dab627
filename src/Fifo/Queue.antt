-- ===== src/Fifo/Queue.antt =====
-- A FIFO as a queue: its contents as a list, the oldest first.
use bxos.Common.{
  ℕ, zero, suc, ◌+◌, ◌-◌, ◌≤◌, ◌<◌, ◌≡◌, ◌⊎◌, inl, inr, refl, ap, ap₂, ◌∙◌, List, [], ◌∷◌, ◌++◌,
  Bool-cases, arith, length, set, get_or, length-set, if◌then◌else◌, ◌==◌, Option,
}
use bxos.Common.Int.{ℤ, pos, minus}
use bxos.Task.{TaskCtl}
use bxos.Fifo.{Fifo, stored, wake, fifo32_put, fifo32_get, fifo32_init}

abbrev step : ℕ → ℕ → ℕ
step size i = if (i + 1) == size then 0 else i + 1

-- `k` elements of a ring from index `i` on
unfoldable items : ℕ → ℕ → ℕ → List ℤ → List ℤ
items size zero i buf = []
items size (suc k) i buf = get_or buf i (pos 0) ∷ items size k (step size i) buf

unfoldable pub contents : Fifo → List ℤ
unfolding items
contents fifo = items fifo.size (fifo.size - fifo.free) fifo.q fifo.buf

pub record IsValid (fifo : Fifo) : Type 0 where
  pub sized : length fifo.buf ≡ fifo.size
  pub write : fifo.p < fifo.size
  pub read : fifo.q < fifo.size
  pub room : fifo.free ≤ fifo.size
  pub apart :
      (fifo.q + (fifo.size - fifo.free) ≡ fifo.p)
      ⊎ (fifo.q + (fifo.size - fifo.free) ≡ fifo.p + fifo.size)

length-items : (size k i : ℕ) (buf : List ℤ) → length (items size k i buf) ≡ k
unfolding items
length-items size zero i buf = refl
length-items size (suc k) i buf = ap suc (length-items size k (step size i) buf)

same_items :
    (size : ℕ) {k n : ℕ} (i : ℕ) (buf : List ℤ) → k ≡ n → items size k i buf ≡ items size n i buf
same_items size i buf e = ap (λ k. items size k i buf) e

get_or-set_other :
    (buf : List ℤ) (p i : ℕ) (v : ℤ)
    → (p ≡ i → ⊥)
    → get_or (set buf p v) i (pos 0) ≡ get_or buf i (pos 0)
get_or-set_other [] p i v n = refl
get_or-set_other (x ∷ xs) zero zero v n = absurd (n refl)
get_or-set_other (x ∷ xs) zero (suc i) v n = refl
get_or-set_other (x ∷ xs) (suc p) zero v n = refl
get_or-set_other (x ∷ xs) (suc p) (suc i) v n = get_or-set_other xs p i v (λ e. n (ap suc e))

get_or-set_same :
    (buf : List ℤ) (p : ℕ) (v : ℤ) → p < length buf → get_or (set buf p v) p (pos 0) ≡ v
get_or-set_same [] p v h = absurd (omega arith)
get_or-set_same (x ∷ xs) zero v h = refl
get_or-set_same (x ∷ xs) (suc p) v h = get_or-set_same xs p v (omega arith)

-- `p` lies `d` places behind `i` in the ring
abbrev Behind : ℕ → ℕ → ℕ → ℕ → Type 0
Behind size i d p = (i + d ≡ p) ⊎ (i + d ≡ p + size)

Behind-step :
    (size i d p : ℕ) → i < size → p < size → Behind size i (suc d) p → Behind size (step size i) d p
Behind-step size i d p h l b = ground arith

step-lt : (size i : ℕ) → i < size → step size i < size
step-lt size i h = ground arith

items-set :
    (size k d i p : ℕ) (buf : List ℤ) (v : ℤ)
    → i < size
    → p < size
    → k ≤ d
    → d < size
    → Behind size i d p
    → items size k i (set buf p v) ≡ items size k i buf
unfolding items
items-set size zero d i p buf v h l o w b = refl
items-set size (suc k) zero i p buf v h l o w b = absurd (omega arith)
items-set size (suc k) (suc d) i p buf v h l o w b =
    ap₂ (λ x xs. x ∷ xs) (get_or-set_other buf p i v (λ e. omega arith))
      (items-set size k d (step size i) p buf v (step-lt size i h) l (omega arith) (omega arith)
        (Behind-step size i d p h l b))

items_last :
    (size k i p : ℕ) (buf : List ℤ)
    → i < size
    → p < size
    → Behind size i k p
    → k < size
    → items size (suc k) i buf ≡ items size k i buf ++ (get_or buf p (pos 0) ∷ [])
unfolding items
items_last size zero i p buf h l b w = ap (λ j. get_or buf j (pos 0) ∷ []) (omega arith)
items_last size (suc k) i p buf h l b w =
    ap (λ r. get_or buf i (pos 0) ∷ r)
      (items_last size k (step size i) p buf (step-lt size i h) l (Behind-step size i k p h l b)
        (omega arith))

-- An initialised FIFO is valid and empty.
init-IsValid :
    (size : ℕ) (buf : List ℤ) (task : Option ℕ)
    → length buf ≡ size
    → 0 < size
    → IsValid (fifo32_init size buf task)
unfolding fifo32_init
init-IsValid size buf task e h = record {
  sized = e;
  write = h;
  read = h;
  room = omega arith;
  apart = inl (omega arith);
}

module _ (fifo : Fifo) (value : ℤ) (v : IsValid fifo) (room : 0 < fifo.free) where
  stored-IsValid : IsValid (stored fifo value)
  stored-IsValid = record {
    sized = length-set fifo.buf fifo.p value ∙ v.sized;
    write = step-lt fifo.size fifo.p v.write;
    read = v.read;
    room = omega (arith, v.room);
    apart = ground (arith, v.apart, v.room, v.write, v.read);
  }

  stored-contents : contents (stored fifo value) ≡ contents fifo ++ (value ∷ [])
  unfolding contents
  stored-contents =
      let n = fifo.size - fifo.free in
      same_items fifo.size {n = suc n} fifo.q (set fifo.buf fifo.p value) (omega (arith, v.room))
      ∙ items_last fifo.size n fifo.q fifo.p (set fifo.buf fifo.p value) v.read v.write v.apart
          (omega (arith, v.room))
      ∙ ap₂ (λ xs x. xs ++ (x ∷ []))
          (items-set fifo.size n n fifo.q fifo.p fifo.buf value v.read v.write (omega arith)
            (omega (arith, v.room)) v.apart)
          (get_or-set_same fifo.buf fifo.p value (omega (arith, v.sized, v.write)))

-- A put into a valid FIFO keeps it valid. If the FIFO is full, the put fails, and the contents and
-- the tasks stay as they were; else the value joins the contents at the end and the task of the FIFO
-- is woken.
pub fifo32_put-contents :
    (value : ℤ) (fifo : Fifo) (c : TaskCtl)
    → IsValid fifo
    → let (rc, fifo', c') = fifo32_put value fifo c in
      IsValid fifo'
      × (((length (contents fifo) ≡ fifo.size)
            × (rc ≡ minus 1)
            × (contents fifo' ≡ contents fifo)
            × (c' ≡ c))
          ⊎ ((length (contents fifo) < fifo.size)
              × (rc ≡ pos 0)
              × (contents fifo' ≡ contents fifo ++ (value ∷ []))
              × (c' ≡ wake fifo.task c)))
unfolding fifo32_put contents
fifo32_put-contents value fifo c v =
    let n = length-items fifo.size (fifo.size - fifo.free) fifo.q fifo.buf in
    elim (Bool-cases (fifo.free == 0)) [
      | inl full ↦ rw full (
        record { sized = v.sized; write = v.write; read = v.read; room = v.room; apart = v.apart },
        inl (ground (arith, n), refl, refl, refl),
      )
      | inr space ↦ rw space (
        stored-IsValid fifo value v (ground arith),
        inr (
          ground (arith, n, v.room, v.write),
          refl,
          stored-contents fifo value v (ground arith),
          refl,
        ),
      )
    ]

-- A get from a valid FIFO keeps it valid. It gives -1 if the FIFO is empty, and else the first of the
-- contents, which leaves them.
pub fifo32_get-contents :
    (fifo : Fifo)
    → IsValid fifo
    → let (value, fifo') = fifo32_get fifo in
      IsValid fifo'
      × ((contents fifo ≡ []) × (value ≡ minus 1) × (fifo' ≡ fifo)
          ⊎ (contents fifo ≡ value ∷ contents fifo'))
unfolding fifo32_get contents
fifo32_get-contents fifo v = elim (Bool-cases (fifo.free == fifo.size)) [
  | inl empty ↦
      rw empty (v, inl (same_items fifo.size {n = 0} fifo.q fifo.buf (ground arith), refl, refl))
  | inr some_held ↦ rw some_held (
    record {
      sized = v.sized;
      write = v.write;
      read = step-lt fifo.size fifo.q v.read;
      room = ground (arith, v.room);
      apart = ground (arith, v.apart, v.room, v.write, v.read);
    },
    inr (
        same_items fifo.size {n = suc (fifo.size - (fifo.free + 1))} fifo.q fifo.buf
          (ground (arith, v.room))),
  )
]

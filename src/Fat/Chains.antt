-- ===== src/Fat/Chains.antt =====
-- Chains of clusters as lists: the walk to the tail, and what writing two entries makes of a chain
-- that is extended.
use bxos.Common.{
  NotIn, NoRepeat, ℕ, zero, suc, ◌+◌, ◌≤◌, ◌<◌, ◌≡◌, ◌≢◌, sym, ap, ◌∙◌, some, List, [], ◌∷◌, ◌++◌,
  true, false, arith, ◌==◌, if◌then◌else◌, length,
}
use bxos.Fat.{
  Mount, fat_get, fat_set, is_eoc, eoc_value, valid_data_cluster, tail_from, find_tail_cluster,
}
use bxos.Fat.Table.{IsFat16, fat_get-fat_set, fat_set-IsFat16}

-- The clusters of a chain, in its order: each entry names the next cluster, and the last one is an
-- end mark.
abbrev pub IsChain : Mount → List ℕ → Type 0
IsChain m [] = ⊥
IsChain m (c ∷ []) = (valid_data_cluster m c ≡ true) × (is_eoc m (fat_get m c) ≡ true)
IsChain m (c ∷ d ∷ cs) =
    (valid_data_cluster m c ≡ true) × (fat_get m c ≡ d) × (is_eoc m d ≡ false) × IsChain m (d ∷ cs)

abbrev pub last_of : ℕ → List ℕ → ℕ
last_of c [] = c
last_of c (d ∷ cs) = last_of d cs

pub valid_nonzero : (m : Mount) (j : ℕ) → valid_data_cluster m j ≡ true → j ≢ 0
unfolding valid_data_cluster
valid_nonzero m j h = ground arith

pub first_valid :
    (m : Mount) (c : ℕ) (cs : List ℕ) → IsChain m (c ∷ cs) → valid_data_cluster m c ≡ true
first_valid m c [] h = h.0
first_valid m c (d ∷ cs) h = h.0

tail_from-last :
    (fuel : ℕ) (m : Mount) (c : ℕ) (cs : List ℕ)
    → IsChain m (c ∷ cs)
    → length cs < fuel
    → tail_from fuel c m ≡ some (last_of c cs)
unfolding tail_from
tail_from-last zero m c cs h l = absurd (omega arith)
tail_from-last (suc fuel) m c [] h l = rw h.1
tail_from-last (suc fuel) m c (d ∷ cs) h l =
    rw (h.1, h.2, first_valid m d cs h.3, tail_from-last fuel m d cs h.3 (omega arith))

-- For the first cluster of a chain that is not longer than the volume has clusters,
-- `find_tail_cluster` returns, and gives the chain's last cluster.
pub find_tail_cluster-last :
    (m : Mount) (c : ℕ) (cs : List ℕ)
    → IsChain m (c ∷ cs)
    → length cs < m.cluster_count
    → find_tail_cluster m c ≡ some (last_of c cs)
unfolding find_tail_cluster
find_tail_cluster-last m c cs h l =
    rw (first_valid m c cs h, tail_from-last (m.cluster_count + 1) m c cs h (omega arith))

NotIn-last_of : (x c : ℕ) (cs : List ℕ) → NotIn x (c ∷ cs) → x ≢ last_of c cs
NotIn-last_of x c [] h = h.0
NotIn-last_of x c (d ∷ cs) h = NotIn-last_of x d cs h.1

pub valid-last_of :
    (m : Mount) (c : ℕ) (cs : List ℕ)
    → IsChain m (c ∷ cs)
    → valid_data_cluster m (last_of c cs) ≡ true
valid-last_of m c [] h = h.0
valid-last_of m c (d ∷ cs) h = valid-last_of m d cs h.3

-- an entry that is written
module _ (m : Mount) (t val : ℕ) (v : IsFat16 m) (ok : valid_data_cluster m t ≡ true)
    (w : val < 65536) where
  get_written : (j : ℕ) → fat_get (fat_set m t val) j ≡ (if j == t then val else fat_get m j)
  unfolding valid_data_cluster
  get_written j = fat_get-fat_set m t val j v.fat16 (ground (arith, v.sized)) w

  get_kept : (j : ℕ) → j ≢ t → fat_get (fat_set m t val) j ≡ fat_get m j
  get_kept j n = ground (arith, get_written j)

  get_new : fat_get (fat_set m t val) t ≡ val
  get_new = ground (arith, get_written t)

  valid_kept : (j : ℕ) → valid_data_cluster (fat_set m t val) j ≡ valid_data_cluster m j
  unfolding fat_set valid_data_cluster
  valid_kept j = ground arith

  is_eoc_kept : (j : ℕ) → is_eoc (fat_set m t val) j ≡ is_eoc m j
  unfolding fat_set is_eoc
  is_eoc_kept j = ground arith

  -- A chain that does not pass the entry stays a chain.
  IsChain-kept : (cs : List ℕ) → NotIn t cs → IsChain m cs → IsChain (fat_set m t val) cs
  IsChain-kept [] n h = h
  IsChain-kept (c ∷ []) n h = (
    valid_kept c ∙ h.0,
    ap (is_eoc (fat_set m t val)) (get_kept c (λ e. n.0 (sym e))) ∙ is_eoc_kept (fat_get m c) ∙ h.1,
  )
  IsChain-kept (c ∷ d ∷ cs) n h = (
    valid_kept c ∙ h.0,
    get_kept c (λ e. n.0 (sym e)) ∙ h.1,
    is_eoc_kept d ∙ h.2,
    IsChain-kept (d ∷ cs) n.1 h.3,
  )

-- A chain whose last entry is written with a cluster that is marked as an end goes on to it.
linked :
    (m : Mount) (new c : ℕ) (cs : List ℕ)
    → IsFat16 m
    → IsChain m (c ∷ cs)
    → NoRepeat (c ∷ cs)
    → NotIn new (c ∷ cs)
    → valid_data_cluster m new ≡ true
    → new < 65536
    → is_eoc m new ≡ false
    → is_eoc m (fat_get m new) ≡ true
    → IsChain (fat_set m (last_of c cs) new) (c ∷ cs ++ (new ∷ []))
linked m new c [] v h r n ok w e f = (
  valid_kept m c new v h.0 w c ∙ h.0,
  get_new m c new v h.0 w,
  is_eoc_kept m c new v h.0 w new ∙ e,
  (
    valid_kept m c new v h.0 w new ∙ ok,
    ap (is_eoc (fat_set m c new)) (get_kept m c new v h.0 w new n.0)
        ∙ is_eoc_kept m c new v h.0 w (fat_get m new)
        ∙ f,
  ),
)
linked m new c (d ∷ cs) v h r n ok w e f =
    let t = last_of d cs in
    let here = valid-last_of m d cs h.3 in
    (
      valid_kept m t new v here w c ∙ h.0,
      get_kept m t new v here w c (NotIn-last_of c d cs r.0) ∙ h.1,
      is_eoc_kept m t new v here w d ∙ h.2,
      linked m new d cs v h.3 r.1 n.1 ok w e f,
    )

-- A cluster with a free entry is on no chain.
NotIn-free :
    (m : Mount) (new c : ℕ) (cs : List ℕ)
    → fat_get m new ≡ 0
    → IsChain m (c ∷ cs)
    → NotIn new (c ∷ cs)
unfolding is_eoc valid_data_cluster
NotIn-free m new c [] z h = (
  λ e. let e' : fat_get m c ≡ 0 = ap (fat_get m) (sym e) ∙ z in absurd (ground (arith, e', h.1)),
  tt,
)
NotIn-free m new c (d ∷ cs) z h = (
  λ e.
      let e' : d ≡ 0 = sym h.1 ∙ ap (fat_get m) (sym e) ∙ z in
      absurd (ground (arith, e', first_valid m d cs h.3)),
  NotIn-free m new d cs z h.3,
)

-- Every data cluster of the volume has a number below the end marks.
abbrev pub BelowMarks : Mount → Type 0
BelowMarks m = m.cluster_count + 2 ≤ 0xfff8

eoc_value-fat16 : (m : Mount) → IsFat16 m → eoc_value m ≡ 0xffff
unfolding eoc_value
eoc_value-fat16 m v = ground (arith, v.fat16)

below_marks : (m : Mount) (j : ℕ) → BelowMarks m → valid_data_cluster m j ≡ true → j < 0xfff8
unfolding valid_data_cluster
below_marks m j b h = ground arith

is_eoc-below : (m : Mount) (j : ℕ) → IsFat16 m → j < 0xfff8 → is_eoc m j ≡ false
unfolding is_eoc
is_eoc-below m j v h = ground (arith, v.fat16)

is_eoc-mark : (m : Mount) → IsFat16 m → is_eoc m 0xffff ≡ true
unfolding is_eoc
is_eoc-mark m v = ground (arith, v.fat16)

-- Marking a free cluster as an end keeps a chain.
pub marked :
    (m : Mount) (new c : ℕ) (cs : List ℕ)
    → IsFat16 m
    → IsChain m (c ∷ cs)
    → valid_data_cluster m new ≡ true
    → fat_get m new ≡ 0
    → IsChain (fat_set m new (eoc_value m)) (c ∷ cs)
marked m new c cs v h ok z =
    IsChain-kept m new (eoc_value m) v ok (omega (arith, eoc_value-fat16 m v)) (c ∷ cs)
      (NotIn-free m new c cs z h) h

-- A free cluster is marked as an end, and then the last entry of a chain is written with it: the
-- chain goes on to that cluster.
pub IsChain-fat_set :
    (m : Mount) (new c : ℕ) (cs : List ℕ)
    → IsFat16 m
    → BelowMarks m
    → IsChain m (c ∷ cs)
    → NoRepeat (c ∷ cs)
    → valid_data_cluster m new ≡ true
    → fat_get m new ≡ 0
    → IsChain (fat_set (fat_set m new (eoc_value m)) (last_of c cs) new) (c ∷ cs ++ (new ∷ []))
IsChain-fat_set m new c cs v b h r ok z =
    let e = eoc_value m in
    let e16 : e ≡ 0xffff = eoc_value-fat16 m v in
    let w : e < 65536 = omega (arith, e16) in
    let small : new < 0xfff8 = below_marks m new b ok in
    linked (fat_set m new e) new c cs (fat_set-IsFat16 m new e v) (marked m new c cs v h ok z) r
      (NotIn-free m new c cs z h) (valid_kept m new e v ok w new ∙ ok) (omega (arith, small))
      (is_eoc_kept m new e v ok w new ∙ is_eoc-below m new v small)
      (ap (is_eoc (fat_set m new e)) (get_new m new e v ok w ∙ e16)
        ∙ is_eoc_kept m new e v ok w 0xffff
        ∙ is_eoc-mark m v)

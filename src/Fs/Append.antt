-- ===== src/Fs/Append.antt =====
-- Extending a directory's chain by a cluster.
use bxos.Common.{
  ℕ, ◌<◌, ◌≡◌, ◌≢◌, refl, sym, ap, subst, ◌∙◌, some, List, [], ◌∷◌, ◌++◌, Bool, true, false, not,
  arith, ◌==◌, length, leb, replicate, NoRepeat,
}
use bxos.Common.Int.{ℤ, minus}
use bxos.Fat.{
  Mount, fat_get, fat_set, eoc_value, valid_data_cluster, find_free_cluster, find_tail_cluster,
  cluster_lba,
}
use bxos.Fat.Table.{IsFat16, cluster_count-fat_set}
use bxos.Fat.Search.{find_free_cluster-free}
use bxos.Fat.Chains.{
  IsChain, last_of, BelowMarks, marked, first_valid, valid-last_of, valid_nonzero,
  find_tail_cluster-last, IsChain-fat_set,
}
use bxos.Fs.{
  Ata, Fs, write_at, cluster_bytes, max_cluster_bytes, write_cluster, zero_cluster, link,
  take_cluster, find_tail, append_dir_cluster,
}
use bxos.Fs.Monad.{Result, ok, err, hang, continue, unless}
use bxos.Fs.Free.{Keeps, Keeps-bind, unless-Keeps, write_at-Keeps, link-Keeps}

-- a step that does not hang, and whose result satisfies `Q` if it succeeds
abbrev pub Ensures : {S A : Type 0} → Result A → S → (A → S → Type 0) → Type 0
Ensures (ok a) s Q = Q a s
Ensures (err c) s Q = Unit {0}
Ensures hang s Q = ⊥

Ensures-bind :
    {S A B : Type 0} (r : Result A) (s : S) (f : A → S → Result B × S) (P : A → S → Type 0)
    (Q : B → S → Type 0)
    → Ensures r s P
    → ((a : A) (s' : S) → P a s' → Ensures (f a s').0 (f a s').1 Q)
    → Ensures (continue r s f).0 (continue r s f).1 Q
Ensures-bind (ok a) s f P Q h next = next a s h
Ensures-bind (err c) s f P Q h next = tt
Ensures-bind hang s f P Q h next = absurd h

Keeps-Ensures :
    {D A : Type 0} (m : Mount) (r : Result A) (s : Fs D)
    → Keeps m (r, s)
    → Ensures r s (λ _ s'. s'.mount ≡ m)
Keeps-Ensures m (ok a) s k = k.same
Keeps-Ensures m (err c) s k = tt
Keeps-Ensures m hang s k = absurd (k.returns refl)

-- a test that is passed also tells its condition
unless-Ensures :
    {S : Type 0} (b : Bool) (c : ℤ) (s : S)
    → Ensures (unless b c s).0 (unless b c s).1 (λ _ s'. (s' ≡ s) × (b ≡ true))
unless-Ensures true c s = (refl, refl)
unless-Ensures false c s = tt

not_zero : (n : ℕ) → not (n == 0) ≡ true → n ≢ 0
not_zero n h = ground arith

module _ {D : Type 0} ⦃ata : Ata D⦄ where
  write_cluster-Keeps :
      (clus : ℕ) (bytes : List ℕ) (s : Fs D) → Keeps s.mount (write_cluster clus bytes s)
  unfolding write_cluster
  write_cluster-Keeps clus bytes s =
      let m = s.mount in
      let write = write_at (cluster_lba m clus) m.sectors_per_cluster bytes in
      Keeps-bind (unless (valid_data_cluster m clus) (minus 1) s) (λ _. write)
        (unless-Keeps (valid_data_cluster m clus) (minus 1) s)
        λ _ s' e.
          subst (λ k. Keeps k (write s')) e
            (write_at-Keeps (cluster_lba m clus) m.sectors_per_cluster bytes s')

  zero_cluster-Keeps : (clus : ℕ) (s : Fs D) → Keeps s.mount (zero_cluster clus s)
  unfolding zero_cluster
  zero_cluster-Keeps clus s =
      let fits = leb (cluster_bytes s.mount) max_cluster_bytes in
      let zeros = replicate (cluster_bytes s.mount) 0 in
      Keeps-bind (unless fits (minus 1) s) (λ _. write_cluster clus zeros)
        (unless-Keeps fits (minus 1) s)
        λ _ s' e.
          subst (λ k. Keeps k (write_cluster clus zeros s')) e (write_cluster-Keeps clus zeros s')

  -- `take_cluster` gives a cluster that was free, marked as an end.
  take_cluster-Ensures :
      (s : Fs D)
      → Ensures (take_cluster s).0 (take_cluster s).1 (λ new s'.
        (s'.mount ≡ fat_set s.mount new (eoc_value s.mount))
        × (valid_data_cluster s.mount new ≡ true)
        × (fat_get s.mount new ≡ 0))
  unfolding take_cluster
  take_cluster-Ensures s =
      let m = s.mount in
      let new = find_free_cluster m in
      let mark = eoc_value m in
      let found = not (new == 0) in
      Ensures-bind (unless found (minus 1) s).0 (unless found (minus 1) s).1 _ _ _
        (unless-Ensures found (minus 1) s)
        λ _ s1 h1.
          Ensures-bind (zero_cluster new s1).0 (zero_cluster new s1).1 _ _ _
            (Keeps-Ensures s1.mount (zero_cluster new s1).0 (zero_cluster new s1).1
              (zero_cluster-Keeps new s1))
            λ _ s2 h2.
              Ensures-bind (link new mark s2).0 (link new mark s2).1 _ _ _
                (Keeps-Ensures (fat_set s2.mount new mark) (link new mark s2).0 (link new mark s2).1
                  (link-Keeps new mark s2))
                λ _ s3 h3.
                  let same : s2.mount ≡ m = h2 ∙ ap Fs.mount h1.0 in
                  let free = find_free_cluster-free m (not_zero new h1.1) in
                  (h3 ∙ ap (λ k. fat_set k new mark) same, free.0, free.1)

  find_tail-Ensures :
      (c tail : ℕ) (s : Fs D)
      → find_tail_cluster s.mount c ≡ some tail
      → tail ≢ 0
      → find_tail c s ≡ (ok tail, s)
  unfolding find_tail
  find_tail-Ensures c tail s e n = let t : not (tail == 0) ≡ true = ground arith in rw (e, t)

  -- On a FAT16 volume with a chain that does not repeat a cluster, `append_dir_cluster` of the
  -- chain's first cluster returns, and if it succeeds the chain goes on to the new cluster. The
  -- volume's cluster numbers lie below the end marks, and the chain is no longer than the volume has
  -- clusters.
  pub append_dir_cluster-IsChain :
      (c : ℕ) (cs : List ℕ) (s : Fs D)
      → IsFat16 s.mount
      → BelowMarks s.mount
      → IsChain s.mount (c ∷ cs)
      → NoRepeat (c ∷ cs)
      → length cs < s.mount.cluster_count
      → Ensures
          (append_dir_cluster c s).0
          (append_dir_cluster c s).1
          (λ new s'. IsChain s'.mount (c ∷ cs ++ (new ∷ [])))
  unfolding append_dir_cluster
  append_dir_cluster-IsChain c cs s v b h r l =
      let m = s.mount in
      let tail = last_of c cs in
      rw (first_valid m c cs h) (
        Ensures-bind (take_cluster s).0 (take_cluster s).1 _ _ _ (take_cluster-Ensures s)
          λ new s1 h1.
            let count = ap Mount.cluster_count h1.0 ∙ cluster_count-fat_set m new (eoc_value m) in
            let chain : IsChain s1.mount (c ∷ cs) =
              subst (λ k. IsChain k (c ∷ cs)) (sym h1.0) (marked m new c cs v h h1.1 h1.2) in
            let found = find_tail_cluster-last s1.mount c cs chain (omega (arith, count, l)) in
            let real = valid_nonzero s1.mount tail (valid-last_of s1.mount c cs chain) in
            rw (find_tail-Ensures c tail s1 found real) (
              Ensures-bind (link tail new s1).0 (link tail new s1).1 _ _ _
                (Keeps-Ensures (fat_set s1.mount tail new) (link tail new s1).0 (link tail new s1).1
                  (link-Keeps tail new s1))
                λ _ s2 h2.
                  subst (λ k. IsChain k (c ∷ cs ++ (new ∷ [])))
                    (sym (h2 ∙ ap (λ k. fat_set k tail new) h1.0))
                    (IsChain-fat_set m new c cs v b h r h1.1 h1.2)))

-- ===== src/Fs/Free.antt =====
-- Freeing a chain ends, also when the chain is a cycle: each round but the last frees a used entry.
use bxos.Common.{
  ℕ, zero, suc, ◌+◌, ◌*◌, ◌/◌, ◌<◌, ◌≡◌, ◌≢◌, refl, sym, ap, subst, ◌⊎◌, inl, inr, List, Bool, true,
  false, Bool-cases, arith, ◌==◌, if◌then◌else◌,
}
use native.Mathlib.Decide.{ℕ_discrete}
use bxos.Common.Int.{ℤ, minus}
use bxos.Fat.{Mount, fat_get, fat_set, is_eoc, valid_data_cluster}
use bxos.Fat.Table.{IsFat16, get_freed, fat_set-IsFat16, used, used-le, used-fat_set}
use bxos.Fs.{Ata, Fs, write_at, sync_copies, sync_fat_entry, link}
use bxos.Fs.Chain.{free_from, free_cluster_chain}
use bxos.Fs.Monad.{Result, ok, err, hang, continue, unless, pure}

-- a step that does not hang, and leaves the mount as `m`
pub record Keeps {D A : Type 0} (m : Mount) (r : Result A × Fs D) : Type 0 where
  pub same : r.1.mount ≡ m
  pub returns : r.0 ≢ hang

pub Keeps-bind :
    {D A B : Type 0} {m : Mount} (r : Result A × Fs D) (f : A → Fs D → Result B × Fs D)
    → Keeps m r
    → ((a : A) (s : Fs D) → s.mount ≡ m → Keeps m (f a s))
    → Keeps m (continue r.0 r.1 f)
Keeps-bind (ok a, s) f k next = next a s k.same
Keeps-bind (err c, s) f k next = record { same = k.same; returns = λ e. cc }
Keeps-bind (hang, s) f k next = absurd (k.returns refl)

pub unless-Keeps : {D : Type 0} (b : Bool) (c : ℤ) (s : Fs D) → Keeps s.mount (unless b c s)
unless-Keeps true c s = record { same = refl; returns = λ e. cc }
unless-Keeps false c s = record { same = refl; returns = λ e. cc }

written-Keeps :
    {D : Type 0} (done : Bool) (s : Fs D) (d : D)
    → Keeps {A = Unit {0}} s.mount
        (if done then (ok tt, record s { disk = d }) else (err (minus 1), record s { disk = d }))
written-Keeps true s d = record { same = refl; returns = λ e. cc }
written-Keeps false s d = record { same = refl; returns = λ e. cc }

-- What is known when the freeing of a chain stops: it has not hung, every entry is as before or 0,
-- and the first cluster is free in the cached FAT if it is a data cluster.
pub record Freed {D : Type 0} (m : Mount) (clus : ℕ) (r : Result (Unit {0}) × Fs D) : Type 0 where
  pub returns : r.0 ≢ hang
  pub sized : IsFat16 r.1.mount
  pub entries : (j : ℕ) → (fat_get r.1.mount j ≡ fat_get m j) ⊎ (fat_get r.1.mount j ≡ 0)
  pub freed : (valid_data_cluster m clus ≡ false) ⊎ (fat_get r.1.mount clus ≡ 0)

stopped-Freed :
    {D : Type 0} (clus : ℕ) (s : Fs D)
    → IsFat16 s.mount
    → valid_data_cluster s.mount clus ≡ false
    → Freed s.mount clus (ok tt, s)
stopped-Freed clus s v e = record {
  returns = λ q. cc;
  sized = v;
  entries = λ j. inl refl;
  freed = inl e;
}

module _ (m : Mount) (clus : ℕ) (v : IsFat16 m) (go : valid_data_cluster m clus ≡ true) where
  freed_entry : (j : ℕ) → fat_get (fat_set m clus 0) j ≡ (if j == clus then 0 else fat_get m j)
  unfolding valid_data_cluster
  freed_entry j = get_freed m clus v (ground arith) j

  after_one :
      {D : Type 0} (s : Fs D)
      → s.mount ≡ fat_set m clus 0
      → (c : Result (Unit {0})) → c ≢ hang
      → Freed m clus (c, s)
  after_one s e c n = record {
    returns = n;
    sized = subst IsFat16 (sym e) (fat_set-IsFat16 m clus 0 v);
    entries = λ j.
        subst (λ k. (fat_get k j ≡ fat_get m j) ⊎ (fat_get k j ≡ 0)) (sym e)
          (ground (arith, freed_entry j));
    freed = inr (subst (λ k. fat_get k clus ≡ 0) (sym e) (ground (arith, freed_entry clus)));
  }

  after_rest :
      {D : Type 0} (next : ℕ) (r : Result (Unit {0}) × Fs D)
      → Freed (fat_set m clus 0) next r
      → Freed m clus r
  after_rest next r f = record {
    returns = f.returns;
    sized = f.sized;
    entries = λ j. ground (arith, f.entries j, freed_entry j);
    freed = inr (ground (arith, f.entries clus, freed_entry clus));
  }

  -- a round of the loop, from what its rest does
  free_round :
      {D : Type 0} (next : ℕ) (r : Result (Unit {0}) × Fs D) (last : Bool)
      (rest : Fs D → Result (Unit {0}) × Fs D)
      → Keeps (fat_set m clus 0) r
      → ((s : Fs D) → s.mount ≡ fat_set m clus 0 → Freed (fat_set m clus 0) next (rest s))
      → Freed m clus (continue r.0 r.1 (λ _. if last then pure tt else rest))
  free_round next (ok u, s) true rest k more = after_one s k.same (ok tt) (λ q. cc)
  free_round next (ok u, s) false rest k more = after_rest next (rest s) (more s k.same)
  free_round next (err c, s) last rest k more = after_one s k.same (err c) (λ q. cc)
  free_round next (hang, s) last rest k more = absurd (k.returns refl)

zero_invalid : (m : Mount) (c : ℕ) → c ≡ 0 → valid_data_cluster m c ≡ false
unfolding valid_data_cluster
zero_invalid m c e = ground arith

-- Freeing a used entry leaves fewer for the rounds to come.
fewer :
    {D : Type 0} (s : Fs D) (clus : ℕ) (s' : Fs D) (fuel : ℕ)
    → IsFat16 s.mount
    → valid_data_cluster s.mount clus ≡ true
    → fat_get s.mount clus ≢ 0
    → s'.mount ≡ fat_set s.mount clus 0
    → used s.mount + 1 < suc fuel
    → used s'.mount + 1 < fuel
unfolding valid_data_cluster
fewer s clus s' fuel v go n e h =
    omega (arith, ap used e, used-fat_set s.mount clus v (ground arith) (ground arith) n)

module _ {D : Type 0} ⦃ata : Ata D⦄ where
  pub write_at-Keeps :
      (lba count : ℕ) (bytes : List ℕ) (s : Fs D) → Keeps s.mount (write_at lba count bytes s)
  unfolding write_at
  write_at-Keeps lba count bytes s =
      let r = ata.write_sectors s.mount.drive lba count bytes s.disk in written-Keeps r.0 s r.1

  sync_copies-Keeps : (k i sec : ℕ) (s : Fs D) → Keeps s.mount (sync_copies k i sec s)
  unfolding sync_copies
  sync_copies-Keeps zero i sec s = record { same = refl; returns = λ e. cc }
  sync_copies-Keeps (suc k) i sec s =
      Keeps-bind (write_at _ 1 _ s) _ (write_at-Keeps _ 1 _ s) λ _ s' e.
        subst (λ m. Keeps m (sync_copies k (suc i) sec s')) e (sync_copies-Keeps k (suc i) sec s')

  sync_fat_entry-Keeps : (clus : ℕ) (s : Fs D) → Keeps s.mount (sync_fat_entry clus s)
  unfolding sync_fat_entry
  sync_fat_entry-Keeps clus s =
      Keeps-bind (unless _ (minus 1) s) _ (unless-Keeps _ (minus 1) s) λ _ s' e.
        subst (λ m. Keeps m (sync_copies s.mount.num_fats 0 (clus * 2 / 512) s')) e
          (sync_copies-Keeps s.mount.num_fats 0 (clus * 2 / 512) s')

  pub link-Keeps : (clus val : ℕ) (s : Fs D) → Keeps (fat_set s.mount clus val) (link clus val s)
  unfolding link
  link-Keeps clus val s = sync_fat_entry-Keeps clus (record s { mount = fat_set s.mount clus val })

  free_from_invalid :
      (fuel clus : ℕ) (s : Fs D)
      → 0 < fuel
      → valid_data_cluster s.mount clus ≡ false
      → free_from fuel clus s ≡ (ok tt, s)
  unfolding free_from
  free_from_invalid zero clus s h e = absurd (omega arith)
  free_from_invalid (suc fuel) clus s h e = rw e

  free_from-Freed :
      (fuel clus : ℕ) (s : Fs D)
      → IsFat16 s.mount
      → used s.mount + 1 < fuel
      → Freed s.mount clus (free_from fuel clus s)
  unfolding free_from
  free_from-Freed zero clus s v h = absurd (omega arith)
  free_from-Freed (suc fuel) clus s v h = elim (Bool-cases (valid_data_cluster s.mount clus)) [
    | inr stop ↦ rw stop (stopped-Freed clus s v stop)
    | inl go ↦
        let next = fat_get s.mount clus in
        let v0 = fat_set-IsFat16 s.mount clus 0 v in
        let rest : (s' : Fs D)
            → s'.mount ≡ fat_set s.mount clus 0
            → Freed (fat_set s.mount clus 0) next (free_from fuel next s') =
          λ s' e.
            let v' = subst IsFat16 (sym e) v0 in
            subst (λ k. Freed k next (free_from fuel next s')) e
              (elim (ℕ_discrete next 0) [
                | yes z ↦
                    let stop = zero_invalid s'.mount next z in
                    rw (free_from_invalid fuel next s' (omega arith) stop)
                      (stopped-Freed next s' v' stop)
                | no n ↦ free_from-Freed fuel next s' v' (fewer s clus s' fuel v go n e h)
              ]) in
        rw go (
          free_round s.mount clus v go (fat_get s.mount clus) (link clus 0 s)
            (is_eoc s.mount (fat_get s.mount clus)) (free_from fuel (fat_get s.mount clus))
            (link-Keeps clus 0 s) rest)
  ]

  -- On a FAT16 volume with an entry for every cluster, `free_cluster_chain` returns, whatever the chain
  -- looks like, also when it is a cycle; it only ever sets entries to 0, and the cluster that it was
  -- given, if it is a data cluster, is free in the cached FAT, also when a write failed.
  pub free_cluster_chain-Freed :
      (clus : ℕ) (s : Fs D) → IsFat16 s.mount → Freed s.mount clus (free_cluster_chain clus s)
  unfolding free_cluster_chain
  free_cluster_chain-Freed clus s v =
      free_from-Freed (s.mount.cluster_count + 2) clus s v (omega (arith, used-le s.mount))

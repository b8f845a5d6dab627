-- ===== src/Loader/Ends.antt =====
-- `fs_read_chain` and `fs_data_loadfile` of harib27f/haribote/fs_fat.c come to an end.
use bxos.Common.{
  ℕ, zero, suc, ◌-◌, ◌≤◌, ◌<◌, ◌≡◌, ◌≢◌, ◌⊎◌, inl, inr, refl, arith, List, ◌++◌, sym, subst,
  Bool-cases, ◌==◌, leb, Option-cases,
}
use bxos.Common.Int.{minus}
use bxos.Fat.{fat_get, is_eoc, cluster_lba}
use bxos.Memory.{MemMan, memman_alloc_4k}
use bxos.Fs.{Ata, Fs, cluster_bytes, read_at}
use bxos.Fs.Monad.{Result, ok, err, hang, continue, pure}
use bxos.Loader.{Tek}
use bxos.Loader.Volume.{after_read, read_chain, fs_read_chain, fs_data_loadfile}

continue-ne-hang :
    {S A B : Type 0} (r : Result A) (s : S) (f : A → B)
    → r ≢ hang
    → (continue r s (λ a. pure (f a))).0 ≢ hang
continue-ne-hang (ok a) s f h = λ q. cc
continue-ne-hang (err code) s f h = λ q. cc
continue-ne-hang hang s f h = λ q. h refl

after_read-ne-hang :
    (tek : Tek) (buf size : ℕ) (man : MemMan) (r : Result (List ℕ))
    → r ≢ hang
    → (after_read tek buf size man r).0 ≢ hang
unfolding after_read
after_read-ne-hang tek buf size man (ok bytes) h = λ q. cc
after_read-ne-hang tek buf size man (err code) h = λ q. cc
after_read-ne-hang tek buf size man hang h = absurd (h refl)

module _ {D : Type 0} ⦃ata : Ata D⦄ where
  read_at-cases :
      (lba count : ℕ) (s : Fs D)
      → ((b : List ℕ) × (s' : Fs D) × (read_at lba count s ≡ (ok b, s')) × (s'.mount ≡ s.mount))
        ⊎ ((s' : Fs D) × (read_at lba count s ≡ (err (minus 1), s')))
  unfolding read_at
  read_at-cases lba count s =
      let d = (ata.read_sectors s.mount.drive lba count s.disk).1 in
      elim (Option-cases (ata.read_sectors s.mount.drive lba count s.disk).0) [
        | inl e ↦ inr (record s { disk = d }, rw (e, read_at))
        | inr (b, e) ↦ inl (b, record s { disk = d }, rw (e, read_at), refl)
      ]

  read_chain-ne-hang :
      (fuel c left : ℕ) (s : Fs D)
      → left ≤ fuel
      → 0 < cluster_bytes s.mount
      → (read_chain fuel c left s).0 ≢ hang
  unfolding read_chain
  read_chain-ne-hang zero c left s h p = let z : left ≡ 0 = omega arith in rw z (λ e. cc)
  read_chain-ne-hang (suc fuel) c left s h p = elim (Bool-cases (left == 0)) [
    | inl done ↦ simp done (λ e. cc)
    | inr more ↦ elim (Bool-cases (leb (cluster_bytes s.mount) left)) [
      | inl whole ↦ elim (read_at-cases (cluster_lba s.mount c) s.mount.sectors_per_cluster s) [
        | inr (s', e) ↦ simp (more, whole, e) (λ q. cc)
        | inl (b, s', e, same) ↦ elim (Bool-cases (is_eoc s.mount (fat_get s.mount c))) [
          | inl last ↦ simp (more, whole, e, last) (λ q. cc)
          | inr on ↦
              let ih =
                read_chain-ne-hang fuel (fat_get s.mount c) (left - cluster_bytes s.mount) s'
                  (omega arith) (subst (λ m. 0 < cluster_bytes m) (sym same) p) in
              simp (more, whole, e, on) (continue-ne-hang _ _ (λ more. b ++ more) ih)
        ]
      ]
      | inr part ↦ elim (Bool-cases (leb s.mount.sectors_per_cluster 8)) [
        | inr large ↦ simp (more, part, large) (λ q. cc)
        | inl small ↦ elim (read_at-cases (cluster_lba s.mount c) s.mount.sectors_per_cluster s) [
          | inr (s', e) ↦ simp (more, part, small, e) (λ q. cc)
          | inl (b, s', e, same) ↦ simp (more, part, small, e) (λ q. cc)
        ]
      ]
    ]
  ]

  -- fs_data_loadfile returns, whatever the disk holds, also when the chain of the file is a cycle or
  -- leaves the volume. A cluster has at least one sector.
  pub fs_data_loadfile-ne-hang :
      (tek : Tek) (clustno size : ℕ) (man : MemMan) (s : Fs D)
      → 0 < s.mount.sectors_per_cluster
      → (fs_data_loadfile tek clustno size man s).0 ≢ hang
  unfolding fs_data_loadfile fs_read_chain
  fs_data_loadfile-ne-hang tek clustno size man s p = elim (Bool-cases s.mounted) [
    | inr no_volume ↦ simp no_volume (λ q. cc)
    | inl mounted ↦ elim (Bool-cases ((memman_alloc_4k man size).0 == 0)) [
      | inl full ↦ simp (mounted, full) (λ q. cc)
      | inr given ↦
          let (buf, man1) = memman_alloc_4k man size in
          simp (mounted, given)
            (after_read-ne-hang tek buf size man1 (read_chain size clustno size s).0
              (read_chain-ne-hang size clustno size s (omega arith) (omega arith)))
    ]
  ]

-- ===== src/Disk/Identify.antt =====
-- `ata_identify` of harib27f/haribote/ata.c: the code, the sizes and the name that it reports.
use bxos.Common.{
  ℕ, zero, suc, ◌%◌, ◌≡◌, ◌≢◌, ◌⊎◌, inl, inr, refl, arith, ◌==◌, ==_iff, Bool-cases, ◌∙◌, sym, ap,
  subst, List, [], ◌∷◌, length,
}
use bxos.Common.Int.{ℤ, pos, minus, is_neg}
use Prim.Native.Nat.{bit_and}
use mathlib.Core.Bool.{true, false≢true}
use bxos.Disk.{
  Ports, AtaInfo, port_data, port_status, sr_bsy, sr_err, sr_drq, timeout_loops, ata_io_wait,
  data_loop, in_words, no_drive, ask, is_foreign, ata_identify,
}
use bxos.Disk.Report.{AreWords, IsReport, info_of-IsReport}

module _ {S : Type 0} (ports : Ports S) where
  -- A drive in the state `s` that is asked for `n` words answers with `id`, and is then in `s'`.
  unfoldable pub Answers : ℕ → S → List ℕ → S → Type 0
  Answers zero s id s' = (id ≡ []) × (s' ≡ s)
  Answers (suc n) s id s' =
      (rest : List ℕ) × (id ≡ ((ports.in16 port_data s).0 % 0x10000) ∷ rest)
      × Answers n (ports.in16 port_data s).1 rest s'

  -- the status that is read has data, and no error
  unfoldable pub HasData : S → Type 0
  HasData s =
      (bit_and (ports.in8 port_status s).0 sr_err ≡ 0)
      × (bit_and (ports.in8 port_status s).0 sr_drq ≢ 0)

  -- A code, what is reported with it, and the state behind the call. For a drive that is reported, the
  -- call ends with a status that has data, and then the words.
  abbrev pub Reported : (ℤ × AtaInfo) × S → Type 0
  Reported r =
      ((r.0.0 ≡ pos 1)
        × ((id : List ℕ) × (s : S) × HasData s
            × Answers 256 (ports.in8 port_status s).1 id r.1
            × IsReport id r.0.1))
      ⊎ (((r.0.0 ≡ pos 0) ⊎ (r.0.0 ≡ minus 1)) × (r.0.1 ≡ no_drive))

  in_words-Answers : (n : ℕ) (s : S) → Answers n s (in_words ports n s).0 (in_words ports n s).1
  unfolding in_words Answers
  in_words-Answers zero s = (refl, refl)
  in_words-Answers (suc n) s = (
    (in_words ports n (ports.in16 port_data s).1).0,
    refl,
    in_words-Answers n (ports.in16 port_data s).1,
  )

  in_words_lem :
      (n : ℕ) (s : S) → AreWords (in_words ports n s).0 × (length (in_words ports n s).0 ≡ n)
  unfolding in_words
  in_words_lem zero s = (tt, refl)
  in_words_lem (suc n) s =
      let ih = in_words_lem n (ports.in16 port_data s).1 in ((omega arith, ih.0), ap suc ih.1)

  -- A wait that succeeds has seen data.
  data_loop-HasData :
      (n : ℕ) (s : S)
      → (data_loop ports n s).0 ≡ true
      → (s0 : S) × HasData s0 × ((data_loop ports n s).1 ≡ (ports.in8 port_status s0).1)
  unfolding data_loop HasData
  data_loop-HasData zero s h = absurd (false≢true h)
  data_loop-HasData (suc n) s h =
      let status = (ports.in8 port_status s).0 in
      elim (Bool-cases (bit_and status sr_err == 0)) [
        | inr error ↦ absurd (false≢true (rw error at h))
        | inl fine ↦ elim (Bool-cases (bit_and status sr_drq == 0)) [
          | inr has ↦ (
            s,
            ((==_iff _ 0).0 fine, λ q. false≢true (sym has ∙ (==_iff _ 0).1 q)),
            rw (fine, has) refl,
          )
          | inl wait ↦
              rw (fine, wait)
                (data_loop-HasData n (ports.in8 port_status s).1 (rw (fine, wait) at h))
        ]
      ]

  -- Whatever the drive answers, ata_identify returns 1, 0 or -1. If it returns 1, then the last that it
  -- has read is a status with data and no error, and then the 256 words that the drive answers; it
  -- reports a drive that is present, with the number of sectors that the words 60 and 61 give, and with
  -- the 40 characters of the words from 27 on, the high byte of each first, and a terminator, where the
  -- spaces at the end are 0 and no other character is changed. Else it reports no drive, no sectors and
  -- no name.
  pub ata_identify-Reported : (drive : ℕ) (s : S) → Reported (ata_identify ports drive s)
  unfolding ata_identify
  ata_identify-Reported drive s =
      let s1 = (ask ports drive s).1 in
      let s2 = (ports.in8 port_status s1).1 in
      let wait = ata_io_wait ports port_status sr_bsy 0 s2 in
      let s4 = (is_foreign ports wait.1).1 in
      let s5 = (data_loop ports timeout_loops s4).1 in
      let got = in_words_lem 256 s5 in
      elim (Bool-cases ((ports.in8 port_status s1).0 == 0)) [
        | inl e ↦ rw e (inr (inl refl, refl))
        | inr e ↦ elim (Bool-cases (is_neg wait.0)) [
          | inl e' ↦ rw (e, e') (inr (inr refl, refl))
          | inr e' ↦ elim (Bool-cases (is_foreign ports wait.1).0) [
            | inl f ↦ rw (e, e', f) (inr (inr refl, refl))
            | inr f ↦ elim (Bool-cases (data_loop ports timeout_loops s4).0) [
              | inr g ↦ rw (e, e', f, g) (inr (inr refl, refl))
              | inl g ↦
                  let seen = data_loop-HasData timeout_loops s4 g in
                  rw (e, e', f, g)
                    (inl (
                      refl,
                      (
                        (in_words ports 256 s5).0,
                        seen.0,
                        seen.1,
                        subst
                            (λ s. Answers 256 s (in_words ports 256 s5).0 (in_words ports 256 s5).1)
                            seen.2 (in_words-Answers 256 s5),
                        info_of-IsReport (in_words ports 256 s5).0 got.0 got.1,
                      ),
                    ))
            ]
          ]
        ]
      ]

-- ===== src/Fs/Facts.antt =====
-- What the parts of harib27f/haribote/fs_fat.c that write leave as it was: sectors outside an entry,
-- and volumes that are not FAT16.
use bxos.Common.{
  ℕ, zero, suc, ◌+◌, ◌≤◌, ◌<◌, ◌≡◌, ◌≢◌, refl, ap, ◌∙◌, ◌⊎◌, inr, List, [], ◌∷◌, Bool, false, ◌&&◌,
  arith, ◌==◌, length, get_or,
}
use bxos.Common.Int.{ℤ, minus}
use bxos.Entry.{FileInfo, encode_entry, decode_entry, slice}
use bxos.Entry.Bytes.{IsEntry, decode_entry-encode_entry, length-encode_entry}
use bxos.Fs.{Ata, Fs}
use bxos.Fs.Monad.{err}
use bxos.Fs.Chain.{FileState}
use bxos.Fs.Slots.{overlay}
use bxos.Fs.File.{Target, fs_write_common}
use bxos.Fs.Trunc.{fs_truncate_common, fs_unlink_common}
use bxos.Fs.Api.{fs_mkdir, fs_rmdir, fs_data_create}
use bxos.Fs.User.{fs_user_rename}

pub length-overlay : (sec bytes : List ℕ) (off : ℕ) → length (overlay sec off bytes) ≡ length sec
unfolding overlay
length-overlay [] bytes off = refl
length-overlay (x ∷ xs) [] zero = refl
length-overlay (x ∷ xs) (b ∷ bs) zero = ap suc (length-overlay xs bs zero)
length-overlay (x ∷ xs) bytes (suc off) = ap suc (length-overlay xs bytes off)

slice-overlay :
    (sec bytes : List ℕ) (off n : ℕ)
    → length bytes ≡ n
    → off + n ≤ length sec
    → slice off n (overlay sec off bytes) ≡ bytes
unfolding overlay
slice-overlay [] [] zero zero h l = refl
slice-overlay [] [] zero (suc n) h l = absurd (omega arith)
slice-overlay [] [] (suc off) n h l = absurd (omega arith)
slice-overlay [] (b ∷ bs) off n h l = absurd (omega arith)
slice-overlay (x ∷ xs) [] zero zero h l = refl
slice-overlay (x ∷ xs) [] zero (suc n) h l = absurd (omega arith)
slice-overlay (x ∷ xs) (b ∷ bs) zero zero h l = absurd (omega arith)
slice-overlay (x ∷ xs) (b ∷ bs) zero (suc n) h l =
    ap (λ r. b ∷ r) (slice-overlay xs bs zero n (omega arith) (omega arith))
slice-overlay (x ∷ xs) bytes (suc off) n h l = slice-overlay xs bytes off n h (omega arith)

overlay_away :
    (sec bytes : List ℕ) (off i : ℕ)
    → (i < off) ⊎ (off + length bytes ≤ i)
    → get_or (overlay sec off bytes) i 0 ≡ get_or sec i 0
unfolding overlay
overlay_away [] bytes off i h = refl
overlay_away (x ∷ xs) [] zero i h = refl
overlay_away (x ∷ xs) (b ∷ bs) zero zero h = absurd (omega arith)
overlay_away (x ∷ xs) (b ∷ bs) zero (suc i) h = overlay_away xs bs zero i (inr (omega arith))
overlay_away (x ∷ xs) bytes (suc off) zero h = refl
overlay_away (x ∷ xs) bytes (suc off) (suc i) h = overlay_away xs bytes off i (omega arith)

-- The sector that `dir_write_slot` writes for an entry at an offset within the sector: the entry reads
-- back from its slot, the sector keeps its length, and a byte outside the slot keeps its value.
pub decode_entry-overlay :
    (e : FileInfo) (sec : List ℕ) (off i : ℕ)
    → IsEntry e
    → off + 32 ≤ length sec
    → (i < off) ⊎ (off + 32 ≤ i)
    → (decode_entry (slice off 32 (overlay sec off (encode_entry e))) ≡ e)
      × (length (overlay sec off (encode_entry e)) ≡ length sec)
      × (get_or (overlay sec off (encode_entry e)) i 0 ≡ get_or sec i 0)
decode_entry-overlay e sec off i v h away =
    let n = length-encode_entry e v in
    (
      ap decode_entry (slice-overlay sec (encode_entry e) off 32 n h)
          ∙ decode_entry-encode_entry e v,
      length-overlay sec (encode_entry e) off,
      overlay_away sec (encode_entry e) off i (omega (arith, n)),
    )

and_false : (b : Bool) → (b && false) ≡ false
and_false b = ground arith

-- On a volume that is not FAT16 every call that would change the volume returns -1, and leaves the
-- disk, the caches and the open file's entry as they were.
pub not_fat16_refused :
    {D : Type 0} ⦃ata : Ata D⦄ (s : Fs D) (t : FileState D) (clus : ℕ)
    (path other name src : List ℕ) (target : Target) (at : ℤ)
    → s.mount.fs_type ≢ 16
    → t.fs ≡ s
    → (fs_mkdir clus path s ≡ (err (minus 1), s))
      × (fs_rmdir clus path s ≡ (err (minus 1), s))
      × (fs_user_rename clus path other s ≡ (err (minus 1), s))
      × (fs_data_create name s ≡ (err (minus 1), s))
      × (fs_write_common target at src t ≡ (err (minus 1), t))
      × (fs_truncate_common target at t ≡ (err (minus 1), t))
      × (fs_unlink_common target t ≡ (err (minus 1), t))
unfolding fs_mkdir fs_rmdir fs_user_rename fs_data_create fs_write_common fs_truncate_common
    fs_unlink_common
not_fat16_refused s t clus path other name src target at h e =
    let off : (s.mount.fs_type == 16) ≡ false = ground arith in
    let off' : (t.fs.mount.fs_type == 16) ≡ false = ground arith in
    let no = and_false s.mounted in
    let no' = and_false t.fs.mounted in
    (
      rw (off, no),
      rw (off, no),
      rw (off, no),
      rw (off, no),
      rw (off', no'),
      rw (off', no'),
      rw (off', no'),
    )

-- ===== src/Loader/Unpacked.antt =====
-- `file_readfat` of harib27f/haribote/file.c against `fat_get` of fs_fat.c on the packed FAT12.
use bxos.Common.{
  ℕ, zero, suc, ◌+◌, ◌*◌, ◌/◌, ◌%◌, ◌≤◌, ◌<◌, ◌≡◌, ◌⊎◌, inl, inr, refl, arith, List, length, get_or,
  set, length-set, subst, ◌∙◌, sym,
}
use bxos.Common.Bytes.{get_or-set, IsBytes, byte_lt}
use bxos.Fat.{Mount, fat_get}
use bxos.Loader.{unpack, file_readfat}

-- The entries before `i` stay as they are.
unpack_before :
    (k i j : ℕ) (img fat : List ℕ) (p : ℕ)
    → i + 2 * k ≤ length fat
    → p < i
    → get_or (unpack k i j img fat) p 0 ≡ get_or fat p 0
unfolding unpack
unpack_before zero i j img fat p l h = refl
unpack_before (suc k) i j img fat p l h =
    let x = (get_or img j 0 + get_or img (j + 1) 0 * 256) % 0x1000 in
    let y = (get_or img (j + 1) 0 / 16 + get_or img (j + 2) 0 * 16) % 0x1000 in
    let fat1 = set fat i x in
    unpack_before k (i + 2) (j + 3) img (set fat1 (i + 1) y) p
      (omega (arith, length-set fat1 (i + 1) y, length-set fat i x)) (omega arith)
    ∙ ground (arith, get_or-set fat1 (i + 1) p y 0, get_or-set fat i p x 0, length-set fat i x)

-- The two entries that the round `n` makes.
unpack_at :
    (k i j : ℕ) (img fat : List ℕ) (n : ℕ)
    → i + 2 * k ≤ length fat
    → n < k
    → (get_or (unpack k i j img fat) (i + 2 * n) 0
        ≡ (get_or img (j + 3 * n) 0 + get_or img (j + 3 * n + 1) 0 * 256) % 0x1000)
      × (get_or (unpack k i j img fat) (i + 2 * n + 1) 0
          ≡ (get_or img (j + 3 * n + 1) 0 / 16 + get_or img (j + 3 * n + 2) 0 * 16) % 0x1000)
unfolding unpack
unpack_at zero i j img fat n l h = absurd (omega arith)
unpack_at (suc k) i j img fat zero l h =
    let x = (get_or img j 0 + get_or img (j + 1) 0 * 256) % 0x1000 in
    let y = (get_or img (j + 1) 0 / 16 + get_or img (j + 2) 0 * 16) % 0x1000 in
    let fat1 = set fat i x in
    let fat2 = set fat1 (i + 1) y in
    let room : (i + 2) + 2 * k ≤ length fat2 =
      omega (arith, length-set fat1 (i + 1) y, length-set fat i x) in
    let e : i + 2 * 0 ≡ i = omega arith in
    let e' : j + 3 * 0 ≡ j = omega arith in
    rw (e, e')
      (
        unpack_before k (i + 2) (j + 3) img fat2 i room (omega arith)
            ∙ ground
                (arith, get_or-set fat1 (i + 1) i y 0, get_or-set fat i i x 0, length-set fat i x),
        unpack_before k (i + 2) (j + 3) img fat2 (i + 1) room (omega arith)
            ∙ ground (arith, get_or-set fat1 (i + 1) (i + 1) y 0, length-set fat i x),
      )
unpack_at (suc k) i j img fat (suc n) l h =
    let x = (get_or img j 0 + get_or img (j + 1) 0 * 256) % 0x1000 in
    let y = (get_or img (j + 1) 0 / 16 + get_or img (j + 2) 0 * 16) % 0x1000 in
    let fat1 = set fat i x in
    let fat2 = set fat1 (i + 1) y in
    let room : (i + 2) + 2 * k ≤ length fat2 =
      omega (arith, length-set fat1 (i + 1) y, length-set fat i x) in
    let e : i + 2 * suc n ≡ (i + 2) + 2 * n = omega arith in
    let e' : j + 3 * suc n ≡ (j + 3) + 3 * n = omega arith in
    rw (e, e') (unpack_at k (i + 2) (j + 3) img fat2 n room (omega arith))

-- An entry of the packed FAT, by the parity of its number.
fat_get_even :
    (m : Mount) (n : ℕ)
    → m.fs_type ≡ 12
    → fat_get m (2 * n)
      ≡ (get_or m.fat_cache (3 * n) 0 + get_or m.fat_cache (3 * n + 1) 0 * 256) % 0x1000
unfolding fat_get
fat_get_even m n t =
    let place : 2 * n + 2 * n / 2 ≡ 3 * n = omega arith in
    let even : (2 * n) % 2 ≡ 0 = omega arith in rw (t, place, even) (omega arith)

fat_get_odd :
    (m : Mount) (n : ℕ)
    → m.fs_type ≡ 12
    → IsBytes m.fat_cache
    → fat_get m (2 * n + 1)
      ≡ (get_or m.fat_cache (3 * n + 1) 0 / 16 + get_or m.fat_cache (3 * n + 2) 0 * 16) % 0x1000
unfolding fat_get
fat_get_odd m n t b =
    let place : 2 * n + 1 + (2 * n + 1) / 2 ≡ 3 * n + 1 = omega arith in
    let next : 3 * n + 1 + 1 ≡ 3 * n + 2 = omega arith in
    let odd : (2 * n + 1) % 2 ≡ 1 = omega arith in
    rw (t, place, odd, next)
      (omega (arith, byte_lt m.fat_cache (3 * n + 1) b, byte_lt m.fat_cache (3 * n + 2) b))

parity : (i : ℕ) → (i ≡ 2 * (i / 2)) ⊎ (i ≡ 2 * (i / 2) + 1)
parity i = ground arith

unpack-fat_get :
    (k : ℕ) (m : Mount) (fat : List ℕ) (i : ℕ)
    → m.fs_type ≡ 12
    → IsBytes m.fat_cache
    → 2 * k ≤ length fat
    → i < 2 * k
    → get_or (unpack k 0 0 m.fat_cache fat) i 0 ≡ fat_get m i
unpack-fat_get k m fat i t b room h =
    let n = i / 2 in
    let both = unpack_at k 0 0 m.fat_cache fat n (omega arith) (omega arith) in
    let z : (n : ℕ) → 0 + n ≡ n = λ n. omega arith in
    elim (parity i) [
      | inl even ↦ rw even (
          subst
            (λ (p : ℕ × ℕ).
              get_or (unpack k 0 0 m.fat_cache fat) p.0 0
              ≡ (get_or m.fat_cache p.1 0 + get_or m.fat_cache (p.1 + 1) 0 * 256) % 0x1000)
            (λ i. (z (2 * n) i, z (3 * n) i)) both.0
          ∙ sym (fat_get_even m n t))
      | inr odd ↦ rw odd (
          subst
            (λ (p : ℕ × ℕ).
              get_or (unpack k 0 0 m.fat_cache fat) (p.0 + 1) 0
              ≡ (get_or m.fat_cache (p.1 + 1) 0 / 16 + get_or m.fat_cache (p.1 + 2) 0 * 16)
                % 0x1000)
            (λ i. (z (2 * n) i, z (3 * n) i)) both.1
          ∙ sym (fat_get_odd m n t b))
    ]

-- file_readfat unpacks a FAT12 to the entries that fat_get of fs_fat.c reads from the packed table of
-- a mounted volume: the 2880 entries of the array agree. The array has room for them.
pub file_readfat-fat_get :
    (m : Mount) (fat : List ℕ) (i : ℕ)
    → m.fs_type ≡ 12
    → IsBytes m.fat_cache
    → 2880 ≤ length fat
    → i < 2880
    → get_or (file_readfat fat m.fat_cache) i 0 ≡ fat_get m i
unfolding file_readfat
file_readfat-fat_get m fat i t b room h = unpack-fat_get 1440 m fat i t b room h

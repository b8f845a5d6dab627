-- ===== src/Loader.antt =====
-- Loading of files: harib27f/haribote/file.c, for the FAT12 image of the boot disk in memory, and the
-- loaders of harib27f/haribote/fs_fat.c. Decompression (tek.c) is the interface `Tek`. A buffer that
-- is filled is the list of its bytes. A read of an array out of its bounds gives 0.
pub mod Unpacked
pub mod Chain
pub mod Search
pub mod Volume
pub mod Blocks
pub mod Ends
mod Tests
use bxos.Common.{
  ℕ, zero, suc, ◌+◌, ◌-◌, ◌*◌, ◌/◌, ◌%◌, Option, none, some, List, [], ◌∷◌, ◌++◌, Bool, true, false,
  ◌&&◌, ◌||◌, not, ltb, leb, ◌==◌, if◌then◌else◌, get_or, set, take, drop, replicate,
}
use bxos.Common.Int.{ℤ, pos, is_neg, to_ℕ}
use bxos.Entry.{FileInfo, first, upper, not_a_file, slice}
use bxos.Memory.{MemMan, memman_alloc_4k, memman_free_4k}

-- the loop of `file_readfat`, with the rounds left: three bytes of the image are two entries
unfoldable pub unpack : ℕ → ℕ → ℕ → List ℕ → List ℕ → List ℕ
unpack zero i j img fat = fat
unpack (suc k) i j img fat =
    let a = get_or img j 0 in
    let b = get_or img (j + 1) 0 in
    let c = get_or img (j + 2) 0 in
    unpack k (i + 2) (j + 3) img
      (set (set fat i ((a + b * 256) % 0x1000)) (i + 1) ((b / 16 + c * 16) % 0x1000))

unfoldable pub file_readfat : List ℕ → List ℕ → List ℕ
file_readfat fat img = unpack 1440 0 0 img fat

-- `for (i = 0; i < n; i++) buf[i] = img[at + i];`
unfoldable pub copied : ℕ → ℕ → List ℕ → List ℕ
copied zero at img = []
copied (suc n) at img = get_or img at 0 ∷ copied n (suc at) img

-- `file_loadfile`: the bytes that are stored in `buf`; `none` when it still runs after `fuel` rounds
unfoldable pub load_loop : ℕ → ℕ → ℕ → List ℕ → List ℕ → Option (List ℕ)
load_loop zero clustno size fat img = none
load_loop (suc fuel) clustno size fat img =
    let more = load_loop fuel (get_or fat clustno 0) (size - 512) fat img in
    if leb size 512
    then some (copied size (clustno * 512) img)
    else elim more [ none ↦ none | some rest ↦ some (copied 512 (clustno * 512) img ++ rest) ]

-- A round for each 512 bytes, and one more.
unfoldable pub file_loadfile : ℕ → ℕ → List ℕ → List ℕ → Option (List ℕ)
file_loadfile clustno size fat img = load_loop (size / 512 + 1) clustno size fat img

-- the loop of `file_search` that writes the name, with `j` and `s`
unfoldable pub name_loop : List ℕ → ℕ → List ℕ → Option (List ℕ)
name_loop [] j s = some s
name_loop (c ∷ cs) j s =
    let dot = (c == b'.') && leb j 8 in
    let rest = name_loop cs (if dot then 8 else j + 1) (if dot then s else set s j (upper c)) in
    if leb 11 j then none else rest

-- `entry[j] == s[j]` for all of them
unfoldable pub same_bytes : List ℕ → List ℕ → Bool
same_bytes [] [] = true
same_bytes (x ∷ xs) (y ∷ ys) = (x == y) && same_bytes xs ys
same_bytes (x ∷ xs) [] = false
same_bytes [] (y ∷ ys) = false

abbrev pub is_named : List ℕ → FileInfo → Bool
is_named s e = not (not_a_file e) && same_bytes (e.name ++ e.ext) s

-- the loop over the directory, with the entries left
unfoldable pub search_loop : List ℕ → ℕ → List FileInfo → Option ℕ
search_loop s i [] = none
search_loop s i (e ∷ es) =
    let rest = search_loop s (suc i) es in
    if first e.name == 0 then none else if is_named s e then some i else rest

-- The index of the entry; the directory is `finfo[0]` to `finfo[max - 1]`.
unfoldable pub file_search : List ℕ → List FileInfo → Option ℕ
file_search name finfo = elim (name_loop name 0 (replicate 11 b' ')) [
  | none ↦ none
  | some s ↦ search_loop s 0 finfo
]

-- `tek_getsize`, and the bytes that `tek_decomp` writes
pub record Tek : Type 0 where
  pub getsize : List ℕ → ℤ
  pub decomp : List ℕ → ℕ → List ℕ

-- a file in memory: its address, its size and its bytes
pub record Loaded : Type 0 where
  pub addr : ℕ
  pub size : ℕ
  pub bytes : List ℕ

-- What the two loaders do with the bytes of a file at `buf`.
unfoldable pub unpacked : Tek → Loaded → MemMan → Loaded × MemMan
unpacked tek f man =
    let size2 = tek.getsize f.bytes in
    if leb 17 f.size && (not (is_neg size2) && ltb 0 (to_ℕ size2))
    then (let (buf2, man1) = memman_alloc_4k man (to_ℕ size2) in
        (
          record { addr = buf2; size = to_ℕ size2; bytes = tek.decomp f.bytes (to_ℕ size2) },
          (memman_free_4k man1 f.addr f.size).1,
        ))
    else (f, man)

unfoldable pub file_loadfile2 : Tek → ℕ → ℕ → List ℕ → List ℕ → MemMan → Option (Loaded × MemMan)
unfolding file_loadfile unpacked
file_loadfile2 tek clustno size fat img man =
    let (buf, man1) = memman_alloc_4k man size in
    elim (file_loadfile clustno size fat img) [
      | none ↦ none
      | some bytes ↦ some (unpacked tek (record { addr = buf; size = size; bytes = bytes }) man1)
    ]

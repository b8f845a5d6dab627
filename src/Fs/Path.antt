-- ===== src/Fs/Path.antt =====
-- `fs_resolve_path` of harib27f/haribote/fs_fat.c: from a path to the directory that holds its last
-- component, and that component's entry if there is one.
use bxos.Common.{
  ℕ, zero, suc, ◌+◌, Option, none, some, List, [], ◌∷◌, Bool, true, false, ◌&&◌, ◌||◌, ltb, leb,
  ◌==◌, if◌then◌else◌, not, length, replicate,
}
use bxos.Common.Int.{ℤ, minus}
use bxos.Entry.{FileInfo, clear_entry, has_bit, attr_dir, pack_83_name}
use bxos.Fs.{Ata, Fs, mount_of}
use bxos.Fs.Dir.{DirSlot, is_dir_cluster}
use bxos.Fs.Slots.{same_bytes, dir_find, dotdot_cluster}
use bxos.Fs.Monad.{
  Result, ok, err, M, pure, never, ◌>>=◌, ◌>>◌, get, unless, or_fail, recode, attempt,
}

abbrev pub no_disk : ℤ
no_disk = minus 1

abbrev pub bad_path : ℤ
bad_path = minus 2

abbrev pub too_long : ℤ
too_long = minus 3

abbrev pub not_found : ℤ
not_found = minus 4

abbrev pub not_dir : ℤ
not_dir = minus 5

abbrev pub max_path : ℕ
max_path = 128

abbrev pub max_depth : ℕ
max_depth = 16

-- What the call stores through its pointers. A path that names a directory by itself has no leaf: the
-- name is eleven zeros. A leaf that is not there has an entry whose name begins with 0.
pub record Resolved : Type 0 where
  pub parent_clus : ℕ
  pub leaf_name83 : List ℕ
  pub leaf : FileInfo
  pub slot : DirSlot

abbrev pub no_slot : DirSlot
no_slot = record { lba = 0; offset = 0; cache_entry = none }

abbrev pub no_leaf : ℕ → Resolved
no_leaf clus = record {
  parent_clus = clus;
  leaf_name83 = replicate 11 0;
  leaf = clear_entry;
  slot = no_slot;
}

abbrev pub new_leaf : ℕ → List ℕ → Resolved
new_leaf clus name83 = record (no_leaf clus) { leaf_name83 = name83 }

-- the first loop over the path, with its index
unfoldable pub check_path : List ℕ → ℕ → Result (Unit {0})
check_path [] len = ok tt
check_path (c ∷ cs) len =
    if leb max_path len
    then err too_long
    else if c == 92
    then err bad_path
    else check_path cs (len + 1)

unfoldable pub skip_slashes : List ℕ → List ℕ
skip_slashes [] = []
skip_slashes (c ∷ cs) = if c == b'/' then skip_slashes cs else c ∷ cs

-- the characters up to the next slash, and what follows them
unfoldable pub component : List ℕ → List ℕ
component [] = []
component (c ∷ cs) = if c == b'/' then [] else c ∷ component cs

unfoldable pub after_component : List ℕ → List ℕ
after_component [] = []
after_component (c ∷ cs) = if c == b'/' then c ∷ cs else after_component cs

unfoldable pub has_more_components : List ℕ → Bool
unfolding skip_slashes
has_more_components q = elim (skip_slashes q) [ [] ↦ false | c ∷ cs ↦ true ]

abbrev pub starts_with_slash : List ℕ → Bool
starts_with_slash [] = false
starts_with_slash (c ∷ cs) = c == b'/'

-- what `dir_find` gave for the last component
abbrev pub leaf_of : ℕ → List ℕ → Option (FileInfo × DirSlot) → Resolved
leaf_of cur name83 none = new_leaf cur name83
leaf_of cur name83 (some (e, slot)) = record (new_leaf cur name83) { leaf = e; slot = slot }

abbrev pub found_dir : Option (FileInfo × DirSlot) → Bool
found_dir none = true
found_dir (some (e, slot)) = has_bit e.kind attr_dir

module _ {D : Type 0} ⦃ata : Ata D⦄ where
  -- the last component; after it may come slashes, and then it must not be a file
  unfoldable pub resolve_leaf : ℕ → List ℕ → Bool → M (Fs D) Resolved
  resolve_leaf cur name83 trailing_dir = do
    found ← attempt (dir_find cur name83)
    unless (not trailing_dir || found_dir found) not_dir
    pure (leaf_of cur name83 found)

  -- a component with others behind it: the cluster of that directory
  unfoldable pub enter : ℕ → List ℕ → M (Fs D) ℕ
  enter cur name83 = do
    (e, slot) ← recode (dir_find cur name83) not_found
    unless (has_bit e.kind attr_dir) not_dir
    m ← mount_of
    unless (is_dir_cluster m e.clustno) bad_path
    pure e.clustno

  -- the loop over the components
  unfoldable pub resolve_from : ℕ → List ℕ → ℕ → ℕ → M (Fs D) Resolved
  resolve_from zero path cur depth = never
  resolve_from (suc fuel) path cur depth =
      let p = skip_slashes path in
      let comp = component p in
      let q = after_component p in
      let more = has_more_components q in
      let next = λ (clus : ℕ). resolve_from fuel q clus (depth + 1) in
      let named = or_fail (pack_83_name comp) bad_path >>= λ name83.
      if more
      then enter cur name83 >>= next
      else resolve_leaf cur name83 (starts_with_slash q && not more) in
      let walk =
        unless (ltb (length comp) max_path) bad_path
        >> (unless (leb (depth + 1) max_depth) too_long
            >> (if same_bytes comp (b'.' ∷ [])
                then next cur
                else if same_bytes comp (b'.' ∷ b'.' ∷ [])
                then recode (dotdot_cluster cur) bad_path >>= next
                else named)) in
      if length p == 0 then pure (no_leaf cur) else walk

  unfoldable pub fs_resolve_path : ℕ → List ℕ → M (Fs D) Resolved
  fs_resolve_path start_clus path = do
    s ← get
    unless s.mounted no_disk
    (λ s'. (check_path path 0, s'))
    unless (not (length path == 0)) bad_path
    unless (is_dir_cluster s.mount start_clus) bad_path
    resolve_from (length path + 1) path (if starts_with_slash path then 0 else start_clus) 0

-- ===== src/Entry/Tests.antt =====
-- Directory entries and 8.3 names on concrete bytes.
use bxos.Common.{ℕ, ◌≡◌, refl, none, some, List, [], ◌∷◌, arith, replicate}
use bxos.Entry.{FileInfo, pack_83_name, pack_loop, fs_dirinfo_from_finfo, trim}
use bxos.Entry.Bytes.{IsEntry}

-- HELLO.TXT, 70000 bytes from cluster 258
abbrev pub hello : FileInfo
hello = record {
  name = 72 ∷ 69 ∷ 76 ∷ 76 ∷ 79 ∷ 32 ∷ 32 ∷ 32 ∷ [];
  ext = 84 ∷ 88 ∷ 84 ∷ [];
  kind = 0x20;
  reserve = replicate 10 0;
  time = 0x6000;
  date = 0x5a21;
  clustno = 258;
  size = 70000;
}

pub hello-IsEntry : IsEntry hello
hello-IsEntry = record {
  name = refl;
  ext = refl;
  reserve = refl;
  time = omega arith;
  date = omega arith;
  clustno = omega arith;
  size = omega arith;
}

-- `a.t`
abbrev short : List ℕ
short = 97 ∷ 46 ∷ 116 ∷ []

abbrev short83 : List ℕ
short83 = 65 ∷ 32 ∷ 32 ∷ 32 ∷ 32 ∷ 32 ∷ 32 ∷ 32 ∷ 84 ∷ 32 ∷ 32 ∷ []

pack_short : pack_83_name short ≡ some short83
unfolding pack_83_name pack_loop
pack_short = refl

-- a name that starts with a dot
pack_dot : pack_83_name (46 ∷ short) ≡ none
unfolding pack_83_name
pack_dot = refl

hello_name : (fs_dirinfo_from_finfo hello).name ≡ 72 ∷ 69 ∷ 76 ∷ 76 ∷ 79 ∷ 46 ∷ 84 ∷ 88 ∷ 84 ∷ []
unfolding fs_dirinfo_from_finfo trim
hello_name = refl

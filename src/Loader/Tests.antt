-- ===== src/Loader/Tests.antt =====
-- The loaders on concrete inputs.
use bxos.Common.{ℕ, ◌≡◌, ◌≢◌, ◌⊎◌, refl, none, some, List, [], ◌∷◌, arith, replicate, get_or}
use bxos.Common.Int.{minus}
use bxos.Entry.{pack_83_name}
use bxos.Entry.Tests.{hello}
use bxos.Fat.{Mount, fat_get}
use bxos.Fat.Tests.{four}
use bxos.Fs.Monad.{hang}
use bxos.Fs.Tests.{ram_ata, volume}
use bxos.Memory.{MemMan, block}
use bxos.Memory.Live.{IsValid}
use bxos.Loader.{
  Tek, unpack, file_readfat, file_loadfile, name_loop, same_bytes, search_loop, file_search,
}
use bxos.Loader.Unpacked.{file_readfat-fat_get}
use bxos.Loader.Chain.{IsFile, file_loadfile-IsFile}
use bxos.Loader.Search.{Finds, file_search-Finds}
use bxos.Loader.Volume.{fs_data_loadfile}
use bxos.Loader.Blocks.{Accounts, fs_data_loadfile-Accounts}
use bxos.Loader.Ends.{fs_data_loadfile-ne-hang}

-- 0x123 and 0x456 are packed into three bytes
two_entries : unpack 1 0 0 (0x23 ∷ 0x61 ∷ 0x45 ∷ []) (0 ∷ 0 ∷ []) ≡ 0x123 ∷ 0x456 ∷ []
unfolding unpack
two_entries = refl

abbrev twelve : Mount
twelve = record four { fs_type = 12 }

file_readfat-fat_get_example :
    get_or (file_readfat (replicate 2880 0) twelve.fat_cache) 3 0 ≡ fat_get twelve 3
file_readfat-fat_get_example =
    file_readfat-fat_get twelve (replicate 2880 0) 3 refl (omega arith) (omega arith) (omega arith)

file_loadfile-IsFile_example :
    (bytes : List ℕ) × (file_loadfile 1 600 (0 ∷ 2 ∷ 0 ∷ []) (replicate 1536 7) ≡ some bytes)
    × IsFile 1 600 (0 ∷ 2 ∷ 0 ∷ []) (replicate 1536 7) bytes
file_loadfile-IsFile_example = file_loadfile-IsFile 1 600 (0 ∷ 2 ∷ 0 ∷ []) (replicate 1536 7)

-- `hello.txt`
abbrev hello_txt : List ℕ
hello_txt = 104 ∷ 101 ∷ 108 ∷ 108 ∷ 111 ∷ 46 ∷ 116 ∷ 120 ∷ 116 ∷ []

hello_is_found : file_search hello_txt (record hello { kind = 0x10 } ∷ hello ∷ []) ≡ some 1
unfolding file_search search_loop name_loop same_bytes
hello_is_found = refl

file_search-Finds_example :
    ((name_loop hello_txt 0 (replicate 11 32) ≡ none)
      × (pack_83_name hello_txt ≡ none)
      × (file_search hello_txt (hello ∷ []) ≡ none))
    ⊎ ((s : List ℕ) × (name_loop hello_txt 0 (replicate 11 32) ≡ some s)
        × ((pack_83_name hello_txt ≡ none) ⊎ (pack_83_name hello_txt ≡ some s))
        × Finds 0 s (hello ∷ []) (file_search hello_txt (hello ∷ [])))
file_search-Finds_example = file_search-Finds hello_txt (hello ∷ [])

-- one free block of a megabyte
abbrev megabyte : MemMan
megabyte = record {
  frees = 1;
  maxfrees = 1;
  lostsize = 0;
  losts = 0;
  free = block 0x100000 0x100000 ∷ replicate 4089 (block 0 0);
}

megabyte-IsValid : IsValid megabyte
megabyte-IsValid = record { table = refl; room = omega arith; blocks = omega arith }

-- no file is compressed
abbrev plain : Tek
plain = record { getsize = λ bytes. minus 1; decomp = λ bytes size. bytes }

fs_data_loadfile-Accounts_example :
    let (file, man', s') = fs_data_loadfile plain 2 700 megabyte volume in
    Accounts megabyte file man'
fs_data_loadfile-Accounts_example =
    fs_data_loadfile-Accounts megabyte megabyte-IsValid (omega arith) ram_ata plain 2 700 volume
      (omega arith)

fs_data_loadfile-ne-hang_example : (fs_data_loadfile plain 2 700 megabyte volume).0 ≢ hang
fs_data_loadfile-ne-hang_example =
    fs_data_loadfile-ne-hang plain 2 700 megabyte volume (omega arith)

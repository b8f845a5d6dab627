-- ===== src/Fs/ChainTests.antt =====
-- The chain of clusters 2 and 3 of the volume, extended and walked.
use bxos.Common.{ℕ, ◌≡◌, refl, List, [], ◌∷◌, true, arith}
use bxos.Entry.Tests.{hello}
use bxos.Fat.{fat_get, is_eoc, valid_data_cluster}
use bxos.Fat.Chains.{IsChain}
use bxos.Fs.{append_dir_cluster}
use bxos.Fs.Dir.{DirIter, dir_iter_close}
use bxos.Fs.Chain.{FileState}
use bxos.Fs.Append.{Ensures, append_dir_cluster-IsChain}
use bxos.Fs.Tests.{ram_ata, volume, volume-IsFat16}

volume-IsChain : IsChain volume.mount (2 ∷ 3 ∷ [])
unfolding fat_get valid_data_cluster is_eoc
volume-IsChain = (refl, refl, refl, (refl, refl))

-- the file on this chain, opened
abbrev opened : FileState (List (List ℕ))
opened = record { fs = volume; finfo = record hello { clustno = 2 } }

append_dir_cluster-IsChain_example :
    Ensures
      (append_dir_cluster 2 volume).0
      (append_dir_cluster 2 volume).1
      (λ new s'. IsChain s'.mount (2 ∷ 3 ∷ new ∷ []))
append_dir_cluster-IsChain_example =
    append_dir_cluster-IsChain 2 (3 ∷ []) volume volume-IsFat16 (omega arith) volume-IsChain
      ((λ e. omega arith, tt), (tt, tt)) (omega arith)

-- an iterator that is closed stands at the end
close_ends : (it : DirIter) → (dir_iter_close it).at_end ≡ true
unfolding dir_iter_close
close_ends it = refl

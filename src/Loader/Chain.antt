-- ===== src/Loader/Chain.antt =====
-- `file_loadfile` of harib27f/haribote/file.c: which byte of the image each byte of the file is.
use bxos.Common.{
  ℕ, zero, suc, ◌+◌, ◌-◌, ◌*◌, ◌/◌, ◌%◌, ◌≤◌, ◌<◌, ◌≡◌, refl, arith, List, [], ◌∷◌, ◌++◌, length,
  get_or, some, length-append, ◌∙◌, ap, leb, Bool-cases, inl, inr,
}
use bxos.Loader.{copied, load_loop, file_loadfile}

-- the cluster after `k` links
unfoldable pub linked : ℕ → List ℕ → ℕ → ℕ
linked zero fat c = c
linked (suc k) fat c = linked k fat (get_or fat c 0)

-- the byte of the image that is the byte `p` of the file
abbrev pub place : ℕ → List ℕ → ℕ → ℕ
place c fat p = linked (p / 512) fat c * 512 + p % 512

length-copied : (n at : ℕ) (img : List ℕ) → length (copied n at img) ≡ n
unfolding copied
length-copied zero at img = refl
length-copied (suc n) at img = ap suc (length-copied n (suc at) img)

get_or-copied :
    (n at : ℕ) (img : List ℕ) (p : ℕ) → p < n → get_or (copied n at img) p 0 ≡ get_or img (at + p) 0
unfolding copied
get_or-copied zero at img p h = absurd (omega arith)
get_or-copied (suc n) at img zero h = ap (λ k. get_or img k 0) (omega arith)
get_or-copied (suc n) at img (suc p) h =
    get_or-copied n (suc at) img p (omega arith) ∙ ap (λ k. get_or img k 0) (omega arith)

get_or-append_left :
    (xs ys : List ℕ) (p : ℕ) → p < length xs → get_or (xs ++ ys) p 0 ≡ get_or xs p 0
get_or-append_left [] ys p h = absurd (omega arith)
get_or-append_left (x ∷ xs) ys zero h = refl
get_or-append_left (x ∷ xs) ys (suc p) h = get_or-append_left xs ys p (omega arith)

get_or-append_right :
    (xs ys : List ℕ) (p : ℕ) → length xs ≤ p → get_or (xs ++ ys) p 0 ≡ get_or ys (p - length xs) 0
get_or-append_right [] ys p h = ap (λ k. get_or ys k 0) (omega arith)
get_or-append_right (x ∷ xs) ys zero h = absurd (omega arith)
get_or-append_right (x ∷ xs) ys (suc p) h =
    get_or-append_right xs ys p (omega arith) ∙ ap (λ k. get_or ys k 0) (omega arith)

-- the bytes of a file of `size` bytes that starts at the cluster `c`
pub record IsFile (c size : ℕ) (fat img bytes : List ℕ) : Type 0 where
  pub whole : length bytes ≡ size
  pub at : (p : ℕ) → p < size → get_or bytes p 0 ≡ get_or img (place c fat p) 0

place_first : (c : ℕ) (fat : List ℕ) (p : ℕ) → p < 512 → c * 512 + p ≡ place c fat p
unfolding linked
place_first c fat p h = let e : p / 512 ≡ 0 = omega arith in rw e (omega arith)

place_next :
    (c : ℕ) (fat : List ℕ) (p : ℕ) → 512 ≤ p → place (get_or fat c 0) fat (p - 512) ≡ place c fat p
unfolding linked
place_next c fat p h =
    let e : p / 512 ≡ suc ((p - 512) / 512) = omega arith in
    let e' : p % 512 ≡ (p - 512) % 512 = omega arith in rw (e, e')

IsFile-last :
    (c size : ℕ) (fat img : List ℕ) → size ≤ 512 → IsFile c size fat img (copied size (c * 512) img)
IsFile-last c size fat img h = record {
  whole = length-copied size (c * 512) img;
  at = λ p small.
      get_or-copied size (c * 512) img p small
      ∙ ap (λ k. get_or img k 0) (place_first c fat p (omega arith));
}

IsFile-more :
    (c size : ℕ) (fat img rest : List ℕ)
    → 512 ≤ size
    → IsFile (get_or fat c 0) (size - 512) fat img rest
    → IsFile c size fat img (copied 512 (c * 512) img ++ rest)
IsFile-more c size fat img rest h later =
    let block = copied 512 (c * 512) img in
    let full = length-copied 512 (c * 512) img in
    record {
      whole = length-append block rest ∙ omega (arith, full, later.whole);
      at = λ p small. elim (Bool-cases (leb 512 p)) [
        | inl far ↦
            let beyond : 512 ≤ p = ground (arith, far) in
            get_or-append_right block rest p (omega (arith, full))
            ∙ ap (λ k. get_or rest (p - k) 0) full
            ∙ later.at (p - 512) (omega arith)
            ∙ ap (λ k. get_or img k 0) (place_next c fat p beyond)
        | inr near ↦
            let within : p < 512 = ground (arith, near) in
            get_or-append_left block rest p (omega (arith, full))
            ∙ get_or-copied 512 (c * 512) img p within
            ∙ ap (λ k. get_or img k 0) (place_first c fat p within)
      ];
    }

load_loop-IsFile :
    (fuel c size : ℕ) (fat img : List ℕ)
    → size / 512 < fuel
    → (bytes : List ℕ) × (load_loop fuel c size fat img ≡ some bytes) × IsFile c size fat img bytes
unfolding load_loop
load_loop-IsFile zero c size fat img h = absurd (omega arith)
load_loop-IsFile (suc fuel) c size fat img h = elim (Bool-cases (leb size 512)) [
  | inl last ↦
      (copied size (c * 512) img, rw last, IsFile-last c size fat img (ground (arith, last)))
  | inr more ↦
      let big : 512 < size = ground (arith, more) in
      let (rest, e, later) =
        load_loop-IsFile fuel (get_or fat c 0) (size - 512) fat img (omega arith) in
      (
        copied 512 (c * 512) img ++ rest,
        rw (more, e),
        IsFile-more c size fat img rest (omega arith) later,
      )
]

-- file_loadfile returns, whatever the FAT holds, also on a chain that is broken or a cycle: it has
-- stored as many bytes as the file has, and the byte `p` of them is the byte `p % 512` of the cluster
-- that `p / 512` links of the FAT lead to.
pub file_loadfile-IsFile :
    (c size : ℕ) (fat img : List ℕ)
    → (bytes : List ℕ) × (file_loadfile c size fat img ≡ some bytes) × IsFile c size fat img bytes
unfolding file_loadfile
file_loadfile-IsFile c size fat img = load_loop-IsFile (size / 512 + 1) c size fat img (omega arith)

-- ===== src/Disk/Report.antt =====
-- What `ata_identify` (harib27f/haribote/ata.c) makes of the words of the drive.
use bxos.Common.{
  ℕ, zero, suc, ◌+◌, ◌-◌, ◌*◌, ◌/◌, ◌%◌, ◌≤◌, ◌<◌, ◌≡◌, ◌≢◌, inl, inr, refl, arith, ◌==◌,
  Bool-cases, ◌∙◌, ap, subst, List, [], ◌∷◌, ◌++◌, length, get_or, set, length-set, length-append,
}
use bxos.Common.Bytes.{get_or-set}
use bxos.Memory.{word}
use bxos.Disk.{AtaInfo, model_chars, trim_spaces, info_of}

-- `model` without the spaces among its first `n` characters that no other character follows
pub record IsTrimmed (n : ℕ) (raw model : List ℕ) : Type 0 where
  pub kept : ℕ
  pub within : kept ≤ n
  pub same_length : length model ≡ length raw
  pub before : (i : ℕ) → i < kept → get_or model i 0 ≡ get_or raw i 0
  pub spaces : (i : ℕ) → kept ≤ i → i < n → get_or raw i 0 ≡ b' '
  pub cleared : (i : ℕ) → kept ≤ i → i < n → get_or model i 0 ≡ 0
  pub behind : (i : ℕ) → n ≤ i → get_or model i 0 ≡ get_or raw i 0
  pub no_space : 0 < kept → get_or raw (kept - 1) 0 ≢ b' '

trim_spaces-IsTrimmed :
    (n : ℕ) (raw : List ℕ) → n ≤ length raw → IsTrimmed n raw (trim_spaces n raw)
unfolding trim_spaces
trim_spaces-IsTrimmed zero raw h = record {
  kept = 0;
  within = omega arith;
  same_length = refl;
  before = λ i p. refl;
  spaces = λ i p q. absurd (omega arith);
  cleared = λ i p q. absurd (omega arith);
  behind = λ i p. refl;
  no_space = λ p. absurd (omega arith);
}
trim_spaces-IsTrimmed (suc n) raw h = elim (Bool-cases (get_or raw n 0 == b' ')) [
  | inr other ↦ rw other (record {
    kept = suc n;
    within = omega arith;
    same_length = refl;
    before = λ i p. refl;
    spaces = λ i p q. absurd (omega arith);
    cleared = λ i p q. absurd (omega arith);
    behind = λ i p. refl;
    no_space = λ p q.
        let here : get_or raw n 0 ≡ b' ' = subst (λ k. get_or raw k 0 ≡ b' ') (omega arith) q in
        ground (arith, other, here);
  })
  | inl space ↦
      let ih = trim_spaces-IsTrimmed n (set raw n 0) (omega (arith, length-set raw n 0)) in
      rw space (record {
        kept = ih.kept;
        within = omega (arith, ih.within);
        same_length = ih.same_length ∙ length-set raw n 0;
        before = λ i p. ih.before i p ∙ ground (arith, get_or-set raw n i 0 0, ih.within);
        spaces = λ i p q. ground (arith, ih.spaces i p, get_or-set raw n i 0 0, space);
        cleared = λ i p q. ground (arith, ih.cleared i p, ih.behind i, get_or-set raw n i 0 0);
        behind = λ i p. ih.behind i (omega arith) ∙ ground (arith, get_or-set raw n i 0 0);
        no_space =
            λ p q. ih.no_space p (ground (arith, get_or-set raw n (ih.kept - 1) 0 0, ih.within));
      })
]

length-model_chars : (k i : ℕ) (id : List ℕ) → length (model_chars k i id) ≡ k * 2
unfolding model_chars
length-model_chars zero i id = refl
length-model_chars (suc k) i id = omega (arith, length-model_chars k (suc i) id)

-- the characters of `k` words from `i` on, as the drive stores them: the first in the high byte
pub record AreChars (k i : ℕ) (id raw : List ℕ) : Type 0 where
  pub high : (j : ℕ) → j < k → get_or raw (2 * j) 0 ≡ get_or id (i + j) 0 / 256
  pub low : (j : ℕ) → j < k → get_or raw (2 * j + 1) 0 ≡ get_or id (i + j) 0 % 256
  pub ends : get_or raw (2 * k) 0 ≡ 0
  pub size : length raw ≡ 2 * k + 1

-- words of 16 bits
abbrev pub AreWords : List ℕ → Type 0
AreWords [] = Unit {0}
AreWords (w ∷ ws) = (w < 0x10000) × AreWords ws

word_lt : (id : List ℕ) (i : ℕ) → AreWords id → get_or id i 0 < 0x10000
word_lt [] i h = omega arith
word_lt (w ∷ ws) zero h = h.0
word_lt (w ∷ ws) (suc i) h = word_lt ws i h.1

-- a character behind the first word
behind_word :
    (a b n m : ℕ) (raw : List ℕ) → n ≡ suc (suc m) → get_or (a ∷ b ∷ raw) n 0 ≡ get_or raw m 0
behind_word a b n m raw e = ap (λ x. get_or (a ∷ b ∷ raw) x 0) e

module _ (k i : ℕ) (id raw : List ℕ) (w : AreWords id) (c : AreChars k (suc i) id raw) where
  abbrev hi : ℕ
  hi = get_or id i 0 / 256 % 256

  abbrev lo : ℕ
  lo = get_or id i 0 % 256

  high_cons : (j : ℕ) → j < suc k → get_or (hi ∷ lo ∷ raw) (2 * j) 0 ≡ get_or id (i + j) 0 / 256
  high_cons zero h =
      let at : get_or id (i + 0) 0 ≡ get_or id i 0 = ap (λ x. get_or id x 0) (omega arith) in
      omega (arith, word_lt id i w, at)
  high_cons (suc j) h =
      behind_word hi lo (2 * suc j) (2 * j) raw (omega arith)
      ∙ c.high j (omega arith)
      ∙ ap (λ x. get_or id x 0 / 256) (next_word j)
    where
      next_word : (j : ℕ) → suc i + j ≡ i + suc j
      next_word j = omega arith

  low_cons : (j : ℕ) → j < suc k → get_or (hi ∷ lo ∷ raw) (2 * j + 1) 0 ≡ get_or id (i + j) 0 % 256
  low_cons zero h = ap (λ x. get_or id x 0 % 256) (zero_word i)
    where
      zero_word : (i : ℕ) → i ≡ i + 0
      zero_word i = omega arith
  low_cons (suc j) h =
      behind_word hi lo (2 * suc j + 1) (2 * j + 1) raw (omega arith)
      ∙ c.low j (omega arith)
      ∙ ap (λ x. get_or id x 0 % 256) (next_word j)
    where
      next_word : (j : ℕ) → suc i + j ≡ i + suc j
      next_word j = omega arith

  chars_cons : AreChars (suc k) i id (hi ∷ lo ∷ raw)
  chars_cons = record {
    high = high_cons;
    low = low_cons;
    ends = behind_word hi lo (2 * suc k) (2 * k) raw (omega arith) ∙ c.ends;
    size = omega (arith, c.size);
  }

model_chars-AreChars :
    (k i : ℕ) (id : List ℕ) → AreWords id → AreChars k i id (model_chars k i id ++ (0 ∷ []))
unfolding model_chars
model_chars-AreChars zero i id w = record {
  high = λ j h. absurd (omega arith);
  low = λ j h. absurd (omega arith);
  ends = refl;
  size = refl;
}
model_chars-AreChars (suc k) i id w =
    chars_cons k i id (model_chars k (suc i) id ++ (0 ∷ [])) w (model_chars-AreChars k (suc i) id w)

-- what is reported of a drive that answers with the words `id`
pub record IsReport (id : List ℕ) (info : AtaInfo) : Type 0 where
  pub words : AreWords id
  pub all : length id ≡ 256
  pub here : info.present ≡ 1
  pub sectors : info.total_sectors ≡ get_or id 60 0 + 0x10000 * get_or id 61 0
  pub fits : info.total_sectors < word
  pub raw : List ℕ
  pub chars : AreChars 20 27 id raw
  pub name : IsTrimmed 40 raw info.model
  pub room : length info.model ≡ 41

pub info_of-IsReport : (id : List ℕ) → AreWords id → length id ≡ 256 → IsReport id (info_of id)
unfolding info_of
info_of-IsReport id w l =
    let raw = model_chars 20 27 id ++ (0 ∷ []) in
    let size : length raw ≡ 41 =
      length-append (model_chars 20 27 id) (0 ∷ []) ∙ omega (arith, length-model_chars 20 27 id) in
    let trimmed = trim_spaces-IsTrimmed 40 raw (omega (arith, size)) in
    record {
      words = w;
      all = l;
      here = refl;
      sectors = omega arith;
      fits = omega (arith, word_lt id 60 w, word_lt id 61 w);
      raw = raw;
      chars = model_chars-AreChars 20 27 id w;
      name = trimmed;
      room = trimmed.same_length ∙ size;
    }

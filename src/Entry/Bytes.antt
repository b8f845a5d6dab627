-- ===== src/Entry/Bytes.antt =====
-- Directory entries as 32 bytes: encoding and decoding.
use bxos.Common.{
  ℕ, zero, suc, ◌+◌, ◌/◌, ◌^◌, ◌<◌, ◌≡◌, refl, ap, ◌∙◌, List, [], ◌∷◌, ◌++◌, arith, length, take,
  drop, get_or, length-append,
}
use bxos.Entry.{FileInfo, slice, encode_le, decode_le, encode_entry, decode_entry}

-- the widths of the struct's fields
pub record IsEntry (e : FileInfo) : Type 0 where
  pub name : length e.name ≡ 8
  pub ext : length e.ext ≡ 3
  pub reserve : length e.reserve ≡ 10
  pub time : e.time < 2 ^ 16
  pub date : e.date < 2 ^ 16
  pub clustno : e.clustno < 2 ^ 16
  pub size : e.size < 2 ^ 32

pub take-append : (xs ys : List ℕ) (n : ℕ) → length xs ≡ n → take n (xs ++ ys) ≡ xs
take-append [] ys zero h = refl
take-append [] ys (suc n) h = absurd (omega arith)
take-append (x ∷ xs) ys zero h = absurd (omega arith)
take-append (x ∷ xs) ys (suc n) h = ap (λ r. x ∷ r) (take-append xs ys n (omega arith))

pub take_all : (xs : List ℕ) (n : ℕ) → length xs ≡ n → take n xs ≡ xs
take_all [] zero h = refl
take_all [] (suc n) h = absurd (omega arith)
take_all (x ∷ xs) zero h = absurd (omega arith)
take_all (x ∷ xs) (suc n) h = ap (λ r. x ∷ r) (take_all xs n (omega arith))

drop_add-append :
    (xs ys : List ℕ) (k off n : ℕ) → length xs ≡ k → n ≡ k + off → drop n (xs ++ ys) ≡ drop off ys
drop_add-append [] ys k off n h e = let e' : n ≡ off = omega arith in ap (λ r. drop r ys) e'
drop_add-append (x ∷ xs) ys zero off n h e = absurd (omega arith)
drop_add-append (x ∷ xs) ys (suc k) off zero h e = absurd (omega arith)
drop_add-append (x ∷ xs) ys (suc k) off (suc n) h e =
    drop_add-append xs ys k off n (omega arith) (omega arith)

slice_skip :
    (xs ys : List ℕ) (k off n w : ℕ)
    → length xs ≡ k
    → n ≡ k + off
    → slice n w (xs ++ ys) ≡ slice off w ys
slice_skip xs ys k off n w h e = ap (take w) (drop_add-append xs ys k off n h e)

decode_le-encode_le_two : (n : ℕ) → n < 2 ^ 16 → decode_le (encode_le 2 n) ≡ n
unfolding decode_le encode_le
decode_le-encode_le_two n h = omega arith

decode_le-encode_le_four : (n : ℕ) → n < 2 ^ 32 → decode_le (encode_le 4 n) ≡ n
unfolding decode_le encode_le
decode_le-encode_le_four n h = omega arith

pub length-encode_le : (w n : ℕ) → length (encode_le w n) ≡ w
unfolding encode_le
length-encode_le zero n = refl
length-encode_le (suc w) n = ap suc (length-encode_le w (n / 256))

-- the struct's bytes from a field on
module _ (e : FileInfo) where
  abbrev from_size : List ℕ
  from_size = encode_le 4 e.size

  abbrev from_clustno : List ℕ
  from_clustno = encode_le 2 e.clustno ++ from_size

  abbrev from_date : List ℕ
  from_date = encode_le 2 e.date ++ from_clustno

  abbrev from_time : List ℕ
  from_time = encode_le 2 e.time ++ from_date

  abbrev from_reserve : List ℕ
  from_reserve = e.reserve ++ from_time

  abbrev from_ext : List ℕ
  from_ext = e.ext ++ (e.kind ∷ from_reserve)

module _ (e : FileInfo) (v : IsEntry e) where
  to_kind :
      (off w : ℕ) → slice (8 + (3 + off)) w (encode_entry e) ≡ slice off w (e.kind ∷ from_reserve e)
  unfolding encode_entry
  to_kind off w =
      slice_skip e.name (from_ext e) 8 (3 + off) (8 + (3 + off)) w v.name refl
      ∙ slice_skip e.ext (e.kind ∷ from_reserve e) 3 off (3 + off) w v.ext refl

  to_time : (off w : ℕ) → slice (10 + off) w (from_reserve e) ≡ slice off w (from_time e)
  to_time off w = slice_skip e.reserve (from_time e) 10 off (10 + off) w v.reserve refl

  to_date : (off w : ℕ) → slice (2 + off) w (from_time e) ≡ slice off w (from_date e)
  to_date off w =
      slice_skip (encode_le 2 e.time) (from_date e) 2 off (2 + off) w (length-encode_le 2 e.time)
        refl

  to_clustno : (off w : ℕ) → slice (2 + off) w (from_date e) ≡ slice off w (from_clustno e)
  to_clustno off w =
      slice_skip (encode_le 2 e.date) (from_clustno e) 2 off (2 + off) w (length-encode_le 2 e.date)
        refl

  to_size : (off w : ℕ) → slice (2 + off) w (from_clustno e) ≡ slice off w (from_size e)
  to_size off w =
      slice_skip (encode_le 2 e.clustno) (from_size e) 2 off (2 + off) w
        (length-encode_le 2 e.clustno) refl

  get_or-slice : (off : ℕ) (bytes : List ℕ) → get_or bytes off 0 ≡ get_or (slice off 1 bytes) 0 0
  get_or-slice zero [] = refl
  get_or-slice zero (b ∷ bs) = refl
  get_or-slice (suc off) [] = refl
  get_or-slice (suc off) (b ∷ bs) = get_or-slice off bs

  name_lem : slice 0 8 (encode_entry e) ≡ e.name
  unfolding encode_entry
  name_lem = take-append e.name (from_ext e) 8 v.name

  ext_lem : slice 8 3 (encode_entry e) ≡ e.ext
  unfolding encode_entry
  ext_lem =
      slice_skip e.name (from_ext e) 8 0 8 3 v.name refl
      ∙ take-append e.ext (e.kind ∷ from_reserve e) 3 v.ext

  kind_lem : get_or (encode_entry e) 11 0 ≡ e.kind
  kind_lem = get_or-slice 11 (encode_entry e) ∙ ap (λ r. get_or r 0 0) (to_kind 0 1)

  reserve_lem : slice 12 10 (encode_entry e) ≡ e.reserve
  reserve_lem = to_kind 1 10 ∙ take-append e.reserve (from_time e) 10 v.reserve

  time_lem : decode_le (slice 22 2 (encode_entry e)) ≡ e.time
  time_lem =
      ap decode_le (
        to_kind 11 2
        ∙ to_time 0 2
        ∙ take-append (encode_le 2 e.time) (from_date e) 2 (length-encode_le 2 e.time))
      ∙ decode_le-encode_le_two e.time v.time

  date_lem : decode_le (slice 24 2 (encode_entry e)) ≡ e.date
  date_lem =
      ap decode_le (
        to_kind 13 2
        ∙ to_time 2 2
        ∙ to_date 0 2
        ∙ take-append (encode_le 2 e.date) (from_clustno e) 2 (length-encode_le 2 e.date))
      ∙ decode_le-encode_le_two e.date v.date

  clustno_lem : decode_le (slice 26 2 (encode_entry e)) ≡ e.clustno
  clustno_lem =
      ap decode_le (
        to_kind 15 2
        ∙ to_time 4 2
        ∙ to_date 2 2
        ∙ to_clustno 0 2
        ∙ take-append (encode_le 2 e.clustno) (from_size e) 2 (length-encode_le 2 e.clustno))
      ∙ decode_le-encode_le_two e.clustno v.clustno

  size_lem : decode_le (slice 28 4 (encode_entry e)) ≡ e.size
  size_lem =
      ap decode_le (
        to_kind 17 4
        ∙ to_time 6 4
        ∙ to_date 4 4
        ∙ to_clustno 2 4
        ∙ to_size 0 4
        ∙ take_all (encode_le 4 e.size) 4 (length-encode_le 4 e.size))
      ∙ decode_le-encode_le_four e.size v.size

  -- An entry whose fields have the widths of the struct is what its 32 bytes decode to.
  pub decode_entry-encode_entry : decode_entry (encode_entry e) ≡ e
  unfolding decode_entry
  decode_entry-encode_entry = λ i. record {
    name = name_lem i;
    ext = ext_lem i;
    kind = kind_lem i;
    reserve = reserve_lem i;
    time = time_lem i;
    date = date_lem i;
    clustno = clustno_lem i;
    size = size_lem i;
  }

  pub length-encode_entry : length (encode_entry e) ≡ 32
  unfolding encode_entry
  length-encode_entry = omega (
    arith,
    v.name,
    v.ext,
    v.reserve,
    length-append e.name (from_ext e),
    length-append e.ext (e.kind ∷ from_reserve e),
    length-append e.reserve (from_time e),
    length-append (encode_le 2 e.time) (from_date e),
    length-append (encode_le 2 e.date) (from_clustno e),
    length-append (encode_le 2 e.clustno) (from_size e),
    length-encode_le 2 e.time,
    length-encode_le 2 e.date,
    length-encode_le 2 e.clustno,
    length-encode_le 4 e.size,
  )

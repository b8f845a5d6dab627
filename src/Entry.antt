-- ===== src/Entry.antt =====
-- Directory entries (struct FILEINFO of bootpack.h, 32 bytes on disk) and the 8.3 names of
-- harib27f/haribote/fs_fat.c. A C string is the list of its characters before the terminating 0.
pub mod Bytes
pub mod Names
pub mod Tests
use bxos.Common.{
  ℕ, zero, suc, ◌+◌, ◌-◌, ◌*◌, ◌/◌, ◌%◌, Option, none, some, List, [], ◌∷◌, ◌++◌, Bool, true, false,
  ◌&&◌, ◌||◌, not, ltb, leb, ◌==◌, if◌then◌else◌, get_or, set, take, drop, replicate,
}

pub record FileInfo : Type 0 where
  pub name : List ℕ
  pub ext : List ℕ
  pub kind : ℕ
  pub reserve : List ℕ
  pub time : ℕ
  pub date : ℕ
  pub clustno : ℕ
  pub size : ℕ

abbrev pub first : List ℕ → ℕ
first bytes = get_or bytes 0 0

-- `(attribute & 2^k) != 0`
abbrev pub has_bit : ℕ → ℕ → Bool
has_bit attr bit = (attr / bit % 2) == 1

abbrev pub attr_volume : ℕ
attr_volume = 0x08

abbrev pub attr_dir : ℕ
attr_dir = 0x10

-- `type & 0x18`: a directory or a volume label
abbrev pub not_a_file : FileInfo → Bool
not_a_file e = has_bit e.kind attr_volume || has_bit e.kind attr_dir

-- `w` bytes of a number, the low one first
unfoldable pub encode_le : ℕ → ℕ → List ℕ
encode_le zero n = []
encode_le (suc w) n = n % 256 ∷ encode_le w (n / 256)

unfoldable pub decode_le : List ℕ → ℕ
decode_le [] = 0
decode_le (b ∷ bs) = b + 256 * decode_le bs

abbrev pub slice : ℕ → ℕ → List ℕ → List ℕ
slice off n bytes = take n (drop off bytes)

-- The struct that is read and written through a pointer into a sector (`*entry = *src`,
-- `*dst = *entry`): the fields in their order, without gaps, and numbers with the low byte first.
unfoldable pub decode_entry : List ℕ → FileInfo
unfolding decode_le
decode_entry bytes = record {
  name = slice 0 8 bytes;
  ext = slice 8 3 bytes;
  kind = get_or bytes 11 0;
  reserve = slice 12 10 bytes;
  time = decode_le (slice 22 2 bytes);
  date = decode_le (slice 24 2 bytes);
  clustno = decode_le (slice 26 2 bytes);
  size = decode_le (slice 28 4 bytes);
}

unfoldable pub encode_entry : FileInfo → List ℕ
unfolding encode_le
encode_entry e =
    e.name
    ++ (e.ext
        ++ (e.kind
            ∷ (e.reserve
                ++ (encode_le 2 e.time
                    ++ (encode_le 2 e.date ++ (encode_le 2 e.clustno ++ encode_le 4 e.size))))))

-- `clear_entry`: 32 zero bytes
abbrev pub clear_entry : FileInfo
clear_entry = record {
  name = replicate 8 0;
  ext = replicate 3 0;
  kind = 0;
  reserve = replicate 10 0;
  time = 0;
  date = 0;
  clustno = 0;
  size = 0;
}

unfoldable pub set_name83 : FileInfo → List ℕ → FileInfo
set_name83 e name83 = record e { name = take 8 name83; ext = slice 8 3 name83 }

abbrev pub blank83 : List ℕ
blank83 = replicate 11 b' '

abbrev pub upper : ℕ → ℕ
upper c = if leb b'a' c && leb c b'z' then c - 0x20 else c

-- the loop of `pack_83_name` from character `c` on, with `j` and `out`
unfoldable pub pack_loop : List ℕ → ℕ → List ℕ → Option (List ℕ)
pack_loop [] j out = some out
pack_loop (c ∷ cs) j out =
    let after_dot = pack_loop cs 8 out in
    let stored = pack_loop cs (j + 1) (set out j (upper c)) in
    if leb c b' ' || ((c == b'/') || (c == 92))
    then none
    else if (c == b'.') && leb j 8
    then after_dot
    else if leb 11 j
    then none
    else stored

unfoldable pub pack_83_name : List ℕ → Option (List ℕ)
unfolding pack_loop
pack_83_name name =
    if (first name == 0) || (first name == b'.') then none else pack_loop name 0 blank83

-- `struct BX_DIRINFO`
pub record DirInfo : Type 0 where
  pub name : List ℕ
  pub attr : ℕ
  pub size : ℕ
  pub clustno : ℕ

-- the bytes before the first blank or 0
unfoldable pub trim : List ℕ → List ℕ
trim [] = []
trim (c ∷ cs) = if (c == b' ') || (c == 0) then [] else c ∷ trim cs

-- The name is the C string of the 13 byte field.
unfoldable pub fs_dirinfo_from_finfo : FileInfo → DirInfo
unfolding trim
fs_dirinfo_from_finfo src = record {
  name =
      trim (take 8 src.name)
      ++ (if not (has_bit src.kind attr_dir)
            && (not (first src.ext == b' ') && not (first src.ext == 0))
          then b'.' ∷ trim (take 3 src.ext)
          else []);
  attr = src.kind;
  size = src.size;
  clustno = src.clustno;
}

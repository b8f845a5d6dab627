-- ===== src/Entry/Names.antt =====
-- The 8.3 names that `pack_83_name` makes.
use bxos.Common.{
  ℕ, zero, suc, ◌+◌, ◌≤◌, ◌<◌, ◌≡◌, ◌≢◌, refl, some, List, [], ◌∷◌, map, false, ◌&&◌, arith, leb,
  length, set, replicate, length-set,
}
use bxos.Entry.{upper, blank83, pack_loop, pack_83_name}

-- a character that an 8.3 name may hold: not a control character, a slash or a lower-case letter
abbrev pub IsNameChar : ℕ → Type 0
IsNameChar c = (b' ' ≤ c) × (c ≢ b'/') × (c ≢ 92) × ((leb b'a' c && leb c b'z') ≡ false)

abbrev pub AllNameChars : List ℕ → Type 0
AllNameChars [] = Unit {0}
AllNameChars (c ∷ cs) = IsNameChar c × AllNameChars cs

set-AllNameChars :
    (bytes : List ℕ) (i v : ℕ) → IsNameChar v → AllNameChars bytes → AllNameChars (set bytes i v)
set-AllNameChars [] i v c h = tt
set-AllNameChars (b ∷ bs) zero v c h = (c, h.1)
set-AllNameChars (b ∷ bs) (suc i) v c h = (h.0, set-AllNameChars bs i v c h.1)

upper-IsNameChar : (c : ℕ) → b' ' < c → c ≢ b'/' → c ≢ 92 → IsNameChar (upper c)
upper-IsNameChar c a b d = (ground arith, ground arith, ground arith, ground arith)

pack_loop-AllNameChars :
    (cs : List ℕ) (j : ℕ) (out name83 : List ℕ)
    → AllNameChars out
    → pack_loop cs j out ≡ some name83
    → AllNameChars name83 × (length name83 ≡ length out)
unfolding pack_loop
pack_loop-AllNameChars [] j out name83 h e = ground arith
pack_loop-AllNameChars (c ∷ cs) j out name83 h e = ground (
  arith,
  upper-IsNameChar c,
  set-AllNameChars out j (upper c),
  length-set out j (upper c),
  pack_loop-AllNameChars cs 8 out name83,
  pack_loop-AllNameChars cs (j + 1) (set out j (upper c)) name83,
)

blank-AllNameChars : (n : ℕ) → AllNameChars (replicate n b' ')
blank-AllNameChars zero = tt
blank-AllNameChars (suc n) = ((omega arith, omega arith, omega arith, refl), blank-AllNameChars n)

-- Whatever `pack_83_name` accepts becomes eleven characters, none of them a control character, a
-- slash, a backslash or a lower-case letter.
pub pack_83_name-AllNameChars :
    (name name83 : List ℕ)
    → pack_83_name name ≡ some name83
    → AllNameChars name83 × (length name83 ≡ 11)
unfolding pack_83_name
pack_83_name-AllNameChars name name83 e =
    pack_loop-AllNameChars name 0 blank83 name83 (blank-AllNameChars 11) (ground arith)

upper-upper : (c : ℕ) → upper (upper c) ≡ upper c
upper-upper c = ground arith

pack_loop-upper :
    (cs : List ℕ) (j : ℕ) (out : List ℕ) → pack_loop (map upper cs) j out ≡ pack_loop cs j out
unfolding pack_loop
pack_loop-upper [] j out = refl
pack_loop-upper (c ∷ cs) j out =
    rw (upper-upper c)
      (ground (arith, pack_loop-upper cs 8 out, pack_loop-upper cs (j + 1) (set out j (upper c))))

-- Names are compared without regard to case: a name and its upper-case form pack to the same bytes.
pub pack_83_name-upper : (name : List ℕ) → pack_83_name (map upper name) ≡ pack_83_name name
unfolding pack_83_name
pack_83_name-upper [] = refl
pack_83_name-upper (c ∷ cs) = ground (arith, pack_loop-upper (c ∷ cs) 0 blank83)

-- ===== src/Loader/Search.antt =====
-- `file_search` of harib27f/haribote/file.c: the first entry that has the name.
use bxos.Common.{
  ℕ, zero, suc, ◌+◌, ◌≤◌, ◌<◌, ◌≡◌, ◌≢◌, ◌⊎◌, refl, arith, List, [], ◌∷◌, length, get_or, Option,
  none, some, ap, ap₂, sym, subst, Bool, ◌∙◌, ◌++◌, not, ◌||◌, true, false, leb, ◌==◌, ◌&&◌,
  Bool-cases, inl, inr, set, replicate, Option-cases, ==_iff,
}
use mathlib.Core.Bool.{false≢true, true≢false}
use bxos.Entry.{
  FileInfo, has_bit, attr_volume, attr_dir, first, clear_entry, upper, pack_loop, pack_83_name,
  blank83,
}
use bxos.Loader.{name_loop, is_named, same_bytes, search_loop, file_search}

-- the entry at an index
abbrev pub entry : List FileInfo → ℕ → FileInfo
entry es i = get_or es i clear_entry

-- A file, neither a directory nor a volume label, whose eight characters and extension are `s`.
pub record IsNamed (s : List ℕ) (e : FileInfo) : Type 0 where
  pub no_volume : has_bit e.kind attr_volume ≡ false
  pub no_dir : has_bit e.kind attr_dir ≡ false
  pub same_name : e.name ++ e.ext ≡ s

same_bytes-eq : (xs ys : List ℕ) → same_bytes xs ys ≡ true → xs ≡ ys
unfolding same_bytes
same_bytes-eq [] [] h = refl
same_bytes-eq [] (y ∷ ys) h = absurd (false≢true h)
same_bytes-eq (x ∷ xs) [] h = absurd (false≢true h)
same_bytes-eq (x ∷ xs) (y ∷ ys) h = elim (Bool-cases (x == y)) [
  | inl e ↦
      ap₂ (λ z zs. z ∷ zs) ((==_iff x y).0 e)
        (same_bytes-eq xs ys (ap (λ b. b && same_bytes xs ys) (sym e) ∙ h))
  | inr e ↦ absurd (false≢true (ap (λ b. b && same_bytes xs ys) (sym e) ∙ h))
]

same_bytes_refl : (xs : List ℕ) → same_bytes xs xs ≡ true
unfolding same_bytes
same_bytes_refl [] = refl
same_bytes_refl (x ∷ xs) =
    ap (λ b. b && same_bytes xs xs) ((==_iff x x).1 refl) ∙ same_bytes_refl xs

tests_hold : (v d b : Bool) → (not (v || d) && b) ≡ true → (v ≡ false) × (d ≡ false) × (b ≡ true)
tests_hold true d b h = absurd (false≢true h)
tests_hold false true b h = absurd (false≢true h)
tests_hold false false b h = (refl, refl, h)

hold_tests : (v d b : Bool) → v ≡ false → d ≡ false → b ≡ true → (not (v || d) && b) ≡ true
hold_tests v d b p q r = rw (p, q, r) refl

is_named-IsNamed : (s : List ℕ) (e : FileInfo) → is_named s e ≡ true → IsNamed s e
is_named-IsNamed s e h =
    let (v, d, b) =
      tests_hold (has_bit e.kind attr_volume) (has_bit e.kind attr_dir)
        (same_bytes (e.name ++ e.ext) s) h in
    record { no_volume = v; no_dir = d; same_name = same_bytes-eq (e.name ++ e.ext) s b }

IsNamed-is_named : (s : List ℕ) (e : FileInfo) → IsNamed s e → is_named s e ≡ true
IsNamed-is_named s e n =
    hold_tests (has_bit e.kind attr_volume) (has_bit e.kind attr_dir)
      (same_bytes (e.name ++ e.ext) s) n.no_volume n.no_dir
      (subst (λ t. same_bytes (e.name ++ e.ext) t ≡ true) n.same_name
        (same_bytes_refl (e.name ++ e.ext)))

other_name : (s : List ℕ) (e : FileInfo) → is_named s e ≡ false → IsNamed s e → ⊥
other_name s e h n = true≢false (sym (IsNamed-is_named s e n) ∙ h)

-- `i` is the first file with the name `s`, and the directory does not end before it
pub record IsFirst (s : List ℕ) (es : List FileInfo) (i : ℕ) : Type 0 where
  pub within : i < length es
  pub used : (k : ℕ) → k ≤ i → first (entry es k).name ≢ 0
  pub named : IsNamed s (entry es i)
  pub least : (k : ℕ) → k < i → (IsNamed s (entry es k) → ⊥)

-- no entry up to the end of the directory has the name; `n` is the end
pub record IsAbsent (s : List ℕ) (es : List FileInfo) (n : ℕ) : Type 0 where
  pub within : n ≤ length es
  pub none_named : (k : ℕ) → k < n → (IsNamed s (entry es k) → ⊥)
  pub ends : (n ≡ length es) ⊎ (first (entry es n).name ≡ 0)

-- what a search from the index `b` on gives
abbrev pub Finds : ℕ → List ℕ → List FileInfo → Option ℕ → Type 0
Finds b s es none = (n : ℕ) × IsAbsent s es n
Finds b s es (some j) = (i : ℕ) × (j ≡ b + i) × IsFirst s es i

below_suc :
    (P : ℕ → Type 0) (n : ℕ) → P 0 → ((k : ℕ) → k < n → P (suc k)) → (k : ℕ) → k < suc n → P k
below_suc P n z s zero h = z
below_suc P n z s (suc k) h = s k (omega arith)

IsFirst-here :
    (s : List ℕ) (e : FileInfo) (es : List FileInfo)
    → first e.name ≢ 0
    → IsNamed s e
    → IsFirst s (e ∷ es) 0
IsFirst-here s e es u n = record {
  within = omega arith;
  used = λ k h.
      below_suc (λ k. first (entry (e ∷ es) k).name ≢ 0) 0 u (λ k h. absurd (omega arith)) k
        (omega arith);
  named = n;
  least = λ k h. absurd (omega arith);
}

Finds-later :
    (b : ℕ) (s : List ℕ) (e : FileInfo) (es : List FileInfo) (r : Option ℕ)
    → first e.name ≢ 0
    → (IsNamed s e → ⊥)
    → Finds (suc b) s es r
    → Finds b s (e ∷ es) r
Finds-later b s e es none u n (k, a) = (
  suc k,
  record {
    within = omega (arith, a.within);
    none_named = below_suc (λ k. IsNamed s (entry (e ∷ es) k) → ⊥) k n a.none_named;
    ends = elim a.ends [ inl l ↦ inl (ap suc l) | inr z ↦ inr z ];
  },
)
Finds-later b s e es (some j) u n (i, q, f) = (
  suc i,
  omega arith,
  record {
    within = omega (arith, f.within);
    used = λ k h.
        below_suc (λ k. first (entry (e ∷ es) k).name ≢ 0) (suc i) u (λ k h. f.used k (omega arith))
          k (omega arith);
    named = f.named;
    least = below_suc (λ k. IsNamed s (entry (e ∷ es) k) → ⊥) i n f.least;
  },
)

search_loop-Finds : (s : List ℕ) (b : ℕ) (es : List FileInfo) → Finds b s es (search_loop s b es)
unfolding search_loop
search_loop-Finds s b [] =
    (0, record { within = omega arith; none_named = λ k h. absurd (omega arith); ends = inl refl })
search_loop-Finds s b (e ∷ es) = elim (Bool-cases (first e.name == 0)) [
  | inl last ↦
      let z : first e.name ≡ 0 = (==_iff _ _).0 last in
      rw last
        (0, record { within = omega arith; none_named = λ k h. absurd (omega arith); ends = inr z })
  | inr used ↦
      let u : first e.name ≢ 0 = ground (arith, used) in
      elim (Bool-cases (is_named s e)) [
        | inl found ↦
            rw (used, found) (0, omega arith, IsFirst-here s e es u (is_named-IsNamed s e found))
        | inr other ↦
            rw (used, other)
              (Finds-later b s e es (search_loop s (suc b) es) u (other_name s e other)
                (search_loop-Finds s (suc b) es))
      ]
]

name_loop-pack_loop :
    (cs : List ℕ) (j : ℕ) (out s : List ℕ)
    → pack_loop cs j out ≡ some s
    → name_loop cs j out ≡ some s
unfolding pack_loop name_loop
name_loop-pack_loop [] j out s h = h
name_loop-pack_loop (c ∷ cs) j out s h = elim (Bool-cases ((c == b'.') && leb j 8)) [
  | inl dot ↦
      let room : leb 11 j ≡ false = ground (arith, dot) in
      rw (dot, room) (name_loop-pack_loop cs 8 out s (ground (arith, h, dot)))
  | inr other ↦
      let room : leb 11 j ≡ false = ground (arith, h, other) in
      rw (other, room)
        (name_loop-pack_loop cs (j + 1) (set out j (upper c)) s (ground (arith, h, other, room)))
]

-- A name that the file system accepts is packed alike by file_search and by pack_83_name.
pub name_loop-pack_83_name :
    (name s : List ℕ) → pack_83_name name ≡ some s → name_loop name 0 (replicate 11 b' ') ≡ some s
unfolding pack_83_name
name_loop-pack_83_name name s h = name_loop-pack_loop name 0 blank83 s (ground (arith, h))

-- file_search gives the first entry of the directory that is a file, neither a directory nor a volume
-- label, and whose name and extension are the packed name, with no end of the directory before it; if
-- it gives none, then no entry up to the end of the directory is such a file, or the name has too many
-- characters, and then pack_83_name refuses it too. The packed name is that of the loop of file_search;
-- it is that of pack_83_name if that accepts the name.
pub file_search-Finds :
    (name : List ℕ) (es : List FileInfo)
    → ((name_loop name 0 (replicate 11 b' ') ≡ none)
        × (pack_83_name name ≡ none)
        × (file_search name es ≡ none))
      ⊎ ((s : List ℕ) × (name_loop name 0 (replicate 11 b' ') ≡ some s)
          × ((pack_83_name name ≡ none) ⊎ (pack_83_name name ≡ some s))
          × Finds 0 s es (file_search name es))
unfolding file_search
file_search-Finds name es =
    let packed = Option-cases (pack_83_name name) in
    elim (Option-cases (name_loop name 0 (replicate 11 b' '))) [
      | inl long ↦ inl (
        long,
        elim packed [ inl r ↦ r | inr (s, p) ↦ let q = name_loop-pack_83_name name s p in cc ],
        rw (long, file_search),
      )
      | inr (s, e) ↦ inr (
        s,
        e,
        elim packed [
          | inl r ↦ inl r
          | inr (s', p) ↦ inr (p ∙ sym (name_loop-pack_83_name name s' p) ∙ e)
        ],
        rw (e, file_search) (search_loop-Finds s 0 es),
      )
    ]

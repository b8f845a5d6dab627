-- ===== src/Console/Bounds.antt =====
-- A path that `normalize_path` (harib27f/haribote/console.c) gives is absolute and fits its array.
use bxos.Common.{
  ℕ, zero, suc, ◌+◌, ◌-◌, ◌≤◌, ◌<◌, Option, none, some, List, [], ◌∷◌, ◌&&◌, not, ltb, leb, ◌==◌,
  get_or, take, length, length-snoc, ◌≡◌, refl, arith, Bool-cases, inl, inr,
}
use bxos.Console.Paths.{
  max_path, slash, back_to_slash, to_upper, put_char, put_chars, and_then, is_here, is_parent,
  append_path_component, skip_slashes, component_of, after_component, append_all, joined_of,
  normalize_path, max_joined,
}

-- It begins with a slash, and there is room for its terminator.
abbrev pub IsAbsolute : List ℕ → Type 0
IsAbsolute [] = ⊥
IsAbsolute (c ∷ p) = (c ≡ slash) × (suc (length p) < max_path)

-- what a result has, when there is one
abbrev pub IfSome : (List ℕ → Type 0) → Option (List ℕ) → Type 0
IfSome P none = Unit {0}
IfSome P (some out) = P out

put_char-IsAbsolute : (c : ℕ) (out : List ℕ) → IsAbsolute out → IfSome IsAbsolute (put_char c out)
put_char-IsAbsolute c [] h = absurd h
put_char-IsAbsolute c (d ∷ p) h = elim (Bool-cases (leb max_path (length (d ∷ p) + 1))) [
  | inl e ↦ rw e tt
  | inr e ↦ rw e (h.0, ground (arith, e, length-snoc p c))
]

IfSome-and_then :
    (P : List ℕ → Type 0) (o : Option (List ℕ)) (f : List ℕ → Option (List ℕ))
    → IfSome P o
    → ((out : List ℕ) → P out → IfSome P (f out))
    → IfSome P (and_then o f)
IfSome-and_then P none f h g = tt
IfSome-and_then P (some out) f h g = g out h

put_chars-IsAbsolute : (cs out : List ℕ) → IsAbsolute out → IfSome IsAbsolute (put_chars cs out)
unfolding put_chars
put_chars-IsAbsolute [] out h = h
put_chars-IsAbsolute (c ∷ cs) out h =
    IfSome-and_then IsAbsolute (put_char (to_upper c) out) (put_chars cs)
      (put_char-IsAbsolute (to_upper c) out h) (put_chars-IsAbsolute cs)

length-take : (n : ℕ) (p : List ℕ) → length (take n p) ≤ length p
length-take zero p = omega arith
length-take (suc n) [] = omega arith
length-take (suc n) (c ∷ p) = omega (arith, length-take n p)

-- A path that is cut short, but not to nothing.
take-IsAbsolute : (n : ℕ) (out : List ℕ) → 0 < n → IsAbsolute out → IsAbsolute (take n out)
take-IsAbsolute zero out l h = absurd (omega arith)
take-IsAbsolute (suc n) [] l h = absurd h
take-IsAbsolute (suc n) (c ∷ p) l h = (h.0, omega (arith, h.1, length-take n p))

back_to_slash-IsAbsolute :
    (k : ℕ) (out : List ℕ) → IsAbsolute out → IsAbsolute (back_to_slash k out)
unfolding back_to_slash
back_to_slash-IsAbsolute zero out h = h
back_to_slash-IsAbsolute (suc k) out h =
    elim (Bool-cases (ltb 1 (length out) && not (get_or out (length out - 1) 0 == slash))) [
      | inl e ↦ rw e (
          back_to_slash-IsAbsolute k (take (length out - 1) out)
            (take-IsAbsolute (length out - 1) out (ground (arith, e)) h))
      | inr e ↦ rw e h
    ]

append_path_component-IsAbsolute :
    (out comp : List ℕ) → IsAbsolute out → IfSome IsAbsolute (append_path_component out comp)
unfolding append_path_component
append_path_component-IsAbsolute out comp h = elim (Bool-cases (is_here comp)) [
  | inl e ↦ rw e h
  | inr e ↦ rw e (elim (Bool-cases (is_parent comp)) [
    | inl f ↦ rw f (elim (Bool-cases (ltb 1 (length out))) [
      | inl g ↦ rw g (
          back_to_slash-IsAbsolute (length out) (take (length out - 1) out)
            (take-IsAbsolute (length out - 1) out (ground (arith, g)) h))
      | inr g ↦ rw g h
    ])
    | inr f ↦ rw f (elim (Bool-cases (ltb 1 (length out))) [
      | inl g ↦ rw g (
          IfSome-and_then IsAbsolute (put_char slash out) (put_chars comp)
            (put_char-IsAbsolute slash out h) (put_chars-IsAbsolute comp))
      | inr g ↦ rw g (put_chars-IsAbsolute comp out h)
    ])
  ])
]

-- a round of the loop, when the others keep the path absolute
one_round :
    (k : ℕ) (p out : List ℕ)
    → IsAbsolute out
    → ((p out : List ℕ) → IsAbsolute out → IfSome IsAbsolute (append_all k p out))
    → IfSome IsAbsolute (elim p [
      | [] ↦ some out
      | c ∷ q ↦
          and_then
            (append_path_component out (component_of (c ∷ q)))
            (append_all k (after_component (c ∷ q)))
    ])
one_round k [] out h rest = h
one_round k (c ∷ q) out h rest =
    IfSome-and_then IsAbsolute (append_path_component out (component_of (c ∷ q)))
      (append_all k (after_component (c ∷ q)))
      (append_path_component-IsAbsolute out (component_of (c ∷ q)) h)
      (rest (after_component (c ∷ q)))

append_all-IsAbsolute :
    (k : ℕ) (p out : List ℕ) → IsAbsolute out → IfSome IsAbsolute (append_all k p out)
unfolding append_all
append_all-IsAbsolute zero p out h = h
append_all-IsAbsolute (suc k) p out h = one_round k (skip_slashes p) out h (append_all-IsAbsolute k)

-- The path that is given begins with a slash, and fits its array with the terminator.
pub normalize_path-IsAbsolute : (cwd path : List ℕ) → IfSome IsAbsolute (normalize_path cwd path)
unfolding normalize_path
normalize_path-IsAbsolute cwd path =
    let joined = joined_of cwd path in
    elim (Bool-cases (length path == 0)) [
      | inl e ↦ rw e tt
      | inr e ↦ rw e (elim (Bool-cases (leb max_joined (length joined))) [
        | inl f ↦ rw f tt
        | inr f ↦
            rw f (append_all-IsAbsolute (length joined + 1) joined (slash ∷ []) (refl, omega arith))
      ])
    ]

-- ===== src/Console/Paths.antt =====
-- Paths of the console (harib27f/haribote/console.c): a path that a user types, joined to the directory
-- that is shown, with `.` and `..` resolved.
use bxos.Common.{
  ℕ, zero, suc, ◌+◌, ◌-◌, ◌*◌, Option, none, some, List, [], ◌∷◌, ◌++◌, Bool, ◌&&◌, ◌||◌, not, ltb,
  leb, ◌==◌, if◌then◌else◌, get_or, take, length,
}

abbrev pub max_path : ℕ
max_path = 128

abbrev pub slash : ℕ
slash = 0x2f

abbrev pub dot : ℕ
dot = 0x2e

-- `while (*len > 1 && out[*len - 1] != '/') (*len)--`, with the rounds left
unfoldable pub back_to_slash : ℕ → List ℕ → List ℕ
back_to_slash zero out = out
back_to_slash (suc k) out =
    let n = length out in
    let rest = back_to_slash k (take (n - 1) out) in
    if ltb 1 n && not (get_or out (n - 1) 0 == slash) then rest else out

abbrev pub to_upper : ℕ → ℕ
to_upper c = if leb 0x61 c && leb c 0x7a then c - 0x20 else c

-- one byte more, if there is room for it and the terminator
abbrev pub put_char : ℕ → List ℕ → Option (List ℕ)
put_char c out = if leb max_path (length out + 1) then none else some (out ++ (c ∷ []))

-- go on unless it failed
abbrev pub and_then : Option (List ℕ) → (List ℕ → Option (List ℕ)) → Option (List ℕ)
and_then none f = none
and_then (some out) f = f out

unfoldable pub put_chars : List ℕ → List ℕ → Option (List ℕ)
put_chars [] out = some out
put_chars (c ∷ cs) out = and_then (put_char (to_upper c) out) (put_chars cs)

-- `.` or nothing
abbrev pub is_here : List ℕ → Bool
is_here comp = (length comp == 0) || ((length comp == 1) && (get_or comp 0 0 == dot))

-- `..`
abbrev pub is_parent : List ℕ → Bool
is_parent comp = (length comp == 2) && (get_or comp 0 0 == dot) && (get_or comp 1 0 == dot)

-- `out` is the path so far, of which `*len` is the length.
unfoldable pub append_path_component : List ℕ → List ℕ → Option (List ℕ)
unfolding back_to_slash put_chars
append_path_component out comp =
    let n = length out in
    let up = back_to_slash n (take (n - 1) out) in
    let named = and_then (put_char slash out) (put_chars comp) in
    if is_here comp
    then some out
    else if is_parent comp
    then some (if ltb 1 n then up else out)
    else if ltb 1 n
    then named
    else put_chars comp out

-- `while (*p == '/') p++`
unfoldable pub skip_slashes : List ℕ → List ℕ
skip_slashes [] = []
skip_slashes (c ∷ p) = let rest = skip_slashes p in if c == slash then rest else c ∷ p

-- the bytes up to the next slash, and those from it on
unfoldable pub component_of : List ℕ → List ℕ
component_of [] = []
component_of (c ∷ p) = let rest = component_of p in if c == slash then [] else c ∷ rest

unfoldable pub after_component : List ℕ → List ℕ
after_component [] = []
after_component (c ∷ p) = let rest = after_component p in if c == slash then c ∷ p else rest

-- the loop over the components, with the rounds left
unfoldable pub append_all : ℕ → List ℕ → List ℕ → Option (List ℕ)
unfolding skip_slashes component_of after_component append_path_component
append_all zero p out = some out
append_all (suc k) p out = elim (skip_slashes p) [
  | [] ↦ some out
  | c ∷ q ↦
      and_then (append_path_component out (component_of (c ∷ q)))
        (append_all k (after_component (c ∷ q)))
]

-- the bytes of `joined`, less the terminator
abbrev pub max_joined : ℕ
max_joined = 2 * 128 - 1

-- the path, after the directory if it is relative
abbrev pub joined_of : List ℕ → List ℕ → List ℕ
joined_of cwd path =
    let base = take max_joined cwd in
    let base' =
      if ltb 1 (length base) && ltb (length base) max_joined then base ++ (slash ∷ []) else base in
    if get_or path 0 0 == slash then take max_joined path else take max_joined (base' ++ path)

-- A component has a byte at least, so the loop has at most as many rounds as `joined` has bytes.
unfoldable pub normalize_path : List ℕ → List ℕ → Option (List ℕ)
unfolding append_all
normalize_path cwd path =
    let joined = joined_of cwd path in
    if length path == 0
    then none
    else if leb max_joined (length joined)
    then none
    else append_all (length joined + 1) joined (slash ∷ [])

-- ===== src/Console.antt =====
-- The texts of the console (harib27f/haribote/console.c): arguments of a command, paths, and the list of
-- past commands. A C string is the list of its bytes before the terminator; a pointer into a string is
-- the rest of it. A char is signed, so a byte of 128 or more is below the space.
pub mod Paths
pub mod History
pub mod Events
mod Bounds
mod Commands
mod Tests
use bxos.Common.{
  ℕ, zero, suc, ◌+◌, ◌-◌, Option, none, some, List, [], ◌∷◌, Bool, true, false, ◌&&◌, ltb, leb,
  ◌==◌, if◌then◌else◌,
}

abbrev pub space : ℕ
space = 0x20

unfoldable pub skip_spaces : List ℕ → List ℕ
skip_spaces [] = []
skip_spaces (c ∷ p) = let rest = skip_spaces p in if c == space then rest else c ∷ p

-- `*p > ' '`
abbrev pub is_word : ℕ → Bool
is_word c = ltb space c && ltb c 128

-- `while (*p > ' ') p++`: what it passes, and where it stops
unfoldable pub word_of : List ℕ → List ℕ
word_of [] = []
word_of (c ∷ p) = let rest = word_of p in if is_word c then c ∷ rest else []

unfoldable pub after_word : List ℕ → List ℕ
after_word [] = []
after_word (c ∷ p) = let rest = after_word p in if is_word c then rest else c ∷ p

-- The second argument, from the byte where the first one ends.
unfoldable pub second_arg : List ℕ → List ℕ → Option (List ℕ × List ℕ)
unfolding skip_spaces word_of
second_arg arg1 [] = none
second_arg arg1 (_ ∷ p) = elim (skip_spaces p) [ [] ↦ none | c ∷ q ↦ some (arg1, word_of (c ∷ q)) ]

unfoldable pub split_two_args : List ℕ → Option (List ℕ × List ℕ)
unfolding skip_spaces word_of after_word second_arg
split_two_args args = elim (skip_spaces args) [
  | [] ↦ none
  | c ∷ p ↦ second_arg (word_of (c ∷ p)) (after_word (c ∷ p))
]

-- ===== src/Console/History.antt =====
-- The past commands of the console (harib27f/haribote/console.c): the first `*hist_count` strings of
-- `history`, from the oldest on.
use bxos.Common.{
  ℕ, ◌-◌, List, [], ◌∷◌, ◌++◌, Bool, true, false, ◌&&◌, ltb, ◌==◌, if◌then◌else◌, get_or, length,
}

abbrev pub cons_history_max : ℕ
cons_history_max = 16

-- `strcmp(...) == 0`
unfoldable pub same_text : List ℕ → List ℕ → Bool
same_text [] [] = true
same_text [] (d ∷ ds) = false
same_text (c ∷ cs) [] = false
same_text (c ∷ cs) (d ∷ ds) = (c == d) && same_text cs ds

abbrev pub without_oldest : List (List ℕ) → List (List ℕ)
without_oldest [] = []
without_oldest (h ∷ hs) = hs

unfoldable pub cons_history_add : List (List ℕ) → List ℕ → List (List ℕ)
unfolding same_text
cons_history_add history cmdline =
    let n = length history in
    let room = if n == cons_history_max then without_oldest history else history in
    if length cmdline == 0
    then history
    else if ltb 0 n && same_text (get_or history (n - 1) []) cmdline
    then history
    else room ++ (cmdline ∷ [])

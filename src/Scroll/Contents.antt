-- ===== src/Scroll/Contents.antt =====
-- The lines of a window as a list, the oldest first.
use bxos.Common.{
  ℕ, zero, suc, ◌+◌, ◌-◌, ◌%◌, ◌<◌, ◌≡◌, refl, sym, ap, ap₂, ◌∙◌, List, [], ◌∷◌, ◌++◌, false, arith,
  length, ltb, drop, ltb→lt, length-append, Bool-cases, inl, inr,
}
use bxos.Scroll.{ScrollWin, Line, slot, line_at, opened, scrollwin_newline, set_line, max_lines}
use bxos.Scroll.Ring.{slot-grown, slot-full, slot-full_last, slot-full_ne, slot_newest}
use bxos.Scroll.Rows.{IsBounded, line_at-opened, count-opened, set_line_other, set_line_self}

-- `f` at 0, 1, ..., n - 1
unfoldable upto : (ℕ → Line) → ℕ → List Line
upto f zero = []
upto f (suc n) = upto f n ++ (f n ∷ [])

unfoldable pub contents : ScrollWin → List Line
unfolding upto
contents w = upto (line_at w) w.count

upto-same : (f g : ℕ → Line) (n : ℕ) → ((i : ℕ) → i < n → f i ≡ g i) → upto f n ≡ upto g n
unfolding upto
upto-same f g zero h = refl
upto-same f g (suc n) h =
    ap₂ (λ xs x. xs ++ (x ∷ [])) (upto-same f g n (λ i a. h i (omega arith))) (h n (omega arith))

upto-first : (f : ℕ → Line) (n : ℕ) → upto f (suc n) ≡ f 0 ∷ upto (λ i. f (suc i)) n
unfolding upto
upto-first f zero = refl
upto-first f (suc n) = ap (λ xs. xs ++ (f (suc n) ∷ [])) (upto-first f n)

upto-drop :
    (f g : ℕ → Line) (n : ℕ)
    → ((i : ℕ) → i < n → g i ≡ f (suc i))
    → g n ≡ []
    → upto g (suc n) ≡ drop 1 (upto f (suc n) ++ ([] ∷ []))
unfolding upto
upto-drop f g n h e =
    ap₂ (λ xs x. xs ++ (x ∷ [])) (upto-same g (λ i. f (suc i)) n h) e
    ∙ ap (λ xs. drop 1 (xs ++ ([] ∷ []))) (sym (upto-first f n))

length-upto : (f : ℕ → Line) (n : ℕ) → length (upto f n) ≡ n
unfolding upto
length-upto f zero = refl
length-upto f (suc n) =
    length-append (upto f n) (f n ∷ []) ∙ ap (λ k. k + 1) (length-upto f n) ∙ omega arith

length_more : (f : ℕ → Line) (n : ℕ) → length (upto f n ++ ([] ∷ [])) ≡ n + 1
length_more f n = length-append (upto f n) ([] ∷ []) ∙ ap (λ k. k + 1) (length-upto f n)

-- the newest 512 lines of a list that has at most one more
abbrev pub newest : List Line → List Line
newest xs = drop (length xs - max_lines) xs

newest-drop : (xs : List Line) (k : ℕ) → length xs - max_lines ≡ k → newest xs ≡ drop k xs
newest-drop xs k e = ap (λ n. drop n xs) e

module _ (w : ScrollWin) (b : IsBounded w) where
  count-suc : w.count < 512 → (opened w).count ≡ suc w.count
  count-suc h = ground arith

  -- the line behind the last is the one that is cleared
  newest-line : w.count < 512 → line_at (opened w) w.count ≡ []
  newest-line h =
      ap (λ c. set_line w.lines w.head [] (slot ((w.head + 1) % 512) c w.count)) (count-opened w h)
      ∙ ap (set_line w.lines w.head []) (
          slot-grown w.head w.count w.count b.head h (omega arith)
          ∙ slot_newest w.head w.count b.head h)
      ∙ set_line_self w.lines w.head []

  grown-contents :
      w.count < 512 → upto (line_at (opened w)) (opened w).count ≡ contents w ++ ([] ∷ [])
  unfolding contents upto
  grown-contents h =
      ap (upto (line_at (opened w))) (count-suc h)
      ∙ ap₂ (λ xs x. xs ++ (x ∷ []))
          (upto-same (line_at (opened w)) (line_at w) w.count (λ i a. line_at-opened w i b h a))
          (newest-line h)

  -- In a full ring each line takes the place of the one before.
  module _ (k : ℕ) (full : w.count ≡ suc k) (e : suc k ≡ 512) where
    count-full : (opened w).count ≡ suc k
    count-full = ground (arith, full, e)

    line_at-full : (i : ℕ) → i < k → line_at (opened w) i ≡ line_at w (suc i)
    line_at-full i a =
        ap (λ c. set_line w.lines w.head [] (slot ((w.head + 1) % 512) c i)) (count-full ∙ e)
        ∙ ap (set_line w.lines w.head []) (slot-full w.head i b.head (omega arith))
        ∙ set_line_other w.lines w.head [] (slot w.head 512 (suc i))
            (slot-full_ne w.head i b.head (omega arith))
        ∙ ap (λ c. w.lines (slot w.head c (suc i))) (sym e ∙ sym full)

    last : k ≡ 511
    last = omega arith

    oldest-full : line_at (opened w) k ≡ []
    oldest-full =
        ap₂ (λ c i. set_line w.lines w.head [] (slot ((w.head + 1) % 512) c i)) (count-full ∙ e)
          last
        ∙ ap (set_line w.lines w.head []) (slot-full_last w.head b.head)
        ∙ set_line_self w.lines w.head []

    full-contents : upto (line_at (opened w)) (opened w).count ≡ drop 1 (contents w ++ ([] ∷ []))
    unfolding contents
    full-contents =
        ap (upto (line_at (opened w))) count-full
        ∙ upto-drop (line_at w) (line_at (opened w)) k line_at-full oldest-full
        ∙ ap (λ n. drop 1 (upto (line_at w) n ++ ([] ∷ []))) (sym full)

full_count : (w : ScrollWin) → IsBounded w → ltb w.count 512 ≡ false → w.count ≡ 512
full_count w b e = ground (arith, b.most)

few : (n : ℕ) → n < 512 → (n + 1) - 512 ≡ 0
few n h = omega arith

one : (n : ℕ) → n ≡ 512 → (n + 1) - 512 ≡ 1
one n h = omega arith

-- A new line joins the lines at the end; if that makes 513, the oldest is lost.
pub newline-contents :
    (w : ScrollWin)
    → IsBounded w
    → contents (scrollwin_newline w) ≡ newest (contents w ++ ([] ∷ []))
unfolding contents scrollwin_newline
newline-contents w b =
    let more = ap (λ n. n - 512) (length_more (line_at w) w.count) in
    elim (Bool-cases (ltb w.count 512)) [
      | inl e1 ↦
          grown-contents w b (ltb→lt w.count 512 e1)
          ∙ sym
              (newest-drop (contents w ++ ([] ∷ [])) 0 (more ∙ few w.count (ltb→lt w.count 512 e1)))
      | inr e0 ↦
          full-contents w b (w.count - 1) (omega (arith, b.some_line))
            (omega (arith, b.some_line, full_count w b e0))
          ∙ sym (newest-drop (contents w ++ ([] ∷ [])) 1 (more ∙ one w.count (full_count w b e0)))
    ]

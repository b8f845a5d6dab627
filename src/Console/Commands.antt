-- ===== src/Console/Commands.antt =====
-- `cons_history_add` (harib27f/haribote/console.c) keeps the list of past commands well formed.
use bxos.Common.{
  ℕ, suc, ◌-◌, ◌≤◌, ◌<◌, List, [], ◌∷◌, ◌++◌, true, false, ◌&&◌, ltb, ◌==◌, get_or, length,
  length-snoc, ◌≡◌, refl, subst, sym, arith, Bool-cases, inl, inr,
}
use bxos.Console.History.{cons_history_max, same_text, without_oldest, cons_history_add}

-- No command is empty, and none repeats the one before it, which is `last` at first.
abbrev pub IsFresh : List ℕ → List (List ℕ) → Type 0
IsFresh last [] = Unit {0}
IsFresh last (h ∷ hs) = (0 < length h) × (same_text last h ≡ false) × IsFresh h hs

abbrev pub IsHistory : List (List ℕ) → Type 0
IsHistory hs = (length hs ≤ cons_history_max) × IsFresh [] hs

abbrev pub last_of : List ℕ → List (List ℕ) → List ℕ
last_of last [] = last
last_of last (h ∷ hs) = last_of h hs

IsFresh-snoc :
    (last : List ℕ) (hs : List (List ℕ)) (h : List ℕ)
    → 0 < length h
    → same_text (last_of last hs) h ≡ false
    → IsFresh last hs
    → IsFresh last (hs ++ (h ∷ []))
IsFresh-snoc last [] h l e f = (l, e, tt)
IsFresh-snoc last (g ∷ hs) h l e f = (f.0, f.1, IsFresh-snoc g hs h l e f.2)

last_of-get_or :
    (g : List ℕ) (hs : List (List ℕ)) (last : List ℕ)
    → get_or (g ∷ hs) (length (g ∷ hs) - 1) [] ≡ last_of last (g ∷ hs)
last_of-get_or g [] last = refl
last_of-get_or g (h ∷ hs) last =
    let e : length (g ∷ h ∷ hs) - 1 ≡ suc (length (h ∷ hs) - 1) = omega arith in
    rw e (last_of-get_or h hs g)

last_of-snoc : (last : List ℕ) (hs : List (List ℕ)) (h : List ℕ) → last_of last (hs ++ (h ∷ [])) ≡ h
last_of-snoc last [] h = refl
last_of-snoc last (g ∷ hs) h = last_of-snoc g hs h

same_text_refl : (h : List ℕ) → same_text h h ≡ true
unfolding same_text
same_text_refl [] = refl
same_text_refl (c ∷ cs) = ground (arith, same_text_refl cs)

same_text-empty : (h : List ℕ) → 0 < length h → same_text [] h ≡ false
unfolding same_text
same_text-empty [] l = absurd (omega arith)
same_text-empty (c ∷ cs) l = refl

-- The oldest can go.
without_oldest-IsFresh : (hs : List (List ℕ)) → IsFresh [] hs → IsFresh [] (without_oldest hs)
without_oldest-IsFresh [] f = f
without_oldest-IsFresh (g ∷ []) f = tt
without_oldest-IsFresh (g ∷ h ∷ hs) f =
    let (_, _, (l, _, rest)) = f in (l, same_text-empty h l, rest)

-- What is last does not change when the oldest of several goes.
last_of-without_oldest :
    (hs : List (List ℕ)) → 1 < length hs → last_of [] (without_oldest hs) ≡ last_of [] hs
last_of-without_oldest [] l = refl
last_of-without_oldest (g ∷ []) l = absurd (omega arith)
last_of-without_oldest (g ∷ h ∷ hs) l = refl

-- a command that is not empty and not the last one goes to the end
snoc-IsHistory :
    (hs : List (List ℕ)) (h : List ℕ)
    → length hs < cons_history_max
    → IsFresh [] hs
    → 0 < length h
    → same_text (last_of [] hs) h ≡ false
    → IsHistory (hs ++ (h ∷ [])) × (same_text (last_of [] (hs ++ (h ∷ []))) h ≡ true)
snoc-IsHistory hs h room f l e = (
  (omega (arith, room, length-snoc hs h), IsFresh-snoc [] hs h l e f),
  rw (last_of-snoc [] hs h) (same_text_refl h),
)

-- the command that was typed is not the last one
not_last :
    (hs : List (List ℕ)) (h : List ℕ)
    → 0 < length h
    → (ltb 0 (length hs) && same_text (get_or hs (length hs - 1) []) h) ≡ false
    → same_text (last_of [] hs) h ≡ false
not_last [] h l e = same_text-empty h l
not_last (g ∷ hs) h l e =
    subst (λ t. same_text t h ≡ false) (last_of-get_or g hs []) (ground (arith, e))

is_last :
    (hs : List (List ℕ)) (h : List ℕ)
    → (ltb 0 (length hs) && same_text (get_or hs (length hs - 1) []) h) ≡ true
    → same_text (last_of [] hs) h ≡ true
is_last [] h e = absurd (ground (arith, e))
is_last (g ∷ hs) h e =
    subst (λ t. same_text t h ≡ true) (last_of-get_or g hs []) (ground (arith, e))

length-without_oldest :
    (hs : List (List ℕ)) → 0 < length hs → suc (length (without_oldest hs)) ≡ length hs
length-without_oldest [] l = absurd (omega arith)
length-without_oldest (g ∷ hs) l = refl

-- The list of past commands stays well formed: at most sixteen, none empty and none like the one before
-- it. A command that is not empty is then the last of them.
pub cons_history_add-IsHistory :
    (history : List (List ℕ)) (cmdline : List ℕ)
    → IsHistory history
    → IsHistory (cons_history_add history cmdline)
      × (0 < length cmdline
          → same_text (last_of [] (cons_history_add history cmdline)) cmdline ≡ true)
unfolding cons_history_add
cons_history_add-IsHistory hs h (room, f) = elim (Bool-cases (length h == 0)) [
  | inl e ↦ rw e ((room, f), λ l. absurd (ground (arith, e, l)))
  | inr e ↦
      rw e (elim (Bool-cases (ltb 0 (length hs) && same_text (get_or hs (length hs - 1) []) h)) [
        | inl r ↦ rw r ((room, f), λ _. is_last hs h r)
        | inr r ↦ rw r (
            let l : 0 < length h = ground (arith, e) in
            let fresh = not_last hs h l r in
            elim (Bool-cases (length hs == cons_history_max)) [
              | inl full ↦
                  let n : length hs ≡ cons_history_max = ground (arith, full) in
                  let (good, last) =
                    snoc-IsHistory (without_oldest hs) h
                      (omega (arith, n, length-without_oldest hs (omega (arith, n))))
                      (without_oldest-IsFresh hs f) l
                      (subst (λ t. same_text t h ≡ false)
                        (sym (last_of-without_oldest hs (omega (arith, n)))) fresh) in
                  rw full (good, λ _. last)
              | inr part ↦
                  let (good, last) = snoc-IsHistory hs h (ground (arith, part, room)) f l fresh in
                  rw part (good, λ _. last)
            ])
      ])
]

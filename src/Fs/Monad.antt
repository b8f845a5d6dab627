-- ===== src/Fs/Monad.antt =====
-- C functions that change a state and return early with a code. `hang` is a loop of the source that
-- is still running when the model's fuel is used up.
use bxos.Common.{Bool, true, false, Option, none, some}
use bxos.Common.Int.{ℤ}

pub data Result (A : Type 0) : Type 0 where
  ok : A → Result A
  err : ℤ → Result A
  hang : Result A

-- The state is returned also with a failure: what was changed before it stays changed.
abbrev pub M : Type 0 → Type 0 → Type 0
M S A = S → Result A × S

abbrev pub pure : {S A : Type 0} → A → M S A
pure a s = (ok a, s)

abbrev pub raise : {S A : Type 0} → ℤ → M S A
raise code s = (err code, s)

abbrev pub never : {S A : Type 0} → M S A
never s = (hang, s)

abbrev pub continue : {S A B : Type 0} → Result A → S → (A → M S B) → Result B × S
continue (ok a) s f = f a s
continue (err code) s f = (err code, s)
continue hang s f = (hang, s)

infixl 5 ◌>>=◌ ◌>>◌
abbrev pub ◌>>=◌ : {S A B : Type 0} → M S A → (A → M S B) → M S B
◌>>=◌ m f s = continue (m s).0 (m s).1 f

abbrev pub ◌>>◌ : {S B : Type 0} → M S (Unit {0}) → M S B → M S B
m >> k = m >>= λ _. k

abbrev pub get : {S : Type 0} → M S S
get s = (ok s, s)

abbrev pub put : {S : Type 0} → S → M S (Unit {0})
put s' s = (ok tt, s')

-- `if (!test) return code;`
abbrev pub unless : {S : Type 0} → Bool → ℤ → M S (Unit {0})
unless true code s = (ok tt, s)
unless false code s = (err code, s)

abbrev pub or_fail : {S A : Type 0} → Option A → ℤ → M S A
or_fail (some a) code s = (ok a, s)
or_fail none code s = (err code, s)

abbrev pub or_hang : {S A : Type 0} → Option A → M S A
or_hang (some a) s = (ok a, s)
or_hang none s = (hang, s)

abbrev pub recode_result : {A : Type 0} → Result A → ℤ → Result A
recode_result (ok a) code = ok a
recode_result (err _) code = err code
recode_result hang code = hang

-- `if (f() fails) return code;`
abbrev pub recode : {S A : Type 0} → M S A → ℤ → M S A
recode m code s = (recode_result (m s).0 code, (m s).1)

abbrev pub attempt_result : {A : Type 0} → Result A → Result (Option A)
attempt_result (ok a) = ok (some a)
attempt_result (err code) = ok none
attempt_result hang = hang

-- `if (f() succeeds) ...`
abbrev pub attempt : {S A : Type 0} → M S A → M S (Option A)
attempt m s = (attempt_result (m s).0, (m s).1)

-- ===== src/Base/Exec.antt =====
-- Go methods that change state and may return an error or panic. What was written before an error
-- stays written, so the state comes back beside the error too.
pub mod Ensures
pub mod Preserves
use mathlib.Core.List.{List, [], ◌∷◌}
use mathlib.Core.Option.{Option, none, some}
use kvrocks_operator.Base.Text.{Bytes}

-- The reasons that the operator tells apart, by `errors.IsNotFound` and its like.
pub data Error : Type 0 where
  not_found already_exists conflict forbidden invalid : Error
  other : Bytes → Error

pub data Result {ℓ} (A : Type ℓ) : Type ℓ where
  ok : A → Result A
  err : Error → Result A
  panic : Result A

abbrev pub Exec {ℓ} : Type ℓ → Type ℓ → Type ℓ
Exec S A = S → Result A × S

module _ {ℓ} {S A : Type ℓ} where
  unfoldable pub pure : A → Exec S A
  pure a s = (ok a, s)

  unfoldable pub raise : Error → Exec S A
  raise e s = (err e, s)

  -- A nil dereference or an index out of range.
  unfoldable pub crash : Exec S A
  crash s = (panic, s)

  unfoldable pub gets : (S → A) → Exec S A
  gets f s = (ok (f s), s)

  abbrev caught : Result A × S → Result (Result A) × S
  caught (ok a, s) = (ok (ok a), s)
  caught (err e, s) = (ok (err e), s)
  caught (panic, s) = (panic, s)

  -- The error as a value, for code that looks at it.
  unfoldable pub attempt : Exec S A → Exec S (Result A)
  attempt m s = caught (m s)

  -- A value that the code dereferences or indexes.
  unfoldable pub or_crash : Option A → Exec S A
  unfolding pure crash
  or_crash none = crash
  or_crash (some a) = pure a

module _ {S : Type 0} where
  unfoldable pub modify : (S → S) → Exec S Unit
  modify f s = (ok tt, f s)

module _ {ℓ} {S A B : Type ℓ} where
  abbrev pub and_then : Result A × S → (A → Exec S B) → Result B × S
  and_then (ok a, s) f = f a s
  and_then (err e, s) f = (err e, s)
  and_then (panic, s) f = (panic, s)

  infixl 10 ◌>>=◌ ◌>>◌
  -- Opening this opens the basic actions too.
  unfoldable pub ◌>>=◌ : Exec S A → (A → Exec S B) → Exec S B
  unfolding pure raise crash gets modify or_crash
  ◌>>=◌ m f s = and_then (m s) f

  abbrev pub ◌>>◌ : Exec S A → Exec S B → Exec S B
  m >> n = m >>= λ _. n

module _ {S A : Type 0} where
  -- `for _, a := range as { ... return err ... }`
  unfoldable pub for_each : List A → (A → Exec S Unit) → Exec S Unit
  unfolding ◌>>=◌
  for_each [] f = pure tt
  for_each (a ∷ rest) f = f a >> for_each rest f

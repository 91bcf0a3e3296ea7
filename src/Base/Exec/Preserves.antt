-- ===== src/Base/Exec/Preserves.antt =====
-- A property of the state that a method keeps however it ends, with a rule for each way to build one.
use mathlib.Core.Bool.{Bool, true, false}
use mathlib.Core.Option.{Option, none, some}
use mathlib.Core.List.{List, [], ◌∷◌}
use kvrocks_operator.Base.Tests.{if◌then◌else◌}
use kvrocks_operator.Base.Exec.{
  Error, Result, ok, err, panic, Exec, pure, raise, crash, gets, attempt, caught, or_crash,
  and_then, for_each, ◌>>=◌,
}

-- A family, so that the rules determine their arguments.
pub data Preserves {S A : Type 0} (P : S → Type 0) (m : Exec S A) : Type 0 where
  kept : ((s : S) → P s → P (m s).1) → Preserves P m

caught_state : {S A : Type 0} (P : S → Type 0) (r : Result A × S) → P r.1 → P (caught r).1
caught_state P (ok a, s) h = h
caught_state P (err e, s) h = h
caught_state P (panic, s) h = h

module _ {S A : Type 0} {P : S → Type 0} where
  -- What the rules are for.
  pub Preserves-at : (m : Exec S A) → Preserves P m → (s : S) → P s → P (m s).1
  Preserves-at m (kept f) = f

  pub Preserves-pure : (a : A) → Preserves P (pure a)
  unfolding pure
  Preserves-pure a = kept (λ s h. h)

  pub Preserves-raise : (e : Error) → Preserves P (raise {A = A} e)
  unfolding raise
  Preserves-raise e = kept (λ s h. h)

  pub Preserves-crash : Preserves P (crash {A = A})
  unfolding crash
  Preserves-crash = kept (λ s h. h)

  pub Preserves-gets : (f : S → A) → Preserves P (gets f)
  unfolding gets
  Preserves-gets f = kept (λ s h. h)

  pub Preserves-or_crash : (o : Option A) → Preserves P (or_crash o)
  unfolding or_crash
  Preserves-or_crash none = Preserves-crash
  Preserves-or_crash (some a) = Preserves-pure a

  pub Preserves-if :
      (b : Bool) (m n : Exec S A) → Preserves P m → Preserves P n → Preserves P (if b then m else n)
  Preserves-if true m n hm hn = hm
  Preserves-if false m n hm hn = hn

  pub Preserves-elim_option :
      {B : Type 0} (o : Option B) (m : Exec S A) (f : B → Exec S A)
      → Preserves P m
      → ((b : B) → Preserves P (f b))
      → Preserves P (elim o [ none ↦ m | some b ↦ f b ])
  Preserves-elim_option none m f hm hf = hm
  Preserves-elim_option (some b) m f hm hf = hf b

  pub Preserves-elim_list :
      {B : Type 0} (list : List B) (m : Exec S A) (f : B → List B → Exec S A)
      → Preserves P m
      → ((b : B) (rest : List B) → Preserves P (f b rest))
      → Preserves P (elim list [ [] ↦ m | b ∷ rest ↦ f b rest ])
  Preserves-elim_list [] m f hm hf = hm
  Preserves-elim_list (b ∷ rest) m f hm hf = hf b rest

  pub Preserves-attempt : (m : Exec S A) → Preserves P m → Preserves P (attempt m)
  unfolding attempt
  Preserves-attempt m (kept f) = kept (λ s h. caught_state P (m s) (f s h))

module _ {S A B : Type 0} {P : S → Type 0} where
  rest_state :
      (r : Result A × S) (f : A → Exec S B)
      → P r.1
      → ((a : A) → Preserves P (f a))
      → P (and_then r f).1
  rest_state (ok a, s) f h k = Preserves-at (f a) (k a) s h
  rest_state (err e, s) f h k = h
  rest_state (panic, s) f h k = h

  pub Preserves-bind :
      (m : Exec S A) (f : A → Exec S B)
      → Preserves P m
      → ((a : A) → Preserves P (f a))
      → Preserves P (m >>= f)
  unfolding ◌>>=◌
  Preserves-bind m f (kept g) k = kept (λ s h. rest_state (m s) f (g s h) k)

module _ {S A : Type 0} {P : S → Type 0} where
  pub Preserves-for_each :
      (list : List A) (f : A → Exec S Unit)
      → ((a : A) → Preserves P (f a))
      → Preserves P (for_each list f)
  unfolding for_each
  Preserves-for_each [] f k = Preserves-pure tt
  Preserves-for_each (a ∷ rest) f k =
      Preserves-bind (f a) (λ _. for_each rest f) (k a) (λ _. Preserves-for_each rest f k)

pub ruleset preserves_rules = (
  Preserves-pure, Preserves-raise, Preserves-crash, Preserves-gets, Preserves-or_crash,
  Preserves-if, Preserves-elim_option, Preserves-elim_list, Preserves-attempt, Preserves-bind,
  Preserves-for_each,
)

-- ===== src/Base/Exec/Ensures.antt =====
-- What holds of the value and the state behind a method that ends without an error or a panic.
use mathlib.Core.Option.{Option, none, some}
use mathlib.Core.List.{List, [], ◌∷◌}
use mathlib.Core.Path.{◌≡◌, refl}
use kvrocks_operator.Base.Exec.{
  Result, ok, err, panic, Exec, and_then, ◌>>=◌, or_crash, crash, pure, for_each, caught, attempt,
}

module _ {S A : Type 0} where
  abbrev pub Post : (A → S → Type 0) → Result A × S → Type 0
  Post Q (ok a, s) = Q a s
  Post Q (err e, s) = Unit
  Post Q (panic, s) = Unit

  abbrev pub Ensures : Exec S A → (A → S → Type 0) → Type 0
  Ensures m Q = (s : S) → Post Q (m s)

  pub Post-any : (r : Result A × S) → Post (λ a s. Unit) r
  Post-any (ok a, s) = tt
  Post-any (err e, s) = tt
  Post-any (panic, s) = tt

module _ {S A B : Type 0} where
  Post-and_then :
      (r : Result A × S) (f : A → Exec S B) (P : A → S → Type 0) (Q : B → S → Type 0)
      → Post P r
      → ((a : A) (s : S) → P a s → Post Q (f a s))
      → Post Q (and_then r f)
  Post-and_then (ok a, s) f P Q h k = k a s h
  Post-and_then (err e, s) f P Q h k = tt
  Post-and_then (panic, s) f P Q h k = tt

  -- From one state.
  pub Post-bind :
      (m : Exec S A) (f : A → Exec S B) (s : S) (P : A → S → Type 0) (Q : B → S → Type 0)
      → Post P (m s)
      → ((a : A) (s' : S) → P a s' → Post Q (f a s'))
      → Post Q ((m >>= f) s)
  unfolding ◌>>=◌
  Post-bind m f s P Q h k = Post-and_then (m s) f P Q h k

  pub Ensures-bind :
      (m : Exec S A) (f : A → Exec S B) (P : A → S → Type 0) (Q : B → S → Type 0)
      → Ensures m P
      → ((a : A) (s : S) → P a s → Post Q (f a s))
      → Ensures (m >>= f) Q
  unfolding ◌>>=◌
  Ensures-bind m f P Q h k s = Post-and_then (m s) f P Q (h s) k

  -- The same where the first part is known nothing of.
  pub Ensures-after :
      (m : Exec S A) (f : A → Exec S B) (Q : B → S → Type 0)
      → ((a : A) → Ensures (f a) Q)
      → Ensures (m >>= f) Q
  Ensures-after m f Q k = Ensures-bind m f (λ a s. Unit) Q (λ s. Post-any (m s)) (λ a s _. k a s)

module _ {S A : Type 0} where
  pub Ensures-or_crash :
      (o : Option A) (Q : A → S → Type 0)
      → ((a : A) → o ≡ some a → (s : S) → Q a s)
      → Ensures (or_crash o) Q
  unfolding or_crash crash pure
  Ensures-or_crash none Q h s = tt
  Ensures-or_crash (some a) Q h s = h a refl s

module _ {S A : Type 0} where
  -- What `m` keeps where it ends without an error.
  abbrev pub Keeps : (S → Type 0) → (A → Exec S Unit) → Type 0
  Keeps P f = (a : A) (s : S) → P s → Post (λ _ s'. P s') (f a s)

  pub Keeps-for_each :
      (P : S → Type 0) (f : A → Exec S Unit)
      → Keeps P f
      → (list : List A) (s : S) → P s
      → Post (λ _ s'. P s') (for_each list f s)
  unfolding for_each pure
  Keeps-for_each P f k [] s h = h
  Keeps-for_each P f k (a ∷ list) s h =
      Post-bind (f a) (λ _. for_each list f) s (λ _ s'. P s') (λ _ s'. P s') (k a s h)
        (λ _ s' h'. Keeps-for_each P f k list s' h')

  pub Post-or_crash :
      (o : Option A) (s : S) (Q : A → S → Type 0)
      → ((a : A) → o ≡ some a → Q a s)
      → Post Q (or_crash o s)
  unfolding or_crash crash pure
  Post-or_crash none s Q h = tt
  Post-or_crash (some a) s Q h = h a refl

module _ {S A : Type 0} where
  -- An error that is taken as a value leaves the state of the call.
  pub Post-attempt :
      (P : S → Type 0) (m : Exec S A) (s : S) → P (m s).1 → Post (λ _ s'. P s') (attempt m s)
  unfolding attempt
  Post-attempt P m s h = caught_lem (m s) h
    where
      caught_lem : (r : Result A × S) → P r.1 → Post (λ _ s'. P s') (caught r)
      caught_lem (ok a, s) h = h
      caught_lem (err e, s) h = h
      caught_lem (panic, s) h = tt

  -- What holds of the state in every case holds where there is no error.
  pub Post-state : (P : S → Type 0) (r : Result A × S) → P r.1 → Post (λ _ s. P s) r
  Post-state P (ok a, s) h = h
  Post-state P (err e, s) h = tt
  Post-state P (panic, s) h = tt

  pub Post-weaken :
      (P Q : A → S → Type 0) (r : Result A × S)
      → Post P r
      → ((a : A) (s : S) → P a s → Q a s)
      → Post Q r
  Post-weaken P Q (ok a, s) h k = k a s h
  Post-weaken P Q (err e, s) h k = tt
  Post-weaken P Q (panic, s) h k = tt

module _ {S A B : Type 0} where
  -- What follows an attempt, by its result.
  abbrev pub resume : Result A × S → (Result A → Exec S B) → Result B × S
  resume (ok a, s) f = f (ok a) s
  resume (err e, s) f = f (err e) s
  resume (panic, s) f = (panic, s)

  resume_lem : (r : Result A × S) (f : Result A → Exec S B) → and_then (caught r) f ≡ resume r f
  resume_lem (ok a, s) f = refl
  resume_lem (err e, s) f = refl
  resume_lem (panic, s) f = refl

  pub attempt-resume :
      (m : Exec S A) (f : Result A → Exec S B) (s : S) → (attempt m >>= f) s ≡ resume (m s) f
  unfolding attempt ◌>>=◌
  attempt-resume m f s = resume_lem (m s) f

  -- A rest that leaves the state alone.
  pub and_then_state :
      (r : Result A × S) (f : A → Exec S B)
      → ((a : A) (s : S) → (f a s).1 ≡ s)
      → (and_then r f).1 ≡ r.1
  and_then_state (ok a, s) f h = h a s
  and_then_state (err e, s) f h = refl
  and_then_state (panic, s) f h = refl

-- ===== src/Base/Tests.antt =====
-- Boolean tests, the conditional, and case splits that keep the equation.
use Prim.Native.Nat.{ℕ, ◌<◌, compare, Ordering}
use mathlib.Core.Path.{◌≡◌, refl}
use mathlib.Core.Logic.{◌↔◌, ◌⊎◌, inl, inr, ◌≢◌}
use mathlib.Core.Bool.{Bool, true, false, ◌&&◌}
use mathlib.Core.Option.{Option, none, some}
use mathlib.Core.List.{List, [], ◌∷◌}
use native.Mathlib.Omega.{arith}

abbrev pub ltb : ℕ → ℕ → Bool
ltb a b = elim (compare a b) [ Ordering.lt ↦ true | _ ↦ false ]

abbrev pub leb : ℕ → ℕ → Bool
leb a b = elim (compare a b) [ Ordering.gt ↦ false | _ ↦ true ]

abbrev pub nat_beq : ℕ → ℕ → Bool
nat_beq a b = elim (compare a b) [ Ordering.eq ↦ true | _ ↦ false ]

infix 1 if◌then◌else◌
abbrev pub if◌then◌else◌ {ℓ} : {A : Type ℓ} → Bool → A → A → A
if true then x else y = x
if false then x else y = y

pub ltb→lt : (a b : ℕ) → ltb a b ≡ true → a < b
ltb→lt a b h = ground arith

pub lt→ltb : (a b : ℕ) → a < b → ltb a b ≡ true
lt→ltb a b h = ground arith

pub nat_beq_iff : (a b : ℕ) → (nat_beq a b ≡ true) ↔ (a ≡ b)
nat_beq_iff a b = ground arith

pub Bool-cases : (b : Bool) → (b ≡ true) ⊎ (b ≡ false)
Bool-cases true = inl refl
Bool-cases false = inr refl

pub Option-cases {ℓ} : {A : Type ℓ} (o : Option A) → (o ≡ none) ⊎ ((a : A) × (o ≡ some a))
Option-cases none = inl refl
Option-cases (some a) = inr (a, refl)

pub some-inj {ℓ} : {A : Type ℓ} {a b : A} → some a ≡ some b → a ≡ b
some-inj e = cc

-- Types that Go compares by `==`, with what the comparison decides.
pub record Comparable {ℓ} (A : Type ℓ) : Type ℓ where
  pub same : A → A → Bool
  pub same_refl : (a : A) → same a a ≡ true
  pub same_sound : (a b : A) → same a b ≡ true → a ≡ b

module _ {ℓ} {A : Type ℓ} ⦃c : Comparable A⦄ where
  infix 50 ◌==◌
  abbrev pub ◌==◌ : A → A → Bool
  a == b = c.same a b

pub nat_beq_refl : (a : ℕ) → nat_beq a a ≡ true
nat_beq_refl a = ground arith

instance abbrev pub nat_eq : Comparable ℕ
nat_eq = record {
  same = nat_beq;
  same_refl = nat_beq_refl;
  same_sound = λ a b. (nat_beq_iff a b).0;
}

abbrev pub bytes_beq : List ℕ → List ℕ → Bool
bytes_beq [] [] = true
bytes_beq [] (c ∷ t) = false
bytes_beq (b ∷ s) [] = false
bytes_beq (b ∷ s) (c ∷ t) = nat_beq b c && bytes_beq s t

pub bytes_beq_refl : (s : List ℕ) → bytes_beq s s ≡ true
bytes_beq_refl [] = refl
bytes_beq_refl (b ∷ s) = ground (arith, bytes_beq_refl s)

pub bytes_beq_sound : (s t : List ℕ) → bytes_beq s t ≡ true → s ≡ t
bytes_beq_sound [] [] h = refl
bytes_beq_sound [] (c ∷ t) h = cc
bytes_beq_sound (b ∷ s) [] h = cc
bytes_beq_sound (b ∷ s) (c ∷ t) h = ground (arith, bytes_beq_sound s t)

pub bytes_beq_iff : (s t : List ℕ) → (bytes_beq s t ≡ true) ↔ (s ≡ t)
bytes_beq_iff s t = (bytes_beq_sound s t, λ e. ground (arith, bytes_beq_refl s))

instance abbrev pub bytes_eq : Comparable (List ℕ)
bytes_eq = record { same = bytes_beq; same_refl = bytes_beq_refl; same_sound = bytes_beq_sound }

module _ {ℓ} {A : Type ℓ} ⦃c : Comparable A⦄ where
  pub ==_refl : (a : A) → (a == a) ≡ true
  ==_refl a = c.same_refl a

  pub ==_sound : (a b : A) → (a == b) ≡ true → a ≡ b
  ==_sound a b = c.same_sound a b

  pub ne→==_false : (a b : A) → a ≢ b → (a == b) ≡ false
  ne→==_false a b h = elim (Bool-cases (a == b)) [ inl t ↦ absurd (h (==_sound a b t)) | inr f ↦ f ]

-- ===== src/Kvrocks/Slots/Order.antt =====
-- What sorting does to a list of slots.
use mathlib.Core.List.{Perm}
use mathlib.Core.List.Perm
use kvrocks_operator.Base.{ℕ, ◌≤◌, List, [], ◌∷◌, All, arith, leb, Bool-cases, inl, inr}
use kvrocks_operator.Kvrocks.Slots.{insert, sort}

abbrev pub IsSorted : List ℕ → Type 0
IsSorted [] = Unit
IsSorted (a ∷ xs) = All (λ b. a ≤ b) xs × IsSorted xs

module _ (P : ℕ → Type 0) where
  insert-All : (a : ℕ) (xs : List ℕ) → P a → All P xs → All P (insert a xs)
  unfolding insert
  insert-All a [] p h = (p, tt)
  insert-All a (b ∷ xs) p (pb, h) = elim (Bool-cases (leb a b)) [
    | inl e ↦ rw e (p, (pb, h))
    | inr e ↦ rw e (pb, insert-All a xs p h)
  ]

  pub sort-All : (xs : List ℕ) → All P xs → All P (sort xs)
  unfolding sort
  sort-All [] h = tt
  sort-All (a ∷ xs) (p, h) = insert-All a (sort xs) p (sort-All xs h)

All-le : (a b : ℕ) (xs : List ℕ) → a ≤ b → All (λ c. b ≤ c) xs → All (λ c. a ≤ c) xs
All-le a b [] h k = tt
All-le a b (c ∷ xs) h (bc, k) = (omega arith, All-le a b xs h k)

insert-IsSorted : (a : ℕ) (xs : List ℕ) → IsSorted xs → IsSorted (insert a xs)
unfolding insert
insert-IsSorted a [] s = (tt, tt)
insert-IsSorted a (b ∷ xs) (below, s) = elim (Bool-cases (leb a b)) [
  | inl e ↦ rw e (((ground arith), All-le a b xs (ground arith) below), (below, s))
  | inr e ↦ rw e (insert-All (λ c. b ≤ c) a xs (ground arith) below, insert-IsSorted a xs s)
]

pub sort-IsSorted : (xs : List ℕ) → IsSorted (sort xs)
unfolding sort
sort-IsSorted [] = tt
sort-IsSorted (a ∷ xs) = insert-IsSorted a (sort xs) (sort-IsSorted xs)

insert-perm : (a : ℕ) (xs : List ℕ) → Perm (insert a xs) (a ∷ xs)
unfolding insert
insert-perm a [] = Perm.refl (a ∷ [])
insert-perm a (b ∷ xs) = elim (Bool-cases (leb a b)) [
  | inl e ↦ rw e (Perm.refl (a ∷ b ∷ xs))
  | inr e ↦ rw e (Perm.trans (Perm.cons b (insert-perm a xs)) (Perm.swap a b xs))
]

pub sort-perm : (xs : List ℕ) → Perm (sort xs) xs
unfolding sort
sort-perm [] = Perm.refl []
sort-perm (a ∷ xs) = Perm.trans (insert-perm a (sort xs)) (Perm.cons a (sort-perm xs))

-- ===== src/Standard/Scaling/Agrees.antt =====
-- The standard handler and the cluster handler reserve the same ordinals, though one leaves its loop
-- at the first ordinal above the master and the other filters.
use mathlib.Core.List.{reverse}
use kvrocks_operator.Base.{ℕ, ◌<◌, false, List, [], ◌∷◌, ◌≡◌, refl, All, keep, leb, arith}
use kvrocks_operator.Kvrocks.{Node}
use kvrocks_operator.Common.Reserve.Picked.{
  picked, passed, pick-picked, IsAscending, IsDescending-reverse, picked-Falling, Rising,
  Rising-reverse,
}
use kvrocks_operator.Standard.Scaling.{reserve_below, standard_reserve}

-- Above the master nothing is kept.
keep-none : (m : ℕ) (ids : List ℕ) → All (λ b. m < b) ids → keep (λ id. leb id m) ids ≡ []
keep-none m [] h = refl
keep-none m (a ∷ ids) (above, h) = ground (arith, keep-none m ids h)

All-beyond : (m a : ℕ) (ids : List ℕ) → m < a → All (λ b. a < b) ids → All (λ b. m < b) ids
All-beyond m a [] ma h = tt
All-beyond m a (b ∷ ids) ma (ab, h) = (omega arith, All-beyond m a ids ma h)

beyond-none :
    (m a : ℕ) (ids : List ℕ)
    → All (λ b. a < b) ids
    → leb a m ≡ false
    → keep (λ id. leb id m) ids ≡ []
beyond-none m a ids above e = keep-none m ids (All-beyond m a ids (ground arith) above)

reserve_below-keep :
    (m : ℕ) (ids : List ℕ) → Rising ids → reserve_below m ids ≡ keep (λ id. leb id m) ids
unfolding reserve_below
reserve_below-keep m [] h = refl
reserve_below-keep m (a ∷ ids) (above, h) =
    ground (arith, reserve_below-keep m ids h, beyond-none m a ids above)

-- What the standard handler reserves when it scales the set of an ascending list of nodes down by
-- `delta`: the ordinals of the last `delta` nodes that are no masters, in rising order, without
-- those above the last master that the loop passes (ordinal 0 stands for it where none is passed).
pub standard_reserve_lem :
    (delta : ℕ) (nodes : List Node)
    → IsAscending nodes
    → standard_reserve delta nodes
      ≡ keep
          (λ id. leb id (passed delta (reverse nodes) 0))
          (reverse (picked delta (reverse nodes)))
unfolding standard_reserve
standard_reserve_lem delta nodes h = rw (pick-picked delta (reverse nodes) [] 0) (
    reserve_below-keep (passed delta (reverse nodes) 0) (reverse (picked delta (reverse nodes))) (
      Rising-reverse (picked delta (reverse nodes))
        (picked-Falling delta (reverse nodes) (IsDescending-reverse nodes h))))

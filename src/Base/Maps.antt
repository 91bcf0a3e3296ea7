-- ===== src/Base/Maps.antt =====
-- Go maps from text, as association lists. Where a map is ranged over, the list's order stands for
-- the order that the run time picks.
pub mod Included
use mathlib.Core.Path.{◌≡◌, refl}
use mathlib.Core.Bool.{Bool, true, false, ◌&&◌}
use mathlib.Core.List.{List, [], ◌∷◌}
use mathlib.Core.Option.{Option, none, some}
use native.Mathlib.Omega.{arith}
use kvrocks_operator.Base.Tests.{◌==◌, bytes_eq, bytes_beq_iff, if◌then◌else◌}
use kvrocks_operator.Base.Text.{Bytes}

module _ {ℓ} {V : Type ℓ} where
  -- v, ok := m[k]
  unfoldable pub lookup : Bytes → List (Bytes × V) → Option V
  lookup k [] = none
  lookup k ((j, v) ∷ m) = if j == k then some v else lookup k m

  -- m[k] = v
  unfoldable pub put : Bytes → V → List (Bytes × V) → List (Bytes × V)
  put k v [] = (k, v) ∷ []
  put k v ((j, w) ∷ m) = if j == k then (k, v) ∷ m else (j, w) ∷ put k v m

  -- for k, v := range from { m[k] = v }
  unfoldable pub put_all : List (Bytes × V) → List (Bytes × V) → List (Bytes × V)
  unfolding put
  put_all [] m = m
  put_all ((k, v) ∷ from) m = put_all from (put k v m)

  pub lookup-put :
      (k j : Bytes) (v : V) (m : List (Bytes × V))
      → lookup j (put k v m) ≡ (if k == j then some v else lookup j m)
  unfolding lookup put
  lookup-put k j v [] = refl
  lookup-put k j v ((i, w) ∷ m) =
      ground (arith, bytes_beq_iff k j, bytes_beq_iff i k, bytes_beq_iff i j, lookup-put k j v m)

-- reflect.DeepEqual of two maps of texts: each has the entries of the other.
unfoldable pub includes : List (Bytes × Bytes) → List (Bytes × Bytes) → Bool
unfolding lookup
includes [] n = true
includes ((k, v) ∷ m) n = elim (lookup k n) [ none ↦ false | some w ↦ w == v && includes m n ]

unfoldable pub same_map : List (Bytes × Bytes) → List (Bytes × Bytes) → Bool
unfolding includes
same_map m n = includes m n && includes n m

-- ===== src/Examples/Scaling.antt =====
-- The theorems on scaling down at shards of three nodes.
use mathlib.Core.List.{reverse}
use kvrocks_operator.Base.{◌-◌, List, [], ◌∷◌, ◌++◌, ◌≡◌, refl, arith, some, keep, leb, length}
use kvrocks_operator.Kvrocks.{Node}
use kvrocks_operator.Common.Reserve.{pick}
use kvrocks_operator.Common.Reserve.Picked.{IsAscending, picked, passed, pick-picked}
use kvrocks_operator.Standard.Scaling.{standard_reserve}
use kvrocks_operator.Standard.Scaling.Agrees.{standard_reserve_lem}
use kvrocks_operator.Cluster.State.{Shard}
use kvrocks_operator.Cluster.Shrink.{get_reserve_index}
use kvrocks_operator.Cluster.Shrink.Reserve.{present, get_reserve_index_lem}
use kvrocks_operator.Examples.{leader, follower, follower_2}

abbrev three : List Node
three = leader ∷ follower ∷ follower_2 ∷ []

three_ascend : IsAscending three
three_ascend = ((omega arith, (omega arith, tt)), ((omega arith, tt), (tt, tt)))

pick-picked_example :
    pick 1 (reverse three) [] 0 ≡ ([] ++ picked 1 (reverse three), passed 1 (reverse three) 0)
pick-picked_example = pick-picked 1 (reverse three) [] 0

standard_reserve_lem_example :
    standard_reserve 1 three
    ≡ keep (λ id. leb id (passed 1 (reverse three) 0)) (reverse (picked 1 (reverse three)))
standard_reserve_lem_example = standard_reserve_lem 1 three three_ascend

get_reserve_index_lem_example :
    (shard' : Shard) × (get_reserve_index 2 (present three)
      ≡ some (some (standard_reserve (length three - 2) three), shard'))
    × (length shard' ≡ length three)
get_reserve_index_lem_example =
    get_reserve_index_lem 2 three (omega arith) three_ascend
      (omega arith, (omega arith, (omega arith, tt)))

-- The leader of the last ordinal is passed, so that the ordinals below it are reserved.
standard_reserve_at_the_end :
    standard_reserve 1 (follower ∷ record leader { pod_index = 2 } ∷ []) ≡ 1 ∷ []
unfolding standard_reserve
standard_reserve_at_the_end = refl

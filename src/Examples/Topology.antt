-- ===== src/Examples/Topology.antt =====
-- The theorems on slots and on the published topology at small clusters.
use kvrocks_operator.Base.{List, [], ◌∷◌, ◌≡◌, ◌≢◌, refl, arith, codes, map, some, true}
use kvrocks_operator.Kvrocks.{Node}
use kvrocks_operator.Kvrocks.Slots.{sort, slots_to_string, slots_to_int}
use kvrocks_operator.Kvrocks.Slots.RoundTrip.{slots_to_int-slots_to_string}
use kvrocks_operator.Cluster.Topology.{publish, restore, same_topology}
use kvrocks_operator.Cluster.Topology.RoundTrip.{IsFit, fresh, reread, restore-publish}
use kvrocks_operator.Cluster.Topology.Version.{
  AllAgree, same_topology-publish, same_topology-AllAgree,
}
use kvrocks_operator.Examples.{leader, follower}

slots_to_int-slots_to_string_example :
    slots_to_int (slots_to_string (7 ∷ 3 ∷ 5 ∷ 4 ∷ [])) ≡ sort (7 ∷ 3 ∷ 5 ∷ 4 ∷ [])
slots_to_int-slots_to_string_example =
    slots_to_int-slots_to_string (7 ∷ 3 ∷ 5 ∷ 4 ∷ [])
      (omega arith, (omega arith, (omega arith, (omega arith, tt))))

abbrev shards : List (List Node)
shards = (leader ∷ follower ∷ []) ∷ (leader ∷ []) ∷ []

nonempty : (a : Node) (nodes : List Node) → (a ∷ nodes) ≢ []
nonempty a nodes e = cc

leader_fits : IsFit leader
leader_fits = ((omega arith, (omega arith, (omega arith, tt))), tt)

restore-publish_example :
    restore (publish (codes "demo") 0 (map (map some) shards)) (map (map fresh) shards)
    ≡ some (map (map reread) shards)
restore-publish_example =
    restore-publish (codes "demo") 0 shards
      (nonempty leader (follower ∷ []), (nonempty leader [], tt))
      ((leader_fits, ((tt, tt), tt)), ((leader_fits, tt), tt))

shards-ne-nil : shards ≢ []
shards-ne-nil e = cc

same_topology-publish_example :
    same_topology (publish (codes "demo") 0 (map (map some) shards)) (map (map some) shards)
    ≡ some true
same_topology-publish_example =
    same_topology-publish (codes "demo") shards shards-ne-nil
      (nonempty leader (follower ∷ []), (nonempty leader [], tt))

unchanged :
    same_topology (publish (codes "demo") 0 (map (map some) shards)) (map (map some) shards)
    ≡ some true
unfolding same_topology publish
unchanged = refl

same_topology-AllAgree_example : AllAgree (publish (codes "demo") 0 (map (map some) shards)) shards
same_topology-AllAgree_example =
    same_topology-AllAgree (publish (codes "demo") 0 (map (map some) shards)) shards unchanged

-- ===== src/Cluster/Topology/RoundTrip.antt =====
-- One pass writes the topology to the status, the next one reads it back.
use kvrocks_operator.Base.{ℕ, suc, ◌<◌, Bytes, false, List, [], ◌∷◌, ◌≡◌, ◌≢◌, refl, map, some, All}
use kvrocks_operator.Base.Decimal.{max_int}
use kvrocks_operator.Kvrocks.{Node, MigrateMsg, empty_node}
use kvrocks_operator.Kvrocks.Slots.RoundTrip.{slots_to_int-slots_to_string}
use kvrocks_operator.Resources.Names.{get_stateful_set_name}
use kvrocks_operator.Cluster.Topology.{
  publish_migrate, publish_node, publish_nodes, publish_shard, publish, sort_migrate, sort_node,
  restore_migrate, restore_node, restore_nodes, restore,
}

abbrev Fit : List ℕ → Type 0
Fit = All (λ s. s < max_int)

-- The slots of a node, and those it is to give away, are below the largest int.
abbrev pub IsFit : Node → Type 0
IsFit node = Fit node.slots × All (λ (m : MigrateMsg). Fit m.slots) node.migrate

-- A node as `ensureKubernetes` makes it of a pod.
abbrev pub fresh : Node → Node
fresh node = record empty_node { ip = node.ip; pod_index = node.pod_index }

-- What comes back of a node: all but the failover flag, its slots in order.
abbrev pub reread : Node → Node
reread node = record (sort_node node) { failover = false }

restore_migrates :
    (ms : List MigrateMsg)
    → All (λ (m : MigrateMsg). Fit m.slots) ms
    → map restore_migrate (map publish_migrate ms) ≡ map sort_migrate ms
unfolding restore_migrate publish_migrate sort_migrate
restore_migrates [] h = refl
restore_migrates (m ∷ ms) (hm, h) =
    rw (restore_migrates ms h, slots_to_int-slots_to_string m.slots hm)

restore-publish_node :
    (name : Bytes) (j : ℕ) (node : Node)
    → IsFit node
    → restore_node (publish_node name j node) (fresh node) ≡ reread node
unfolding restore_node publish_node sort_node
restore-publish_node name j node (hs, hm) =
    rw (slots_to_int-slots_to_string node.slots hs, restore_migrates node.migrate hm)

restore-publish_nodes :
    (name : Bytes) (j : ℕ) (nodes : List Node)
    → All IsFit nodes
    → restore_nodes (publish_nodes name j (map some nodes)) (map fresh nodes)
      ≡ some (map reread nodes)
unfolding restore_nodes publish_nodes
restore-publish_nodes name j [] h = refl
restore-publish_nodes name j (node ∷ nodes) (hn, h) =
    rw (restore-publish_nodes name (suc j) nodes h, restore-publish_node name j node hn)

-- The nodes that a pass publishes, none of them cleared, no shard empty and all slots below the
-- largest int, are what the next pass restores over the same pods, with the slots sorted and the failover flags
-- unset.
pub restore-publish :
    (name : Bytes) (i : ℕ) (shards : List (List Node))
    → All (λ nodes. nodes ≢ []) shards
    → All (All IsFit) shards
    → restore (publish name i (map (map some) shards)) (map (map fresh) shards)
      ≡ some (map (map reread) shards)
unfolding restore publish publish_shard
restore-publish name i [] e h = refl
restore-publish name i ([] ∷ shards) (e, es) h = absurd (e refl)
restore-publish name i ((node ∷ nodes) ∷ shards) (e, es) (hn, h) = rw (
  restore-publish_nodes (get_stateful_set_name name i) 0 (node ∷ nodes) hn,
  restore-publish name (suc i) shards es h,
)

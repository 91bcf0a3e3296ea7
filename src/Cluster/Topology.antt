-- ===== src/Cluster/Topology.antt =====
-- The topology in the status: `ensureStatusTopoMsg`, the part of `ensureKubernetes` that reads it
-- back, and `ensureVersion` of pkg/controllers/cluster.
pub mod Kept
pub mod RoundTrip
pub mod Version
pub mod Messages
use kvrocks_operator.Base.{
  ℕ, suc, ◌+◌, Bytes, Bool, true, false, List, [], ◌∷◌, ◌++◌, map, Option, none, some, length, ◌&&◌,
  ◌==◌, nat_eq, bytes_eq, if◌then◌else◌,
}
use kvrocks_operator.Base.Exec.{
  Result, ok, err, panic, pure, raise, crash, gets, attempt, or_crash, ◌>>=◌, ◌>>◌,
}
use kvrocks_operator.Api
use kvrocks_operator.Api.{Kvrocks, Topology, TopoPartition}
use kvrocks_operator.Kvrocks.{Node, MigrateMsg, kvrocks_port}
use kvrocks_operator.Kvrocks.Slots.{sort, slots_to_string, slots_to_int}
use kvrocks_operator.Resources.Names.{indexed, get_stateful_set_name}
use kvrocks_operator.Client.Env.{Env}
use kvrocks_operator.Cluster.State.{Shard, Run, save_instance, set_nodes, set_requeue, set_version}

publish_migrate : MigrateMsg → Api.MigrateMsg
publish_migrate m = record { shard = m.shard; slots = slots_to_string m.slots }

-- The entry of a node; the flag for a failover is not written.
unfoldable pub publish_node : Bytes → ℕ → Node → Topology
unfolding publish_migrate
publish_node partition_name j node = record {
  pod = indexed partition_name j;
  role = node.role;
  node_id = node.node_id;
  ip = node.ip;
  port = kvrocks_port;
  slots = slots_to_string node.slots;
  master_id = node.master;
  migrate = map publish_migrate node.migrate;
  failover = false;
}

unfoldable pub publish_nodes : Bytes → ℕ → Shard → List Topology
unfolding publish_node
publish_nodes partition_name j [] = []
publish_nodes partition_name j (none ∷ nodes) = publish_nodes partition_name (suc j) nodes
publish_nodes partition_name j (some node ∷ nodes) =
    publish_node partition_name j node ∷ publish_nodes partition_name (suc j) nodes

publish_shard : Bytes → ℕ → Shard → TopoPartition
unfolding publish_nodes
publish_shard name i shard = record {
  partition_name = get_stateful_set_name name i;
  shard = i;
  topology = publish_nodes (get_stateful_set_name name i) 0 shard;
}

-- The loop of `ensureStatusTopoMsg`, for the instance's name.
unfoldable pub publish : Bytes → ℕ → List Shard → List TopoPartition
unfolding publish_shard
publish name i [] = []
publish name i ([] ∷ shards) = publish name (suc i) shards
publish name i ((node ∷ nodes) ∷ shards) =
    publish_shard name i (node ∷ nodes) ∷ publish name (suc i) shards

-- Printing slots sorts them where they are.
sort_migrate : MigrateMsg → MigrateMsg
unfolding sort
sort_migrate m = record m { slots = sort m.slots }

unfoldable pub sort_node : Node → Node
unfolding sort_migrate sort
sort_node node = record node { slots = sort node.slots; migrate = map sort_migrate node.migrate }

unfoldable pub sort_shard : Shard → Shard
unfolding sort_node
sort_shard [] = []
sort_shard (none ∷ nodes) = none ∷ sort_shard nodes
sort_shard (some node ∷ nodes) = some (sort_node node) ∷ sort_shard nodes

restore_migrate : Api.MigrateMsg → MigrateMsg
restore_migrate m = record { shard = m.shard; slots = slots_to_int m.slots }

-- What a node takes over from its entry of the status.
unfoldable pub restore_node : Topology → Node → Node
unfolding restore_migrate
restore_node topo node = record node {
  node_id = topo.node_id;
  role = topo.role;
  master = topo.master_id;
  slots = slots_to_int topo.slots;
  failover = topo.failover;
  migrate = node.migrate ++ map restore_migrate topo.migrate;
}

-- None where an entry has no node: an index out of range.
unfoldable pub restore_nodes : List Topology → List Node → Option (List Node)
unfolding restore_node
restore_nodes [] nodes = some nodes
restore_nodes (topo ∷ topoes) [] = none
restore_nodes (topo ∷ topoes) (node ∷ nodes) = elim (restore_nodes topoes nodes) [
  | none ↦ none
  | some rest ↦ some (restore_node topo node ∷ rest)
]

unfoldable pub restore : List TopoPartition → List (List Node) → Option (List (List Node))
unfolding restore_nodes
restore [] shards = some shards
restore (partition ∷ partitions) [] = none
restore (partition ∷ partitions) (nodes ∷ shards) = elim (restore_nodes partition.topology nodes) [
  | none ↦ none
  | some nodes' ↦ elim (restore partitions shards) [
    | none ↦ none
    | some shards' ↦ some (nodes' ∷ shards')
  ]
]

-- Whether a shard is as the status has it; none where a nil node is looked at.
same_nodes : List Topology → Shard → Option Bool
same_nodes [] [] = some true
same_nodes [] (_ ∷ _) = some true
same_nodes (topo ∷ topoes) [] = none
same_nodes (topo ∷ topoes) (none ∷ nodes) = none
same_nodes (topo ∷ topoes) (some node ∷ nodes) =
    let rest = same_nodes topoes nodes in
    if topo.ip == node.ip && topo.role == node.role then rest else some false

same_shards : List TopoPartition → List Shard → Option Bool
unfolding same_nodes
same_shards [] shards = some true
same_shards (partition ∷ partitions) [] = none
same_shards (partition ∷ partitions) (shard ∷ shards) =
    let rest = same_shards partitions shards in
    if length partition.topology == length shard
    then elim (same_nodes partition.topology shard) [
      | none ↦ none
      | some true ↦ rest
      | some false ↦ some false
    ]
    else some false

-- Whether the version stays, the tests of `ensureVersion` in their order.
unfoldable pub same_topology : List TopoPartition → List Shard → Option Bool
unfolding same_shards
same_topology [] shards = some false
same_topology (partition ∷ partitions) shards =
    if length shards == length (partition ∷ partitions)
    then same_shards (partition ∷ partitions) shards
    else some false

module _ {W : Type 0} where
  -- `ensureVersion`
  unfoldable pub ensure_version : Run W Unit
  unfolding ◌>>=◌ same_topology set_version
  ensure_version = do
    k ← gets (λ h. h.instance_)
    nodes ← gets (λ h. h.sts_nodes)
    version ← gets (λ h. h.version)
    same ← or_crash (same_topology k.status.topo nodes)
    if same then pure tt else set_version (version + 1)

  requeue_on_error : Result (Unit {0}) → Run W Unit
  unfolding ◌>>=◌ set_requeue
  requeue_on_error (ok _) = pure tt
  requeue_on_error (err e) = do set_requeue true; raise e
  requeue_on_error panic = crash

  -- `ensureStatusTopoMsg`
  unfoldable pub ensure_status_topo_msg : Env W → Run W Unit
  unfolding ◌>>=◌ attempt publish sort_shard set_nodes save_instance requeue_on_error
  ensure_status_topo_msg env = do
    k ← gets (λ h. h.instance_)
    nodes ← gets (λ h. h.sts_nodes)
    version ← gets (λ h. h.version)
    set_nodes (map sort_shard nodes)
    saved ← attempt (
        save_instance env (record k {
          status = record k.status { topo = publish k.name 0 nodes; version = version };
        }))
    requeue_on_error saved

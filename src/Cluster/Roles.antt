-- ===== src/Cluster/Roles.antt =====
-- Roles and labels: `initCluster`, `ensureReplication`, `updatePodLabels` and `ensureSetNodeID` of
-- pkg/controllers/cluster/kvrocks.go. Changed nodes are written back when their loop is through;
-- when a call in it fails, the pass ends, and the handler with its nodes is dropped.
pub mod Initial
pub mod Replicated
pub mod Messages
use kvrocks_operator.Base.{
  ℕ, zero, suc, Bytes, List, [], ◌∷◌, codes, Option, none, some, not, ◌&&◌, before_first, ◌==◌,
  nat_eq, bytes_eq, if◌then◌else◌,
}
use kvrocks_operator.Base.Maps.{lookup, put}
use kvrocks_operator.Base.Exec.{Exec, other, pure, raise, gets, or_crash, ◌>>=◌, ◌>>◌}
use kvrocks_operator.Api.{Key}
use kvrocks_operator.Kvrocks.{Node, role_master, role_slaver}
use kvrocks_operator.Kvrocks.Slots.{slots_to_int}
use kvrocks_operator.Client.Objects.{Pod}
use kvrocks_operator.Client.K8s.{get_pod, update_pod}
use kvrocks_operator.Client.Controller.{Member, ShardData, get_nodes}
use kvrocks_operator.Client.Env.{Env}
use kvrocks_operator.Resources.Names.{indexed, get_stateful_set_name}
use kvrocks_operator.Resources.Labels.{kvrocks_role}
use kvrocks_operator.Common.PodRole.{set_pod_role}
use kvrocks_operator.Common.{label_value}
use kvrocks_operator.Common.Reserve.{is_master}
use kvrocks_operator.Cluster.State.{Shard, Run, call, set_nodes, each_node, each_shard}

-- `simplyIp`
unfoldable pub simply_ip : Bytes → Bytes
unfolding before_first
simply_ip ip = before_first b':' ip

-- `sts[0].Role = kvrocks.RoleMaster` in every shard; none where a shard has no first node.
unfoldable pub crown_first : Shard → Option Shard
crown_first [] = none
crown_first (none ∷ nodes) = none
crown_first (some node ∷ nodes) = some (some (record node { role = role_master }) ∷ nodes)

unfoldable pub crown_all : List Shard → Option (List Shard)
unfolding crown_first
crown_all [] = some []
crown_all (shard ∷ shards) = elim (crown_first shard) [
  | none ↦ none
  | some shard' ↦ elim (crown_all shards) [ none ↦ none | some shards' ↦ some (shard' ∷ shards') ]
]

-- In the second loop of `initCluster` every node but the first becomes a slave.
init_role : ℕ → Node → Node
init_role zero node = node
init_role (suc j) node = record node { role = role_slaver }

-- The id of the first master of a shard, and whether there is one with an id; a nil node that is
-- reached is none.
unfoldable pub first_master : Shard → Option Bytes
first_master [] = some []
first_master (none ∷ nodes) = none
first_master (some node ∷ nodes) =
    let rest = first_master nodes in if is_master node then some node.node_id else rest

crown_head : Shard → Option (Shard × Bytes)
crown_head [] = none
crown_head (none ∷ nodes) = none
crown_head (some node ∷ nodes) =
    some (some (record node { role = role_master }) ∷ nodes, node.node_id)

-- The shard and the id of its master, the first node where no other has the role.
unfoldable pub choose_master : Shard → Option (Shard × Bytes)
unfolding first_master crown_head
choose_master shard = elim (first_master shard) [
  | none ↦ none
  | some [] ↦ crown_head shard
  | some (c ∷ id) ↦ some (shard, c ∷ id)
]

-- A node that is neither the master nor under it comes under it.
unfoldable pub attach : Bytes → Node → Node
attach master_id node =
    if not (node.node_id == master_id) && not (node.master == master_id)
    then record node { master = master_id; role = role_slaver }
    else node

-- The first member of the role "master".
unfoldable pub master_member : List Member → Bytes
master_member [] = []
master_member (m ∷ members) =
    let rest = master_member members in if m.role == codes "master" then m.id else rest

-- What the controller says of a node: the first member at its address.
unfoldable pub identify : Bytes → List Bytes → List Member → Node → Node
unfolding simply_ip
identify master_id slot_ranges [] node = node
identify master_id slot_ranges (m ∷ members) node =
    let rest = identify master_id slot_ranges members node in
    if simply_ip m.addr == node.ip
    then (if m.role == codes "master"
        then record node {
          node_id = m.id;
          role = role_master;
          master = [];
          slots = slots_to_int slot_ranges;
        }
        else record node {
          node_id = m.id;
          role = role_slaver;
          master = master_id;
          slots = slots_to_int slot_ranges;
        })
    else rest

module _ {W : Type 0} (env : Env W) where
  -- `updatePodLabels`
  unfoldable pub update_pod_labels : Key → Bytes → Run W Unit
  unfolding ◌>>=◌ call set_pod_role
  update_pod_labels key role = do pod ← call (get_pod env.k8s key); call (set_pod_role env role pod)

  -- The label of a node of shard `i`.
  unfoldable pub label_node : ℕ → Node → Run W Unit
  unfolding ◌>>=◌ update_pod_labels
  label_node i node = do
    k ← gets (λ h. h.instance_)
    update_pod_labels
        (record {
          namespace = k.namespace;
          name = indexed (get_stateful_set_name k.name i) node.pod_index;
        })
        node.role

  init_node : ℕ → ℕ → Unit {0} → Node → Run W (Node × Unit {0})
  unfolding ◌>>=◌ label_node init_role
  init_node i j _ node = do let node' = init_role j node; label_node i node'; pure (node', tt)

  -- `initCluster`
  unfoldable pub init_cluster : Run W Unit
  unfolding ◌>>=◌ crown_all each_shard init_node set_nodes
  init_cluster = do
    nodes ← gets (λ h. h.sts_nodes)
    crowned ← or_crash (crown_all nodes)
    (nodes', _) ← each_shard init_node 0 tt crowned
    set_nodes nodes'

  attach_node : ℕ → Bytes → ℕ → Unit {0} → Node → Run W (Node × Unit {0})
  unfolding ◌>>=◌ label_node attach
  attach_node i master_id j _ node = do
    let node' = attach master_id node
    label_node i node'
    pure (node', tt)

  replicate_shards : ℕ → List Shard → Run W (List Shard)
  unfolding ◌>>=◌ choose_master each_node attach_node
  replicate_shards i [] = pure []
  replicate_shards i (shard ∷ shards) = do
    (chosen, master_id) ← or_crash (choose_master shard)
    (shard', _) ← each_node (attach_node i master_id) 0 tt chosen
    shards' ← replicate_shards (suc i) shards
    pure (shard' ∷ shards')

  -- `ensureReplication`
  unfoldable pub ensure_replication : Run W Unit
  unfolding ◌>>=◌ replicate_shards set_nodes
  ensure_replication = do
    nodes ← gets (λ h. h.sts_nodes)
    nodes' ← replicate_shards 0 nodes
    set_nodes nodes'

  identify_node : ℕ → Bytes → ShardData → ℕ → Unit {0} → Node → Run W (Node × Unit {0})
  unfolding ◌>>=◌ label_node identify
  identify_node i master_id shard j _ node = do
    let node' = identify master_id shard.slot_ranges shard.nodes node
    label_node i node'
    pure (node', tt)

  identify_shard : ℕ → Shard → ShardData → Bytes → Run W Shard
  unfolding ◌>>=◌ each_node identify_node
  identify_shard i nodes shard [] = raise (other (codes "no master node in shard"))
  identify_shard i nodes shard (c ∷ id) = do
    (nodes', _) ← each_node (identify_node i (c ∷ id) shard) 0 tt nodes
    pure nodes'

  -- A shard that the controller does not have is a nil pointer, which is dereferenced.
  identify_shards : ℕ → List Shard → Run W (List Shard)
  unfolding ◌>>=◌ call identify_shard master_member
  identify_shards i [] = pure []
  identify_shards i (nodes ∷ shards) = do
    endpoint ← gets (λ h. h.endpoint)
    found ← call (get_nodes env.http endpoint i)
    shard ← or_crash found
    nodes' ← identify_shard i nodes shard (master_member shard.nodes)
    shards' ← identify_shards (suc i) shards
    pure (nodes' ∷ shards')

  -- `ensureSetNodeID`
  unfoldable pub ensure_set_node_id : Run W Unit
  unfolding ◌>>=◌ identify_shards set_nodes
  ensure_set_node_id = do
    nodes ← gets (λ h. h.sts_nodes)
    nodes' ← identify_shards 0 nodes
    set_nodes nodes'

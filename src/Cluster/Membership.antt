-- ===== src/Cluster/Membership.antt =====
-- `ensureCluster` and `updateCluster` of pkg/controllers/cluster/kvrocks.go: the controller's shards
-- follow the nodes.
pub mod Messages
use mathlib.Core.List.{reverse}
use kvrocks_operator.Base.{
  ℕ, suc, ◌-◌, Bytes, Bool, true, false, List, [], ◌∷◌, ◌++◌, codes, Option, none, some, length,
  range, ◌==◌, bytes_eq, if◌then◌else◌,
}
use kvrocks_operator.Base.Exec.{
  Result, ok, err, panic, pure, raise, crash, gets, attempt, or_crash, for_each, ◌>>=◌, ◌>>◌,
}
use kvrocks_operator.Api.{is_creating, status_running}
use kvrocks_operator.Kvrocks.{Node}
use kvrocks_operator.Client.Controller.{
  Member, ShardData, get_nodes, get_shards, create_cluster, create_shard, delete_node, delete_shard,
  add_node,
}
use kvrocks_operator.Client.Env.{Env}
use kvrocks_operator.Cluster.State.{Shard, Run, call, save_instance, set_requeue}
use kvrocks_operator.Cluster.Roles.{simply_ip, ensure_set_node_id}

-- `node.IP + ":" + strconv.Itoa(kvrocks.KVRocksPort)`
abbrev node_address : Node → Bytes
node_address node = node.ip ++ codes ":6379"

-- The addresses of a shard; none at a nil node.
unfoldable pub addresses : Shard → Option (List Bytes)
addresses [] = some []
addresses (none ∷ nodes) = none
addresses (some node ∷ nodes) = elim (addresses nodes) [
  | none ↦ none
  | some rest ↦ some (node_address node ∷ rest)
]

unfoldable pub all_addresses : List Shard → Option (List Bytes)
unfolding addresses
all_addresses [] = some []
all_addresses (shard ∷ shards) = elim (addresses shard) [
  | none ↦ none
  | some here ↦ elim (all_addresses shards) [ none ↦ none | some rest ↦ some (here ++ rest) ]
]

-- Whether the member is a node of the shard; none where a nil node is reached before it.
unfoldable pub has_node : Member → Shard → Option Bool
has_node m [] = some false
has_node m (none ∷ nodes) = none
has_node m (some node ∷ nodes) =
    let rest = has_node m nodes in if simply_ip m.addr == node.ip then some true else rest

-- Whether the node is a member of the controller's shard.
unfoldable pub has_member : Node → List Member → Bool
has_member node [] = false
has_member node (m ∷ members) =
    let rest = has_member node members in if simply_ip m.addr == node.ip then true else rest

module _ {W : Type 0} (env : Env W) where
  remove_member : ℕ → Shard → Member → Run W Unit
  unfolding ◌>>=◌ call has_node
  remove_member index nodes m = do
    known ← or_crash (has_node m nodes)
    endpoint ← gets (λ h. h.endpoint)
    if known then pure tt else call (delete_node env.http endpoint index m.id)

  -- A shard that the controller lacks is created, and else loses the members that have no node.
  trim_shard : ℕ → Shard → Option ShardData → Run W Unit
  unfolding ◌>>=◌ call for_each remove_member addresses
  trim_shard index nodes none = do
    addrs ← or_crash (addresses nodes)
    endpoint ← gets (λ h. h.endpoint)
    password ← gets (λ h. h.password)
    call (create_shard env.http endpoint addrs password)
  trim_shard index nodes (some shard) = for_each shard.nodes (remove_member index nodes)

  trim_shards : ℕ → List Shard → Run W Unit
  unfolding ◌>>=◌ call trim_shard
  trim_shards index [] = pure tt
  trim_shards index (nodes ∷ shards) = do
    endpoint ← gets (λ h. h.endpoint)
    found ← call (get_nodes env.http endpoint index)
    trim_shard index nodes found
    trim_shards (suc index) shards

  -- A node that the controller's shard lacks is added; a missing shard is a nil pointer here.
  add_missing : ℕ → Option ShardData → Option Node → Run W Unit
  unfolding ◌>>=◌ call has_member
  add_missing index found slot = do
    shard ← or_crash found
    node ← or_crash slot
    endpoint ← gets (λ h. h.endpoint)
    password ← gets (λ h. h.password)
    if has_member node shard.nodes
        then pure tt
        else call (add_node env.http endpoint index (node_address node) node.role password)

  fill_shards : ℕ → List Shard → Run W Unit
  unfolding ◌>>=◌ call for_each add_missing
  fill_shards index [] = pure tt
  fill_shards index (nodes ∷ shards) = do
    endpoint ← gets (λ h. h.endpoint)
    found ← call (get_nodes env.http endpoint index)
    for_each nodes (add_missing index found)
    fill_shards (suc index) shards

  drop_shard : ℕ → Run W Unit
  unfolding ◌>>=◌ call
  drop_shard index = do
    endpoint ← gets (λ h. h.endpoint)
    call (delete_shard env.http endpoint index)

  -- `updateCluster`: the shards past the last stateful set go, the last one first.
  unfoldable pub update_cluster : Run W Unit
  unfolding ◌>>=◌ call trim_shards fill_shards for_each drop_shard
  update_cluster = do
    nodes ← gets (λ h. h.sts_nodes)
    trim_shards 0 nodes
    fill_shards 0 nodes
    endpoint ← gets (λ h. h.endpoint)
    shards ← call (get_shards env.http endpoint)
    for_each (reverse (range (length nodes) (length shards - length nodes))) drop_shard

  make_cluster : Run W Unit
  unfolding ◌>>=◌ call all_addresses
  make_cluster = do
    k ← gets (λ h. h.instance_)
    nodes ← gets (λ h. h.sts_nodes)
    addrs ← or_crash (all_addresses nodes)
    endpoint ← gets (λ h. h.endpoint)
    password ← gets (λ h. h.password)
    call (create_cluster env.http endpoint k.spec.replicas addrs password)

  -- The steps of `ensureCluster` whose failure returns false beside the error.
  join_cluster : Run W Unit
  unfolding ◌>>=◌ make_cluster
  join_cluster = do
    k ← gets (λ h. h.instance_)
    if is_creating k.status.status then make_cluster else update_cluster
    ensure_set_node_id env

  -- The requeue flag and the error become the handler's.
  settle : Bool → Result (Unit {0}) → Run W Unit
  unfolding ◌>>=◌ set_requeue
  settle requeue (ok _) = set_requeue false
  settle requeue (err e) = do set_requeue requeue; raise e
  settle requeue panic = crash

  save_running : Run W Unit
  unfolding ◌>>=◌ attempt save_instance settle
  save_running = do
    k ← gets (λ h. h.instance_)
    saved ←
        attempt
          (save_instance env (record k { status = record k.status { status = status_running } }))
    settle true saved

  -- `h.requeue, err = h.ensureCluster()`
  unfoldable pub ensure_cluster : Run W Unit
  unfolding ◌>>=◌ attempt join_cluster settle save_running
  ensure_cluster = do joined ← attempt join_cluster; settle false joined; save_running

-- ===== src/Cluster/Workload.antt =====
-- `ensureKubernetes` of pkg/controllers/cluster/kubernetes.go.
pub mod Messages
use kvrocks_operator.Base.{
  ℕ, true, List, [], ◌∷◌, ◌++◌, map, codes, Option, none, some, length, range, ltb, ◌==◌, nat_eq,
  bytes_eq, if◌then◌else◌,
}
use mathlib.Core.Option
use kvrocks_operator.Base.Maps.{lookup}
use kvrocks_operator.Base.Exec.{
  Result, ok, err, panic, not_found, pure, raise, crash, gets, attempt, or_crash, for_each, ◌>>=◌,
  ◌>>◌,
}
use kvrocks_operator.Api.{Key, Kvrocks}
use kvrocks_operator.Kvrocks.{Node, empty_node, sort_nodes}
use kvrocks_operator.Client.Objects.{ConfigMap, StatefulSet, Pod}
use kvrocks_operator.Client.K8s.{
  create_if_not_exists_config_map, create_if_not_exists_service, get_config_map, get_kvrocks,
  create_stateful_set_or_update_image, get_stateful_set, update_stateful_set, list_stateful_sets,
  list_stateful_set_pods,
}
use kvrocks_operator.Client.Env.{Env}
use kvrocks_operator.Resources.Names.{get_pvc_or_pod_index, get_stateful_set_name}
use kvrocks_operator.Resources.Labels.{selector_labels}
use kvrocks_operator.Resources.Configs.{new_kvrocks_config_map}
use kvrocks_operator.Resources.Services.{new_kvrocks_service}
use kvrocks_operator.Resources.Workloads.{new_cluster_stateful_set}
use kvrocks_operator.Common.{label_value}
use kvrocks_operator.Standard.Workload.{grown}
use kvrocks_operator.Cluster.State.{
  Run, call, lift_result, set_requeue, set_password, set_nodes, set_version,
}
use kvrocks_operator.Cluster.Topology.{restore}

abbrev shard_key : Kvrocks → ℕ → Key
shard_key k i = record { namespace = k.namespace; name = get_stateful_set_name k.name i }

module _ {W : Type 0} (env : Env W) where
  create_set : ℕ → Run W Unit
  unfolding ◌>>=◌ call
  create_set i = do
    k ← gets (λ h. h.instance_)
    sts ← or_crash (new_cluster_stateful_set k i)
    call (create_stateful_set_or_update_image env.k8s sts)
    pure tt

  -- The body of the loop that scales up.
  grow_set : ℕ → Run W Unit
  unfolding ◌>>=◌ call grown
  grow_set i = do
    k ← gets (λ h. h.instance_)
    sts ← or_crash (new_cluster_stateful_set k i)
    old ← call (get_stateful_set env.k8s (record { namespace = k.namespace; name = sts.name }))
    if ltb old.replicas sts.replicas
        then (do call (update_stateful_set env.k8s (grown sts old)); pure tt)
        else pure tt

  -- The nodes of the pods, or none where a pod is being deleted and the pass ends.
  read_pods : List Pod → List Node → Run W (Option (List Node))
  unfolding ◌>>=◌ lift_result
  read_pods [] nodes = pure (some (sort_nodes nodes))
  read_pods (pod ∷ pods) nodes = if pod.deleting then pure none else do
    index ← lift_result (get_pvc_or_pod_index pod.name)
    read_pods pods (nodes ++ record empty_node { ip = pod.ip; pod_index = index } ∷ [])

  read_shard : ℕ → Run W (Option (List Node))
  unfolding ◌>>=◌ call read_pods
  read_shard i = do
    k ← gets (λ h. h.instance_)
    let key = shard_key k i
    sts ← call (get_stateful_set env.k8s key)
    if sts.ready_replicas == sts.replicas
        then (do pods ← call (list_stateful_set_pods env.k8s key); read_pods pods [])
        else pure none

  -- The shards of the given numbers; none, with the requeue flag set, where one is not ready.
  read_shards : List ℕ → Run W (Option (List (List Node)))
  unfolding ◌>>=◌ read_shard set_requeue
  read_shards [] = pure (some [])
  read_shards (i ∷ is) = do
    shard ← read_shard i
    elim shard [
      | none ↦ do set_requeue true; pure none
      | some nodes ↦ do rest ← read_shards is; pure (Option.map (λ shards. nodes ∷ shards) rest)
    ]

  -- The topology of the status is only read back if the instance is the stored one.
  adopt : Option (List (List Node)) → Run W Unit
  unfolding ◌>>=◌ call set_requeue set_nodes set_version restore
  adopt none = pure tt
  adopt (some shards) = do
    set_nodes (map (map some) shards)
    key ← gets (λ h. h.key)
    current ← call (get_kvrocks env.k8s key)
    k ← gets (λ h. h.instance_)
    if k.resource_version == current.resource_version
        then (do
          restored ← or_crash (restore k.status.topo shards)
          set_nodes (map (map some) restored)
          set_version k.status.version)
        else set_requeue true

  with_sets : List StatefulSet → Run W Unit
  unfolding ◌>>=◌ for_each grow_set read_shards adopt set_requeue
  with_sets sets = do
    k ← gets (λ h. h.instance_)
    if ltb (length sets) k.spec.master then set_requeue true else do
      for_each (range 0 (length sets)) grow_set
      shards ← read_shards (range 0 (length sets))
      adopt shards

  with_config_map : Result ConfigMap → Run W Unit
  unfolding ◌>>=◌ for_each create_set with_sets call set_password set_requeue
  with_config_map (ok cm) = do
    set_password (label_value (lookup (codes "password") cm.contents))
    k ← gets (λ h. h.instance_)
    for_each (range 0 k.spec.master) create_set
    sets ← call (list_stateful_sets env.k8s k.namespace (selector_labels k))
    with_sets sets
  with_config_map (err not_found) = set_requeue true
  with_config_map (err e) = raise e
  with_config_map panic = crash

  -- `ensureKubernetes`
  unfoldable pub ensure_kubernetes : Run W Unit
  unfolding ◌>>=◌ attempt with_config_map call
  ensure_kubernetes = do
    k ← gets (λ h. h.instance_)
    call (create_if_not_exists_config_map env.k8s (new_kvrocks_config_map k))
    call (create_if_not_exists_service env.k8s (new_kvrocks_service k))
    key ← gets (λ h. h.key)
    cm ← attempt (call (get_config_map env.k8s key))
    with_config_map cm

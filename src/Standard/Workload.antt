-- ===== src/Standard/Workload.antt =====
-- `ensureKubernetes` and `cleanPersistentVolumeClaim` of pkg/controllers/standard/kubernetes.go.
pub mod Safe
use kvrocks_operator.Base.{
  ◌-◌, true, List, [], ◌∷◌, ◌++◌, codes, any, drop, ltb, ◌==◌, nat_eq, if◌then◌else◌,
}
use kvrocks_operator.Base.Maps.{lookup}
use kvrocks_operator.Base.Exec.{
  Result, ok, err, panic, not_found, pure, raise, crash, gets, attempt, or_crash, for_each, ◌>>=◌,
  ◌>>◌,
}
use kvrocks_operator.Kvrocks.{Node, sort_nodes}
use kvrocks_operator.Client.Objects.{ConfigMap, StatefulSet, Pod, Claim}
use kvrocks_operator.Client.K8s.{
  create_if_not_exists_config_map, create_if_not_exists_service, get_config_map,
  create_stateful_set_or_update_image, get_stateful_set, update_stateful_set,
  list_stateful_set_pods, list_stateful_set_pvc, delete_pvc,
}
use kvrocks_operator.Client.Env.{Env}
use kvrocks_operator.Resources.Names.{get_pvc_or_pod_index}
use kvrocks_operator.Resources.Configs.{new_kvrocks_config_map}
use kvrocks_operator.Resources.Services.{new_kvrocks_service}
use kvrocks_operator.Resources.Workloads.{new_replication_stateful_set}
use kvrocks_operator.Common.{label_value}
use kvrocks_operator.Standard.State.{Run, call, set_requeue, set_password, set_nodes}

-- The ordinals that stay reserved when a set grows: `delta` of them, from the front, come back.
unfoldable pub grown : StatefulSet → StatefulSet → StatefulSet
grown sts old = record sts {
  resource_version = old.resource_version;
  reserve_ordinals = drop (sts.replicas - old.replicas) old.reserve_ordinals;
}

lift_result : {W A : Type 0} → Result A → Run W A
lift_result r h = (r, h)

module _ {W : Type 0} (env : Env W) where
  -- One pod: its role from the node itself, its ordinal from its name.
  add_pod : Pod → Run W Unit
  unfolding ◌>>=◌ lift_result call set_nodes
  add_pod pod = do
    password ← gets (λ h. h.password)
    node ← call (env.kv.node_info pod.ip password)
    index ← lift_result (get_pvc_or_pod_index pod.name)
    nodes ← gets (λ h. h.sts_nodes)
    set_nodes (nodes ++ record node { pod_index = index } ∷ [])

  read_nodes : Run W Unit
  unfolding ◌>>=◌ for_each add_pod call set_nodes
  read_nodes = do
    key ← gets (λ h. h.key)
    pods ← call (list_stateful_set_pods env.k8s key)
    for_each pods add_pod
    nodes ← gets (λ h. h.sts_nodes)
    set_nodes (sort_nodes nodes)

  grow : StatefulSet → StatefulSet → Run W StatefulSet
  unfolding call grown
  grow sts old =
      if ltb old.replicas sts.replicas
      then call (update_stateful_set env.k8s (grown sts old))
      else pure old

  with_stateful_set : StatefulSet → Result StatefulSet → Run W Unit
  unfolding ◌>>=◌ read_nodes grow set_requeue
  with_stateful_set sts (ok old) = do
    current ← grow sts old
    if current.ready_replicas == current.replicas then read_nodes else set_requeue true
  with_stateful_set sts (err not_found) = set_requeue true
  with_stateful_set sts (err e) = raise e
  with_stateful_set sts panic = crash

  with_config_map : Result ConfigMap → Run W Unit
  unfolding ◌>>=◌ attempt with_stateful_set call set_password set_requeue
  with_config_map (ok cm) = do
    set_password (label_value (lookup (codes "password") cm.contents))
    k ← gets (λ h. h.instance_)
    wanted ← or_crash (new_replication_stateful_set k)
    sts ← call (create_stateful_set_or_update_image env.k8s wanted)
    key ← gets (λ h. h.key)
    old ← attempt (call (get_stateful_set env.k8s key))
    with_stateful_set sts old
  with_config_map (err not_found) = set_requeue true
  with_config_map (err e) = raise e
  with_config_map panic = crash

  unfoldable pub ensure_kubernetes : Run W Unit
  unfolding ◌>>=◌ attempt with_config_map call
  ensure_kubernetes = do
    k ← gets (λ h. h.instance_)
    call (create_if_not_exists_config_map env.k8s (new_kvrocks_config_map k))
    call (create_if_not_exists_service env.k8s (new_kvrocks_service k))
    key ← gets (λ h. h.key)
    cm ← attempt (call (get_config_map env.k8s key))
    with_config_map cm

  -- A claim goes if no node has its ordinal.
  clean_claim : List Node → Claim → Run W Unit
  unfolding ◌>>=◌ lift_result call
  clean_claim nodes claim = do
    index ← lift_result (get_pvc_or_pod_index claim.name)
    if any (λ (node : Node). node.pod_index == index) nodes
        then pure tt
        else call (delete_pvc env.k8s claim)

  unfoldable pub clean_persistent_volume_claim : Run W Unit
  unfolding ◌>>=◌ for_each clean_claim call
  clean_persistent_volume_claim = do
    key ← gets (λ h. h.key)
    claims ← call (list_stateful_set_pvc env.k8s key)
    nodes ← gets (λ h. h.sts_nodes)
    for_each claims (clean_claim nodes)

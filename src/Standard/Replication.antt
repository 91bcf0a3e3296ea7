-- ===== src/Standard/Replication.antt =====
-- `ensureKVRocksStatus` of pkg/controllers/standard/kvrocks.go: configuration, roles, labels. The
-- roles of the nodes are written back once their loop is through; when a call in it fails, the
-- pass ends, and the handler with its nodes is dropped.
pub mod Created
pub mod Followed
pub mod Led
use kvrocks_operator.Base.{
  ℕ, Bytes, true, List, [], ◌∷◌, ◌++◌, Option, none, some, codes, any, ◌==◌, bytes_eq,
  if◌then◌else◌,
}
use kvrocks_operator.Base.Maps.{lookup}
use kvrocks_operator.Base.Exec.{Result, ok, err, other, pure, gets, ◌>>=◌, ◌>>◌}
use kvrocks_operator.Api.{kvrocks_finalizer, is_creating, status_running}
use kvrocks_operator.Kvrocks.{Node, role_master, role_slaver}
use kvrocks_operator.Client.K8s.{update_config_map, update_kvrocks, get_pod}
use kvrocks_operator.Client.Env.{Env}
use kvrocks_operator.Resources.Names.{indexed}
use kvrocks_operator.Resources.Labels.{monitored_by}
use kvrocks_operator.Resources.Configs.{new_kvrocks_config_map}
use kvrocks_operator.Common.PodRole.{set_pod_role}
use kvrocks_operator.Common.{ensure_config}
use kvrocks_operator.Common.Reserve.{is_master}
use kvrocks_operator.Sentinel.Annotation.{update_sentinel_annotation_count}
use kvrocks_operator.Standard.State.{Run, call, set_requeue, set_password, set_nodes, set_instance}

-- Several masters are an error; the empty address means that there is none.
unfoldable pub find_master : List Node → Bytes → Result Bytes
find_master [] master_ip = ok master_ip
find_master (node ∷ nodes) master_ip =
    let first = find_master nodes node.ip in
    let same = find_master nodes master_ip in
    if is_master node
    then (if master_ip == []
        then first
        else if master_ip == node.ip
        then same
        else err (other (codes "more than one master exist")))
    else same

lift_result : {W A : Type 0} → Result A → Run W A
lift_result r h = (r, h)

module _ {W : Type 0} (env : Env W) where
  pub update_kvrocks_role : ℕ → Bytes → Run W Unit
  unfolding ◌>>=◌ call set_pod_role
  update_kvrocks_role pod_id role = do
    k ← gets (λ h. h.instance_)
    pod ← call (get_pod env.k8s (record { namespace = k.namespace; name = indexed k.name pod_id }))
    call (set_pod_role env role pod)

  -- `SlaveOfMaster`, returning the node with its role.
  unfoldable pub slave_of_master : Node → Bytes → Run W Node
  unfolding ◌>>=◌ call update_kvrocks_role
  slave_of_master node master_ip = do
    password ← gets (λ h. h.password)
    current ← call (env.kv.get_master node.ip password)
    if current == master_ip then pure tt else call (env.kv.slave_of node.ip master_ip password)
    update_kvrocks_role node.pod_index role_slaver
    pure (record node { role = role_slaver })

  -- The nodes behind the first one of a new instance.
  follow_all : List Node → Bytes → Run W (List Node)
  unfolding ◌>>=◌ slave_of_master
  follow_all [] master_ip = pure []
  follow_all (node ∷ nodes) master_ip = do
    slave ← slave_of_master node master_ip
    rest ← follow_all nodes master_ip
    pure (slave ∷ rest)

  create_replication : List Node → Run W (List Node)
  unfolding ◌>>=◌ call update_kvrocks_role follow_all
  create_replication [] = pure []
  create_replication (node ∷ nodes) = do
    password ← gets (λ h. h.password)
    call (env.kv.change_myself_to_master node.ip password)
    update_kvrocks_role node.pod_index role_master
    rest ← follow_all nodes node.ip
    pure (record node { role = role_master } ∷ rest)

  -- The loop over the nodes of a running instance.
  repair_all : List Node → Bytes → Run W (List Node)
  unfolding ◌>>=◌ slave_of_master update_kvrocks_role
  repair_all [] master_ip = pure []
  repair_all (node ∷ nodes) master_ip = do
    repaired ←
        (if node.ip == master_ip
          then (do update_kvrocks_role node.pod_index role_master; pure node)
          else slave_of_master node master_ip)
    rest ← repair_all nodes master_ip
    pure (repaired ∷ rest)

  ensure_finalizer : Run W Unit
  unfolding ◌>>=◌ call set_instance
  ensure_finalizer = do
    k ← gets (λ h. h.instance_)
    if any (λ f. f == kvrocks_finalizer) k.finalizers then pure tt else do
      updated ← call (
          update_kvrocks env.k8s (record k { finalizers = k.finalizers ++ kvrocks_finalizer ∷ [] }))
      set_instance updated

  notify : Option Bytes → Run W Unit
  unfolding ◌>>=◌ call
  notify none = pure tt
  notify (some sentinel) = do
    k ← gets (λ h. h.instance_)
    call (update_sentinel_annotation_count env k.namespace sentinel)

  create_running : Run W Unit
  unfolding ◌>>=◌ call create_replication set_nodes set_instance
  create_running = do
    nodes ← gets (λ h. h.sts_nodes)
    created ← create_replication nodes
    set_nodes created
    k ← gets (λ h. h.instance_)
    updated ←
        call (
          update_kvrocks env.k8s
            (record k { status = record k.status { status = status_running } }))
    set_instance updated

  repair_running : Run W Unit
  unfolding ◌>>=◌ lift_result repair_all set_nodes set_requeue ensure_finalizer notify
  repair_running = do
    nodes ← gets (λ h. h.sts_nodes)
    master_ip ← lift_result (find_master nodes [])
    if master_ip == [] then set_requeue true else do
      repaired ← repair_all nodes master_ip
      set_nodes repaired
      ensure_finalizer
      k ← gets (λ h. h.instance_)
      notify (lookup monitored_by k.labels)

  -- `ensureKVRocksReplication`
  unfoldable pub ensure_kvrocks_replication : Run W Unit
  unfolding ◌>>=◌ create_running repair_running
  ensure_kvrocks_replication = do
    k ← gets (λ h. h.instance_)
    if is_creating k.status.status then create_running else repair_running

  -- `ensureKVRocksConfig`
  unfoldable pub ensure_kvrocks_config : Run W Unit
  unfolding ◌>>=◌ call set_password
  ensure_kvrocks_config = do
    k ← gets (λ h. h.instance_)
    password ← gets (λ h. h.password)
    nodes ← gets (λ h. h.sts_nodes)
    call (ensure_config env k password nodes)
    set_password k.spec.password
    call (update_config_map env.k8s (new_kvrocks_config_map k))
    pure tt

  -- `ensureKVRocksStatus`
  unfoldable pub ensure_kvrocks_status : Run W Unit
  unfolding ◌>>=◌ ensure_kvrocks_config ensure_kvrocks_replication
  ensure_kvrocks_status = do
    ensure_kvrocks_config
    waiting ← gets (λ h. h.requeue)
    if waiting then pure tt else ensure_kvrocks_replication

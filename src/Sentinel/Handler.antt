-- ===== src/Sentinel/Handler.antt =====
-- handler.go, kubernetes.go and monitor.go of pkg/controllers/sentinel.
pub mod Monitored
use kvrocks_operator.Base.{
  ℕ, Bytes, Bool, true, false, List, [], ◌∷◌, ◌++◌, map, codes, none, some, range, ◌==◌, nat_eq,
  bytes_eq, if◌then◌else◌,
}
use kvrocks_operator.Base.Maps.{lookup}
use kvrocks_operator.Base.Exec.{
  Result, Exec, ok, err, panic, other, pure, raise, crash, gets, attempt, or_crash, for_each, ◌>>=◌,
  ◌>>◌,
}
use kvrocks_operator.Api.{Key, Kvrocks, is_running, is_standard, status_running}
use kvrocks_operator.Kvrocks.{Node}
use kvrocks_operator.Client.Objects.{Pod}
use kvrocks_operator.Client.K8s.{
  create_or_update_config_map, create_if_not_exists_service, create_if_not_exists_deployment,
  get_deployment, list_deployment_pods, list_stateful_set_pods, list_kvrocks, update_kvrocks,
}
use kvrocks_operator.Client.Env.{Env}
use kvrocks_operator.Resources.Names.{indexed, parse_redis_name}
use kvrocks_operator.Resources.Labels.{monitored_by, monitor_labels}
use kvrocks_operator.Resources.Configs.{new_sentinel_config_map}
use kvrocks_operator.Resources.Services.{new_sentinel_service}
use kvrocks_operator.Resources.Workloads.{new_sentinel_deployment}
use kvrocks_operator.Common.Reserve.{is_master}

-- `KVRocksSentinelHandler`
pub record SentinelHandler (W : Type 0) : Type 0 where
  pub instance_ : Kvrocks
  pub key : Key
  pub pods : List Bytes
  pub requeue : Bool
  pub world : W

-- `NewKVRocksSentinelHandler`
unfoldable pub new_sentinel_handler : {W : Type 0} → Key → Kvrocks → W → SentinelHandler W
new_sentinel_handler key k world = record {
  instance_ = k;
  key = key;
  pods = [];
  requeue = false;
  world = world;
}

abbrev pub Run : Type 0 → Type 0 → Type 0
Run W A = Exec (SentinelHandler W) A

module _ {W : Type 0} where
  returned : {A : Type 0} → SentinelHandler W → Result A × W → Result A × SentinelHandler W
  returned h (r, w) = (r, record h { world = w })

  unfoldable pub call : {A : Type 0} → Exec W A → Run W A
  unfolding returned
  call m h = returned h (m h.world)

  unfoldable pub set_requeue : Bool → Run W Unit
  set_requeue b h = (ok tt, record h { requeue = b })

  set_pods : List Bytes → Run W Unit
  set_pods pods h = (ok tt, record h { pods = pods })

  set_instance : Kvrocks → Run W Unit
  set_instance k h = (ok tt, record h { instance_ = k })

module _ {W : Type 0} (env : Env W) where
  -- `ensureKubernetes`
  unfoldable pub ensure_kubernetes : Run W Unit
  unfolding ◌>>=◌ call set_requeue set_pods
  ensure_kubernetes = do
    k ← gets (λ h. h.instance_)
    key ← gets (λ h. h.key)
    call (create_or_update_config_map env.k8s (new_sentinel_config_map k))
    call (create_if_not_exists_service env.k8s (new_sentinel_service k))
    deployment ← or_crash (new_sentinel_deployment k)
    call (create_if_not_exists_deployment env.k8s deployment)
    deployed ← call (get_deployment env.k8s key)
    if deployed.ready_replicas == deployed.replicas
        then (do
          pods ← call (list_deployment_pods env.k8s key)
          known ← gets (λ h. h.pods)
          set_pods (known ++ map (λ (pod : Pod). pod.ip) pods))
        else set_requeue true

  -- The first pod that says it is a master.
  find_master : Bytes → List Pod → Exec W Node
  unfolding ◌>>=◌
  find_master password [] = raise (other (codes "master not found"))
  find_master password (pod ∷ pods) = do
    node ← env.kv.node_info pod.ip password
    if is_master node then pure node else find_master password pods

  -- `getMasterMsg`
  unfoldable pub get_master_msg : Key → Bytes → Exec W Node
  unfolding ◌>>=◌ find_master
  get_master_msg key password = do
    pods ← list_stateful_set_pods env.k8s key
    find_master password pods

  -- A sentinel that knows another master, or none, gets a new monitor; one that knows this master
  -- has its monitor reset. That the old monitor cannot be removed is no error.
  point_sentinel : Bytes → Bytes → Bytes → Bytes → Bytes → Result Bytes → Exec W Unit
  unfolding ◌>>=◌ attempt
  point_sentinel ip sentinel_password name master_ip password (ok known) =
      if known == master_ip then env.kv.reset_monitor ip sentinel_password name password else (do
        attempt (env.kv.remove_monitor ip sentinel_password name)
        env.kv.create_monitor ip sentinel_password name master_ip password)
  point_sentinel ip sentinel_password name master_ip password (err _) = do
    attempt (env.kv.remove_monitor ip sentinel_password name)
    env.kv.create_monitor ip sentinel_password name master_ip password
  point_sentinel ip sentinel_password name master_ip password panic = crash

  monitor_at : Bytes → Bytes → Bytes → Bytes → Bytes → Exec W Unit
  unfolding ◌>>=◌ attempt point_sentinel
  monitor_at sentinel_password name master_ip password ip = do
    known ← attempt (env.kv.get_master_from_sentinel ip sentinel_password name)
    point_sentinel ip sentinel_password name master_ip password known

  -- `ensureMonitor`
  unfoldable pub ensure_monitor : Bytes → Bytes → Bytes → Run W Unit
  unfolding ◌>>=◌ call for_each monitor_at
  ensure_monitor master_ip name password = do
    k ← gets (λ h. h.instance_)
    pods ← gets (λ h. h.pods)
    call (for_each pods (monitor_at k.spec.password name master_ip password))

  monitor_set : Kvrocks → Bytes → Bytes → Run W Unit
  unfolding ◌>>=◌ call ensure_monitor
  monitor_set k set_name master_name = do
    node ←
        call (get_master_msg (record { namespace = k.namespace; name = set_name }) k.spec.password)
    ensure_monitor node.ip master_name k.spec.password

  monitor_shard : Kvrocks → ℕ → Run W Unit
  unfolding monitor_set
  monitor_shard k index =
      monitor_set k (indexed k.name index) (indexed (parse_redis_name k.name).1 index)

  -- The loop of `ensureSentinel`. A standard instance ends it, with the result of its monitor.
  unfoldable pub monitor_all : List Kvrocks → Run W Unit
  unfolding ◌>>=◌ for_each monitor_set monitor_shard set_requeue
  monitor_all [] = pure tt
  monitor_all (k ∷ rest) =
      let later = monitor_all rest in
      elim (lookup monitored_by k.labels) [
        | none ↦ later
        | some _ ↦ elim (is_running k.status.status) [
          | false ↦ do set_requeue true; later
          | true ↦ elim (is_standard k.spec.type) [
            | true ↦ monitor_set k k.name (parse_redis_name k.name).1
            | false ↦ do for_each (range 0 k.spec.master) (monitor_shard k); later
          ]
        ]
      ]

  -- `ensureSentinel`
  unfoldable pub ensure_sentinel : Run W Unit
  unfolding ◌>>=◌ call monitor_all
  ensure_sentinel = do
    key ← gets (λ h. h.key)
    found ← call (list_kvrocks env.k8s key.namespace (monitor_labels key.name))
    monitor_all found

  set_running : Run W Bool
  unfolding ◌>>=◌ call set_instance
  set_running = do
    k ← gets (λ h. h.instance_)
    saved ←
        call (
          update_kvrocks env.k8s
            (record k { status = record k.status { status = status_running } }))
    set_instance saved
    pure true

  -- `Handle`
  unfoldable pub handle : Run W Bool
  unfolding ◌>>=◌ set_running
  handle = do
    ensure_kubernetes
    waiting ← gets (λ h. h.requeue)
    if waiting then pure false else do
      ensure_sentinel
      still ← gets (λ h. h.requeue)
      if still then pure false else set_running

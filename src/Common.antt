-- ===== src/Common.antt =====
-- pkg/controllers/common: what the standard and the cluster handler share. A `CommandHandler` is
-- the instance and the password that the functions take.
pub mod PodRole
pub mod Reserve
pub mod Settings
pub mod Sentinels
pub mod Resize
use kvrocks_operator.Base.{
  ℕ, Bytes, Bool, true, false, List, [], ◌∷◌, Option, none, some, not, ◌==◌, bytes_eq,
  if◌then◌else◌,
}
use kvrocks_operator.Base.Maps.{lookup}
use kvrocks_operator.Base.Exec.{
  Error, Result, Exec, ok, err, panic, pure, raise, crash, attempt, for_each, ◌>>=◌, ◌>>◌,
}
use kvrocks_operator.Api.{Key, Kvrocks, is_running}
use kvrocks_operator.Kvrocks.{Node}
use kvrocks_operator.Client.Objects.{Pod}
use kvrocks_operator.Client.K8s.{get_kvrocks, list_deployment_pods}
use kvrocks_operator.Client.Env.{Env}
use kvrocks_operator.Resources.Labels.{monitored_by}
use kvrocks_operator.Resources.Names.{indexed}
use kvrocks_operator.Resources.Configs.{parse_kvrocks_configs}

-- What `GetSentinel` returns: pods and password, or no sentinel that runs yet, or an error with
-- the requeue flag that stands beside it.
pub data Sentinel : Type 0 where
  sentinel_found : List Pod → Bytes → Sentinel
  sentinel_waiting : Sentinel
  sentinel_failed : Bool → Error → Sentinel

-- m[k] of a map of texts, which is empty where the key lacks.
unfoldable pub label_value : Option Bytes → Bytes
label_value none = []
label_value (some v) = v

module _ {W : Type 0} (env : Env W) (instance_ : Kvrocks) (password : Bytes) where
  -- One setting of one node: written only if it differs.
  ensure_setting : Node → Bytes × Bytes → Exec W Unit
  unfolding ◌>>=◌
  ensure_setting node (key, value) = do
    current ← env.kv.get_config node.ip password key
    if current == value then pure tt else env.kv.set_config node.ip password key value

  ensure_node_config : Node → Exec W Unit
  unfolding ◌>>=◌ for_each ensure_setting
  ensure_node_config node = do
    for_each (parse_kvrocks_configs instance_.spec.kvrocks_config) (ensure_setting node)
    if password == instance_.spec.password
        then pure tt
        else env.kv.change_password node.ip password instance_.spec.password

  -- `EnsureConfig`
  unfoldable pub ensure_config : List Node → Exec W Unit
  unfolding for_each ensure_node_config
  ensure_config nodes = for_each nodes ensure_node_config

module _ {W : Type 0} (env : Env W) where
  read_pods : Bytes → Result (List Pod) → Exec W Sentinel
  read_pods password (ok pods) = pure (sentinel_found pods password)
  read_pods password (err e) = pure (sentinel_failed false e)
  read_pods password panic = crash

  read_sentinel : Key → Result Kvrocks → Exec W Sentinel
  unfolding ◌>>=◌ attempt read_pods
  read_sentinel key (ok sentinel) =
      if is_running sentinel.status.status
      then (do
        pods ← attempt (list_deployment_pods env.k8s key)
        read_pods sentinel.spec.password pods)
      else pure sentinel_waiting
  read_sentinel key (err e) = pure (sentinel_failed true e)
  read_sentinel key panic = crash

  -- `GetSentinel`
  unfoldable pub get_sentinel : Key → Exec W Sentinel
  unfolding ◌>>=◌ attempt read_sentinel
  get_sentinel key = do r ← attempt (get_kvrocks env.k8s key); read_sentinel key r

  remove_known : Bytes → Bytes → Bytes → Result Bytes → Exec W Unit
  remove_known ip password master (ok _) = env.kv.remove_monitor ip password master
  remove_known ip password master (err _) = pure tt
  remove_known ip password master panic = crash

  -- One sentinel: the monitor is removed if the sentinel knows the master.
  remove_from : Bytes → Bytes → Pod → Exec W Unit
  unfolding ◌>>=◌ attempt remove_known
  remove_from password master pod = do
    known ← attempt (env.kv.get_master_from_sentinel pod.ip password master)
    remove_known pod.ip password master known

  -- The requeue flag with the error beside it.
  flagged : Bool → Result (Unit {0}) → Exec W (Bool × Option Error)
  flagged requeue (ok _) = pure (requeue, none)
  flagged requeue (err e) = pure (requeue, some e)
  flagged requeue panic = crash

  remove_all : Bytes → Sentinel → Exec W (Bool × Option Error)
  unfolding ◌>>=◌ attempt for_each remove_from flagged
  remove_all master (sentinel_found pods password) = do
    r ← attempt (for_each pods (remove_from password master))
    flagged false r
  remove_all master sentinel_waiting = pure (true, none)
  remove_all master (sentinel_failed requeue e) = pure (requeue, some e)

  -- `RemoveMonitor`, with the master's name as the caller builds it.
  unfoldable pub remove_monitor : Kvrocks → Bytes → Exec W (Bool × Option Error)
  unfolding ◌>>=◌ get_sentinel remove_all label_value
  remove_monitor instance_ master = do
    sentinel ← get_sentinel (record {
      namespace = instance_.namespace;
      name = label_value (lookup monitored_by instance_.labels);
    })
    remove_all master sentinel

-- ===== src/Cluster/Handler.antt =====
-- `Handle` and `Finializer` of pkg/controllers/cluster/handler.go, `ensureKVRocksStatus` and
-- `ensureKVRocksConfig` of kvrocks.go, and `ensureSentinel` of sentinel.go.
pub mod Done
pub mod Messages
use kvrocks_operator.Base.{
  ℕ, Bytes, Bool, true, false, [], ◌∷◌, ◌++◌, Option, none, some, any, range, ◌==◌, bytes_eq,
  if◌then◌else◌,
}
use kvrocks_operator.Base.Maps.{lookup}
use kvrocks_operator.Base.Exec.{
  Error, Result, ok, err, panic, pure, raise, crash, gets, attempt, or_crash, for_each, ◌>>=◌, ◌>>◌,
}
use kvrocks_operator.Api.{ShrinkMsg, kvrocks_finalizer, is_creating}
use kvrocks_operator.Client.K8s.{update_config_map}
use kvrocks_operator.Client.Env.{Env}
use kvrocks_operator.Resources.Names.{indexed, parse_redis_name}
use kvrocks_operator.Resources.Labels.{monitored_by}
use kvrocks_operator.Resources.Configs.{new_kvrocks_config_map}
use kvrocks_operator.Common.{ensure_config, remove_monitor}
use kvrocks_operator.Sentinel.Annotation.{update_sentinel_annotation_count}
use kvrocks_operator.Cluster.State.{
  Shard, Run, call, save_instance, set_requeue, set_password, set_version,
}
use kvrocks_operator.Cluster.Topology.{ensure_version, ensure_status_topo_msg}
use kvrocks_operator.Cluster.Workload.{ensure_kubernetes}
use kvrocks_operator.Cluster.Failover.{ensure_failover}
use kvrocks_operator.Cluster.Roles.{init_cluster, ensure_replication}
use kvrocks_operator.Cluster.Membership.{ensure_cluster}
use kvrocks_operator.Cluster.Migration.{ensure_migrate}
use kvrocks_operator.Cluster.Shrink.{
  all_present, ensure_shrink, clean_stateful_set, clean_persistent_volume_claim,
}
use kvrocks_operator.Cluster.Deployment.{ensure_controller, remove_controller}

-- `if err != nil || h.requeue { return err, false }` behind a step, and the steps after it.
unfoldable pub stage : {W : Type 0} → Run W Unit → Run W Bool → Run W Bool
unfolding ◌>>=◌
stage step next = do step; waiting ← gets (λ h. h.requeue); if waiting then pure false else next

module _ {W : Type 0} (env : Env W) where
  configure_shard : Shard → Run W Unit
  unfolding ◌>>=◌ call
  configure_shard shard = do
    k ← gets (λ h. h.instance_)
    password ← gets (λ h. h.password)
    nodes ← or_crash (all_present shard)
    call (ensure_config env k password nodes)

  -- `ensureKVRocksConfig`
  unfoldable pub ensure_kvrocks_config : Run W Unit
  unfolding ◌>>=◌ for_each configure_shard call set_password
  ensure_kvrocks_config = do
    nodes ← gets (λ h. h.sts_nodes)
    for_each nodes configure_shard
    k ← gets (λ h. h.instance_)
    set_password k.spec.password
    call (update_config_map env.k8s (new_kvrocks_config_map k))
    pure tt

  -- `ensureKVRocksStatus`
  unfoldable pub ensure_kvrocks_status : Run W Unit
  unfolding ◌>>=◌ ensure_kvrocks_config set_version
  ensure_kvrocks_status = do
    ensure_kvrocks_config
    k ← gets (λ h. h.instance_)
    if is_creating k.status.status then init_cluster env else ensure_replication env
    ensure_cluster env
    ensure_version
    ensure_status_topo_msg env
    saved ← gets (λ h. h.instance_)
    set_version saved.status.version

  notify : Option Bytes → Run W Unit
  unfolding ◌>>=◌ call
  notify none = pure tt
  notify (some sentinel) = do
    k ← gets (λ h. h.instance_)
    call (update_sentinel_annotation_count env k.namespace sentinel)

  sentinel_unless : Option ShrinkMsg → Run W Unit
  unfolding ◌>>=◌ save_instance notify
  sentinel_unless (some _) = pure tt
  sentinel_unless none = do
    k ← gets (λ h. h.instance_)
    if any (λ f. f == kvrocks_finalizer) k.finalizers
        then pure tt
        else save_instance env (record k { finalizers = k.finalizers ++ kvrocks_finalizer ∷ [] })
    saved ← gets (λ h. h.instance_)
    notify (lookup monitored_by saved.labels)

  -- `ensureSentinel`
  unfoldable pub ensure_sentinel : Run W Unit
  unfolding ◌>>=◌ sentinel_unless
  ensure_sentinel = do k ← gets (λ h. h.instance_); sentinel_unless k.status.shrink

  clean_if : Option ShrinkMsg → Run W Unit
  clean_if none = pure tt
  clean_if (some shrink) = clean_stateful_set env shrink

  clean_ordered : Run W Unit
  unfolding ◌>>=◌ clean_if
  clean_ordered = do k ← gets (λ h. h.instance_); clean_if k.status.shrink

  -- `Handle`: true when every step went through and none asked to be run again.
  unfoldable pub handle : Run W Bool
  unfolding stage clean_ordered
  handle = stage (ensure_controller env) (
      stage clean_ordered (
        stage (ensure_kubernetes env) (
          stage (ensure_failover env) (
            stage ensure_kvrocks_status (
              stage (ensure_migrate env) (
                stage (ensure_shrink env) (
                  stage ensure_sentinel
                    (stage (clean_persistent_volume_claim env) (pure true)))))))))

  raise_if : Option Error → Run W Unit
  raise_if none = pure tt
  raise_if (some e) = raise e

  forget_monitor : ℕ → Run W Unit
  unfolding ◌>>=◌ call set_requeue raise_if
  forget_monitor index = do
    k ← gets (λ h. h.instance_)
    (requeue, e) ← call (remove_monitor env k (indexed (parse_redis_name k.name).1 index))
    set_requeue requeue
    raise_if e

  again : Result (Unit {0}) → Run W Unit
  again (ok _) = pure tt
  again (err e) = raise e
  again panic = crash

  -- The flag of `removeController` is false beside its error too.
  remove_all : Run W Unit
  unfolding ◌>>=◌ attempt set_requeue again
  remove_all = do removed ← attempt (remove_controller env); set_requeue false; again removed

  finalize_monitored : Option Bytes → Run W Unit
  unfolding ◌>>=◌ for_each forget_monitor remove_all
  finalize_monitored none = pure tt
  finalize_monitored (some _) = do
    k ← gets (λ h. h.instance_)
    for_each (range 0 k.spec.master) forget_monitor
    remove_all

  -- `Finializer`
  unfoldable pub finalizer : Run W Unit
  unfolding ◌>>=◌ finalize_monitored
  finalizer = do k ← gets (λ h. h.instance_); finalize_monitored (lookup monitored_by k.labels)

-- ===== src/Standard/Handler.antt =====
-- `Handle` and `Finializer` of pkg/controllers/standard/handler.go.
pub mod Done
use kvrocks_operator.Base.{Bytes, Bool, true, false, Option, none, some, if◌then◌else◌}
use kvrocks_operator.Base.Maps.{lookup}
use kvrocks_operator.Base.Exec.{Error, pure, raise, gets, ◌>>=◌, ◌>>◌}
use kvrocks_operator.Client.Env.{Env}
use kvrocks_operator.Resources.Names.{parse_redis_name}
use kvrocks_operator.Resources.Labels.{monitored_by}
use kvrocks_operator.Common.{remove_monitor}
use kvrocks_operator.Standard.State.{Run, call, set_requeue}
use kvrocks_operator.Standard.Workload.{ensure_kubernetes, clean_persistent_volume_claim}
use kvrocks_operator.Standard.Replication.{ensure_kvrocks_status}
use kvrocks_operator.Standard.Scaling.{resize_stateful_set}

-- `if err != nil || h.requeue { return err, false }` behind a step, and the steps after it.
unfoldable pub stage : {W : Type 0} → Run W Unit → Run W Bool → Run W Bool
unfolding ◌>>=◌
stage step next = do step; waiting ← gets (λ h. h.requeue); if waiting then pure false else next

raise_if : {W : Type 0} → Option Error → Run W Unit
raise_if none = pure tt
raise_if (some e) = raise e

module _ {W : Type 0} (env : Env W) where
  -- `Handle`: true when every step went through and none asked to be run again.
  unfoldable pub handle : Run W Bool
  unfolding stage
  handle = stage (ensure_kubernetes env) (
      stage (ensure_kvrocks_status env)
        (stage (resize_stateful_set env) (stage (clean_persistent_volume_claim env) (pure true))))

  finalize_monitored : Option Bytes → Run W Unit
  unfolding ◌>>=◌ call set_requeue raise_if
  finalize_monitored none = pure tt
  finalize_monitored (some _) = do
    k ← gets (λ h. h.instance_)
    (requeue, e) ← call (remove_monitor env k (parse_redis_name k.name).1)
    set_requeue requeue
    raise_if e

  -- `Finializer`
  unfoldable pub finalizer : Run W Unit
  unfolding ◌>>=◌ finalize_monitored
  finalizer = do k ← gets (λ h. h.instance_); finalize_monitored (lookup monitored_by k.labels)

-- ===== src/Cluster/Handler/Messages.antt =====
-- `Handle` and `Finializer` of pkg/controllers/cluster/handler.go and the queue of failover messages.
use kvrocks_operator.Base.{ℕ, Bytes, Bool, Option, none, some}
use kvrocks_operator.Base.Exec.{Error, Result, ok, err, panic}
use kvrocks_operator.Api.{ShrinkMsg}
use kvrocks_operator.Client.Env.{Env}
use kvrocks_operator.Events.Queue.{MessageQueue}
use kvrocks_operator.Cluster.State.{Shard, Run}
use kvrocks_operator.Cluster.State.Messages.{QueueKept, queue_rules}
use kvrocks_operator.Cluster.Deployment.Messages.{
  QueueKept-ensure_controller, QueueKept-remove_controller,
}
use kvrocks_operator.Cluster.Topology.Messages.{
  QueueKept-ensure_version, QueueKept-ensure_status_topo_msg,
}
use kvrocks_operator.Cluster.Workload.Messages.{QueueKept-ensure_kubernetes}
use kvrocks_operator.Cluster.Failover.Messages.{Closed, QueueKept-ensure_failover}
use kvrocks_operator.Cluster.Roles.Messages.{QueueKept-init_cluster, QueueKept-ensure_replication}
use kvrocks_operator.Cluster.Membership.Messages.{QueueKept-ensure_cluster}
use kvrocks_operator.Cluster.Migration.Messages.{QueueKept-ensure_migrate}
use kvrocks_operator.Cluster.Shrink.Messages.{
  QueueKept-ensure_shrink, QueueKept-clean_stateful_set, QueueKept-clean_persistent_volume_claim,
}
use kvrocks_operator.Cluster.Handler.{
  stage, configure_shard, ensure_kvrocks_config, ensure_kvrocks_status, notify, sentinel_unless,
  ensure_sentinel, clean_if, clean_ordered, handle, raise_if, forget_monitor, again, remove_all,
  finalize_monitored, finalizer,
}

QueueKept-stage :
    {W : Type 0} {Q : MessageQueue → Type 0} (step : Run W Unit) (next : Run W Bool)
    → QueueKept Q step
    → QueueKept Q next
    → QueueKept Q (stage step next)
unfolding stage
QueueKept-stage step next k l = search queue_rules depth 30

module _ {W : Type 0} (env : Env W) (Q : MessageQueue → Type 0) where
  QueueKept-configure_shard : (shard : Shard) → QueueKept Q (configure_shard env shard)
  unfolding configure_shard
  QueueKept-configure_shard shard = search queue_rules depth 30

  QueueKept-ensure_kvrocks_config : QueueKept Q (ensure_kvrocks_config env)
  unfolding ensure_kvrocks_config
  QueueKept-ensure_kvrocks_config = search (queue_rules, QueueKept-configure_shard) depth 30

  QueueKept-ensure_kvrocks_status : QueueKept Q (ensure_kvrocks_status env)
  unfolding ensure_kvrocks_status
  QueueKept-ensure_kvrocks_status =
      search
        (
          queue_rules, QueueKept-ensure_kvrocks_config, QueueKept-init_cluster,
          QueueKept-ensure_replication, QueueKept-ensure_cluster, QueueKept-ensure_version,
          QueueKept-ensure_status_topo_msg,
        )
        depth 30

  QueueKept-notify : (o : Option Bytes) → QueueKept Q (notify env o)
  unfolding notify
  QueueKept-notify none = search queue_rules depth 30
  QueueKept-notify (some sentinel) = search queue_rules depth 30

  QueueKept-sentinel_unless : (o : Option ShrinkMsg) → QueueKept Q (sentinel_unless env o)
  unfolding sentinel_unless
  QueueKept-sentinel_unless (some m) = search queue_rules depth 30
  QueueKept-sentinel_unless none = search (queue_rules, QueueKept-notify) depth 30

  QueueKept-ensure_sentinel : QueueKept Q (ensure_sentinel env)
  unfolding ensure_sentinel
  QueueKept-ensure_sentinel = search (queue_rules, QueueKept-sentinel_unless) depth 30

  QueueKept-clean_if : (o : Option ShrinkMsg) → QueueKept Q (clean_if env o)
  unfolding clean_if
  QueueKept-clean_if none = search queue_rules depth 30
  QueueKept-clean_if (some shrink) = QueueKept-clean_stateful_set env Q shrink

  QueueKept-clean_ordered : QueueKept Q (clean_ordered env)
  unfolding clean_ordered
  QueueKept-clean_ordered = search (queue_rules, QueueKept-clean_if) depth 30

  pub QueueKept-handle : Closed Q → QueueKept Q (handle env)
  unfolding handle
  QueueKept-handle closed = QueueKept-stage _ _ (QueueKept-ensure_controller env Q) (
      QueueKept-stage _ _ QueueKept-clean_ordered (
        QueueKept-stage _ _ (QueueKept-ensure_kubernetes env Q) (
          QueueKept-stage _ _ (QueueKept-ensure_failover env Q closed) (
            QueueKept-stage _ _ QueueKept-ensure_kvrocks_status (
              QueueKept-stage _ _ (QueueKept-ensure_migrate env Q) (
                QueueKept-stage _ _ (QueueKept-ensure_shrink env Q) (
                  QueueKept-stage _ _ QueueKept-ensure_sentinel (
                    QueueKept-stage _ _ (QueueKept-clean_persistent_volume_claim env Q)
                      (search queue_rules)))))))))

  QueueKept-raise_if : (o : Option Error) → QueueKept Q (raise_if env o)
  unfolding raise_if
  QueueKept-raise_if none = search queue_rules depth 30
  QueueKept-raise_if (some e) = search queue_rules depth 30

  QueueKept-forget_monitor : (index : ℕ) → QueueKept Q (forget_monitor env index)
  unfolding forget_monitor
  QueueKept-forget_monitor index = search (queue_rules, QueueKept-raise_if) depth 30

  QueueKept-again : (r : Result (Unit {0})) → QueueKept Q (again env r)
  unfolding again
  QueueKept-again (ok _) = search queue_rules depth 30
  QueueKept-again (err e) = search queue_rules depth 30
  QueueKept-again panic = search queue_rules depth 30

  QueueKept-remove_all : QueueKept Q (remove_all env)
  unfolding remove_all
  QueueKept-remove_all = search (queue_rules, QueueKept-remove_controller, QueueKept-again) depth 30

  QueueKept-finalize_monitored : (o : Option Bytes) → QueueKept Q (finalize_monitored env o)
  unfolding finalize_monitored
  QueueKept-finalize_monitored none = search queue_rules depth 30
  QueueKept-finalize_monitored (some m) =
      search (queue_rules, QueueKept-forget_monitor, QueueKept-remove_all) depth 30

  pub QueueKept-finalizer : QueueKept Q (finalizer env)
  unfolding finalizer
  QueueKept-finalizer = search (queue_rules, QueueKept-finalize_monitored) depth 30

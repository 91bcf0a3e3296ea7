-- ===== src/Cluster/Topology/Messages.antt =====
-- `ensureVersion` and `ensureStatusTopoMsg` of pkg/controllers/cluster and the queue of failover
-- messages.
use kvrocks_operator.Base.Exec.{Result, ok, err, panic}
use kvrocks_operator.Client.Env.{Env}
use kvrocks_operator.Events.Queue.{MessageQueue}
use kvrocks_operator.Cluster.State.Messages.{QueueKept, queue_rules}
use kvrocks_operator.Cluster.Topology.{ensure_version, requeue_on_error, ensure_status_topo_msg}

module _ {W : Type 0} (env : Env W) (Q : MessageQueue → Type 0) where
  pub QueueKept-ensure_version : QueueKept {W = W} Q ensure_version
  unfolding ensure_version
  QueueKept-ensure_version = search queue_rules depth 30

  QueueKept-requeue_on_error : (r : Result (Unit {0})) → QueueKept {W = W} Q (requeue_on_error r)
  unfolding requeue_on_error
  QueueKept-requeue_on_error (ok _) = search queue_rules depth 30
  QueueKept-requeue_on_error (err e) = search queue_rules depth 30
  QueueKept-requeue_on_error panic = search queue_rules depth 30

  pub QueueKept-ensure_status_topo_msg : QueueKept Q (ensure_status_topo_msg env)
  unfolding ensure_status_topo_msg
  QueueKept-ensure_status_topo_msg = search (queue_rules, QueueKept-requeue_on_error) depth 30

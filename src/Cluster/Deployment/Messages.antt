-- ===== src/Cluster/Deployment/Messages.antt =====
-- pkg/controllers/cluster/controller.go and the queue of failover messages.
use kvrocks_operator.Client.Env.{Env}
use kvrocks_operator.Events.Queue.{MessageQueue}
use kvrocks_operator.Cluster.State.Messages.{QueueKept, queue_rules}
use kvrocks_operator.Cluster.Deployment.{
  create_controller_namespace, connect, start_controller, ensure_controller, remove_controller,
}

module _ {W : Type 0} (env : Env W) (Q : MessageQueue → Type 0) where
  QueueKept-create_controller_namespace : QueueKept Q (create_controller_namespace env)
  unfolding create_controller_namespace
  QueueKept-create_controller_namespace = search queue_rules depth 30

  QueueKept-connect : QueueKept Q (connect env)
  unfolding connect
  QueueKept-connect = search (queue_rules, QueueKept-create_controller_namespace) depth 30

  QueueKept-start_controller : QueueKept Q (start_controller env)
  unfolding start_controller
  QueueKept-start_controller = search (queue_rules, QueueKept-connect) depth 30

  pub QueueKept-ensure_controller : QueueKept Q (ensure_controller env)
  unfolding ensure_controller
  QueueKept-ensure_controller = search (queue_rules, QueueKept-start_controller) depth 30

  pub QueueKept-remove_controller : QueueKept Q (remove_controller env)
  unfolding remove_controller
  QueueKept-remove_controller = search queue_rules depth 30

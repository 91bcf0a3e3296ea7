-- ===== src/Cluster/Failover/Messages.antt =====
-- `ensureFailover` of pkg/controllers/cluster/kvrocks.go and the queue of failover messages.
use kvrocks_operator.Base.{ℕ, Bytes, Bool}
use kvrocks_operator.Base.Exec.Preserves.{kept, Preserves-bind}
use kvrocks_operator.Kvrocks.{Node}
use kvrocks_operator.Client.Env.{Env}
use kvrocks_operator.Events.Queue.{EventMessage, MessageQueue, add, failover_message}
use kvrocks_operator.Cluster.State.{call}
use kvrocks_operator.Cluster.State.Messages.{QueueKept, QueueKept-call, queue_rules}
use kvrocks_operator.Cluster.Topology.Messages.{QueueKept-ensure_status_topo_msg}
use kvrocks_operator.Cluster.Failover.{
  send_failover_msg, replace_failed, watch, fail_over_node, ensure_failover,
}

abbrev pub Closed : (MessageQueue → Type 0) → Type 0
Closed Q = (q : MessageQueue) (msg : EventMessage) → Q q → Q (add q msg)

module _ {W : Type 0} (env : Env W) (Q : MessageQueue → Type 0) (closed : Closed Q) where
  QueueKept-send_failover_msg :
      (ip : Bytes) (partition : ℕ) → QueueKept Q (send_failover_msg env ip partition)
  unfolding send_failover_msg
  QueueKept-send_failover_msg ip partition =
      Preserves-bind (call env.now) _ (QueueKept-call env.now) (λ now. kept (λ h q. record {
        holds = closed h.messages (failover_message ip h.key partition now) q.holds;
      }))

  QueueKept-replace_failed :
      (partition index : ℕ) (node : Node) → QueueKept Q (replace_failed env partition index node)
  unfolding replace_failed
  QueueKept-replace_failed partition index node = search queue_rules depth 30

  QueueKept-watch :
      (partition : ℕ) (change : Bool) (node : Node) → QueueKept Q (watch env partition change node)
  unfolding watch
  QueueKept-watch partition change node = search (queue_rules, QueueKept-send_failover_msg) depth 30

  pub QueueKept-fail_over_node :
      (partition index : ℕ) (change : Bool) (node : Node)
      → QueueKept Q (fail_over_node env partition index change node)
  unfolding fail_over_node
  QueueKept-fail_over_node partition index change node =
      search (queue_rules, QueueKept-replace_failed, QueueKept-watch) depth 30

  pub QueueKept-ensure_failover : QueueKept Q (ensure_failover env)
  unfolding ensure_failover
  QueueKept-ensure_failover =
      search (queue_rules, QueueKept-fail_over_node, QueueKept-ensure_status_topo_msg) depth 30

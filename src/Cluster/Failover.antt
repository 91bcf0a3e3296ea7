-- ===== src/Cluster/Failover.antt =====
-- `ensureFailover` of pkg/controllers/cluster/kvrocks.go.
pub mod Messages
pub mod Reported
use kvrocks_operator.Base.{ℕ, ◌+◌, Bytes, Bool, true, false, if◌then◌else◌}
use kvrocks_operator.Base.Exec.{pure, gets, ◌>>=◌, ◌>>◌}
use kvrocks_operator.Kvrocks.{Node}
use kvrocks_operator.Client.K8s.{delete_pvc_by_pod, delete_pod_immediately}
use kvrocks_operator.Client.Env.{Env}
use kvrocks_operator.Events.Queue.{add, failover_message}
use kvrocks_operator.Resources.Names.{indexed}
use kvrocks_operator.Cluster.State.{
  Run, call, set_requeue, set_nodes, set_version, set_messages, each_shard,
}
use kvrocks_operator.Cluster.Topology.{ensure_status_topo_msg}

module _ {W : Type 0} (env : Env W) where
  -- `SendFailoverMsg`
  send_failover_msg : Bytes → ℕ → Run W Unit
  unfolding ◌>>=◌ call set_messages add failover_message
  send_failover_msg ip partition = do
    now ← call env.now
    key ← gets (λ h. h.key)
    messages ← gets (λ h. h.messages)
    set_messages (add messages (failover_message ip key partition now))

  -- A node that is marked as failed over: it is kept if it answers again, and else its pod and
  -- claim are deleted, by the node's position in the shard. The mark goes in both cases.
  replace_failed : ℕ → ℕ → Node → Run W (Node × Bool)
  unfolding ◌>>=◌ call set_requeue
  replace_failed partition index node = do
    set_requeue true
    password ← gets (λ h. h.password)
    alive ← call (env.kv.ping node.ip password)
    if alive then pure (record node { failover = false }, true) else do
      k ← gets (λ h. h.instance_)
      call (delete_pvc_by_pod env.k8s (indexed (indexed k.name partition) index) k.namespace)
      call (delete_pod_immediately env.k8s (indexed (indexed k.name partition) index) k.namespace)
      pure (record node { failover = false }, true)

  watch : ℕ → Bool → Node → Run W (Node × Bool)
  unfolding ◌>>=◌ call set_requeue send_failover_msg
  watch partition change node = do
    password ← gets (λ h. h.password)
    alive ← call (env.kv.ping node.ip password)
    if alive
        then pure (node, change)
        else do set_requeue true; send_failover_msg node.ip partition; pure (node, change)

  -- The body of the loops, with the flag `change`.
  pub fail_over_node : ℕ → ℕ → Bool → Node → Run W (Node × Bool)
  unfolding replace_failed watch
  fail_over_node partition index change node =
      if node.failover then replace_failed partition index node else watch partition change node

  -- `ensureFailover`
  unfoldable pub ensure_failover : Run W Unit
  unfolding ◌>>=◌ each_shard fail_over_node set_nodes set_version
  ensure_failover = do
    nodes ← gets (λ h. h.sts_nodes)
    (nodes', change) ← each_shard fail_over_node 0 false nodes
    set_nodes nodes'
    if change
        then (do
          version ← gets (λ h. h.version)
          set_version (version + 1)
          ensure_status_topo_msg env)
        else pure tt

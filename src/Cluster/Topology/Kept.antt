-- ===== src/Cluster/Topology/Kept.antt =====
-- What `ensureStatusTopoMsg` of pkg/controllers/cluster/kubernetes.go does to the handler's nodes.
use kvrocks_operator.Base.{◌≡◌, map}
use kvrocks_operator.Base.Exec.{Result, ok, err, panic, attempt, gets, pure, raise, crash, ◌>>=◌}
use kvrocks_operator.Base.Exec.Ensures.{Post, Post-bind, Post-attempt}
use kvrocks_operator.Client.Env.{Env}
use kvrocks_operator.Cluster.State.{ClusterHandler, set_nodes, save_instance}
use kvrocks_operator.Cluster.State.Kept.{save_instance_nodes}
use kvrocks_operator.Cluster.Topology.{
  publish, sort_shard, requeue_on_error, ensure_status_topo_msg,
}

module _ {W : Type 0} where
  requeue_nodes :
      (r : Result (Unit {0})) (P : ClusterHandler W → Type 0) (h : ClusterHandler W)
      → P h
      → Post (λ (_ : Unit {0}) h'. P h') (requeue_on_error r h)
  unfolding requeue_on_error raise crash pure ◌>>=◌
  requeue_nodes (ok _) P h p = p
  requeue_nodes (err e) P h p = tt
  requeue_nodes panic P h p = tt

  -- Where it ends without an error, the nodes are those of before with their slots in order.
  pub ensure_status_topo_msg_nodes :
      (env : Env W) (h : ClusterHandler W)
      → Post
          (λ (_ : Unit {0}) h'. h'.sts_nodes ≡ map sort_shard h.sts_nodes)
          (ensure_status_topo_msg env h)
  unfolding ensure_status_topo_msg set_nodes ◌>>=◌ gets
  ensure_status_topo_msg_nodes env h =
      let sorted = map sort_shard h.sts_nodes in
      let ready : ClusterHandler W = record h { sts_nodes = sorted } in
      let k' = record h.instance_ {
        status = record h.instance_.status {
          topo = publish h.instance_.name 0 h.sts_nodes;
          version = h.version;
        };
      } in
      Post-bind (attempt (save_instance env k')) (λ saved. requeue_on_error saved) ready
        (λ _ s. s.sts_nodes ≡ sorted) (λ _ s. s.sts_nodes ≡ sorted)
        (Post-attempt (λ s. s.sts_nodes ≡ sorted) (save_instance env k') ready
          (save_instance_nodes env k' ready))
        (λ r s e. requeue_nodes r (λ s. s.sts_nodes ≡ sorted) s e)

-- ===== src/Common/Resize.antt =====
-- `ResizeStatefulSet` of pkg/controllers/common/kubernetes.go. The choice of the ordinals and the
-- clearing of the nodes are those of `getReserveIndex` of the cluster handler.
use kvrocks_operator.Base.{
  ℕ, Bool, true, false, List, Option, none, some, length, ◌==◌, nat_eq, if◌then◌else◌,
}
use kvrocks_operator.Base.Exec.{
  Error, Result, Exec, ok, err, panic, pure, crash, attempt, or_crash, ◌>>=◌,
}
use kvrocks_operator.Api.{Kvrocks}
use kvrocks_operator.Client.Objects.{StatefulSet}
use kvrocks_operator.Client.K8s.{create_or_update_stateful_set}
use kvrocks_operator.Client.Env.{Env}
use kvrocks_operator.Resources.Workloads.{new_replication_stateful_set, new_cluster_stateful_set}
use kvrocks_operator.Cluster.State.{Shard}
use kvrocks_operator.Cluster.Shrink.{get_reserve_index}

-- The set of the instance, or of one of its shards.
abbrev set_of : Kvrocks → Option ℕ → Option StatefulSet
set_of k none = new_replication_stateful_set k
set_of k (some index) = new_cluster_stateful_set k index

module _ {W : Type 0} (env : Env W) (k : Kvrocks) where
  -- The nodes as they are left, and the answer with the error beside it.
  resized : Shard → Result StatefulSet → Exec W (Shard × Bool × Option Error)
  resized nodes (ok _) = pure (nodes, true, none)
  resized nodes (err e) = pure (nodes, true, some e)
  resized nodes panic = crash

  shrink_to : Option ℕ → Shard → Option (List ℕ) → Exec W (Shard × Bool × Option Error)
  unfolding ◌>>=◌ attempt resized
  shrink_to index nodes none = pure (nodes, true, none)
  shrink_to index nodes (some reserve) = do
    sts ← or_crash (set_of k index)
    let wanted : StatefulSet = record sts { reserve_ordinals = reserve }
    r ← attempt (create_or_update_stateful_set env.k8s wanted)
    resized nodes r

  -- `ResizeStatefulSet`
  unfoldable pub resize_stateful_set : Shard → Option ℕ → Exec W (Shard × Bool × Option Error)
  unfolding ◌>>=◌ shrink_to
  resize_stateful_set nodes index =
      if length nodes == k.spec.replicas then pure (nodes, false, none) else (do
        (reserve, left) ← or_crash (get_reserve_index k.spec.replicas nodes)
        shrink_to index left reserve)

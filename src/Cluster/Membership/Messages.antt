-- ===== src/Cluster/Membership/Messages.antt =====
-- `ensureCluster` of pkg/controllers/cluster/kvrocks.go and the queue of failover messages.
use kvrocks_operator.Base.{ℕ, suc, Bool, List, [], ◌∷◌, Option, none, some}
use kvrocks_operator.Base.Exec.{Result, ok, err, panic}
use kvrocks_operator.Client.Env.{Env}
use kvrocks_operator.Events.Queue.{MessageQueue}
use kvrocks_operator.Cluster.State.{Shard}
use kvrocks_operator.Cluster.State.Messages.{QueueKept, queue_rules}
use kvrocks_operator.Kvrocks.{Node}
use kvrocks_operator.Client.Controller.{Member, ShardData}
use kvrocks_operator.Cluster.Roles.Messages.{QueueKept-ensure_set_node_id}
use kvrocks_operator.Cluster.Membership.{
  remove_member, trim_shard, trim_shards, add_missing, fill_shards, drop_shard, update_cluster,
  make_cluster, join_cluster, settle, save_running, ensure_cluster,
}

module _ {W : Type 0} (env : Env W) (Q : MessageQueue → Type 0) where
  QueueKept-remove_member :
      (index : ℕ) (nodes : Shard) (m : Member) → QueueKept Q (remove_member env index nodes m)
  unfolding remove_member
  QueueKept-remove_member index nodes m = search queue_rules depth 30

  QueueKept-trim_shard :
      (index : ℕ) (nodes : Shard) (found : Option ShardData)
      → QueueKept Q (trim_shard env index nodes found)
  unfolding trim_shard
  QueueKept-trim_shard index nodes none = search queue_rules depth 30
  QueueKept-trim_shard index nodes (some shard) =
      search (queue_rules, QueueKept-remove_member) depth 30

  QueueKept-trim_shards :
      (index : ℕ) (shards : List Shard) → QueueKept Q (trim_shards env index shards)
  unfolding trim_shards
  QueueKept-trim_shards index [] = search queue_rules depth 30
  QueueKept-trim_shards index (nodes ∷ shards) =
      search (queue_rules, QueueKept-trim_shard, QueueKept-trim_shards (suc index) shards) depth 30

  QueueKept-add_missing :
      (index : ℕ) (found : Option ShardData) (slot : Option Node)
      → QueueKept Q (add_missing env index found slot)
  unfolding add_missing
  QueueKept-add_missing index found slot = search queue_rules depth 30

  QueueKept-fill_shards :
      (index : ℕ) (shards : List Shard) → QueueKept Q (fill_shards env index shards)
  unfolding fill_shards
  QueueKept-fill_shards index [] = search queue_rules depth 30
  QueueKept-fill_shards index (nodes ∷ shards) =
      search (queue_rules, QueueKept-add_missing, QueueKept-fill_shards (suc index) shards) depth 30

  QueueKept-drop_shard : (index : ℕ) → QueueKept Q (drop_shard env index)
  unfolding drop_shard
  QueueKept-drop_shard index = search queue_rules depth 30

  QueueKept-update_cluster : QueueKept Q (update_cluster env)
  unfolding update_cluster
  QueueKept-update_cluster =
      search (queue_rules, QueueKept-trim_shards, QueueKept-fill_shards, QueueKept-drop_shard) depth
        30

  QueueKept-make_cluster : QueueKept Q (make_cluster env)
  unfolding make_cluster
  QueueKept-make_cluster = search queue_rules depth 30

  QueueKept-join_cluster : QueueKept Q (join_cluster env)
  unfolding join_cluster
  QueueKept-join_cluster =
      search
        (
          queue_rules, QueueKept-make_cluster, QueueKept-update_cluster,
          QueueKept-ensure_set_node_id,
        )
        depth 30

  QueueKept-settle : (b : Bool) (r : Result (Unit {0})) → QueueKept Q (settle env b r)
  unfolding settle
  QueueKept-settle b (ok _) = search queue_rules depth 30
  QueueKept-settle b (err e) = search queue_rules depth 30
  QueueKept-settle b panic = search queue_rules depth 30

  QueueKept-save_running : QueueKept Q (save_running env)
  unfolding save_running
  QueueKept-save_running = search (queue_rules, QueueKept-settle) depth 30

  pub QueueKept-ensure_cluster : QueueKept Q (ensure_cluster env)
  unfolding ensure_cluster
  QueueKept-ensure_cluster =
      search (queue_rules, QueueKept-join_cluster, QueueKept-settle, QueueKept-save_running) depth
        30

-- ===== src/Cluster/Roles/Messages.antt =====
-- The roles of nodes of pkg/controllers/cluster/kvrocks.go and the queue of failover messages.
use kvrocks_operator.Base.{ℕ, suc, Bytes, List, [], ◌∷◌}
use kvrocks_operator.Client.Env.{Env}
use kvrocks_operator.Events.Queue.{MessageQueue}
use kvrocks_operator.Cluster.State.{Shard}
use kvrocks_operator.Cluster.State.Messages.{QueueKept, queue_rules}
use kvrocks_operator.Api.{Key}
use kvrocks_operator.Kvrocks.{Node}
use kvrocks_operator.Client.Controller.{ShardData}
use kvrocks_operator.Cluster.Roles.{
  update_pod_labels, label_node, init_node, init_cluster, attach_node, replicate_shards,
  ensure_replication, identify_node, identify_shard, identify_shards, ensure_set_node_id,
}

module _ {W : Type 0} (env : Env W) (Q : MessageQueue → Type 0) where
  QueueKept-update_pod_labels :
      (key : Key) (role : Bytes) → QueueKept Q (update_pod_labels env key role)
  unfolding update_pod_labels
  QueueKept-update_pod_labels key role = search queue_rules depth 30

  QueueKept-label_node : (i : ℕ) (node : Node) → QueueKept Q (label_node env i node)
  unfolding label_node
  QueueKept-label_node i node = search (queue_rules, QueueKept-update_pod_labels) depth 30

  QueueKept-init_node :
      (i j : ℕ) (u : Unit {0}) (node : Node) → QueueKept Q (init_node env i j u node)
  unfolding init_node
  QueueKept-init_node i j u node = search (queue_rules, QueueKept-label_node) depth 30

  pub QueueKept-init_cluster : QueueKept Q (init_cluster env)
  unfolding init_cluster
  QueueKept-init_cluster = search (queue_rules, QueueKept-init_node) depth 30

  QueueKept-attach_node :
      (i : ℕ) (master_id : Bytes) (j : ℕ) (u : Unit {0}) (node : Node)
      → QueueKept Q (attach_node env i master_id j u node)
  unfolding attach_node
  QueueKept-attach_node i master_id j u node = search (queue_rules, QueueKept-label_node) depth 30

  QueueKept-replicate_shards :
      (i : ℕ) (shards : List Shard) → QueueKept Q (replicate_shards env i shards)
  unfolding replicate_shards
  QueueKept-replicate_shards i [] = search queue_rules depth 30
  QueueKept-replicate_shards i (shard ∷ shards) =
      search (queue_rules, QueueKept-attach_node, QueueKept-replicate_shards (suc i) shards) depth
        30

  pub QueueKept-ensure_replication : QueueKept Q (ensure_replication env)
  unfolding ensure_replication
  QueueKept-ensure_replication = search (queue_rules, QueueKept-replicate_shards) depth 30

  QueueKept-identify_node :
      (i : ℕ) (master_id : Bytes) (shard : ShardData) (j : ℕ) (u : Unit {0}) (node : Node)
      → QueueKept Q (identify_node env i master_id shard j u node)
  unfolding identify_node
  QueueKept-identify_node i master_id shard j u node =
      search (queue_rules, QueueKept-label_node) depth 30

  QueueKept-identify_shard :
      (i : ℕ) (nodes : Shard) (shard : ShardData) (id : Bytes)
      → QueueKept Q (identify_shard env i nodes shard id)
  unfolding identify_shard
  QueueKept-identify_shard i nodes shard [] = search queue_rules depth 30
  QueueKept-identify_shard i nodes shard (c ∷ id) =
      search (queue_rules, QueueKept-identify_node) depth 30

  QueueKept-identify_shards :
      (i : ℕ) (shards : List Shard) → QueueKept Q (identify_shards env i shards)
  unfolding identify_shards
  QueueKept-identify_shards i [] = search queue_rules depth 30
  QueueKept-identify_shards i (nodes ∷ shards) =
      search (queue_rules, QueueKept-identify_shard, QueueKept-identify_shards (suc i) shards) depth
        30

  pub QueueKept-ensure_set_node_id : QueueKept Q (ensure_set_node_id env)
  unfolding ensure_set_node_id
  QueueKept-ensure_set_node_id = search (queue_rules, QueueKept-identify_shards) depth 30

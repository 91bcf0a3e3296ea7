-- ===== src/Cluster/Workload/Messages.antt =====
-- `ensureKubernetes` of pkg/controllers/cluster/kubernetes.go and the queue of failover messages.
use kvrocks_operator.Base.{ℕ, List, [], ◌∷◌, Option, none, some}
use kvrocks_operator.Base.Exec.{
  Result, ok, err, panic, not_found, already_exists, conflict, forbidden, invalid, other,
}
use kvrocks_operator.Base.Exec.Preserves.{Preserves-bind, Preserves-elim_option}
use kvrocks_operator.Client.Env.{Env}
use kvrocks_operator.Events.Queue.{MessageQueue}
use kvrocks_operator.Cluster.State.Messages.{QueueKept, queue_rules}
use kvrocks_operator.Client.Objects.{Pod, StatefulSet, ConfigMap}
use kvrocks_operator.Kvrocks.{Node}
use kvrocks_operator.Cluster.Workload.{
  create_set, grow_set, read_pods, read_shard, read_shards, adopt, with_sets, with_config_map,
  ensure_kubernetes,
}

module _ {W : Type 0} (env : Env W) (Q : MessageQueue → Type 0) where
  QueueKept-create_set : (i : ℕ) → QueueKept Q (create_set env i)
  unfolding create_set
  QueueKept-create_set i = search queue_rules depth 30

  QueueKept-grow_set : (i : ℕ) → QueueKept Q (grow_set env i)
  unfolding grow_set
  QueueKept-grow_set i = search queue_rules depth 30

  QueueKept-read_pods :
      (pods : List Pod) (nodes : List Node) → QueueKept Q (read_pods env pods nodes)
  unfolding read_pods
  QueueKept-read_pods [] nodes = search queue_rules depth 30
  QueueKept-read_pods (pod ∷ pods) nodes = search (queue_rules, QueueKept-read_pods pods) depth 30

  QueueKept-read_shard : (i : ℕ) → QueueKept Q (read_shard env i)
  unfolding read_shard
  QueueKept-read_shard i = search (queue_rules, QueueKept-read_pods) depth 30

  QueueKept-read_shards : (is : List ℕ) → QueueKept Q (read_shards env is)
  unfolding read_shards
  QueueKept-read_shards [] = search queue_rules depth 30
  QueueKept-read_shards (i ∷ is) =
      Preserves-bind (read_shard env i) _ (QueueKept-read_shard i) (λ shard.
        Preserves-elim_option shard _ _ (search queue_rules depth 30)
          (λ nodes. search (queue_rules, QueueKept-read_shards is) depth 30))

  QueueKept-adopt : (found : Option (List (List Node))) → QueueKept Q (adopt env found)
  unfolding adopt
  QueueKept-adopt none = search queue_rules depth 30
  QueueKept-adopt (some shards) = search queue_rules depth 30

  QueueKept-with_sets : (sets : List StatefulSet) → QueueKept Q (with_sets env sets)
  unfolding with_sets
  QueueKept-with_sets sets =
      search (queue_rules, QueueKept-grow_set, QueueKept-read_shards, QueueKept-adopt) depth 30

  QueueKept-with_config_map : (r : Result ConfigMap) → QueueKept Q (with_config_map env r)
  unfolding with_config_map
  QueueKept-with_config_map (ok cm) =
      search (queue_rules, QueueKept-create_set, QueueKept-with_sets) depth 30
  QueueKept-with_config_map (err not_found) = search queue_rules depth 30
  QueueKept-with_config_map (err already_exists) = search queue_rules depth 30
  QueueKept-with_config_map (err conflict) = search queue_rules depth 30
  QueueKept-with_config_map (err forbidden) = search queue_rules depth 30
  QueueKept-with_config_map (err invalid) = search queue_rules depth 30
  QueueKept-with_config_map (err (other text)) = search queue_rules depth 30
  QueueKept-with_config_map panic = search queue_rules depth 30

  pub QueueKept-ensure_kubernetes : QueueKept Q (ensure_kubernetes env)
  unfolding ensure_kubernetes
  QueueKept-ensure_kubernetes = search (queue_rules, QueueKept-with_config_map) depth 30

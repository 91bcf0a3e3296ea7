-- ===== src/Cluster/State/Messages.antt =====
-- The queue of failover messages under the basic steps of the handler of pkg/controllers/cluster.
use kvrocks_operator.Base.{ℕ, suc, Bytes, Bool, List, [], ◌∷◌, none, some}
use kvrocks_operator.Base.Exec.{Result, Exec}
use kvrocks_operator.Base.Exec.Preserves.{
  Preserves, kept, Preserves-at, Preserves-pure, Preserves-crash, Preserves-bind, preserves_rules,
}
use kvrocks_operator.Api.{Kvrocks}
use kvrocks_operator.Kvrocks.{Node}
use kvrocks_operator.Client.Controller.{Endpoint}
use kvrocks_operator.Client.Env.{Env}
use kvrocks_operator.Events.Queue.{MessageQueue}
use kvrocks_operator.Cluster.State.{
  Shard, ClusterHandler, Run, returned, call, lift_result, set_requeue, set_password, set_nodes,
  set_instance, set_version, set_endpoint, save_instance, each_node, each_shard,
}

pub record OfQueue {W : Type 0} (Q : MessageQueue → Type 0) (h : ClusterHandler W) : Type 0 where
  pub holds : Q h.messages

-- The method leaves a queue with the property where there was one.
abbrev pub QueueKept : {W A : Type 0} → (MessageQueue → Type 0) → Run W A → Type 0
QueueKept Q m = Preserves (OfQueue Q) m

module _ {W : Type 0} {Q : MessageQueue → Type 0} where
  returned_queue :
      {A : Type 0} (h : ClusterHandler W) (r : Result A × W)
      → OfQueue Q h
      → OfQueue Q (returned h r).1
  unfolding returned
  returned_queue h (r, w) q = record { holds = q.holds }

  pub QueueKept-call : {A : Type 0} (m : Exec W A) → QueueKept Q (call m)
  unfolding call
  QueueKept-call m = kept (λ h q. returned_queue h (m h.world) q)

  pub QueueKept-lift_result : {A : Type 0} (r : Result A) → QueueKept Q (lift_result {W = W} r)
  unfolding lift_result
  QueueKept-lift_result r = kept (λ h q. record { holds = q.holds })

  pub QueueKept-set_requeue : (b : Bool) → QueueKept Q (set_requeue {W = W} b)
  unfolding set_requeue
  QueueKept-set_requeue b = kept (λ h q. record { holds = q.holds })

  pub QueueKept-set_password : (p : Bytes) → QueueKept Q (set_password {W = W} p)
  unfolding set_password
  QueueKept-set_password p = kept (λ h q. record { holds = q.holds })

  pub QueueKept-set_nodes : (nodes : List Shard) → QueueKept Q (set_nodes {W = W} nodes)
  unfolding set_nodes
  QueueKept-set_nodes nodes = kept (λ h q. record { holds = q.holds })

  pub QueueKept-set_instance : (k : Kvrocks) → QueueKept Q (set_instance {W = W} k)
  unfolding set_instance
  QueueKept-set_instance k = kept (λ h q. record { holds = q.holds })

  pub QueueKept-set_version : (v : ℕ) → QueueKept Q (set_version {W = W} v)
  unfolding set_version
  QueueKept-set_version v = kept (λ h q. record { holds = q.holds })

  pub QueueKept-set_endpoint : (e : Endpoint) → QueueKept Q (set_endpoint {W = W} e)
  unfolding set_endpoint
  QueueKept-set_endpoint e = kept (λ h q. record { holds = q.holds })

  pub QueueKept-save_instance : (env : Env W) (k : Kvrocks) → QueueKept Q (save_instance env k)
  unfolding save_instance
  QueueKept-save_instance env k = search (preserves_rules, QueueKept-set_instance, QueueKept-call)

module _ {W C : Type 0} {Q : MessageQueue → Type 0} where
  pub QueueKept-each_node :
      (f : ℕ → C → Node → Run W (Node × C))
      → ((j : ℕ) (c : C) (node : Node) → QueueKept Q (f j c node))
      → (j : ℕ) (c : C) (shard : Shard) → QueueKept Q (each_node f j c shard)
  unfolding each_node
  QueueKept-each_node f k j c [] = Preserves-pure _
  QueueKept-each_node f k j c (none ∷ nodes) = Preserves-crash
  QueueKept-each_node f k j c (some node ∷ nodes) = Preserves-bind (f j c node) _ (k j c node) (λ p.
      Preserves-bind (each_node f (suc j) p.1 nodes) _ (QueueKept-each_node f k (suc j) p.1 nodes)
        (λ q. Preserves-pure _))

  pub QueueKept-each_shard :
      (f : ℕ → ℕ → C → Node → Run W (Node × C))
      → ((i j : ℕ) (c : C) (node : Node) → QueueKept Q (f i j c node))
      → (i : ℕ) (c : C) (shards : List Shard) → QueueKept Q (each_shard f i c shards)
  unfolding each_shard
  QueueKept-each_shard f k i c [] = Preserves-pure _
  QueueKept-each_shard f k i c (shard ∷ shards) =
      Preserves-bind (each_node (f i) 0 c shard) _ (QueueKept-each_node (f i) (k i) 0 c shard) (λ p.
        Preserves-bind (each_shard f (suc i) p.1 shards) _
          (QueueKept-each_shard f k (suc i) p.1 shards) (λ q. Preserves-pure _))

-- What keeps the queue, for `search`.
pub ruleset queue_rules = (
  preserves_rules, QueueKept-call, QueueKept-lift_result, QueueKept-set_requeue,
  QueueKept-set_password, QueueKept-set_nodes, QueueKept-set_instance, QueueKept-set_version,
  QueueKept-set_endpoint, QueueKept-save_instance, QueueKept-each_node, QueueKept-each_shard,
)

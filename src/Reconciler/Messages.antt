-- ===== src/Reconciler/Messages.antt =====
-- `Reconcile` of pkg/controllers/kvrocks_controller.go and the queue of failover messages.
use kvrocks_operator.Base.{Bytes, Option, none, some, ◌||◌}
use kvrocks_operator.Base.Exec.{
  Result, Exec, ok, err, panic, not_found, already_exists, conflict, forbidden, invalid, other,
}
use kvrocks_operator.Base.Exec.Preserves.{
  Preserves, kept, Preserves-at, Preserves-if, Preserves-elim_option, preserves_rules,
}
use kvrocks_operator.Api.{
  Key, Kvrocks, KvrocksType, sentinel_type, standard_type, cluster_type, other_type,
}
use kvrocks_operator.Client.Env.{Env}
use kvrocks_operator.Events.Queue.{EventMessage, MessageQueue, add}
use kvrocks_operator.Standard.State.{StandardHandler, new_standard_handler}
use kvrocks_operator.Standard
use kvrocks_operator.Sentinel.Handler.{SentinelHandler, new_sentinel_handler}
use kvrocks_operator.Sentinel
use kvrocks_operator.Cluster.State.{ClusterHandler, new_cluster_handler}
use kvrocks_operator.Cluster.State.Messages.{OfQueue}
use kvrocks_operator.Cluster.Failover.Messages.{Closed}
use kvrocks_operator.Cluster.Handler.Messages.{QueueKept-handle, QueueKept-finalizer}
use kvrocks_operator.Cluster
use kvrocks_operator.Reconciler.{
  should_retry, Operator, Left, Run, returned, call, after_sentinel, after_standard, after_cluster,
  run_handler, run_finalizer, after_clear, after_finalizer, delete_instance, label_instance,
  run_if_initialize, after_initialize, refuse, check_specification, with_instance, reconcile,
}

pub record Holds {W : Type 0} (Q : MessageQueue → Type 0) (o : Operator W) : Type 0 where
  pub holds : Q o.messages

abbrev Keeps : {W A : Type 0} → (MessageQueue → Type 0) → Run W A → Type 0
Keeps Q m = Preserves (Holds Q) m

module _ {W A : Type 0} (Q : MessageQueue → Type 0) where
  returned-Holds : (o : Operator W) (r : Result A × W) → Holds Q o → Holds Q (returned o r).1
  unfolding returned
  returned-Holds o (r, w) q = record { holds = q.holds }

  sentinel-Holds :
      (o : Operator W) (r : Result A × SentinelHandler W)
      → Holds Q o
      → Holds Q (after_sentinel o r).1
  unfolding after_sentinel
  sentinel-Holds o (r, h) q = record { holds = q.holds }

  standard-Holds :
      (o : Operator W) (r : Result A × StandardHandler W)
      → Holds Q o
      → Holds Q (after_standard o r).1
  unfolding after_standard
  standard-Holds o (r, h) q = record { holds = q.holds }

  cluster-Holds : (r : Result A × ClusterHandler W) → OfQueue Q r.1 → Holds Q (after_cluster r).1
  unfolding after_cluster
  cluster-Holds (r, h) q = record { holds = q.holds }

  Keeps-call : (m : Exec W A) → Keeps Q (call m)
  unfolding call
  Keeps-call m = kept (λ o q. returned-Holds o (m o.world) q)

ruleset pass_rules = (preserves_rules, Keeps-call)

module _ {W : Type 0} (env : Env W) (key : Key) (Q : MessageQueue → Type 0)
    (closed : Closed Q) where
  fresh-OfQueue :
      (k : Kvrocks) (o : Operator W)
      → Holds Q o
      → OfQueue Q (new_cluster_handler key k o.messages o.world)
  unfolding new_cluster_handler
  fresh-OfQueue k o q = record { holds = q.holds }

  Keeps-run_handler : (type : KvrocksType) (k : Kvrocks) → Keeps Q (run_handler env key type k)
  unfolding run_handler
  Keeps-run_handler sentinel_type k = kept (λ o q.
      sentinel-Holds Q o (Sentinel.Handler.handle env (new_sentinel_handler key k o.world)) q)
  Keeps-run_handler standard_type k = kept (λ o q.
      standard-Holds Q o (Standard.Handler.handle env (new_standard_handler key k o.world)) q)
  Keeps-run_handler cluster_type k = kept (λ o q.
      cluster-Holds Q (Cluster.Handler.handle env (new_cluster_handler key k o.messages o.world)) (
        Preserves-at (Cluster.Handler.handle env) (QueueKept-handle env Q closed)
          (new_cluster_handler key k o.messages o.world) (fresh-OfQueue k o q)))
  Keeps-run_handler (other_type _) k = kept (λ o q. q)

  Keeps-run_finalizer : (type : KvrocksType) (k : Kvrocks) → Keeps Q (run_finalizer env key type k)
  unfolding run_finalizer
  Keeps-run_finalizer sentinel_type k = kept (λ o q. q)
  Keeps-run_finalizer standard_type k = kept (λ o q.
      standard-Holds Q o (Standard.Handler.finalizer env (new_standard_handler key k o.world)) q)
  Keeps-run_finalizer cluster_type k = kept (λ o q.
      cluster-Holds Q (Cluster.Handler.finalizer env (new_cluster_handler key k o.messages o.world))
        (Preserves-at (Cluster.Handler.finalizer env) (QueueKept-finalizer env Q)
          (new_cluster_handler key k o.messages o.world) (fresh-OfQueue k o q)))
  Keeps-run_finalizer (other_type _) k = kept (λ o q. q)

  Keeps-after_clear : (r : Result Kvrocks) → Keeps Q (after_clear env key r)
  unfolding after_clear
  Keeps-after_clear (ok k) = search pass_rules
  Keeps-after_clear (err e) = search pass_rules
  Keeps-after_clear panic = search pass_rules

  Keeps-after_finalizer : (l : Left) → Keeps Q (after_finalizer env key l)
  unfolding after_finalizer
  Keeps-after_finalizer l =
      Preserves-if (l.requeue || should_retry l.error) _ _ (search pass_rules) (
        Preserves-elim_option l.error _ _ (search (pass_rules, Keeps-after_clear) depth 30)
          (λ e. search pass_rules))

  Keeps-delete_instance : (k : Kvrocks) → Keeps Q (delete_instance env key k)
  unfolding delete_instance
  Keeps-delete_instance k = search (pass_rules, Keeps-run_finalizer, Keeps-after_finalizer) depth 30

  Keeps-label_instance : (k : Kvrocks) → Keeps Q (label_instance env key k)
  unfolding label_instance
  Keeps-label_instance k = search pass_rules depth 30

  Keeps-run_if_initialize : (k : Kvrocks) → Keeps Q (run_if_initialize env key k)
  unfolding run_if_initialize
  Keeps-run_if_initialize k = search (pass_rules, Keeps-label_instance) depth 30

  Keeps-after_initialize : (r : Result Kvrocks) → Keeps Q (after_initialize env key r)
  unfolding after_initialize
  Keeps-after_initialize (ok k) = search (pass_rules, Keeps-run_handler) depth 30
  Keeps-after_initialize (err e) = search pass_rules
  Keeps-after_initialize panic = search pass_rules

  Keeps-refuse : (k : Kvrocks) (reason : Bytes) → Keeps Q (refuse env key k reason)
  unfolding refuse
  Keeps-refuse k reason = search pass_rules depth 30

  Keeps-check_specification :
      (k : Kvrocks) (o : Option Bytes) → Keeps Q (check_specification env key k o)
  unfolding check_specification
  Keeps-check_specification k (some reason) = Keeps-refuse k reason
  Keeps-check_specification k none =
      search (pass_rules, Keeps-run_if_initialize, Keeps-after_initialize) depth 30

  Keeps-with_instance : (r : Result Kvrocks) → Keeps Q (with_instance env key r)
  unfolding with_instance
  Keeps-with_instance (ok k) =
      search (pass_rules, Keeps-delete_instance, Keeps-check_specification) depth 30
  Keeps-with_instance (err not_found) = search pass_rules
  Keeps-with_instance (err already_exists) = search pass_rules
  Keeps-with_instance (err conflict) = search pass_rules
  Keeps-with_instance (err forbidden) = search pass_rules
  Keeps-with_instance (err invalid) = search pass_rules
  Keeps-with_instance (err (other text)) = search pass_rules
  Keeps-with_instance panic = search pass_rules

  Keeps-reconcile : Keeps Q (reconcile env key)
  unfolding reconcile
  Keeps-reconcile = search (pass_rules, Keeps-with_instance) depth 30

  -- What a pass leaves in the queue comes from adding messages to what was there.
  pub Closed-reconcile : (o : Operator W) → Q o.messages → Q (reconcile env key o).1.messages
  Closed-reconcile o q =
      (Preserves-at (reconcile env key) Keeps-reconcile o (record { holds = q })).holds

-- The queues that adding messages one after another makes of a queue.
pub data Sends (start : MessageQueue) : MessageQueue → Type 0 where
  nothing : Sends start start
  then_add : {q : MessageQueue} → Sends start q → (msg : EventMessage) → Sends start (add q msg)

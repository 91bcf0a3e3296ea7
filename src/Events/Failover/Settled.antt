-- ===== src/Events/Failover/Settled.antt =====
-- `handleFailover` of pkg/controllers/events/handler.go and the queue.
use kvrocks_operator.Base.{List, Option, ℕ, Bytes, [], ◌∷◌, ◌≡◌, refl, ap, some, none}
use kvrocks_operator.Base.Exec.{Result, Exec, ok, err, panic, attempt, gets, ◌>>=◌}
use kvrocks_operator.Base.Exec.Preserves.{
  Preserves, kept, Preserves-at, Preserves-attempt, preserves_rules,
}
use kvrocks_operator.Base.Exec.Ensures.{Post, Post-bind, Post-state}
use kvrocks_operator.Api.{Kvrocks}
use kvrocks_operator.Client.Controller.{Member, ShardData, Endpoint}
use kvrocks_operator.Client.K8s.{get_kvrocks}
use kvrocks_operator.Client.Env.{Env}
use kvrocks_operator.Events.Queue.{EventMessage, MessageQueue}
use kvrocks_operator.Events.Failover.{
  EventState, Run, Verdict, settle, returned, call, set_endpoint, set_messages, after_failure, fail,
  after_update, write_topology, with_shard, after_failover, with_endpoint, with_instance,
  handle_failover,
}

-- The queue is the given one.
record Holding {W : Type 0} (q : MessageQueue) (s : EventState W) : Type 0 where
  pub same : s.messages ≡ q

abbrev Untouched : {W A : Type 0} → MessageQueue → Run W A → Type 0
Untouched q m = Preserves (Holding q) m

module _ {W : Type 0} {q : MessageQueue} where
  returned-Holding :
      {A : Type 0} (s : EventState W) (r : Result A × W) → Holding q s → Holding q (returned s r).1
  unfolding returned
  returned-Holding s (r, w) h = record { same = h.same }

  Untouched-call : {A : Type 0} (m : Exec W A) → Untouched q (call m)
  unfolding call
  Untouched-call m = kept (λ s h. returned-Holding s (m s.world) h)

  Untouched-set_endpoint : (e : Endpoint) → Untouched q (set_endpoint {W = W} e)
  unfolding set_endpoint
  Untouched-set_endpoint e = kept (λ s h. record { same = h.same })

ruleset untouched_rules = (preserves_rules, Untouched-call, Untouched-set_endpoint)

module _ {W : Type 0} (env : Env W) (msg : EventMessage) (q : MessageQueue) where
  Untouched-after_failure : (r : Result Kvrocks) → Untouched q (after_failure env msg r)
  unfolding after_failure
  Untouched-after_failure (ok k) = search untouched_rules
  Untouched-after_failure (err e) = search untouched_rules
  Untouched-after_failure panic = search untouched_rules

  Untouched-fail : (k : Kvrocks) (reason : Bytes) → Untouched q (fail env msg k reason)
  unfolding fail
  Untouched-fail k reason = search (untouched_rules, Untouched-after_failure) depth 30

  Untouched-after_update : (r : Result Kvrocks) → Untouched q (after_update env msg r)
  unfolding after_update
  Untouched-after_update (ok k) = search untouched_rules
  Untouched-after_update (err e) = search untouched_rules
  Untouched-after_update panic = search untouched_rules

  Untouched-write_topology :
      (k : Kvrocks) (members : List Member) (id : Bytes)
      → Untouched q (write_topology env msg k members id)
  unfolding write_topology
  Untouched-write_topology k members [] = Untouched-fail k _
  Untouched-write_topology k members (c ∷ id) =
      search (untouched_rules, Untouched-after_update) depth 30

  Untouched-with_shard :
      (k : Kvrocks) (r : Result (Option ShardData)) → Untouched q (with_shard env msg k r)
  unfolding with_shard
  Untouched-with_shard k (ok (some shard)) = Untouched-write_topology k shard.nodes _
  Untouched-with_shard k (ok none) = search untouched_rules
  Untouched-with_shard k (err e) = search untouched_rules
  Untouched-with_shard k panic = search untouched_rules

  Untouched-after_failover :
      (k : Kvrocks) (r : Result (Unit {0})) → Untouched q (after_failover env msg k r)
  unfolding after_failover
  Untouched-after_failover k (ok _) = search (untouched_rules, Untouched-with_shard) depth 30
  Untouched-after_failover k (err _) = Untouched-fail k _
  Untouched-after_failover k panic = search untouched_rules

  Untouched-with_endpoint :
      (k : Kvrocks) (r : Result Endpoint) → Untouched q (with_endpoint env msg k r)
  unfolding with_endpoint
  Untouched-with_endpoint k (ok e) = search (untouched_rules, Untouched-after_failover) depth 30
  Untouched-with_endpoint k (err e) = search untouched_rules
  Untouched-with_endpoint k panic = search untouched_rules

  Untouched-with_instance : (r : Result Kvrocks) → Untouched q (with_instance env msg r)
  unfolding with_instance
  Untouched-with_instance (ok k) = search (untouched_rules, Untouched-with_endpoint) depth 30
  Untouched-with_instance (err e) = search untouched_rules
  Untouched-with_instance panic = search untouched_rules

-- The deferred function has run, at some time and with some verdict.
pub record Settled (msg : EventMessage) (q q' : MessageQueue) : Type 0 where
  pub now : ℕ
  pub verdict : Verdict
  pub same : q' ≡ settle msg q now verdict

module _ {W : Type 0} (env : Env W) (msg : EventMessage) (s : EventState W) where
  after-Settled :
      (verdict : Verdict) (s' : EventState W)
      → Holding s.messages s'
      → Post
          (λ (_ : Unit {0}) t. Settled msg s.messages t.messages)
          ((do
            now ← call env.now
            q ← gets (λ (h : EventState W). h.messages)
            set_messages (settle msg q now verdict))
            s')
  unfolding ◌>>=◌ set_messages
  after-Settled verdict s' h =
      Post-bind (call env.now) _ s' (λ _ t. Holding s.messages t)
        (λ (_ : Unit {0}) t. Settled msg s.messages t.messages)
        (Post-state (Holding s.messages) (call env.now s')
          (Preserves-at (call env.now) (Untouched-call env.now) s' h))
        (λ now t k. record {
          now = now;
          verdict = verdict;
          same = ap (λ q. settle msg q now verdict) k.same;
        })

  -- Where it does not panic, `handleFailover` changes the queue by its deferred function alone.
  pub handle_failover-Settled :
      Post (λ (_ : Unit {0}) t. Settled msg s.messages t.messages) (handle_failover env msg s)
  unfolding handle_failover
  handle_failover-Settled =
      Post-bind (attempt (call (get_kvrocks env.k8s msg.key))) _ s (λ _ t. Holding s.messages t)
        (λ (_ : Unit {0}) t. Settled msg s.messages t.messages)
        (Post-state (Holding s.messages) (attempt (call (get_kvrocks env.k8s msg.key)) s) (
          Preserves-at (attempt (call (get_kvrocks env.k8s msg.key)))
            (Preserves-attempt _ (Untouched-call (get_kvrocks env.k8s msg.key))) s
            (record { same = refl })))
        (λ found t k.
          Post-bind (with_instance env msg found) _ t (λ _ t'. Holding s.messages t')
            (λ (_ : Unit {0}) t'. Settled msg s.messages t'.messages)
            (Post-state (Holding s.messages) (with_instance env msg found t) (
              Preserves-at (with_instance env msg found)
                (Untouched-with_instance env msg s.messages found) t k))
            (λ verdict t' k'. after-Settled verdict t' k'))

-- ===== src/Cluster/Shrink/Messages.antt =====
-- A scale-down of pkg/controllers/cluster/kubernetes.go and the queue of failover messages.
use kvrocks_operator.Base.{ℕ, Bytes, List, [], ◌∷◌, Option, none, some}
use kvrocks_operator.Base.Exec.{Error}
use kvrocks_operator.Client.Env.{Env}
use kvrocks_operator.Events.Queue.{MessageQueue}
use kvrocks_operator.Cluster.State.Messages.{QueueKept, queue_rules}
use kvrocks_operator.Api.{ShrinkMsg}
use kvrocks_operator.Client.Objects.{Claim}
use kvrocks_operator.Cluster.Topology.Messages.{QueueKept-ensure_status_topo_msg}
use kvrocks_operator.Cluster.Shrink.{
  raise_if, retire, reserve_shards, order_shrink, ensure_shrink, delete_set, reserve_set,
  clean_stateful_set, clean_claim, clean_claims, clean_persistent_volume_claim,
}

module _ {W : Type 0} (env : Env W) (Q : MessageQueue → Type 0) where
  QueueKept-raise_if : (e : Option Error) → QueueKept Q (raise_if env e)
  unfolding raise_if
  QueueKept-raise_if none = search queue_rules depth 30
  QueueKept-raise_if (some e) = search queue_rules depth 30

  QueueKept-retire : (i : ℕ) → QueueKept Q (retire env i)
  unfolding retire
  QueueKept-retire i = search (queue_rules, QueueKept-raise_if) depth 30

  QueueKept-reserve_shards :
      (places : List ℕ) (reserves : List (Bytes × List ℕ))
      → QueueKept Q (reserve_shards env places reserves)
  unfolding reserve_shards
  QueueKept-reserve_shards [] reserves = search queue_rules depth 30
  QueueKept-reserve_shards (i ∷ rest) reserves =
      search (queue_rules, QueueKept-reserve_shards rest) depth 30

  QueueKept-order_shrink :
      (retired : List ℕ) (reserves : List (Bytes × List ℕ))
      → QueueKept Q (order_shrink env retired reserves)
  unfolding order_shrink
  QueueKept-order_shrink [] [] = search queue_rules depth 30
  QueueKept-order_shrink [] (r ∷ reserves) =
      search (queue_rules, QueueKept-ensure_status_topo_msg) depth 30
  QueueKept-order_shrink (i ∷ retired) reserves =
      search (queue_rules, QueueKept-ensure_status_topo_msg) depth 30

  pub QueueKept-ensure_shrink : QueueKept Q (ensure_shrink env)
  unfolding ensure_shrink
  QueueKept-ensure_shrink =
      search (queue_rules, QueueKept-retire, QueueKept-reserve_shards, QueueKept-order_shrink) depth
        30

  QueueKept-delete_set : (index : ℕ) → QueueKept Q (delete_set env index)
  unfolding delete_set
  QueueKept-delete_set index = search queue_rules depth 30

  QueueKept-reserve_set : (r : Bytes × List ℕ) → QueueKept Q (reserve_set env r)
  unfolding reserve_set
  QueueKept-reserve_set (name, reserve) = search queue_rules depth 30

  pub QueueKept-clean_stateful_set :
      (shrink : ShrinkMsg) → QueueKept Q (clean_stateful_set env shrink)
  unfolding clean_stateful_set
  QueueKept-clean_stateful_set shrink =
      search (queue_rules, QueueKept-delete_set, QueueKept-reserve_set) depth 30

  QueueKept-clean_claim : (claim : Claim) → QueueKept Q (clean_claim env claim)
  unfolding clean_claim
  QueueKept-clean_claim claim = search queue_rules depth 30

  QueueKept-clean_claims : (shrink : Option ShrinkMsg) → QueueKept Q (clean_claims env shrink)
  unfolding clean_claims
  QueueKept-clean_claims none = search (queue_rules, QueueKept-clean_claim) depth 30
  QueueKept-clean_claims (some _) = search queue_rules depth 30

  pub QueueKept-clean_persistent_volume_claim : QueueKept Q (clean_persistent_volume_claim env)
  unfolding clean_persistent_volume_claim
  QueueKept-clean_persistent_volume_claim = search (queue_rules, QueueKept-clean_claims) depth 30

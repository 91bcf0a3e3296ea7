-- ===== src/Reconciler.antt =====
-- pkg/controllers/kvrocks_controller.go: `Reconcile`, which picks the handler and reads its result.
pub mod Messages
pub mod Outcomes
pub mod Refused
use kvrocks_operator.Base.{
  Bytes, Bool, true, false, List, [], ◌∷◌, Option, none, some, any, keep, not, ◌||◌, ◌==◌, bytes_eq,
  if◌then◌else◌,
}
use kvrocks_operator.Base.Maps.{same_map}
use kvrocks_operator.Base.Exec.{
  Error, Result, Exec, ok, err, panic, not_found, conflict, forbidden, invalid, pure, crash,
  attempt, ◌>>=◌, ◌>>◌,
}
use kvrocks_operator.Api.{
  Key, Kvrocks, KvrocksType, sentinel_type, standard_type, cluster_type, other_type,
  kvrocks_finalizer, is_sentinel, is_failed, is_none, status_failed, status_creating,
}
use kvrocks_operator.Client.K8s.{get_kvrocks, update_kvrocks}
use kvrocks_operator.Client.Env.{Env}
use kvrocks_operator.Resources.Labels.{merge_labels, selector_labels, sentinel_labels}
use kvrocks_operator.Resources.Validation.{validate_kvrocks}
use kvrocks_operator.Events.Queue.{MessageQueue}
use kvrocks_operator.Standard.State.{StandardHandler, new_standard_handler}
use kvrocks_operator.Standard
use kvrocks_operator.Sentinel.Handler.{SentinelHandler, new_sentinel_handler}
use kvrocks_operator.Sentinel
use kvrocks_operator.Cluster.State.{ClusterHandler, new_cluster_handler}
use kvrocks_operator.Cluster

-- What outlives a pass: the queue of failover messages and the world.
pub record Operator (W : Type 0) : Type 0 where
  pub messages : MessageQueue
  pub world : W

-- `ctrl.Result` and its error: done, run again after ten seconds, or an error for the work queue.
pub data Outcome : Type 0 where
  done again : Outcome
  failed : Error → Outcome

-- What a handler leaves: its requeue flag, its error and the instance as it has changed it.
pub record Left : Type 0 where
  pub requeue : Bool
  pub error : Option Error
  pub instance_ : Kvrocks

-- `shouldRetry`
unfoldable pub should_retry : Option Error → Bool
should_retry (some not_found) = true
should_retry (some conflict) = true
should_retry _ = false

-- `shouldNotRetry`
unfoldable pub should_not_retry : Option Error → Bool
should_not_retry (some forbidden) = true
should_not_retry (some invalid) = true
should_not_retry _ = false

-- The end of `Reconcile`.
unfoldable pub outcome_of : Bool → Option Error → Outcome
unfolding should_retry should_not_retry
outcome_of requeue none = if requeue then again else done
outcome_of requeue (some e) =
    if requeue || should_retry (some e)
    then again
    else if should_not_retry (some e)
    then done
    else failed e

abbrev pub Run : Type 0 → Type 0 → Type 0
Run W A = Exec (Operator W) A

left : {A : Type 0} → Bool → Kvrocks → Result A → Result Left
left requeue k (ok _) = ok (record { requeue = requeue; error = none; instance_ = k })
left requeue k (err e) = ok (record { requeue = requeue; error = some e; instance_ = k })
left requeue k panic = panic

module _ {W : Type 0} where
  returned : {A : Type 0} → Operator W → Result A × W → Result A × Operator W
  returned o (r, w) = (r, record o { world = w })

  call : {A : Type 0} → Exec W A → Run W A
  unfolding returned
  call m o = returned o (m o.world)

  after_sentinel :
      {A : Type 0} → Operator W → Result A × SentinelHandler W → Result Left × Operator W
  unfolding left
  after_sentinel o (r, h) = (left h.requeue h.instance_ r, record o { world = h.world })

  after_standard :
      {A : Type 0} → Operator W → Result A × StandardHandler W → Result Left × Operator W
  unfolding left
  after_standard o (r, h) = (left h.requeue h.instance_ r, record o { world = h.world })

  after_cluster : {A : Type 0} → Result A × ClusterHandler W → Result Left × Operator W
  unfolding left
  after_cluster (r, h) =
      (left h.requeue h.instance_ r, record { messages = h.messages; world = h.world })

module _ {W : Type 0} (env : Env W) (key : Key) where
  -- `handler.Handle()`; there is no handler, a nil interface, for any other type.
  run_handler : KvrocksType → Kvrocks → Run W Left
  unfolding after_sentinel after_standard after_cluster
  run_handler sentinel_type k o =
      after_sentinel o (Sentinel.Handler.handle env (new_sentinel_handler key k o.world))
  run_handler standard_type k o =
      after_standard o (Standard.Handler.handle env (new_standard_handler key k o.world))
  run_handler cluster_type k o =
      after_cluster (Cluster.Handler.handle env (new_cluster_handler key k o.messages o.world))
  run_handler (other_type _) k o = (panic, o)

  -- `handler.Finializer()`; that of the sentinel does nothing.
  run_finalizer : KvrocksType → Kvrocks → Run W Left
  unfolding after_standard after_cluster
  run_finalizer sentinel_type k o =
      (ok (record { requeue = false; error = none; instance_ = k }), o)
  run_finalizer standard_type k o =
      after_standard o (Standard.Handler.finalizer env (new_standard_handler key k o.world))
  run_finalizer cluster_type k o =
      after_cluster (Cluster.Handler.finalizer env (new_cluster_handler key k o.messages o.world))
  run_finalizer (other_type _) k o = (panic, o)

  clear_finalizer : Kvrocks → Kvrocks
  clear_finalizer k = record k {
    finalizers = keep (λ f. not (f == kvrocks_finalizer)) k.finalizers;
  }

  -- The error of the last update of a deletion, of which only two kinds are looked at.
  after_clear : Result Kvrocks → Run W Outcome
  after_clear (ok _) = pure done
  after_clear (err e) = if should_retry (some e) then pure again else pure done
  after_clear panic = crash

  after_finalizer : Left → Run W Outcome
  unfolding ◌>>=◌ attempt call clear_finalizer after_clear
  after_finalizer l = if l.requeue || should_retry l.error then pure again else elim l.error [
    | none ↦ do
      saved ← attempt (call (update_kvrocks env.k8s (clear_finalizer l.instance_)))
      after_clear saved
    | some e ↦ pure done
  ]

  -- The branch of an instance that is being deleted.
  unfoldable pub delete_instance : Kvrocks → Run W Outcome
  unfolding ◌>>=◌ run_finalizer after_finalizer
  delete_instance k =
      if any (λ f. f == kvrocks_finalizer) k.finalizers
      then (do l ← run_finalizer k.spec.type k; after_finalizer l)
      else pure done

  -- The labels that `runIfInitialize` wants.
  unfoldable pub wanted_labels : Kvrocks → List (Bytes × Bytes)
  wanted_labels k =
      let labels = merge_labels (k.labels ∷ selector_labels k ∷ []) [] in
      if is_sentinel k.spec.type then merge_labels (labels ∷ sentinel_labels ∷ []) [] else labels

  label_instance : Kvrocks → Run W Kvrocks
  unfolding wanted_labels call
  label_instance k =
      if same_map (wanted_labels k) k.labels
      then pure k
      else call (update_kvrocks env.k8s (record k { labels = wanted_labels k }))

  -- `runIfInitialize`
  unfoldable pub run_if_initialize : Kvrocks → Run W Kvrocks
  unfolding ◌>>=◌ call label_instance
  run_if_initialize k = do
    k' ← label_instance k
    if is_none k'.status.status
        then call (
            update_kvrocks env.k8s
              (record k' { status = record k'.status { status = status_creating } }))
        else pure k'

  after_initialize : Result Kvrocks → Run W Outcome
  unfolding ◌>>=◌ run_handler outcome_of
  after_initialize (ok k) = do l ← run_handler k.spec.type k; pure (outcome_of l.requeue l.error)
  after_initialize (err _) = pure done
  after_initialize panic = crash

  -- A resource that is refused: the status says so, whether or not that can be written.
  refuse : Kvrocks → Bytes → Run W Outcome
  unfolding ◌>>=◌ attempt call
  refuse k reason = do
    attempt (
        call (
          update_kvrocks env.k8s
            (record k { status = record k.status { status = status_failed; reason = reason } })))
    pure done

  -- `checkSpecification`, and what follows it.
  check_specification : Kvrocks → Option Bytes → Run W Outcome
  unfolding ◌>>=◌ attempt refuse run_if_initialize after_initialize
  check_specification k (some reason) = refuse k reason
  check_specification k none = do
    initialized ← attempt (run_if_initialize k)
    after_initialize initialized

  with_instance : Result Kvrocks → Run W Outcome
  unfolding delete_instance check_specification
  with_instance (ok k) =
      if k.deleting
      then delete_instance k
      else if is_failed k.status.status
      then pure done
      else check_specification k (validate_kvrocks k)
  with_instance (err not_found) = pure done
  with_instance (err e) = pure (failed e)
  with_instance panic = crash

  -- `Reconcile`
  unfoldable pub reconcile : Run W Outcome
  unfolding ◌>>=◌ attempt call with_instance
  reconcile = do found ← attempt (call (get_kvrocks env.k8s key)); with_instance found

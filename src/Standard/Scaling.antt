-- ===== src/Standard/Scaling.antt =====
-- `resizeStatefulSet` of pkg/controllers/standard/kubernetes.go.
pub mod Agrees
use mathlib.Core.List.{reverse}
use kvrocks_operator.Base.{
  ℕ, ◌-◌, true, List, [], ◌∷◌, leb, ltb, length, Option, none, some, if◌then◌else◌,
}
use kvrocks_operator.Base.Exec.{pure, gets, or_crash, ◌>>=◌, ◌>>◌}
use kvrocks_operator.Api.{Kvrocks}
use kvrocks_operator.Kvrocks.{Node}
use kvrocks_operator.Client.Objects.{StatefulSet}
use kvrocks_operator.Client.K8s.{create_or_update_stateful_set}
use kvrocks_operator.Client.Env.{Env}
use kvrocks_operator.Resources.Workloads.{new_replication_stateful_set}
use kvrocks_operator.Common.Reserve.{pick}
use kvrocks_operator.Standard.State.{Run, call, set_requeue}

-- The second loop: ordinals from the lowest up, ended by the first one above the master.
unfoldable pub reserve_below : ℕ → List ℕ → List ℕ
reserve_below master_id [] = []
reserve_below master_id (id ∷ ids) =
    let rest = id ∷ reserve_below master_id ids in if leb id master_id then rest else []

-- The ordinals that the set reserves when `delta` pods are to go.
unfoldable pub standard_reserve : ℕ → List Node → List ℕ
unfolding pick reserve_below
standard_reserve delta nodes =
    let (reserve, master_id) = pick delta (reverse nodes) [] 0 in
    reserve_below master_id (reverse reserve)

-- The set that is written: it is built anew, with the reserved ordinals of this pass alone.
unfoldable pub resized : Kvrocks → List Node → Option StatefulSet
unfolding standard_reserve
resized k nodes = elim (new_replication_stateful_set k) [
  | none ↦ none
  | some sts ↦
      some
        (record sts { reserve_ordinals = standard_reserve (length nodes - k.spec.replicas) nodes })
]

module _ {W : Type 0} (env : Env W) where
  unfoldable pub resize_stateful_set : Run W Unit
  unfolding ◌>>=◌ call set_requeue
  resize_stateful_set = do
    k ← gets (λ h. h.instance_)
    nodes ← gets (λ h. h.sts_nodes)
    if ltb k.spec.replicas (length nodes)
        then (do
          sts ← or_crash (resized k nodes)
          call (create_or_update_stateful_set env.k8s sts)
          set_requeue true)
        else pure tt

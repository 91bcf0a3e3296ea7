-- ===== src/Cluster/Shrink.antt =====
-- `ensureShrink`, `getReserveIndex`, `cleanStatefulSet` and `cleanPersistentVolumeClaim` of
-- pkg/controllers/cluster/kubernetes.go.
pub mod Claims
pub mod Safe
pub mod Removed
pub mod Reserve
pub mod Messages
use mathlib.Core.List.{reverse}
use kvrocks_operator.Base.{
  ℕ, zero, suc, ◌+◌, ◌-◌, ◌/◌, Bytes, Bool, true, List, [], ◌∷◌, ◌++◌, Option, none, some, length,
  range, set, get_elem?, keep, leb, ltb, not, split, ◌==◌, nat_eq, if◌then◌else◌,
}
use kvrocks_operator.Base.Maps.{put}
use kvrocks_operator.Base.Decimal.{atoi, atoi_value}
use kvrocks_operator.Base.Exec.{Error, pure, raise, gets, or_crash, for_each, ◌>>=◌, ◌>>◌}
use kvrocks_operator.Api.{ShrinkMsg}
use kvrocks_operator.Kvrocks.{Node}
use kvrocks_operator.Client.Objects.{Claim}
use kvrocks_operator.Client.K8s.{
  get_stateful_set, update_stateful_set, delete_stateful_set_if_exists, list_pvc, delete_pvc,
}
use kvrocks_operator.Client.Env.{Env}
use kvrocks_operator.Resources.Names.{indexed, parse_redis_name, get_stateful_set_name}
use kvrocks_operator.Resources.Labels.{selector_labels}
use kvrocks_operator.Common.{remove_monitor}
use kvrocks_operator.Common.Reserve.{is_master}
use kvrocks_operator.Cluster.State.{
  Shard, Run, call, save_instance, set_requeue, set_nodes, set_instance,
}
use kvrocks_operator.Cluster.Topology.{ensure_status_topo_msg}

-- The nodes of a shard that holds no nil pointer.
unfoldable pub all_present : Shard → Option (List Node)
all_present [] = some []
all_present (none ∷ nodes) = none
all_present (some node ∷ nodes) = elim (all_present nodes) [
  | none ↦ none
  | some rest ↦ some (node ∷ rest)
]

-- `nodes[id] = nil` for each id, which panics out of range.
unfoldable pub clear : List ℕ → Shard → Option Shard
clear [] nodes = some nodes
clear (id ∷ ids) nodes =
    let rest = clear ids (set nodes id none) in if ltb id (length nodes) then rest else none

-- The loop of `Common.Reserve.pick` over pointers, which panics at a nil node that it reaches.
unfoldable pub pick_present : ℕ → Shard → List ℕ → ℕ → Option (List ℕ × ℕ)
pick_present zero nodes reserve master_id = some (reserve, master_id)
pick_present (suc delta) [] reserve master_id = some (reserve, master_id)
pick_present (suc delta) (none ∷ nodes) reserve master_id = none
pick_present (suc delta) (some node ∷ nodes) reserve master_id =
    pick_present (if is_master node then suc delta else delta) nodes
      (if is_master node then reserve else reserve ++ node.pod_index ∷ [])
      (if is_master node then node.pod_index else master_id)

-- `getReserveIndex`: the ordinals to reserve and the shard with the picked places cleared. The first
-- part is none where the shard is not too large.
unfoldable pub get_reserve_index : ℕ → Shard → Option (Option (List ℕ) × Shard)
unfolding pick_present clear
get_reserve_index replicas shard =
    if ltb replicas (length shard)
    then (elim (pick_present (length shard - replicas) (reverse shard) [] 0) [
      | none ↦ none
      | some (reserve, master_id) ↦ elim (clear (reverse reserve) shard) [
        | none ↦ none
        | some shard' ↦ some (some (keep (λ id. leb id master_id) (reverse reserve)), shard')
      ]
    ])
    else some (none, shard)

-- `sort.Search` between two places, on fuel; none where its test panics. A round halves what is left,
-- so that as many rounds as there are places are enough.
unfoldable pub search_first : ℕ → (ℕ → Option Bool) → ℕ → ℕ → Option ℕ
search_first zero test i j = some i
search_first (suc fuel) test i j =
    if ltb i j
    then (elim (test ((i + j) / 2)) [
      | none ↦ none
      | some reached ↦
          search_first fuel test (if reached then i else (i + j) / 2 + 1)
            (if reached then (i + j) / 2 else j)
    ])
    else some i

-- Whether the node there has the ordinal or a higher one.
unfoldable pub reaches : ℕ → Option (Option Node) → Option Bool
reaches pod none = none
reaches pod (some none) = none
reaches pod (some (some node)) = some (leb pod node.pod_index)

-- Whether the place is past the nodes, or has a node with another ordinal.
unfoldable pub lacks_there : ℕ → Option (Option Node) → Option Bool
lacks_there pod none = some true
lacks_there pod (some none) = none
lacks_there pod (some (some node)) = some (not (node.pod_index == pod))

unfoldable pub lacks_at : ℕ → Shard → Option ℕ → Option Bool
unfolding lacks_there
lacks_at pod nodes none = none
lacks_at pod nodes (some place) = lacks_there pod (get_elem? nodes place)

-- Whether no node of the shard has the ordinal; none where a nil node is reached.
unfoldable pub lacks_pod : ℕ → Shard → Option Bool
unfolding search_first reaches lacks_at
lacks_pod pod nodes =
    lacks_at pod nodes
      (search_first (length nodes) (λ i. reaches pod (get_elem? nodes i)) 0 (length nodes))

-- The last two of the fields of a claim's name, as numbers.
unfoldable pub claim_place : List Bytes → Option (ℕ × ℕ)
claim_place [] = none
claim_place (a ∷ []) = none
claim_place (a ∷ b ∷ []) = some (atoi_value (atoi a), atoi_value (atoi b))
claim_place (a ∷ b ∷ c ∷ fields) = claim_place (b ∷ c ∷ fields)

-- Whether a claim belongs to no node; none where the code panics.
unfoldable pub is_orphan : ℕ → List Shard → ℕ × ℕ → Option Bool
unfolding lacks_pod
is_orphan master shards (shard, pod) =
    if leb master shard
    then some true
    else elim (get_elem? shards shard) [ none ↦ none | some nodes ↦ lacks_pod pod nodes ]

module _ {W : Type 0} (env : Env W) where
  raise_if : Option Error → Run W Unit
  raise_if none = pure tt
  raise_if (some e) = raise e

  -- A shard past the wanted number loses its monitor and its nodes.
  retire : ℕ → Run W Unit
  unfolding ◌>>=◌ call set_requeue raise_if set_nodes
  retire i = do
    k ← gets (λ h. h.instance_)
    (requeue, e) ← call (remove_monitor env k (indexed (parse_redis_name k.name).1 i))
    set_requeue requeue
    raise_if e
    nodes ← gets (λ h. h.sts_nodes)
    set_nodes (set nodes i [])

  -- The map of reserved ordinals, over the shards that stay.
  reserve_shards : List ℕ → List (Bytes × List ℕ) → Run W (List (Bytes × List ℕ))
  unfolding ◌>>=◌ get_reserve_index set_nodes
  reserve_shards [] reserves = pure reserves
  reserve_shards (i ∷ rest) reserves = do
    k ← gets (λ h. h.instance_)
    nodes ← gets (λ h. h.sts_nodes)
    shard ← or_crash (get_elem? nodes i)
    (reserve, shard') ← or_crash (get_reserve_index k.spec.replicas shard)
    set_nodes (set nodes i shard')
    reserve_shards rest (elim reserve [
      | none ↦ reserves
      | some ids ↦ put (get_stateful_set_name k.name i) ids reserves
    ])

  order_shrink : List ℕ → List (Bytes × List ℕ) → Run W Unit
  unfolding ◌>>=◌ set_instance
  order_shrink [] [] = pure tt
  order_shrink retired reserves = do
    k ← gets (λ h. h.instance_)
    set_instance (record k {
      status = record k.status {
        shrink = some (record { partition = retired; reserve_msg = reserves });
      };
    })
    ensure_status_topo_msg env

  -- `ensureShrink`
  unfoldable pub ensure_shrink : Run W Unit
  unfolding ◌>>=◌ for_each retire reserve_shards order_shrink
  ensure_shrink = do
    k ← gets (λ h. h.instance_)
    if k.status.rebalance then pure tt else do
      nodes ← gets (λ h. h.sts_nodes)
      let retired = range k.spec.master (length nodes - k.spec.master)
      for_each retired retire
      reserves ← reserve_shards (range 0 k.spec.master) []
      order_shrink retired reserves

  delete_set : ℕ → Run W Unit
  unfolding ◌>>=◌ call
  delete_set index = do
    k ← gets (λ h. h.instance_)
    call (
        delete_stateful_set_if_exists env.k8s
          (record { namespace = k.namespace; name = get_stateful_set_name k.name index }))

  reserve_set : Bytes × List ℕ → Run W Unit
  unfolding ◌>>=◌ call
  reserve_set (name, reserve) = do
    k ← gets (λ h. h.instance_)
    sts ← call (get_stateful_set env.k8s (record { namespace = k.namespace; name = name }))
    call (
        update_stateful_set env.k8s (record sts {
          replicas = k.spec.replicas;
          reserve_ordinals = sts.reserve_ordinals ++ reserve;
        }))
    pure tt

  -- `cleanStatefulSet`, for the message in the status.
  unfoldable pub clean_stateful_set : ShrinkMsg → Run W Unit
  unfolding ◌>>=◌ for_each delete_set reserve_set save_instance
  clean_stateful_set shrink = do
    for_each shrink.partition delete_set
    for_each shrink.reserve_msg reserve_set
    k ← gets (λ h. h.instance_)
    save_instance env
        (record k { status = record k.status { shrink = none; version = k.status.version + 1 } })

  clean_claim : Claim → Run W Unit
  unfolding ◌>>=◌ call is_orphan claim_place
  clean_claim claim = do
    k ← gets (λ h. h.instance_)
    nodes ← gets (λ h. h.sts_nodes)
    place ← or_crash (claim_place (split b'-' claim.name))
    orphan ← or_crash (is_orphan k.spec.master nodes place)
    if orphan then call (delete_pvc env.k8s claim) else pure tt

  clean_claims : Option ShrinkMsg → Run W Unit
  unfolding ◌>>=◌ call for_each clean_claim
  clean_claims (some _) = pure tt
  clean_claims none = do
    k ← gets (λ h. h.instance_)
    claims ← call (list_pvc env.k8s k.namespace (selector_labels k))
    for_each claims clean_claim

  -- `cleanPersistentVolumeClaim`
  unfoldable pub clean_persistent_volume_claim : Run W Unit
  unfolding ◌>>=◌ clean_claims
  clean_persistent_volume_claim = do k ← gets (λ h. h.instance_); clean_claims k.status.shrink

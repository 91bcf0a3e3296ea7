-- ===== src/Cluster/Shrink/Reserve.antt =====
-- `getReserveIndex` of pkg/controllers/cluster/kubernetes.go on the nodes of one shard.
use mathlib.Core.List.{reverse, reverse-cons}
use kvrocks_operator.Base.{
  ℕ, zero, suc, ◌-◌, ◌<◌, List, [], ◌∷◌, ◌++◌, ap, sym, if◌then◌else◌, ◌≡◌, refl, ◌∙◌, none, some,
  All, arith, length, set, lt→ltb,
}
use kvrocks_operator.Kvrocks.{Node}
use kvrocks_operator.Common.Reserve.{is_master, pick}
use kvrocks_operator.Common.Reserve.Picked.{
  picked, pick-picked, IsAscending, picked-below, All-ids-reverse, All-reverse,
}
use kvrocks_operator.Standard.Scaling.{standard_reserve}
use kvrocks_operator.Standard.Scaling.Agrees.{standard_reserve_lem}
use kvrocks_operator.Cluster.State.{Shard}
use kvrocks_operator.Cluster.Shrink.{all_present, clear, pick_present, get_reserve_index}

-- A shard without nil pointers.
abbrev pub present : List Node → Shard
present [] = []
present (node ∷ nodes) = some node ∷ present nodes

pub all_present-present : (nodes : List Node) → all_present (present nodes) ≡ some nodes
unfolding all_present
all_present-present [] = refl
all_present-present (node ∷ nodes) = rw (all_present-present nodes) refl

present-append : (xs ys : List Node) → present (xs ++ ys) ≡ present xs ++ present ys
present-append [] ys = refl
present-append (x ∷ xs) ys = ap (λ r. some x ∷ r) (present-append xs ys)

present-reverse : (nodes : List Node) → reverse (present nodes) ≡ present (reverse nodes)
present-reverse [] = refl
present-reverse (node ∷ nodes) =
    reverse-cons (some node) (present nodes)
    ∙ ap (λ r. r ++ some node ∷ []) (present-reverse nodes)
    ∙ sym (present-append (reverse nodes) (node ∷ []))
    ∙ ap (λ r. present r) (sym (reverse-cons node nodes))

pick_present-present :
    (delta : ℕ) (nodes : List Node) (reserve : List ℕ) (master_id : ℕ)
    → pick_present delta (present nodes) reserve master_id
      ≡ some (pick delta nodes reserve master_id)
unfolding pick_present pick
pick_present-present zero nodes reserve master_id = refl
pick_present-present (suc delta) [] reserve master_id = refl
pick_present-present (suc delta) (node ∷ nodes) reserve master_id =
    pick_present-present (if is_master node then suc delta else delta) nodes
      (if is_master node then reserve else reserve ++ node.pod_index ∷ [])
      (if is_master node then node.pod_index else master_id)

pick_reversed :
    (delta : ℕ) (nodes : List Node)
    → pick_present delta (reverse (present nodes)) [] 0 ≡ some (pick delta (reverse nodes) [] 0)
pick_reversed delta nodes =
    ap (λ shard. pick_present delta shard [] 0) (present-reverse nodes)
    ∙ pick_present-present delta (reverse nodes) [] 0

pub length-present : (nodes : List Node) → length (present nodes) ≡ length nodes
length-present [] = refl
length-present (node ∷ nodes) = omega (arith, length-present nodes)

length-set {ℓ} : {A : Type ℓ} (xs : List A) (i : ℕ) (v : A) → length (set xs i v) ≡ length xs
length-set [] i v = refl
length-set (x ∷ xs) zero v = refl
length-set (x ∷ xs) (suc i) v = omega (arith, length-set xs i v)

-- Ordinals that are places of the shard are cleared without a panic.
clear-in_range :
    (ids : List ℕ) (shard : Shard) (n : ℕ)
    → length shard ≡ n
    → All (λ id. id < n) ids
    → (shard' : Shard) × (clear ids shard ≡ some shard') × (length shard' ≡ n)
unfolding clear
clear-in_range [] shard n e h = (shard, refl, e)
clear-in_range (id ∷ ids) shard n e (p, h) =
    rw (lt→ltb id (length shard) (omega (arith, e, p)))
      (clear-in_range ids (set shard id none) n (length-set shard id none ∙ e) h)

-- On a shard without nil pointers that has more nodes than wanted, whose ordinals ascend and are all
-- below its number of nodes, `getReserveIndex` does not panic: it reserves the same ordinals as the
-- standard handler, and the shard keeps its length.
pub get_reserve_index_lem :
    (replicas : ℕ) (nodes : List Node)
    → replicas < length nodes
    → IsAscending nodes
    → All (λ (b : Node). b.pod_index < length nodes) nodes
    → (shard' : Shard) × (get_reserve_index replicas (present nodes)
        ≡ some (some (standard_reserve (length nodes - replicas) nodes), shard'))
      × (length shard' ≡ length nodes)
unfolding get_reserve_index
get_reserve_index_lem replicas nodes more ascending within =
    let delta = length nodes - replicas in
    let ids = picked delta (reverse nodes) in
    let (shard', cleared, kept) =
      clear-in_range (reverse ids) (present nodes) (length nodes) (length-present nodes) (
        All-ids-reverse (λ id. id < length nodes) ids
          (picked-below delta (length nodes) (reverse nodes)
            (All-reverse (λ (b : Node). b.pod_index < length nodes) nodes within))) in
    (
      shard',
      rw
          (
            standard_reserve_lem delta nodes ascending,
            lt→ltb replicas (length (present nodes)) (omega (arith, length-present nodes, more)),
            length-present nodes,
            pick_reversed delta nodes,
            pick-picked delta (reverse nodes) [] 0,
            cleared,
            pick-picked delta (reverse nodes) [] 0,
          )
          refl,
      kept,
    )

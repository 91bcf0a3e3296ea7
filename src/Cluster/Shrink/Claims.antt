-- ===== src/Cluster/Shrink/Claims.antt =====
-- Which claims `cleanPersistentVolumeClaim` of pkg/controllers/cluster/kubernetes.go takes for orphans.
use kvrocks_operator.Base.{
  ℕ, zero, suc, ◌+◌, ◌/◌, ◌≤◌, ◌<◌, length, ltb, ltb→lt, Option, ap, ◌∙◌, Bool, true, false, List,
  [], ◌∷◌, ◌≡◌, refl, some, All, leb, arith, not, ◌==◌, nat_eq, if◌then◌else◌, get_elem?, ◌||◌,
  Bool-cases, inl, inr,
}
use kvrocks_operator.Kvrocks.{Node}
use kvrocks_operator.Common.Reserve.Picked.{IsAscending}
use kvrocks_operator.Cluster.Shrink.Reserve.{present, length-present}
use kvrocks_operator.Cluster.State.{Shard}
use kvrocks_operator.Cluster.Shrink.{
  search_first, reaches, lacks_there, lacks_at, lacks_pod, is_orphan,
}

-- Whether a node of the list has the ordinal.
abbrev pub has_pod : ℕ → List Node → Bool
has_pod pod [] = false
has_pod pod (node ∷ nodes) = if node.pod_index == pod then true else has_pod pod nodes

has_pod-beyond :
    (pod a : ℕ) (nodes : List Node)
    → All (λ (b : Node). a < b.pod_index) nodes
    → leb pod a ≡ true
    → has_pod pod nodes ≡ false
has_pod-beyond pod a [] h e = refl
has_pod-beyond pod a (node ∷ nodes) (p, h) e = ground (arith, has_pod-beyond pod a nodes h e)

-- The number of nodes below the ordinal, where the nodes ascend.
abbrev rank : ℕ → List Node → ℕ
rank pod [] = 0
rank pod (node ∷ nodes) = if leb pod node.pod_index then 0 else suc (rank pod nodes)

rank-beyond :
    (pod a : ℕ) (nodes : List Node)
    → All (λ (b : Node). a < b.pod_index) nodes
    → leb pod a ≡ true
    → rank pod nodes ≡ 0
rank-beyond pod a [] h e = refl
rank-beyond pod a (node ∷ nodes) (p, h) e = ground (arith, rank-beyond pod a nodes h e)

rank_bound : (pod : ℕ) (nodes : List Node) → rank pod nodes ≤ length nodes
rank_bound pod [] = omega arith
rank_bound pod (node ∷ nodes) = ground (arith, rank_bound pod nodes)

-- The test of the search holds from the rank on.
reaches-rank :
    (pod : ℕ) (nodes : List Node) (i : ℕ)
    → IsAscending nodes
    → i < length nodes
    → reaches pod (get_elem? (present nodes) i) ≡ some (leb (rank pod nodes) i)
unfolding reaches
reaches-rank pod [] i h b = absurd (omega (arith, b))
reaches-rank pod (node ∷ nodes) zero (above, h) b = ground arith
reaches-rank pod (node ∷ nodes) (suc i) (above, h) b =
    reaches-rank pod nodes i h (omega (arith, b))
    ∙ ground (arith, rank-beyond pod node.pod_index nodes above)

ltb_ge : (a b : ℕ) → ltb a b ≡ false → b ≤ a
ltb_ge a b h = ground arith

leb_le : (a b : ℕ) → leb a b ≡ true → a ≤ b
leb_le a b h = ground arith

leb_gt : (a b : ℕ) → leb a b ≡ false → b + 1 ≤ a
leb_gt a b h = ground arith

leb_other : (a b : ℕ) → leb a b ≡ false → (b == a) ≡ false
leb_other a b h = ground arith

not_if : (b : Bool) → ◌≡◌ {A = Option Bool} (some (not b)) (some (not (if b then true else false)))
not_if true = refl
not_if false = refl

-- The search finds the first place from which on its test holds.
search_first_lem :
    (fuel n r i j : ℕ) (test : ℕ → Option Bool)
    → ((k : ℕ) → k < n → test k ≡ some (leb r k))
    → i ≤ r
    → r ≤ j
    → j ≤ n
    → j ≤ i + fuel
    → search_first fuel test i j ≡ some r
unfolding search_first
search_first_lem zero n r i j test t a b c d = ap (λ x. some x) (omega (arith, a, b, d))
search_first_lem (suc fuel) n r i j test t a b c d = elim (Bool-cases (ltb i j)) [
  | inl l ↦
      let below = ltb→lt i j l in
      rw (l, t ((i + j) / 2) (omega (arith, below, c)))
        (elim (Bool-cases (leb r ((i + j) / 2))) [
          | inl y ↦ rw y (
              search_first_lem fuel n r i ((i + j) / 2) test t a (leb_le r ((i + j) / 2) y)
                (omega (arith, below, c)) (omega (arith, below, d)))
          | inr y ↦ rw y (
              search_first_lem fuel n r ((i + j) / 2 + 1) j test t (leb_gt r ((i + j) / 2) y) b c
                (omega (arith, below, d)))
        ])
  | inr l ↦ rw l (ap (λ x. some x) (omega (arith, a, b, ltb_ge i j l)))
]

lacks_there-rank :
    (pod : ℕ) (nodes : List Node)
    → IsAscending nodes
    → lacks_there pod (get_elem? (present nodes) (rank pod nodes)) ≡ some (not (has_pod pod nodes))
unfolding lacks_there
lacks_there-rank pod [] h = refl
lacks_there-rank pod (node ∷ nodes) (above, h) = elim (Bool-cases (leb pod node.pod_index)) [
  | inl t ↦ rw (t, has_pod-beyond pod node.pod_index nodes above t) (not_if (node.pod_index == pod))
  | inr f ↦ rw (f, leb_other pod node.pod_index f) (lacks_there-rank pod nodes h)
]

-- The binary search among the nodes of a shard, which ascend, finds the ordinal just when a node has it.
pub lacks_pod-has_pod :
    (pod : ℕ) (nodes : List Node)
    → IsAscending nodes
    → lacks_pod pod (present nodes) ≡ some (not (has_pod pod nodes))
unfolding lacks_pod lacks_at
lacks_pod-has_pod pod nodes h =
    let test : (ℕ → Option Bool) = λ i. reaches pod (get_elem? (present nodes) i) in
    ap (λ n. lacks_at pod (present nodes) (search_first n test 0 n)) (length-present nodes)
    ∙ ap (λ o. lacks_at pod (present nodes) o)
        (search_first_lem (length nodes) (length nodes) (rank pod nodes) 0 (length nodes) test
          (λ i b. reaches-rank pod nodes i h b) (omega arith) (rank_bound pod nodes) (omega arith)
          (omega arith))
    ∙ lacks_there-rank pod nodes h

-- For a claim of a shard that the handler has, whose nodes ascend without nil pointers: it is deleted
-- just when the shard is past the wanted number of masters or no node of the shard has its ordinal.
pub is_orphan_lem :
    (master shard pod : ℕ) (shards : List Shard) (nodes : List Node)
    → get_elem? shards shard ≡ some (present nodes)
    → IsAscending nodes
    → is_orphan master shards (shard, pod) ≡ some (leb master shard || not (has_pod pod nodes))
unfolding is_orphan
is_orphan_lem master shard pod shards nodes e h = elim (Bool-cases (leb master shard)) [
  | inl t ↦ rw t refl
  | inr f ↦ rw (f, e) (lacks_pod-has_pod pod nodes h)
]

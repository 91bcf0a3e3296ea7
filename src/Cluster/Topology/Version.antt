-- ===== src/Cluster/Topology/Version.antt =====
-- When the version of the topology moves on.
use kvrocks_operator.Base.{
  ℕ, suc, Bytes, true, List, [], ◌∷◌, ◌≡◌, ◌≢◌, refl, sym, ap, ◌∙◌, map, some, All, length, arith,
  bytes_eq, ==_refl, bytes_beq_iff, nat_eq,
}
use kvrocks_operator.Api.{Topology, TopoPartition}
use kvrocks_operator.Kvrocks.{Node}
use kvrocks_operator.Resources.Names.{get_stateful_set_name}
use kvrocks_operator.Cluster.State.{Shard}
use kvrocks_operator.Cluster.Topology.{
  publish_node, publish_nodes, publish_shard, publish, same_nodes, same_shards, same_topology,
}

abbrev present : List Node → Shard
present = map some

same_nodes-publish_nodes :
    (name : Bytes) (j : ℕ) (nodes : List Node)
    → same_nodes (publish_nodes name j (map some nodes)) (map some nodes) ≡ some true
unfolding same_nodes publish_nodes publish_node
same_nodes-publish_nodes name j [] = refl
same_nodes-publish_nodes name j (node ∷ nodes) =
    rw (==_refl node.ip, ==_refl node.role) (same_nodes-publish_nodes name (suc j) nodes)

length-publish_nodes :
    (name : Bytes) (j : ℕ) (nodes : List Node)
    → length (publish_nodes name j (map some nodes)) ≡ length (present nodes)
unfolding publish_nodes
length-publish_nodes name j [] = refl
length-publish_nodes name j (node ∷ nodes) = ap suc (length-publish_nodes name (suc j) nodes)

same_shards-publish :
    (name : Bytes) (i : ℕ) (shards : List (List Node))
    → All (λ nodes. nodes ≢ []) shards
    → same_shards (publish name i (map (map some) shards)) (map (map some) shards) ≡ some true
unfolding same_shards publish publish_shard
same_shards-publish name i [] e = refl
same_shards-publish name i ([] ∷ shards) (e, es) = absurd (e refl)
same_shards-publish name i ((node ∷ nodes) ∷ shards) (e, es) =
    let partition_name = get_stateful_set_name name i in
    rw
      (
        length-publish_nodes partition_name 1 nodes,
        ==_refl (length (present (node ∷ nodes))),
        same_nodes-publish_nodes partition_name 0 (node ∷ nodes),
      )
      (same_shards-publish name (suc i) shards es)

length-publish :
    (name : Bytes) (i : ℕ) (shards : List (List Node))
    → All (λ nodes. nodes ≢ []) shards
    → length (publish name i (map present shards)) ≡ length (map present shards)
unfolding publish
length-publish name i [] e = refl
length-publish name i ([] ∷ shards) (e, es) = absurd (e refl)
length-publish name i ((node ∷ nodes) ∷ shards) (e, es) =
    ap suc (length-publish name (suc i) shards es)

same_topology-same_shards :
    (partitions : List TopoPartition) (shards : List Shard)
    → partitions ≢ []
    → length shards ≡ length partitions
    → same_topology partitions shards ≡ same_shards partitions shards
unfolding same_topology
same_topology-same_shards [] shards ne l = absurd (ne refl)
same_topology-same_shards (partition ∷ partitions) shards ne l = ground arith

-- A pass that finds the shards as they were published leaves the version alone: for one shard at
-- least, none empty and no node cleared.
pub same_topology-publish :
    (name : Bytes) (shards : List (List Node))
    → shards ≢ []
    → All (λ nodes. nodes ≢ []) shards
    → same_topology (publish name 0 (map (map some) shards)) (map (map some) shards) ≡ some true
same_topology-publish name [] ne e = absurd (ne refl)
same_topology-publish name (nodes ∷ shards) ne e =
    let l = length-publish name 0 (nodes ∷ shards) e in
    same_topology-same_shards _ _ (λ p. cc (sym (ap length p) ∙ l)) (sym l)
    ∙ same_shards-publish name 0 (nodes ∷ shards) e

-- What the version vouches for: an entry for each node, with its address and its role.
abbrev Agrees : List Topology → List Node → Type 0
Agrees [] [] = Unit
Agrees [] (_ ∷ _) = ⊥
Agrees (_ ∷ _) [] = ⊥
Agrees (topo ∷ topoes) (node ∷ nodes) =
    (topo.ip ≡ node.ip) × (topo.role ≡ node.role) × Agrees topoes nodes

abbrev pub AllAgree : List TopoPartition → List (List Node) → Type 0
AllAgree [] [] = Unit
AllAgree [] (_ ∷ _) = ⊥
AllAgree (_ ∷ _) [] = ⊥
AllAgree (partition ∷ partitions) (nodes ∷ shards) =
    Agrees partition.topology nodes × AllAgree partitions shards

same_nodes-Agrees :
    (topoes : List Topology) (nodes : List Node)
    → length topoes ≡ length (present nodes)
    → same_nodes topoes (present nodes) ≡ some true
    → Agrees topoes nodes
unfolding same_nodes
same_nodes-Agrees [] [] l h = tt
same_nodes-Agrees [] (node ∷ nodes) l h = absurd (omega arith)
same_nodes-Agrees (topo ∷ topoes) [] l h = absurd (omega arith)
same_nodes-Agrees (topo ∷ topoes) (node ∷ nodes) l h = ground (
  arith,
  bytes_beq_iff topo.ip node.ip,
  bytes_beq_iff topo.role node.role,
  same_nodes-Agrees topoes nodes,
)

same_shards-AllAgree :
    (partitions : List TopoPartition) (shards : List (List Node))
    → length partitions ≡ length (map present shards)
    → same_shards partitions (map present shards) ≡ some true
    → AllAgree partitions shards
unfolding same_shards
same_shards-AllAgree [] [] l h = tt
same_shards-AllAgree [] (nodes ∷ shards) l h = absurd (omega arith)
same_shards-AllAgree (partition ∷ partitions) [] l h = absurd (omega arith)
same_shards-AllAgree (partition ∷ partitions) (nodes ∷ shards) l h =
    ground
      (arith, same_nodes-Agrees partition.topology nodes, same_shards-AllAgree partitions shards)

-- Where no node is cleared, the version only stays if the status has an entry for each node of each
-- shard and no other, with the node's address and its role.
pub same_topology-AllAgree :
    (partitions : List TopoPartition) (shards : List (List Node))
    → same_topology partitions (map (map some) shards) ≡ some true
    → AllAgree partitions shards
unfolding same_topology
same_topology-AllAgree [] shards h = cc
same_topology-AllAgree (partition ∷ partitions) shards h =
    ground (arith, same_shards-AllAgree (partition ∷ partitions) shards)

-- ===== src/Cluster/Roles/Initial.antt =====
-- What `initCluster` of pkg/controllers/cluster/kvrocks.go establishes.
use kvrocks_operator.Base.{
  ℕ, suc, Bool, true, false, List, [], ◌∷◌, ◌≡◌, refl, subst, some-inj, Option, none, some, All,
  bytes_eq, ◌==◌,
}
use kvrocks_operator.Base.Exec.{or_crash, pure, gets, ◌>>=◌}
use kvrocks_operator.Base.Exec.Ensures.{
  Post, Ensures, Ensures-bind, Ensures-after, Post-bind, Post-or_crash,
}
use kvrocks_operator.Kvrocks.{Node, role_slaver}
use kvrocks_operator.Client.Env.{Env}
use kvrocks_operator.Common.Reserve.{is_master}
use kvrocks_operator.Cluster.State.{Shard, ClusterHandler, each_node, each_shard, set_nodes}
use kvrocks_operator.Cluster.Roles.{
  crown_first, crown_all, init_role, init_node, label_node, init_cluster,
}

abbrev pub is_slave : Option Node → Bool
is_slave none = false
is_slave (some node) = node.role == role_slaver

-- The first node is the master and the others are slaves.
abbrev pub IsInitial : Shard → Type 0
IsInitial [] = ⊥
IsInitial (none ∷ nodes) = ⊥
IsInitial (some node ∷ nodes) = (is_master node ≡ true) × All (λ n. is_slave n ≡ true) nodes

-- The first node of a shard, where it has one, is a master.
abbrev IsCrowned : Shard → Type 0
IsCrowned [] = ⊥
IsCrowned (none ∷ nodes) = ⊥
IsCrowned (some node ∷ nodes) = is_master node ≡ true

crown_first-IsCrowned : (shard r : Shard) → crown_first shard ≡ some r → IsCrowned r
unfolding crown_first
crown_first-IsCrowned [] r e = cc
crown_first-IsCrowned (none ∷ nodes) r e = cc
crown_first-IsCrowned (some node ∷ nodes) r e = subst IsCrowned (some-inj e) refl

IsCrowned-shards :
    (first : Option Shard) (later : Option (List Shard)) (r : List Shard)
    → ((s : Shard) → first ≡ some s → IsCrowned s)
    → ((ss : List Shard) → later ≡ some ss → All IsCrowned ss)
    → (elim first [
      | none ↦ none
      | some shard' ↦ elim later [ none ↦ none | some shards' ↦ some (shard' ∷ shards') ]
    ])
      ≡ some r
    → All IsCrowned r
IsCrowned-shards none later r hf hl e = cc
IsCrowned-shards (some s) none r hf hl e = cc
IsCrowned-shards (some s) (some ss) r hf hl e =
    subst (All IsCrowned) (some-inj e) (hf s refl, hl ss refl)

crown_all-IsCrowned : (shards r : List Shard) → crown_all shards ≡ some r → All IsCrowned r
unfolding crown_all
crown_all-IsCrowned [] r e = subst (All IsCrowned) (some-inj e) tt
crown_all-IsCrowned (shard ∷ shards) r e =
    IsCrowned-shards (crown_first shard) (crown_all shards) r (crown_first-IsCrowned shard)
      (crown_all-IsCrowned shards) e

module _ {W : Type 0} (env : Env W) where
  init_node_role :
      (i j : ℕ) (node : Node) → Ensures (init_node env i j tt node) (λ r _. r.0 ≡ init_role j node)
  unfolding init_node pure
  init_node_role i j node = Ensures-after (label_node env i (init_role j node)) _ _ (λ _ s. refl)

  -- Behind the first node.
  slaves_after :
      (i j : ℕ) (nodes : Shard)
      → Ensures
          (each_node (init_node env i) (suc j) tt nodes)
          (λ r _. All (λ n. is_slave n ≡ true) r.0)
  unfolding each_node pure init_role
  slaves_after i j [] h = tt
  slaves_after i j (none ∷ nodes) h = tt
  slaves_after i j (some node ∷ nodes) h =
      Ensures-bind (init_node env i (suc j) tt node) _ (λ r _. r.0 ≡ init_role (suc j) node) _
        (init_node_role i (suc j) node)
        (λ r s e.
          Ensures-bind (each_node (init_node env i) (suc (suc j)) r.1 nodes) _
            (λ r' _. All (λ n. is_slave n ≡ true) r'.0) _ (slaves_after i (suc j) nodes)
            (λ r' s' h'. (rw e refl, h')) s)
        h

  shard_IsInitial :
      (i : ℕ) (shard : Shard)
      → IsCrowned shard
      → Ensures (each_node (init_node env i) 0 tt shard) (λ r _. IsInitial r.0)
  unfolding each_node pure init_role
  shard_IsInitial i [] c h = absurd c
  shard_IsInitial i (none ∷ nodes) c h = absurd c
  shard_IsInitial i (some node ∷ nodes) c h =
      Ensures-bind (init_node env i 0 tt node) _ (λ r _. r.0 ≡ init_role 0 node) _
        (init_node_role i 0 node)
        (λ r s e.
          Ensures-bind (each_node (init_node env i) 1 r.1 nodes) _
            (λ r' _. All (λ n. is_slave n ≡ true) r'.0) _ (slaves_after i 0 nodes)
            (λ r' s' h'. (rw e c, h')) s)
        h

  shards_IsInitial :
      (i : ℕ) (shards : List Shard)
      → All IsCrowned shards
      → Ensures (each_shard (init_node env) i tt shards) (λ r _. All IsInitial r.0)
  unfolding each_shard pure
  shards_IsInitial i [] c h = tt
  shards_IsInitial i (shard ∷ shards) (c, cs) h =
      Ensures-bind (each_node (init_node env i) 0 tt shard) _ (λ r _. IsInitial r.0) _
        (shard_IsInitial i shard c)
        (λ r s first.
          Ensures-bind (each_shard (init_node env) (suc i) r.1 shards) _
            (λ r' _. All IsInitial r'.0) _ (shards_IsInitial (suc i) shards cs)
            (λ r' s' later. (first, later)) s)
        h

  -- When `initCluster` ends without an error, the first node of every shard of the handler is a master
  -- and the others are slaves.
  pub init_cluster-IsInitial :
      (h : ClusterHandler W) → Post (λ _ h'. All IsInitial h'.sts_nodes) (init_cluster env h)
  unfolding init_cluster set_nodes gets ◌>>=◌
  init_cluster-IsInitial h =
      Post-bind (or_crash (crown_all h.sts_nodes)) _ h (λ crowned _. All IsCrowned crowned)
        (λ (_ : Unit {0}) (h' : ClusterHandler W). All IsInitial h'.sts_nodes)
        (Post-or_crash (crown_all h.sts_nodes) h _ (λ r e. crown_all-IsCrowned h.sts_nodes r e))
        (λ crowned s c.
          Post-bind (each_shard (init_node env) 0 tt crowned) (λ r. set_nodes r.0) s
            (λ r _. All IsInitial r.0)
            (λ (_ : Unit {0}) (h' : ClusterHandler W). All IsInitial h'.sts_nodes)
            (shards_IsInitial 0 crowned c s) (λ r s' done. done))

-- ===== src/Cluster/Roles/Replicated.antt =====
-- What `ensureReplication` of pkg/controllers/cluster/kvrocks.go establishes.
use kvrocks_operator.Base.{
  some-inj, ℕ, suc, Bytes, Bool, true, false, List, [], ◌∷◌, ◌≡◌, refl, ap, subst, ◌∙◌, ◌&&◌, ◌||◌,
  any, arith, Option, none, some, All, bytes_eq, ◌==◌, ==_refl, if◌then◌else◌,
}
use kvrocks_operator.Base.Exec.{or_crash, pure, gets, ◌>>=◌}
use kvrocks_operator.Base.Exec.Ensures.{
  Post, Ensures, Ensures-bind, Ensures-after, Ensures-or_crash,
}
use kvrocks_operator.Kvrocks.{Node, role_master}
use kvrocks_operator.Client.Env.{Env}
use kvrocks_operator.Common.Reserve.{is_master}
use kvrocks_operator.Cluster.State.{Shard, ClusterHandler, each_node, set_nodes}
use kvrocks_operator.Cluster.Roles.{
  first_master, crown_head, choose_master, attach, attach_node, label_node, replicate_shards,
  ensure_replication,
}

-- The node is the one of the id or names it as its master.
abbrev pub placed : Bytes → Option Node → Bool
placed id none = false
placed id (some node) = node.node_id == id || node.master == id

-- The node is a master of the id.
abbrev pub leads : Bytes → Option Node → Bool
leads id none = false
leads id (some node) = is_master node && node.node_id == id

-- One of the nodes is a master, and every node has its id or names it as its master.
abbrev pub IsReplicated : Shard → Type 0
IsReplicated shard =
    (id : Bytes) × (any (leads id) shard ≡ true) × All (λ n. placed id n ≡ true) shard

abbrev attached : Bytes → Shard → Shard
attached id [] = []
attached id (none ∷ nodes) = none ∷ attached id nodes
attached id (some node ∷ nodes) = some (attach id node) ∷ attached id nodes

attach-placed : (id : Bytes) (node : Node) → placed id (some (attach id node)) ≡ true
unfolding attach
attach-placed id node = ground (arith, ==_refl id)

attach-leads :
    (id : Bytes) (node : Node)
    → leads id (some node) ≡ true
    → leads id (some (attach id node)) ≡ true
unfolding attach
attach-leads id node e = ground arith

leads_id :
    (node : Node) (id : Bytes)
    → is_master node ≡ true
    → node.node_id ≡ id
    → leads id (some node) ≡ true
leads_id node id t e = rw (t, e) (==_refl id)

head_leads :
    (b : Bool) (node : Node) (nodes : Shard) (c : ℕ) (id : Bytes)
    → is_master node ≡ b
    → (first_master nodes ≡ some (c ∷ id) → any (leads (c ∷ id)) nodes ≡ true)
    → (if b then some node.node_id else first_master nodes) ≡ some (c ∷ id)
    → any (leads (c ∷ id)) (some node ∷ nodes) ≡ true
head_leads true node nodes c id t later e =
    ap (λ x. x || any (leads (c ∷ id)) nodes) (leads_id node (c ∷ id) t (some-inj e))
head_leads false node nodes c id f later e = rw f (later e)

first_master-leads :
    (shard : Shard) (c : ℕ) (id : Bytes)
    → first_master shard ≡ some (c ∷ id)
    → any (leads (c ∷ id)) shard ≡ true
unfolding first_master
first_master-leads [] c id e = cc
first_master-leads (none ∷ nodes) c id e = cc
first_master-leads (some node ∷ nodes) c id e =
    head_leads (is_master node) node nodes c id refl (first_master-leads nodes c id) e

crown_head-leads :
    (shard chosen : Shard) (id : Bytes)
    → crown_head shard ≡ some (chosen, id)
    → any (leads id) chosen ≡ true
unfolding crown_head
crown_head-leads [] chosen id e = cc
crown_head-leads (none ∷ nodes) chosen id e = cc
crown_head-leads (some node ∷ nodes) chosen id e =
    subst (λ (p : Shard × Bytes). any (leads p.1) p.0 ≡ true) (some-inj e)
      (ap (λ x. x || any (leads node.node_id) nodes)
        (leads_id (record node { role = role_master }) node.node_id refl refl))

chosen_leads :
    (shard chosen : Shard) (id : Bytes) (first : Option Bytes)
    → first_master shard ≡ first
    → (elim first [
      | none ↦ none
      | some [] ↦ crown_head shard
      | some (c ∷ id) ↦ some (shard, c ∷ id)
    ])
      ≡ some (chosen, id)
    → any (leads id) chosen ≡ true
chosen_leads shard chosen id none f e = cc
chosen_leads shard chosen id (some []) f e = crown_head-leads shard chosen id e
chosen_leads shard chosen id (some (c ∷ id')) f e =
    subst (λ (p : Shard × Bytes). any (leads p.1) p.0 ≡ true) (some-inj e)
      (first_master-leads shard c id' f)

choose_master-leads :
    (shard chosen : Shard) (id : Bytes)
    → choose_master shard ≡ some (chosen, id)
    → any (leads id) chosen ≡ true
unfolding choose_master
choose_master-leads shard chosen id e = chosen_leads shard chosen id (first_master shard) refl e

attached-leads :
    (id : Bytes) (shard : Shard)
    → any (leads id) shard ≡ true
    → any (leads id) (attached id shard) ≡ true
attached-leads id [] e = e
attached-leads id (none ∷ nodes) e = attached-leads id nodes e
attached-leads id (some node ∷ nodes) e =
    ground (arith, attached-leads id nodes, attach-leads id node, e)

-- The loop over a shard gives the attached shard.
each_node-attached :
    {W : Type 0} (env : Env W) (i : ℕ) (id : Bytes) (j : ℕ) (shard : Shard)
    → Ensures
        (each_node (attach_node env i id) j tt shard)
        (λ r _. (r.0 ≡ attached id shard) × All (λ n. placed id n ≡ true) r.0)
unfolding each_node pure attach_node
each_node-attached env i id j [] h = (refl, tt)
each_node-attached env i id j (none ∷ nodes) h = tt
each_node-attached env i id j (some node ∷ nodes) h =
    Ensures-bind (attach_node env i id j tt node) _ (λ r _. r.0 ≡ attach id node) _
      (Ensures-after (label_node env i (attach id node)) _ _ (λ _ s. refl))
      (λ r s e.
        Ensures-bind (each_node (attach_node env i id) (suc j) r.1 nodes) _
          (λ r' _. (r'.0 ≡ attached id nodes) × All (λ n. placed id n ≡ true) r'.0) _
          (each_node-attached env i id (suc j) nodes)
          (λ r' s' h'. ((λ t. some (e t) ∷ h'.0 t), (rw e (attach-placed id node), h'.1))) s)
      h

shard_IsReplicated :
    (shard chosen r : Shard) (id : Bytes)
    → choose_master shard ≡ some (chosen, id)
    → r ≡ attached id chosen
    → All (λ n. placed id n ≡ true) r
    → IsReplicated r
shard_IsReplicated shard chosen r id c e h = (
  id,
  ap (any (leads id)) e ∙ attached-leads id chosen (choose_master-leads shard chosen id c),
  h,
)

replicate_shards-IsReplicated :
    {W : Type 0} (env : Env W) (i : ℕ) (shards : List Shard)
    → Ensures (replicate_shards env i shards) (λ r _. All IsReplicated r)
unfolding replicate_shards pure
replicate_shards-IsReplicated env i [] h = tt
replicate_shards-IsReplicated env i (shard ∷ shards) h =
    Ensures-bind (or_crash (choose_master shard)) _ (λ p _. choose_master shard ≡ some (p.0, p.1)) _
      (Ensures-or_crash (choose_master shard) _ (λ p e _. e))
      (λ p s c.
        Ensures-bind (each_node (attach_node env i p.1) 0 tt p.0) _
          (λ r _. (r.0 ≡ attached p.1 p.0) × All (λ n. placed p.1 n ≡ true) r.0) _
          (each_node-attached env i p.1 0 p.0)
          (λ r s' h'.
            Ensures-bind (replicate_shards env (suc i) shards) _ (λ rs _. All IsReplicated rs) _
              (replicate_shards-IsReplicated env (suc i) shards)
              (λ rs s'' hs. (shard_IsReplicated shard p.0 r.0 p.1 c h'.0 h'.1, hs)) s')
          s)
      h

-- When `ensureReplication` ends without an error, every shard of the handler has a node in the role of
-- a master, and each of its nodes has the id of that node or names it as its master, whatever the
-- calls to Kubernetes did.
pub ensure_replication-IsReplicated :
    {W : Type 0} (env : Env W) (h : ClusterHandler W)
    → Post (λ _ h'. All IsReplicated h'.sts_nodes) (ensure_replication env h)
unfolding ensure_replication set_nodes gets ◌>>=◌
ensure_replication-IsReplicated {W} env h =
    Ensures-bind (replicate_shards env 0 h.sts_nodes) (λ nodes'. set_nodes nodes')
      (λ rs _. All IsReplicated rs)
      (λ (_ : Unit {0}) (h' : ClusterHandler W). All IsReplicated h'.sts_nodes)
      (replicate_shards-IsReplicated env 0 h.sts_nodes) (λ rs s' hs. hs) h

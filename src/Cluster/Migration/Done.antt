-- ===== src/Cluster/Migration/Done.antt =====
-- `ensureReBalanceTopo` of pkg/controllers/cluster/rebalance.go ends with no message left.
use kvrocks_operator.Base.{
  ℕ, zero, suc, ◌≤◌, List, [], ◌∷◌, ◌≡◌, refl, sym, ap, subst, ◌∙◌, arith, map, Option, none, some,
  length, drop, set, get_elem?, some-inj,
}
use kvrocks_operator.Base.Exec.{pure, gets, or_crash, for_each, ◌>>=◌}
use kvrocks_operator.Base.Exec.Ensures.{
  Post, Post-bind, Post-weaken, Post-state, Post-or_crash, Keeps, Keeps-for_each,
}
use kvrocks_operator.Kvrocks.{Node, MigrateMsg}
use kvrocks_operator.Client.Env.{Env}
use kvrocks_operator.Cluster.State.{Shard, ClusterHandler, set_nodes}
use kvrocks_operator.Cluster.State.Kept.{call_nodes}
use kvrocks_operator.Cluster.Topology.{sort_shard, sort_node, ensure_status_topo_msg}
use kvrocks_operator.Cluster.Topology.Kept.{ensure_status_topo_msg_nodes}
use kvrocks_operator.Cluster.Migration.{
  Position, node_at, set_node_at, migrated, slots_after, try_move, move_slot, migrate_first,
  ensure_re_balance_topo,
}

-- The messages that are left at a place of a shard, and at a place of a shard of the list; none where
-- there is no node.
abbrev messages_in : ℕ → Shard → ℕ
messages_in place [] = 0
messages_in zero (none ∷ nodes) = 0
messages_in zero (some node ∷ nodes) = length node.migrate
messages_in (suc place) (_ ∷ nodes) = messages_in place nodes

abbrev pub messages_at : ℕ → ℕ → List Shard → ℕ
messages_at i place [] = 0
messages_at zero place (nodes ∷ shards) = messages_in place nodes
messages_at (suc i) place (_ ∷ shards) = messages_at i place shards

length-map {ℓ κ} :
    {A : Type ℓ} {B : Type κ} (f : A → B) (xs : List A) → length (map f xs) ≡ length xs
length-map f [] = refl
length-map f (x ∷ xs) = omega (arith, length-map f xs)

messages_in-sort_shard :
    (place : ℕ) (nodes : Shard) → messages_in place (sort_shard nodes) ≡ messages_in place nodes
unfolding sort_shard sort_node
messages_in-sort_shard place [] = refl
messages_in-sort_shard zero (none ∷ nodes) = refl
messages_in-sort_shard zero (some node ∷ nodes) = length-map _ node.migrate
messages_in-sort_shard (suc place) (none ∷ nodes) = messages_in-sort_shard place nodes
messages_in-sort_shard (suc place) (some node ∷ nodes) = messages_in-sort_shard place nodes

messages_at-sort_shard :
    (i place : ℕ) (shards : List Shard)
    → messages_at i place (map sort_shard shards) ≡ messages_at i place shards
messages_at-sort_shard i place [] = refl
messages_at-sort_shard zero place (nodes ∷ shards) = messages_in-sort_shard place nodes
messages_at-sort_shard (suc i) place (nodes ∷ shards) = messages_at-sort_shard i place shards

in_shard :
    (place : ℕ) (nodes : Shard) (node : Node)
    → get_elem? nodes place ≡ some (some node)
    → messages_in place nodes ≡ length node.migrate
in_shard place [] node e = cc
in_shard zero (none ∷ nodes) node e = cc
in_shard zero (some n ∷ nodes) node e = cc e
in_shard (suc place) (_ ∷ nodes) node e = in_shard place nodes node e

set_in_shard :
    (place : ℕ) (nodes : Shard) (node node' : Node)
    → get_elem? nodes place ≡ some (some node)
    → messages_in place (set nodes place (some node')) ≡ length node'.migrate
set_in_shard place [] node node' e = cc
set_in_shard zero (_ ∷ nodes) node node' e = refl
set_in_shard (suc place) (none ∷ nodes) node node' e = set_in_shard place nodes node node' e
set_in_shard (suc place) (some _ ∷ nodes) node node' e = set_in_shard place nodes node node' e

present_node :
    (r : Option (Option Node)) (node : Node)
    → (elim r [ none ↦ none | some n ↦ n ]) ≡ some node
    → r ≡ some (some node)
present_node none node e = cc
present_node (some n) node e = ap some e

located_in :
    (r : Option Shard) (place : ℕ) (node : Node)
    → (elim r [
      | none ↦ none
      | some nodes ↦ elim (get_elem? nodes place) [ none ↦ none | some n ↦ n ]
    ])
      ≡ some node
    → (nodes : Shard) × (r ≡ some nodes) × (get_elem? nodes place ≡ some (some node))
located_in none place node e = cc
located_in (some nodes) place node e = (nodes, refl, present_node (get_elem? nodes place) node e)

at_shard :
    (i place : ℕ) (shards : List Shard) (nodes : Shard)
    → get_elem? shards i ≡ some nodes
    → messages_at i place shards ≡ messages_in place nodes
at_shard i place [] nodes e = cc
at_shard zero place (_ ∷ shards) nodes e = cc e
at_shard (suc i) place (_ ∷ shards) nodes e = at_shard i place shards nodes e

set_at_shard :
    (i place : ℕ) (shards : List Shard) (nodes nodes' : Shard)
    → get_elem? shards i ≡ some nodes
    → messages_at i place (set shards i nodes') ≡ messages_in place nodes'
set_at_shard i place [] nodes nodes' e = cc
set_at_shard zero place (_ ∷ shards) nodes nodes' e = refl
set_at_shard (suc i) place (_ ∷ shards) nodes nodes' e = set_at_shard i place shards nodes nodes' e

messages_at-node_at :
    (at : Position) (shards : List Shard) (node : Node)
    → node_at at shards ≡ some node
    → messages_at at.shard at.place shards ≡ length node.migrate
unfolding node_at
messages_at-node_at at shards node e =
    let (nodes, here, there) = located_in (get_elem? shards at.shard) at.place node e in
    at_shard at.shard at.place shards nodes here ∙ in_shard at.place nodes node there

messages_at-set_node_at :
    (at : Position) (shards : List Shard) (node node' : Node)
    → node_at at shards ≡ some node
    → messages_at at.shard at.place (set_node_at at node' shards) ≡ length node'.migrate
unfolding node_at set_node_at
messages_at-set_node_at at shards node node' e =
    let (nodes, here, there) = located_in (get_elem? shards at.shard) at.place node e in
    rw (set_node_at, here)
      (set_at_shard at.shard at.place shards nodes (set nodes at.place (some node')) here
        ∙ set_in_shard at.place nodes node node' there)

-- One message less.
migrated_messages :
    (m : MigrateMsg) (ms : List MigrateMsg) (node node' : Node)
    → node.migrate ≡ m ∷ ms
    → migrated m node ≡ some node'
    → node'.migrate ≡ ms
unfolding migrated
migrated_messages m ms node node' e done = taken (slots_after (length m.slots) node.slots) done
  where
    taken :
        (r : Option (List ℕ))
        → (elim r [
          | none ↦ none
          | some slots ↦ some (record node { slots = slots; migrate = drop 1 node.migrate })
        ])
          ≡ some node'
        → node'.migrate ≡ ms
    taken none h = cc
    taken (some slots) h = sym (ap (λ (n : Node). n.migrate) (some-inj h)) ∙ ap (drop 1) e

module _ {W : Type 0} (env : Env W) (src : ℕ) (at : Position) where
  -- The requests for one slot leave the nodes alone.
  move_slot_nodes :
      (dest : ℕ) (nodes : List Shard)
      → Keeps (λ (h : ClusterHandler W). h.sts_nodes ≡ nodes) (move_slot env src dest)
  unfolding move_slot gets ◌>>=◌
  move_slot_nodes dest nodes slot h e =
      Post-state (λ h. h.sts_nodes ≡ nodes) (move_slot env src dest slot h)
        (call_nodes (try_move env h.endpoint src dest slot 5 10) h ∙ e)

  -- The write of the topology, over nodes in which the place has its new node.
  written :
      (node node' : Node) (h : ClusterHandler W)
      → node_at at h.sts_nodes ≡ some node
      → Post
          (λ (_ : Unit {0}) h'. messages_at at.shard at.place h'.sts_nodes ≡ length node'.migrate)
          (ensure_status_topo_msg env (record h { sts_nodes = set_node_at at node' h.sts_nodes }))
  written node node' h here =
      Post-weaken (λ _ h'. h'.sts_nodes ≡ map sort_shard (set_node_at at node' h.sts_nodes))
        (λ _ h'. messages_at at.shard at.place h'.sts_nodes ≡ length node'.migrate) _
        (ensure_status_topo_msg_nodes env
          (record h { sts_nodes = set_node_at at node' h.sts_nodes }))
        (λ _ h' e.
          ap (messages_at at.shard at.place) e
          ∙ messages_at-sort_shard at.shard at.place _
          ∙ messages_at-set_node_at at h.sts_nodes node node' here)

  first_done :
      (m : MigrateMsg) (ms : List MigrateMsg) (node : Node) (h : ClusterHandler W)
      → node_at at h.sts_nodes ≡ some node
      → node.migrate ≡ m ∷ ms
      → Post
          (λ (_ : Unit {0}) h'. messages_at at.shard at.place h'.sts_nodes ≡ length ms)
          (migrate_first env src at node (m ∷ ms) h)
  unfolding migrate_first gets set_nodes ◌>>=◌
  first_done m ms node h here e =
      Post-bind (for_each m.slots (move_slot env src m.shard)) _ h
        (λ _ s. s.sts_nodes ≡ h.sts_nodes)
        (λ (_ : Unit {0}) h'. messages_at at.shard at.place h'.sts_nodes ≡ length ms)
        (Keeps-for_each _ _ (move_slot_nodes m.shard h.sts_nodes) m.slots h refl)
        (λ _ s kept.
          Post-bind (or_crash (migrated m node)) _ s
            (λ node' s'. (node'.migrate ≡ ms) × (s'.sts_nodes ≡ h.sts_nodes))
            (λ (_ : Unit {0}) h'. messages_at at.shard at.place h'.sts_nodes ≡ length ms)
            (Post-or_crash (migrated m node) s _
              (λ node' done. (migrated_messages m ms node node' e done, kept)))
            (λ node' s' h'.
              subst
                (λ (l : List MigrateMsg).
                  Post
                    (λ (_ : Unit {0}) (h' : ClusterHandler W).
                      messages_at at.shard at.place h'.sts_nodes ≡ length l)
                    (ensure_status_topo_msg env
                      (record s' { sts_nodes = set_node_at at node' s'.sts_nodes })))
                h'.0 (written node node' s' (ap (node_at at) h'.1 ∙ here))))

  round :
      (left : ℕ) (node : Node) (h : ClusterHandler W) (ms : List MigrateMsg)
      → node_at at h.sts_nodes ≡ some node
      → node.migrate ≡ ms
      → length ms ≤ suc left
      → Post
          (λ (_ : Unit {0}) h'. messages_at at.shard at.place h'.sts_nodes ≤ left)
          (migrate_first env src at node ms h)
  unfolding migrate_first pure
  round left node h [] here e b =
      let none_left = messages_at-node_at at h.sts_nodes node here ∙ ap length e in
      omega (arith, none_left)
  round left node h (m ∷ ms) here e b =
      Post-weaken (λ _ h'. messages_at at.shard at.place h'.sts_nodes ≡ length ms)
        (λ _ h'. messages_at at.shard at.place h'.sts_nodes ≤ left) _
        (first_done m ms node h here e) (λ _ h' done. omega (arith, done, b))

  -- When the rounds of `ensureReBalanceTopo` end without an error, and there were as many of them as
  -- the node at the position had messages at the start or more, the node has no message left.
  pub ensure_re_balance_topo_done :
      (left : ℕ) (h : ClusterHandler W)
      → messages_at at.shard at.place h.sts_nodes ≤ left
      → Post
          (λ (_ : Unit {0}) h'. messages_at at.shard at.place h'.sts_nodes ≡ 0)
          (ensure_re_balance_topo env src at left h)
  unfolding ensure_re_balance_topo pure gets ◌>>=◌
  ensure_re_balance_topo_done zero h b = omega (arith, b)
  ensure_re_balance_topo_done (suc left) h b =
      Post-bind (or_crash (node_at at h.sts_nodes)) _ h
        (λ node s.
          (node_at at s.sts_nodes ≡ some node)
          × (messages_at at.shard at.place s.sts_nodes ≤ suc left))
        (λ (_ : Unit {0}) h'. messages_at at.shard at.place h'.sts_nodes ≡ 0)
        (Post-or_crash (node_at at h.sts_nodes) h _ (λ node here. (here, b)))
        (λ node s (here, b').
          let counted = messages_at-node_at at s.sts_nodes node here in
          Post-bind (migrate_first env src at node node.migrate) _ s
            (λ _ s'. messages_at at.shard at.place s'.sts_nodes ≤ left)
            (λ (_ : Unit {0}) h'. messages_at at.shard at.place h'.sts_nodes ≡ 0)
            (round left node s node.migrate here refl (omega (arith, counted, b')))
            (λ _ s' b''. ensure_re_balance_topo_done left s' b''))

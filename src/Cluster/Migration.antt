-- ===== src/Cluster/Migration.antt =====
-- pkg/controllers/cluster/rebalance.go: slots that the user asks to move between shards.
pub mod Done
pub mod Tries
pub mod Messages
use kvrocks_operator.Base.{
  ℕ, zero, suc, ◌*◌, true, List, [], ◌∷◌, ◌++◌, codes, Option, none, some, length, drop, set,
  get_elem?, ltb, if◌then◌else◌,
}
use kvrocks_operator.Base.Exec.{
  Result, Exec, ok, err, panic, other, pure, raise, crash, gets, attempt, or_crash, for_each, ◌>>=◌,
  ◌>>◌,
}
use kvrocks_operator.Kvrocks.{Node, MigrateMsg}
use kvrocks_operator.Client.Controller.{Endpoint, migrate_slot_and_data}
use kvrocks_operator.Client.Env.{Env}
use kvrocks_operator.Common.Reserve.{is_master}
use kvrocks_operator.Cluster.State.{Shard, Run, call, set_requeue, set_nodes}
use kvrocks_operator.Cluster.Topology.{ensure_status_topo_msg}

-- Where a node stands: its shard and its place there.
pub record Position : Type 0 where
  pub shard : ℕ
  pub place : ℕ

-- `h.stsNodes[i][j]`
unfoldable pub node_at : Position → List Shard → Option Node
node_at p shards = elim (get_elem? shards p.shard) [
  | none ↦ none
  | some nodes ↦ elim (get_elem? nodes p.place) [ none ↦ none | some node ↦ node ]
]

unfoldable pub set_node_at : Position → Node → List Shard → List Shard
set_node_at p node shards = elim (get_elem? shards p.shard) [
  | none ↦ shards
  | some nodes ↦ set shards p.shard (set nodes p.place (some node))
]

masters_of : ℕ → ℕ → Shard → Option (List Position)
masters_of i j [] = some []
masters_of i j (none ∷ nodes) = none
masters_of i j (some node ∷ nodes) = elim (masters_of i (suc j) nodes) [
  | none ↦ none
  | some rest ↦ some (if is_master node then record { shard = i; place = j } ∷ rest else rest)
]

-- The masters in the order of `ensureMigrate`; none at a nil node.
unfoldable pub masters : ℕ → List Shard → Option (List Position)
unfolding masters_of
masters i [] = some []
masters i (nodes ∷ shards) = elim (masters_of i 0 nodes) [
  | none ↦ none
  | some here ↦ elim (masters (suc i) shards) [ none ↦ none | some rest ↦ some (here ++ rest) ]
]

-- `node.Slots[n:]` panics past the end.
unfoldable pub slots_after : ℕ → List ℕ → Option (List ℕ)
slots_after n slots = if ltb (length slots) n then none else some (drop n slots)

-- The first message is done: as many slots leave the front of the node's as it named.
unfoldable pub migrated : MigrateMsg → Node → Option Node
unfolding slots_after
migrated m node = elim (slots_after (length m.slots) node.slots) [
  | none ↦ none
  | some slots ↦ some (record node { slots = slots; migrate = drop 1 node.migrate })
]

-- Behind a failed try: `again` while tries are left.
unfoldable pub after_try : {W : Type 0} → Result (Unit {0}) → Exec W Unit → Exec W Unit
after_try (ok _) again = pure tt
after_try (err _) again = again
after_try panic again = crash

module _ {W : Type 0} (env : Env W) where
  -- One slot: `left` more tries after a failure, the wait in milliseconds growing tenfold.
  unfoldable pub try_move : Endpoint → ℕ → ℕ → ℕ → ℕ → ℕ → Exec W Unit
  unfolding ◌>>=◌ attempt after_try
  try_move endpoint src dest slot zero wait = do
    moved ← attempt (migrate_slot_and_data env.http endpoint src dest slot)
    after_try moved (raise (other (codes "slot migrate timeout")))
  try_move endpoint src dest slot (suc left) wait = do
    moved ← attempt (migrate_slot_and_data env.http endpoint src dest slot)
    after_try moved (do env.sleep wait; try_move endpoint src dest slot left (wait * 10))

  -- One slot: six tries in all, the first wait being one of ten milliseconds.
  unfoldable pub move_slot : ℕ → ℕ → ℕ → Run W Unit
  unfolding ◌>>=◌ call try_move
  move_slot src dest slot = do
    endpoint ← gets (λ h. h.endpoint)
    call (try_move endpoint src dest slot 5 10)

  migrate_first : ℕ → Position → Node → List MigrateMsg → Run W Unit
  unfolding ◌>>=◌ for_each move_slot migrated set_nodes
  migrate_first src at node [] = pure tt
  migrate_first src at node (m ∷ _) = do
    for_each m.slots (move_slot src m.shard)
    node' ← or_crash (migrated m node)
    nodes ← gets (λ h. h.sts_nodes)
    set_nodes (set_node_at at node' nodes)
    ensure_status_topo_msg env

  -- `ensureReBalanceTopo`, for as many messages as the node had at the start. Each round reads the
  -- first message that is left, whose slots the last write of the status has sorted.
  unfoldable pub ensure_re_balance_topo : ℕ → Position → ℕ → Run W Unit
  unfolding ◌>>=◌ migrate_first node_at
  ensure_re_balance_topo src at zero = pure tt
  ensure_re_balance_topo src at (suc left) = do
    nodes ← gets (λ h. h.sts_nodes)
    node ← or_crash (node_at at nodes)
    migrate_first src at node node.migrate
    ensure_re_balance_topo src at left

  -- The loop over the masters; the index among the masters is the source shard.
  first_migration : ℕ → List Position → Run W Unit
  unfolding ◌>>=◌ ensure_re_balance_topo set_requeue node_at
  first_migration index [] = ensure_status_topo_msg env
  first_migration index (at ∷ rest) = do
    nodes ← gets (λ h. h.sts_nodes)
    node ← or_crash (node_at at nodes)
    let later = first_migration (suc index) rest
    elim node.migrate [
      | [] ↦ later
      | m ∷ ms ↦ do set_requeue true; ensure_re_balance_topo index at (length (m ∷ ms))
    ]

  -- `ensureMigrate`
  unfoldable pub ensure_migrate : Run W Unit
  unfolding ◌>>=◌ masters first_migration
  ensure_migrate = do
    nodes ← gets (λ h. h.sts_nodes)
    positions ← or_crash (masters 0 nodes)
    first_migration 0 positions

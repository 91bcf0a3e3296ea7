-- ===== src/Cluster/Migration/Messages.antt =====
-- pkg/controllers/cluster/rebalance.go and the queue of failover messages.
use kvrocks_operator.Base.{length, true, ℕ, zero, suc, List, [], ◌∷◌}
use kvrocks_operator.Base.Exec.{gets, or_crash, ◌>>◌}
use kvrocks_operator.Base.Exec.Preserves.{Preserves-bind, Preserves-or_crash, Preserves-gets}
use kvrocks_operator.Client.Env.{Env}
use kvrocks_operator.Events.Queue.{MessageQueue}
use kvrocks_operator.Cluster.State.{ClusterHandler, Run, set_requeue}
use kvrocks_operator.Cluster.State.Messages.{QueueKept, queue_rules}
use kvrocks_operator.Kvrocks.{Node, MigrateMsg}
use kvrocks_operator.Cluster.Topology.Messages.{QueueKept-ensure_status_topo_msg}
use kvrocks_operator.Cluster.Migration.{
  node_at, Position, move_slot, migrate_first, ensure_re_balance_topo, first_migration,
  ensure_migrate,
}

module _ {W : Type 0} (env : Env W) (Q : MessageQueue → Type 0) where
  QueueKept-move_slot : (src dest slot : ℕ) → QueueKept Q (move_slot env src dest slot)
  unfolding move_slot
  QueueKept-move_slot src dest slot = search queue_rules depth 30

  QueueKept-migrate_first :
      (src : ℕ) (at : Position) (node : Node) (ms : List MigrateMsg)
      → QueueKept Q (migrate_first env src at node ms)
  unfolding migrate_first
  QueueKept-migrate_first src at node [] = search queue_rules depth 30
  QueueKept-migrate_first src at node (m ∷ ms) =
      search (queue_rules, QueueKept-move_slot, QueueKept-ensure_status_topo_msg) depth 30

  QueueKept-ensure_re_balance_topo :
      (src : ℕ) (at : Position) (left : ℕ) → QueueKept Q (ensure_re_balance_topo env src at left)
  unfolding ensure_re_balance_topo
  QueueKept-ensure_re_balance_topo src at zero = search queue_rules depth 30
  QueueKept-ensure_re_balance_topo src at (suc left) =
      search (queue_rules, QueueKept-migrate_first, QueueKept-ensure_re_balance_topo src at left)
        depth 30

  -- Past the masters that wait for no slots.
  QueueKept-found :
      (index : ℕ) (at : Position) (later : Run W Unit) (ms : List MigrateMsg)
      → QueueKept Q later
      → QueueKept Q (elim ms [
        | [] ↦ later
        | m ∷ ms ↦ do set_requeue true; ensure_re_balance_topo env index at (length (m ∷ ms))
      ])
  QueueKept-found index at later [] k = k
  QueueKept-found index at later (m ∷ ms) k =
      search (queue_rules, QueueKept-ensure_re_balance_topo) depth 30

  QueueKept-first_migration :
      (index : ℕ) (positions : List Position) → QueueKept Q (first_migration env index positions)
  unfolding first_migration
  QueueKept-first_migration index [] =
      search (queue_rules, QueueKept-ensure_status_topo_msg) depth 30
  QueueKept-first_migration index (at ∷ rest) =
      Preserves-bind (gets (λ (h : ClusterHandler W). h.sts_nodes)) _ (Preserves-gets _) (λ nodes.
        Preserves-bind (or_crash (node_at at nodes)) _ (Preserves-or_crash _) (λ (node : Node).
          QueueKept-found index at (first_migration env (suc index) rest) node.migrate
            (QueueKept-first_migration (suc index) rest)))

  pub QueueKept-ensure_migrate : QueueKept Q (ensure_migrate env)
  unfolding ensure_migrate
  QueueKept-ensure_migrate = search (queue_rules, QueueKept-first_migration) depth 30

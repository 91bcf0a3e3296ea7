-- ===== src/Cluster/State/Kept.antt =====
-- Calls of the clients leave the nodes of the handler of pkg/controllers/cluster alone.
use kvrocks_operator.Base.{◌≡◌, refl}
use kvrocks_operator.Base.Exec.{Result, ok, err, panic, Exec, and_then, ◌>>=◌}
use kvrocks_operator.Api.{Kvrocks}
use kvrocks_operator.Client.Env.{Env}
use kvrocks_operator.Cluster.State.{ClusterHandler, returned, call, set_instance, save_instance}

module _ {W A : Type 0} where
  returned_nodes :
      (h : ClusterHandler W) (r : Result A × W) → (returned h r).1.sts_nodes ≡ h.sts_nodes
  unfolding returned
  returned_nodes h (r, w) = refl

  returned_world :
      (h : ClusterHandler W) (r : Result A × W) → (returned h r).1 ≡ record h { world = r.1 }
  unfolding returned
  returned_world h (r, w) = refl

  -- A call changes the world and nothing else of the handler.
  pub call_world :
      (m : Exec W A) (h : ClusterHandler W) → (call m h).1 ≡ record h { world = (m h.world).1 }
  unfolding call
  call_world m h = returned_world h (m h.world)

  pub call_nodes : (m : Exec W A) (h : ClusterHandler W) → (call m h).1.sts_nodes ≡ h.sts_nodes
  unfolding call
  call_nodes m h = returned_nodes h (m h.world)

module _ {W : Type 0} where
  saved_nodes :
      (h : ClusterHandler W) (r : Result Kvrocks × W)
      → (and_then (returned h r) (λ saved. set_instance saved)).1.sts_nodes ≡ h.sts_nodes
  unfolding returned set_instance
  saved_nodes h (ok k, w) = refl
  saved_nodes h (err e, w) = refl
  saved_nodes h (panic, w) = refl

  pub save_instance_nodes :
      (env : Env W) (k : Kvrocks) (h : ClusterHandler W)
      → (save_instance env k h).1.sts_nodes ≡ h.sts_nodes
  unfolding save_instance set_instance call ◌>>=◌
  save_instance_nodes env k h = saved_nodes (record h { instance_ = k }) _

-- ===== src/Standard/State/Kept.antt =====
-- A call of a client by the handler of pkg/controllers/standard.
use kvrocks_operator.Base.{◌≡◌, refl}
use kvrocks_operator.Base.Exec.{Result, Exec}
use kvrocks_operator.Standard.State.{StandardHandler, returned, call}

module _ {W A : Type 0} where
  returned_world :
      (h : StandardHandler W) (r : Result A × W) → (returned h r).1 ≡ record h { world = r.1 }
  unfolding returned
  returned_world h (r, w) = refl

  -- It changes the world and nothing else of the handler.
  pub call_world :
      (m : Exec W A) (h : StandardHandler W) → (call m h).1 ≡ record h { world = (m h.world).1 }
  unfolding call
  call_world m h = returned_world h (m h.world)

-- ===== src/Client/Env.antt =====
-- All that the handlers reach outside the operator, in one argument.
use kvrocks_operator.Base.{ℕ}
use kvrocks_operator.Base.Exec.{Exec}
use kvrocks_operator.Client.Objects.{Cluster}
use kvrocks_operator.Client.Controller.{Http}
use kvrocks_operator.Client.Kv.{Kv}

pub record Env (W : Type 0) : Type 0 where
  pub k8s : Cluster W
  pub kv : Kv W
  pub http : Http W
  -- time.Sleep, in milliseconds
  pub sleep : ℕ → Exec W Unit
  -- time.Now, in seconds
  pub now : Exec W ℕ

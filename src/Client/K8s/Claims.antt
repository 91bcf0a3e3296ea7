-- ===== src/Client/K8s/Claims.antt =====
-- What the operator relies on for the claims of pkg/client/k8s/pvc.go.
use kvrocks_operator.Base.{Bytes, Bool, true, ◌≡◌, Option}
use kvrocks_operator.Api.{Key, Labels}
use kvrocks_operator.Client.Objects.{Claim}
use kvrocks_operator.Client.K8s.Lawful.{IsLawful}
use kvrocks_operator.Client.Env.{Env}

abbrev pub claim_key : Claim → Key
claim_key c = record { namespace = c.namespace; name = c.name }

abbrev pub any_claim : Claim → Claim → Bool
any_claim _ _ = true

-- A server of claims; to list them, or to read a set, changes none.
pub record Claims {W : Type 0} (env : Env W) (view : W → Key → Option Claim) : Type 0 where
  pub lawful : IsLawful env.k8s.claims claim_key claim_key any_claim view
  pub read_set : (key : Key) (w : W) → view (env.k8s.stateful_sets.get key w).1 ≡ view w
  pub listed :
      (namespace : Bytes) (labels : Labels) (w : W)
      → view (env.k8s.claims.list namespace labels w).1 ≡ view w

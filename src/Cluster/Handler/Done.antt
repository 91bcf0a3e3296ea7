-- ===== src/Cluster/Handler/Done.antt =====
-- What the answer of `Handle` of pkg/controllers/cluster/handler.go says.
use kvrocks_operator.Base.{Bool, true, false, ◌≡◌, refl, sym, ap, not, if◌then◌else◌}
use kvrocks_operator.Base.Exec.{pure, gets, ◌>>=◌}
use kvrocks_operator.Base.Exec.Ensures.{Post, Ensures-after}
use kvrocks_operator.Client.Env.{Env}
use kvrocks_operator.Cluster.State.{ClusterHandler, Run}
use kvrocks_operator.Cluster.Workload.{ensure_kubernetes}
use kvrocks_operator.Cluster.Failover.{ensure_failover}
use kvrocks_operator.Cluster.Migration.{ensure_migrate}
use kvrocks_operator.Cluster.Shrink.{ensure_shrink, clean_persistent_volume_claim}
use kvrocks_operator.Cluster.Deployment.{ensure_controller}
use kvrocks_operator.Cluster.Handler.{
  stage, handle, clean_ordered, ensure_kvrocks_status, ensure_sentinel,
}

-- The answer is true just when no run again is asked for.
abbrev pub Agrees : {W : Type 0} → Bool → ClusterHandler W → Type 0
Agrees done h = done ≡ not h.requeue

-- From a state in which no run again is asked for.
abbrev Settles : {W : Type 0} → Run W Bool → Type 0
Settles {W} next = (s : ClusterHandler W) → s.requeue ≡ false → Post Agrees (next s)

pure-Settles : {W : Type 0} → Settles {W = W} (pure true)
unfolding pure
pure-Settles s e = ap not (sym e)

waits :
    {W : Type 0} (next : Run W Bool) (s : ClusterHandler W) (b : Bool)
    → s.requeue ≡ b
    → Settles next
    → Post Agrees ((if b then pure false else next) s)
unfolding pure
waits next s true e k = ap not (sym e)
waits next s false e k = k s e

stage-Settles :
    {W : Type 0} (step : Run W Unit) (next : Run W Bool)
    → Settles next
    → (s : ClusterHandler W) → Post Agrees (stage step next s)
unfolding stage gets ◌>>=◌
stage-Settles step next k =
    Ensures-after step (λ _ s. (if s.requeue then pure false else next) s) Agrees
      (λ _ s. waits next s s.requeue refl k)

-- When `Handle` of the cluster handler ends without an error, it answers true just when the handler
-- does not ask to be run again.
pub handle_answer : {W : Type 0} (env : Env W) (h : ClusterHandler W) → Post Agrees (handle env h)
unfolding handle
handle_answer env = stage-Settles (ensure_controller env) _ (λ s _.
    stage-Settles (clean_ordered env) _
      (λ s _.
        stage-Settles (ensure_kubernetes env) _
          (λ s _.
            stage-Settles (ensure_failover env) _
              (λ s _.
                stage-Settles (ensure_kvrocks_status env) _
                  (λ s _.
                    stage-Settles (ensure_migrate env) _
                      (λ s _.
                        stage-Settles (ensure_shrink env) _
                          (λ s _.
                            stage-Settles (ensure_sentinel env) _
                              (λ s _.
                                stage-Settles (clean_persistent_volume_claim env) _ pure-Settles s)
                              s)
                          s)
                      s)
                  s)
              s)
          s)
      s)

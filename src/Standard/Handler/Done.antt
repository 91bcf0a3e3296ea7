-- ===== src/Standard/Handler/Done.antt =====
-- What the answer of `Handle` of pkg/controllers/standard/handler.go says.
use kvrocks_operator.Base.{Bool, true, false, ◌≡◌, refl, sym, ap, not, if◌then◌else◌}
use kvrocks_operator.Base.Exec.{pure, gets, ◌>>=◌}
use kvrocks_operator.Base.Exec.Ensures.{Post, Ensures-after}
use kvrocks_operator.Client.Env.{Env}
use kvrocks_operator.Standard.State.{StandardHandler, Run}
use kvrocks_operator.Standard.Workload.{ensure_kubernetes, clean_persistent_volume_claim}
use kvrocks_operator.Standard.Replication.{ensure_kvrocks_status}
use kvrocks_operator.Standard.Scaling.{resize_stateful_set}
use kvrocks_operator.Standard.Handler.{stage, handle}

-- The answer is true just when no run again is asked for.
abbrev pub Agrees : {W : Type 0} → Bool → StandardHandler W → Type 0
Agrees done h = done ≡ not h.requeue

-- From a state in which no run again is asked for.
abbrev Settles : {W : Type 0} → Run W Bool → Type 0
Settles {W} next = (s : StandardHandler W) → s.requeue ≡ false → Post Agrees (next s)

pure-Settles : {W : Type 0} → Settles {W = W} (pure true)
unfolding pure
pure-Settles s e = ap not (sym e)

waits :
    {W : Type 0} (next : Run W Bool) (s : StandardHandler W) (b : Bool)
    → s.requeue ≡ b
    → Settles next
    → Post Agrees ((if b then pure false else next) s)
unfolding pure
waits next s true e k = ap not (sym e)
waits next s false e k = k s e

stage-Settles :
    {W : Type 0} (step : Run W Unit) (next : Run W Bool)
    → Settles next
    → (s : StandardHandler W) → Post Agrees (stage step next s)
unfolding stage gets ◌>>=◌
stage-Settles step next k =
    Ensures-after step (λ _ s. (if s.requeue then pure false else next) s) Agrees
      (λ _ s. waits next s s.requeue refl k)

-- When `Handle` of the standard handler ends without an error, it answers true just when the handler
-- does not ask to be run again.
pub standard_handle_answer :
    {W : Type 0} (env : Env W) (h : StandardHandler W) → Post Agrees (handle env h)
unfolding handle
standard_handle_answer env = stage-Settles (ensure_kubernetes env) _ (λ s _.
    stage-Settles (ensure_kvrocks_status env) _
      (λ s _.
        stage-Settles (resize_stateful_set env) _
          (λ s _. stage-Settles (clean_persistent_volume_claim env) _ pure-Settles s) s)
      s)

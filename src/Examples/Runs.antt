-- ===== src/Examples/Runs.antt =====
-- A first pass, a sentinel that is listened to and reports a master, and the failover that follows.
use kvrocks_operator.Base.{split, before_first, Bytes, true, false, [], ◌∷◌, ◌≡◌, refl, codes}
use kvrocks_operator.Base.Exec.{pure}
use kvrocks_operator.Base.Decimal.{atoi}
use kvrocks_operator.Resources.Names.{get_cluster_name}
use kvrocks_operator.Client.K8s.{list_deployment_pods}
use kvrocks_operator.Api.{Key, Kvrocks, status_failed, sentinel_type}
use kvrocks_operator.Client.Env.{Env}
use kvrocks_operator.Events.Queue.{EventMessage, add}
use kvrocks_operator.Events.Listener.{read_payload, hear}
use kvrocks_operator.Events.Producer.{producer}
use kvrocks_operator.Events.Failover.{handle_failover}
use kvrocks_operator.Reconciler.{reconcile}
use kvrocks_operator.Events.Producer.Once.{Once}
use kvrocks_operator.Operation.{
  Operation, new_operation, pass, produce, listen, consume, fail_over, check, insert,
}
use kvrocks_operator.Examples.{instance_demo, store}
use kvrocks_operator.Examples

abbrev key : Key
key = record { namespace = instance_demo.namespace; name = instance_demo.name }

abbrev failed_demo : Kvrocks
failed_demo = record instance_demo {
  status = record instance_demo.status { status = status_failed };
}

abbrev sentinel : Kvrocks
sentinel = record instance_demo {
  name = codes "sentinel-1";
  spec = record instance_demo.spec { type = sentinel_type };
}

-- The instance of the pass has failed; the sentinel runs.
abbrev env : Env Unit
env = record Examples.env {
  k8s = record Examples.cluster {
    kvrockses = record (store failed_demo) { list = λ _ _. pure (sentinel ∷ []) };
  };
}

abbrev payload : Bytes
payload = codes "master demo-0 10.0.0.1 6379 @ sentinel"

abbrev s1 : Operation Unit
s1 = pass env key (new_operation tt)

abbrev s2 : Operation Unit
s2 = produce env s1

abbrev s3 : Operation Unit
s3 = listen 0 payload 1000 s2

abbrev s4 : Operation Unit
s4 = consume s3

abbrev down : EventMessage
down = record {
  ip = codes "10.0.0.1";
  port = codes "6379";
  key = record { namespace = []; name = codes "kvrocks-cluster-1-demo" };
  partition = 0;
  timeout = 1030;
}

abbrev s5 : Operation Unit
s5 = fail_over env down [] s4

-- The run has no race.
run_ordered : s5.raced ≡ false
unfolding pass new_operation reconcile produce producer split list_deployment_pods listen
    read_payload consume fail_over hear add before_first get_cluster_name atoi handle_failover
run_ordered = refl

-- A pass that looks before a listener hears of the same address, and inserts behind it: two messages
-- of one address wait.
abbrev sent : EventMessage
sent = record down { partition = 1 }

abbrev r3 : Operation Unit
r3 = insert sent [] (listen 0 payload 1000 (check sent s2))

race : (r3.raced ≡ true) × (r3.messages.message ≡ down ∷ sent ∷ [])
unfolding pass new_operation reconcile produce producer split list_deployment_pods listen
    read_payload hear add before_first get_cluster_name atoi check insert
race = (refl, refl)

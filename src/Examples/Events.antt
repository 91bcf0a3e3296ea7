-- ===== src/Examples/Events.antt =====
-- The theorems on the failover queue and the failed-over topology at small inputs.
use kvrocks_operator.Base.{
  ℕ, ◌+◌, Bytes, true, [], ◌∷◌, ◌≡◌, ◌≢◌, refl, codes, some, All, get_elem?, false,
}
use kvrocks_operator.Api.{Kvrocks, TopoPartition, Topology}
use kvrocks_operator.Client.Controller.{Member}
use kvrocks_operator.Events.Queue.{EventMessage, empty_queue, add}
use kvrocks_operator.Events.Failover.{Verdict, failed_over}
use kvrocks_operator.Events.Failover.Marked.{marked, failed_over_lem}
use kvrocks_operator.Events.Failover.Consistent.{
  System, send, begin, then_, Consistent, Reachable-Consistent,
}
use kvrocks_operator.Base.{◌++◌, lacks-Lacks, arith}
use kvrocks_operator.Base.Exec.{ok, not_found}
use kvrocks_operator.Resources.Names.{get_cluster_name}
use kvrocks_operator.Events.Failover.Drained.{LateSteps, Reachable-drained}
use kvrocks_operator.Events.Listener.{heard, read_payload}
use kvrocks_operator.Events.Listener.Payload.{payload, read_payload-payload}
use kvrocks_operator.Events.Producer.{Subscriptions, producer}
use kvrocks_operator.Events.Producer.Once.{Once, producer-Once}
use kvrocks_operator.Examples.{env, instance_demo}

abbrev down : EventMessage
down = record {
  ip = codes "10.0.0.1";
  port = codes "6379";
  key = record { namespace = codes "kvrocks"; name = codes "kvrocks-cluster-1-demo" };
  partition = 0;
  timeout = 1030;
}

abbrev refused : Verdict
refused = record { error = some not_found; requeue = true }

abbrev waiting : System
waiting = record { queue = add empty_queue down; handling = [] }

-- One message is added.
Reachable-Consistent_example : Consistent waiting
Reachable-Consistent_example =
    Reachable-Consistent waiting (then_ begin (send {q = empty_queue} {hs = []} down))

abbrev topology : Bytes → Bytes → Topology
topology ip id = record {
  pod = codes "demo-0-0";
  role = codes "master";
  node_id = id;
  ip = ip;
  port = 6379;
  slots = [];
  master_id = [];
  migrate = [];
  failover = false;
}

abbrev part : TopoPartition
part = record {
  partition_name = codes "demo-0";
  shard = 0;
  topology = topology (codes "10.0.0.1") (codes "a") ∷ topology (codes "10.0.0.2") (codes "b") ∷ [];
}

abbrev running : Kvrocks
running = record instance_demo { status = record instance_demo.status { topo = part ∷ part ∷ [] } }

abbrev member : Member
member = record { id = codes "b"; addr = codes "10.0.0.2:6379"; role = codes "master" }

one-ne-zero : ◌≢◌ {A = ℕ} 1 0
one-ne-zero e = cc

failed_over_lem_example :
    (k' : Kvrocks) × (part' : TopoPartition) × (failed_over
        (codes "10.0.0.1")
        (codes "b")
        (member ∷ [])
        0
        running
      ≡ some k')
    × (k'.status.version ≡ running.status.version + 1)
    × (get_elem? k'.status.topo 0 ≡ some part')
    × All (λ t. marked (codes "10.0.0.1") t ≡ true) part'.topology
    × (get_elem? k'.status.topo 1 ≡ get_elem? running.status.topo 1)
failed_over_lem_example =
    failed_over_lem (codes "10.0.0.1") (codes "b") member [] 0 1 running part refl one-ne-zero

Reachable-drained_example :
    (t : System) × LateSteps (λ _. refused) waiting t
    × (t.queue.message ≡ [])
    × (t.handling ≡ [])
    × (t.queue.keys ≡ [])
Reachable-drained_example =
    Reachable-drained (λ _. refused) waiting (then_ begin (send {q = empty_queue} {hs = []} down))

read_payload-payload_example :
    read_payload
      (codes "1")
      (codes "kvrocks" ++ b'/' ∷ codes "sentinel-1")
      1000
      (payload (codes "demo") 2 (codes "10.0.0.1") (codes "6379") (codes "@"))
    ≡ ok (
        heard (record {
          ip = codes "10.0.0.1";
          port = codes "6379";
          key = record {
            namespace = codes "kvrocks";
            name = get_cluster_name (codes "1") (codes "demo");
          };
          partition = 2;
          timeout = 1000 + 30;
        }))
read_payload-payload_example =
    read_payload-payload (codes "1") (codes "kvrocks") (codes "sentinel-1") (codes "demo")
      (codes "10.0.0.1") (codes "6379") (codes "@") 2 1000 (lacks-Lacks b'/' (codes "kvrocks") refl)
      (lacks-Lacks b'-' (codes "demo") refl) (lacks-Lacks b' ' (codes "demo") refl)
      (lacks-Lacks b' ' (codes "10.0.0.1") refl) (lacks-Lacks b' ' (codes "6379") refl)
      (omega arith)

abbrev unsubscribed : Subscriptions Unit
unsubscribed = record { registered = []; listening = []; world = tt }

producer-Once_example : Once (producer env unsubscribed).1
producer-Once_example = producer-Once env unsubscribed (refl, λ a. omega arith)

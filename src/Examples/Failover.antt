-- ===== src/Examples/Failover.antt =====
-- A cluster of two nodes, one of which does not answer.
use kvrocks_operator.Base.{Bytes, true, false, not, [], ◌∷◌, ◌≡◌, refl, codes, some, ◌==◌, bytes_eq}
use kvrocks_operator.Base.Exec.{ok}
use kvrocks_operator.Base.Exec.Ensures.{Post}
use kvrocks_operator.Kvrocks.{role_slaver}
use kvrocks_operator.Client.Controller.{new_client}
use kvrocks_operator.Client.Env.{Env}
use kvrocks_operator.Events.Queue.{empty_queue}
use kvrocks_operator.Cluster.State.{ClusterHandler}
use kvrocks_operator.Cluster.Failover.{ensure_failover}
use kvrocks_operator.Cluster.Failover.Reported.{waits, ensure_failover_reports}
use kvrocks_operator.Examples.{instance_demo, leader, node}
use kvrocks_operator.Examples

abbrev dead_ip : Bytes
dead_ip = codes "10.0.0.2"

abbrev env : Env Unit
env = record Examples.env {
  kv = record Examples.kv { ping = λ ip _ w. (ok (not (ip == dead_ip)), w) };
}

abbrev handler : ClusterHandler Unit
handler = record {
  instance_ = instance_demo;
  password = codes "39c5bb";
  requeue = false;
  sts_nodes =
      (some leader ∷ some (record (node role_slaver 1 [] [] []) { ip = dead_ip }) ∷ []) ∷ [];
  key = record { namespace = codes "kvrocks"; name = codes "demo" };
  version = 4;
  endpoint = new_client;
  messages = empty_queue;
  world = tt;
}

ensure_failover_reports_example :
    Post (λ (_ : Unit {0}) h'. waits dead_ip h'.messages ≡ true) (ensure_failover env handler)
ensure_failover_reports_example =
    ensure_failover_reports env handler dead_ip (λ _ w. (w, refl)) refl refl

-- ===== src/Examples/Monitors.antt =====
-- Sentinels that keep a table of the masters that they monitor.
use kvrocks_operator.Base.{
  Bytes, [], ◌∷◌, ◌≡◌, refl, any, codes, Option, none, some, ◌&&◌, ◌==◌, bytes_eq, false,
  if◌then◌else◌,
}
use kvrocks_operator.Base.Exec.{Result, ok, err, other}
use kvrocks_operator.Client.Objects.{Pod}
use kvrocks_operator.Client.K8s.{create_if_not_exists, list_deployment_pods}
use kvrocks_operator.Client.Kv.{Kv}
use kvrocks_operator.Client.Env.{Env}
use kvrocks_operator.Common.{get_sentinel, remove_monitor, label_value}
use kvrocks_operator.Common.Sentinels.{ensure_sentinel, get_or_create_sentinel, monitored_name}
use kvrocks_operator.Common.Sentinels.Watches.{Watches}
use kvrocks_operator.Common.Sentinels.Monitors.{remove_monitor_lem, ensure_sentinel_lem}
use kvrocks_operator.Sentinel.Handler.{SentinelHandler, ensure_monitor}
use kvrocks_operator.Sentinel.Handler.Monitored.{ensure_monitor_lem}
use kvrocks_operator.Examples.{cluster, kv, http, instance_demo}

-- The address of each master by the sentinel's address and the master's name.
abbrev Table : Type 0
Table = Bytes → Bytes → Option Bytes

abbrev written : Bytes → Bytes → Option Bytes → Table → Table
written ip master there w j n = if ip == j && master == n then there else w j n

abbrev asked : Option Bytes → Table → Result Bytes × Table
asked none w = (err (other []), w)
asked (some a) w = (ok a, w)

-- A change of an entry that is there, or one of an entry that is not.
abbrev if_known : Option Bytes → Table → Table → Result (Unit {0}) × Table
if_known none w' w = (err (other []), w)
if_known (some _) w' w = (ok tt, w')

abbrev if_new : Option Bytes → Table → Table → Result (Unit {0}) × Table
if_new none w' w = (ok tt, w')
if_new (some _) w' w = (err (other []), w)

abbrev watching : Kv Table
watching = record kv {
  get_master_from_sentinel = λ ip _ master w. asked (w ip master) w;
  remove_monitor = λ ip _ master w. if_known (w ip master) (written ip master none w) w;
  create_monitor = λ ip _ master a _ w. if_new (w ip master) (written ip master (some a) w) w;
  reset_monitor = λ ip _ master _ w. if_known (w ip master) w w;
}

abbrev env : Env Table
env = record {
  k8s = cluster;
  kv = watching;
  http = http;
  sleep = λ _ w. (ok tt, w);
  now = λ w. (ok 0, w);
}

watching-Watches : Watches watching (λ w. w)
watching-Watches = record {
  get-some = λ ip _ master a w e. rw (e, asked) refl;
  get-none = λ ip _ master w e. (other [], rw (e, asked) refl);
  remove-some = λ ip _ master a w e. (written ip master none w, rw (e, if_known) refl, λ j n. refl);
  remove-none = λ ip _ master w e. (other [], rw (e, if_known) refl);
  create-none =
      λ ip _ master a _ w e. (written ip master (some a) w, rw (e, if_new) refl, λ j n. refl);
  reset-some = λ ip _ master a _ w e. (w, rw (e, if_known) refl, λ j n. refl);
}

abbrev pod : Pod
pod = record {
  namespace = [];
  name = codes "demo-0";
  labels = (codes "app", codes "demo") ∷ [];
  ip = codes "10.0.0.1";
  deleting = false;
}

abbrev before : Table
before _ _ = some (codes "10.0.0.7")

remove_monitor_lem_example :
    (w' : Table) × (remove_monitor env instance_demo (codes "demo") before ≡ (ok (false, none), w'))
    × ((j n : Bytes)
        → w' j n ≡ (
            if any (λ (p : Pod). p.ip == j) (pod ∷ []) && codes "demo" == n
            then none
            else before j n))
unfolding get_sentinel label_value list_deployment_pods
remove_monitor_lem_example =
    remove_monitor_lem env (λ w. w) watching-Watches instance_demo (codes "demo") (codes "39c5bb")
      (pod ∷ []) before before refl

ensure_sentinel_lem_example :
    (w' : Table) × (ensure_sentinel env
        (codes "39c5bb")
        instance_demo
        (codes "10.0.0.2")
        (some 1)
        before
      ≡ (ok (false, none), w'))
    × ((j n : Bytes)
        → w' j n ≡ (
            if any (λ (p : Pod). p.ip == j) (pod ∷ []) && monitored_name instance_demo (some 1) == n
            then some (codes "10.0.0.2")
            else before j n))
unfolding get_or_create_sentinel create_if_not_exists list_deployment_pods
ensure_sentinel_lem_example =
    ensure_sentinel_lem env (λ w. w) watching-Watches (codes "39c5bb") instance_demo
      (codes "10.0.0.2") (some 1) (codes "39c5bb") (pod ∷ []) before before refl

-- A sentinel of one pod.
abbrev sentinel : SentinelHandler Table
sentinel = record {
  instance_ = instance_demo;
  key = record { namespace = codes "kvrocks"; name = codes "sentinel-1" };
  pods = codes "10.0.0.1" ∷ [];
  requeue = false;
  world = before;
}

ensure_monitor_lem_example :
    (w' : Table) × (ensure_monitor env (codes "10.0.0.2") (codes "demo") (codes "39c5bb") sentinel
      ≡ (ok tt, record sentinel { world = w' }))
    × ((j n : Bytes)
        → w' j n ≡ (
            if any (λ ip. ip == j) (codes "10.0.0.1" ∷ []) && codes "demo" == n
            then some (codes "10.0.0.2")
            else before j n))
ensure_monitor_lem_example =
    ensure_monitor_lem env (λ w. w) watching-Watches (codes "10.0.0.2") (codes "demo")
      (codes "39c5bb") sentinel

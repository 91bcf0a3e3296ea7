-- ===== src/Examples/Refused.antt =====
-- A cluster of two masters, which is refused, in a store in memory.
use kvrocks_operator.Base.{◌≡◌, refl, Option, none, some, if◌then◌else◌}
use kvrocks_operator.Base.Exec.{ok}
use kvrocks_operator.Api.{Key, Kvrocks}
use kvrocks_operator.Client.K8s.Lawful.{same_key}
use kvrocks_operator.Client.K8s.Lawful.Memory.{memory, memory-IsLawful}
use kvrocks_operator.Client.Env.{Env}
use kvrocks_operator.Events.Queue.{empty_queue}
use kvrocks_operator.Resources.Validation.{validate_kvrocks, error_replicas_unreasonable}
use kvrocks_operator.Reconciler.{Operator, done, reconcile}
use kvrocks_operator.Reconciler.Refused.{
  key_of, kept, same_version, refused_with, reconcile_refused,
}
use kvrocks_operator.Examples.{cluster, kv, http, instance_demo}

abbrev Kvrockses : Type 0
Kvrockses = Key → Option Kvrocks

abbrev env : Env Kvrockses
env = record {
  k8s = record cluster { kvrockses = memory key_of same_version };
  kv = kv;
  http = http;
  sleep = λ _ w. (ok tt, w);
  now = λ w. (ok 0, w);
}

abbrev small : Kvrocks
small = record instance_demo { spec = record instance_demo.spec { master = 2 } }

abbrev operator : Operator Kvrockses
operator = record {
  messages = empty_queue;
  world = λ k. if same_key (key_of small) k then some small else none;
}

small_refused : validate_kvrocks small ≡ some error_replicas_unreasonable
unfolding validate_kvrocks
small_refused = refl

reconcile_refused_example :
    (o' : Operator Kvrockses) × (k' : Kvrocks) × (reconcile env (key_of small) operator
      ≡ (ok done, o'))
    × (o'.world (key_of small) ≡ some k')
    × (k'.status ≡ (refused_with error_replicas_unreasonable small).status)
    × (reconcile env (key_of small) o' ≡ (ok done, o'))
reconcile_refused_example =
    reconcile_refused env (λ w k. w k) (memory-IsLawful key_of same_version kept) operator small
      error_replicas_unreasonable refl refl refl small_refused

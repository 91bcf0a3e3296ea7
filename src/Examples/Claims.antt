-- ===== src/Examples/Claims.antt =====
-- The claims of a cluster, one of a node and one of none, on a server in memory.
use kvrocks_operator.Base.{
  after_last, false, [], ◌∷◌, ◌≡◌, refl, codes, Option, none, some, split, if◌then◌else◌,
}
use kvrocks_operator.Base.Exec.{ok, pure}
use kvrocks_operator.Base.Decimal.{atoi}
use kvrocks_operator.Api.{Key}
use kvrocks_operator.Client.Objects.{Claim, Store}
use kvrocks_operator.Client.Controller.{new_client}
use kvrocks_operator.Client.Env.{Env}
use kvrocks_operator.Client.K8s.Lawful.{same_key}
use kvrocks_operator.Client.K8s.Lawful.Memory.{memory, memory-IsLawful}
use kvrocks_operator.Events.Queue.{empty_queue}
use kvrocks_operator.Resources.Names.{get_pvc_or_pod_index}
use kvrocks_operator.Standard.State.{StandardHandler}
use kvrocks_operator.Standard
use kvrocks_operator.Standard.Workload.Safe.{standard_claim_safe}
use kvrocks_operator.Cluster.State.{ClusterHandler}
use kvrocks_operator.Cluster.Shrink.{claim_place, clean_persistent_volume_claim}
use kvrocks_operator.Client.K8s.Claims.{claim_key, any_claim, Claims}
use kvrocks_operator.Cluster.Shrink.Safe.{InUse, clean_persistent_volume_claim_safe}
use kvrocks_operator.Base.Exec.Ensures.{Post}
use kvrocks_operator.Cluster.Shrink.Removed.{
  Unused, of_no_node, clean_persistent_volume_claim_removes,
}
use kvrocks_operator.Examples.{cluster, kv, http, instance_demo, leader}

abbrev World : Type 0
World = Key → Option Claim

abbrev used : Claim
used = record { namespace = codes "kvrocks"; name = codes "data-demo-0-0" }

abbrev unused : Claim
unused = record { namespace = codes "kvrocks"; name = codes "data-demo-0-5" }

abbrev listing : Store World Claim
listing = record (memory claim_key any_claim) { list = λ _ _ w. (ok (used ∷ unused ∷ []), w) }

abbrev env : Env World
env = record {
  k8s = record cluster { claims = listing };
  kv = kv;
  http = http;
  sleep = λ _ w. (ok tt, w);
  now = λ w. (ok 0, w);
}

listing-Claims : Claims env (λ w k. w k)
unfolding pure
listing-Claims = record {
  lawful =
      let laws = memory-IsLawful claim_key any_claim claim_key in
      record {
        get-some = laws.get-some;
        get-none = laws.get-none;
        create-some = laws.create-some;
        create-none = laws.create-none;
        update-some = laws.update-some;
        delete-none = laws.delete-none;
        delete-some = laws.delete-some;
      };
  read_set = λ _ w. refl;
  listed = λ _ _ w. refl;
}

abbrev handler : ClusterHandler World
handler = record {
  instance_ = instance_demo;
  password = [];
  requeue = false;
  sts_nodes = (some leader ∷ []) ∷ [];
  key = record { namespace = codes "kvrocks"; name = codes "demo" };
  version = 0;
  endpoint = new_client;
  messages = empty_queue;
  world = λ k. if same_key (claim_key used) k then some used else some unused;
}

used-InUse : InUse 3 ((some leader ∷ []) ∷ []) (claim_key used)
unfolding claim_place split atoi
used-InUse = record {
  shard = 0;
  pod = 0;
  nodes = leader ∷ [];
  place = refl;
  wanted = refl;
  there = refl;
  ascending = (tt, tt);
  held = refl;
}

clean_persistent_volume_claim_safe_example :
    (clean_persistent_volume_claim env handler).1.world (claim_key used)
    ≡ handler.world (claim_key used)
clean_persistent_volume_claim_safe_example =
    clean_persistent_volume_claim_safe env (λ w k. w k) listing-Claims handler (claim_key used)
      used-InUse

unused-Unused : Unused 3 ((some leader ∷ []) ∷ []) (claim_key unused)
unfolding claim_place split atoi
unused-Unused = of_no_node 0 5 (leader ∷ []) refl refl (tt, tt) refl

clean_persistent_volume_claim_removes_example :
    Post
      (λ (_ : Unit {0}) h'. h'.world (claim_key unused) ≡ none)
      (clean_persistent_volume_claim env handler)
clean_persistent_volume_claim_removes_example =
    clean_persistent_volume_claim_removes env (λ w k. w k) listing-Claims handler (used ∷ []) unused
      [] refl refl unused-Unused

-- The claim of a pod of a standard instance.
abbrev own : Claim
own = record { namespace = codes "kvrocks"; name = codes "data-demo-0" }

abbrev standard : StandardHandler World
standard = record {
  instance_ = instance_demo;
  password = [];
  sts_nodes = leader ∷ [];
  requeue = false;
  key = record { namespace = codes "kvrocks"; name = codes "demo" };
  world = λ k. if same_key (claim_key own) k then some own else some unused;
}

own-InUse : Standard.Workload.Safe.InUse (leader ∷ []) (claim_key own)
unfolding get_pvc_or_pod_index atoi after_last
own-InUse = record { pod = 0; place = refl; held = refl }

standard_claim_safe_example :
    (Standard.Workload.clean_persistent_volume_claim env standard).1.world (claim_key own)
    ≡ standard.world (claim_key own)
standard_claim_safe_example =
    standard_claim_safe env (λ w k. w k) listing-Claims standard (claim_key own) own-InUse

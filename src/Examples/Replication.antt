-- ===== src/Examples/Replication.antt =====
-- A standard instance with a replica that follows nobody yet.
use kvrocks_operator.Base.{
  Bytes, false, [], ◌∷◌, ◌≡◌, refl, map, any, not, codes, Option, some, none, ◌==◌, ◌&&◌, bytes_eq,
  if◌then◌else◌,
}
use kvrocks_operator.Base.Maps.{lookup}
use kvrocks_operator.Base.Exec.{ok, pure}
use kvrocks_operator.Api.{Key, Kvrocks, status_creating, kvrocks_finalizer, standard_type}
use kvrocks_operator.Kvrocks.{Node, role_master, role_slaver}
use kvrocks_operator.Client.Objects.{Pod}
use kvrocks_operator.Client.Kv.{Kv}
use kvrocks_operator.Client.Env.{Env}
use kvrocks_operator.Client.K8s.Lawful.Memory.{memory, memory-IsLawful}
use kvrocks_operator.Client.K8s.Lawful.Beside.{beside, beside-IsLawful, update-beside}
use kvrocks_operator.Common.PodRole.Written.{pod_key, pod_sent, any_version, role_label, Labelled}
use kvrocks_operator.Resources.Labels.{monitored_by}
use kvrocks_operator.Standard.State.{StandardHandler}
use kvrocks_operator.Standard.Replication.{find_master, ensure_kvrocks_replication}
use kvrocks_operator.Standard.Replication.Led.{Replicates, node_key, one_master, one_role}
use kvrocks_operator.Standard.Replication.Created.{
  Accepts, running, enslaved, slaves_after, ensure_kvrocks_replication_new,
}
use kvrocks_operator.Standard.Replication.Followed.{
  assigned, roles_after, ensure_kvrocks_replication-Led,
}
use kvrocks_operator.Examples.{cluster, kv, http, instance_demo, node}

-- Whom each address follows, and the pods.
abbrev World : Type 0
World = (Bytes → Bytes) × (Key → Option Pod)

abbrev masters : World → Bytes → Bytes
masters w = w.0

abbrev pods : World → Key → Option Pod
pods w = w.1

abbrev following : Kv World
following = record kv {
  get_master = λ ip _ w. (ok (w.0 ip), w);
  change_myself_to_master = λ ip _ w. (ok tt, (λ j. if ip == j then [] else w.0 j, w.1));
  slave_of = λ ip m _ w. (ok tt, (λ j. if ip == j then m else w.0 j, w.1));
}

abbrev env : Env World
env = record {
  k8s = record cluster { pods = beside (memory pod_key any_version) };
  kv = following;
  http = http;
  sleep = λ _ w. (ok tt, w);
  now = λ w. (ok 0, w);
}

following-Replicates : Replicates env masters pods
following-Replicates = record {
  read = λ ip _ w. refl;
  follow = λ ip m _ w. ((λ j. if ip == j then m else w.0 j, w.1), refl, λ j. refl, refl);
  promote = λ ip _ w. ((λ j. if ip == j then [] else w.0 j, w.1), refl, λ j. refl, refl);
  lawful =
      beside-IsLawful (memory pod_key any_version) pod_key pod_sent any_version (λ w k. w k)
        (memory-IsLawful pod_key any_version pod_sent);
  apart = update-beside (memory pod_key any_version) pod_key pod_sent any_version (λ w k. w k);
}

abbrev standard : Kvrocks
standard = record instance_demo {
  finalizers = kvrocks_finalizer ∷ [];
  spec = record instance_demo.spec { type = standard_type };
}

abbrev pod_at : Key → Pod
pod_at k = record {
  namespace = k.namespace;
  name = k.name;
  labels = (codes "app", codes "demo") ∷ [];
  ip = codes "10.0.0.1";
  deleting = false;
}

abbrev handler : StandardHandler World
handler = record {
  instance_ = standard;
  password = codes "39c5bb";
  sts_nodes =
      node role_master 0 [] [] []
      ∷ record (node role_slaver 1 [] [] []) { ip = codes "10.0.0.2" }
      ∷ [];
  requeue = false;
  key = record { namespace = standard.namespace; name = standard.name };
  world = (λ _. [], λ k. some (pod_at k));
}

labelled : (k : Key) → Labelled (some (pod_at k)) k
labelled k = record {
  pod = pod_at k;
  first = (codes "app", codes "demo");
  rest = [];
  there = refl;
  named = refl;
  labels = refl;
}

found : find_master handler.sts_nodes [] ≡ ok (codes "10.0.0.1")
unfolding find_master
found = refl

unmonitored : lookup monitored_by standard.labels ≡ none
unfolding lookup
unmonitored = refl

ensure_kvrocks_replication-Led_example :
    (w' : World) × (ensure_kvrocks_replication env handler ≡ (
      ok tt,
      record handler {
        world = w';
        sts_nodes = map (assigned (codes "10.0.0.1")) handler.sts_nodes;
      },
    ))
    × ((j : Bytes)
        → masters w' j ≡ (
            if any (λ (n : Node). n.ip == j) handler.sts_nodes && not (j == codes "10.0.0.1")
            then codes "10.0.0.1"
            else masters handler.world j))
    × ((key : Key)
        → role_label (pods w' key)
          ≡ roles_after standard
              (codes "10.0.0.1")
              handler.sts_nodes
              key
              (role_label (pods handler.world key)))
ensure_kvrocks_replication-Led_example =
    ensure_kvrocks_replication-Led env masters pods following-Replicates handler (codes "10.0.0.1")
      refl found refl refl unmonitored
      (
        labelled (node_key standard (node role_master 0 [] [] [])),
        (
          labelled
              (node_key standard (record (node role_slaver 1 [] [] []) { ip = codes "10.0.0.2" })),
          tt,
        ),
      )

-- The same instance at its first pass.
abbrev fresh : Kvrocks
fresh = record standard { status = record standard.status { status = status_creating } }

abbrev starting : StandardHandler World
starting = record handler { instance_ = fresh }

saved : Accepts env masters pods (running fresh)
unfolding pure
saved = record { saves = λ w. (running fresh, w, refl, refl, refl, refl) }

abbrev replica : Node
replica = record (node role_slaver 1 [] [] []) { ip = codes "10.0.0.2" }

ensure_kvrocks_replication_new_example :
    (k' : Kvrocks) × (w' : World) × (ensure_kvrocks_replication env starting ≡ (
      ok tt,
      record starting {
        instance_ = k';
        sts_nodes =
            record (node role_master 0 [] [] []) { role = role_master }
            ∷ map enslaved (replica ∷ []);
        world = w';
      },
    ))
    × (k'.status ≡ (running fresh).status)
    × ((j : Bytes)
        → masters w' j ≡ (
            if any (λ (n : Node). n.ip == j) (replica ∷ [])
            then codes "10.0.0.1"
            else one_master (codes "10.0.0.1") [] j (masters starting.world j)))
    × ((key : Key)
        → role_label (pods w' key)
          ≡ slaves_after fresh (replica ∷ []) key (
              one_role
                (node_key fresh (node role_master 0 [] [] []))
                role_master
                key
                (role_label (pods starting.world key))))
ensure_kvrocks_replication_new_example =
    ensure_kvrocks_replication_new env masters pods following-Replicates starting
      (node role_master 0 [] [] []) (replica ∷ []) refl refl saved
      (
        labelled (node_key fresh (node role_master 0 [] [] [])),
        (labelled (node_key fresh replica), tt),
      )

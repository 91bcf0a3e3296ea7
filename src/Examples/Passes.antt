-- ===== src/Examples/Passes.antt =====
-- The theorems on whole passes of the handlers, over the server of the examples.
use kvrocks_operator.Base.{[], ◌∷◌, ◌≡◌, refl, All, codes, some}
use kvrocks_operator.Base.Exec.{ok}
use kvrocks_operator.Base.Exec.Ensures.{Post}
use kvrocks_operator.Api.{Key}
use kvrocks_operator.Events.Queue.{empty_queue}
use kvrocks_operator.Cluster.State.{ClusterHandler, new_cluster_handler}
use kvrocks_operator.Cluster.Roles.{ensure_replication}
use kvrocks_operator.Cluster.Roles.Replicated.{IsReplicated, ensure_replication-IsReplicated}
use kvrocks_operator.Common.{label_value}
use kvrocks_operator.Base.Maps.{lookup}
use kvrocks_operator.Base.{arith}
use kvrocks_operator.Cluster.Roles.{init_cluster}
use kvrocks_operator.Cluster.Roles.Initial.{IsInitial, init_cluster-IsInitial}
use kvrocks_operator.Cluster.Migration.{Position, ensure_re_balance_topo}
use kvrocks_operator.Cluster.Migration.Done.{messages_at, ensure_re_balance_topo_done}
use kvrocks_operator.Client.K8s.{get_kvrocks}
use kvrocks_operator.Reconciler.{Operator, reconcile}
use kvrocks_operator.Reconciler.Outcomes.{Answered, reconcile_quiet}
use kvrocks_operator.Examples.{env, instance_demo, leader, follower}

abbrev key : Key
key = record { namespace = codes "kvrocks"; name = codes "kvrocks-cluster-1-demo" }

abbrev handler : ClusterHandler Unit
unfolding new_cluster_handler
handler = record (new_cluster_handler key instance_demo empty_queue tt) {
  sts_nodes = (some leader ∷ some follower ∷ []) ∷ [];
}

-- The pass over one shard goes through.
replication_goes_through : (ensure_replication env handler).0 ≡ ok tt
unfolding ensure_replication handler label_value lookup
replication_goes_through = refl

ensure_replication-IsReplicated_example :
    Post (λ _ h'. All IsReplicated h'.sts_nodes) (ensure_replication env handler)
ensure_replication-IsReplicated_example = ensure_replication-IsReplicated env handler

init_cluster-IsInitial_example :
    Post (λ _ h'. All IsInitial h'.sts_nodes) (init_cluster env handler)
init_cluster-IsInitial_example = init_cluster-IsInitial env handler

-- The leader is to give slot 2 to shard 1.
abbrev moving : ClusterHandler Unit
moving = record handler {
  sts_nodes =
      (some (record leader { migrate = record { shard = 1; slots = 2 ∷ [] } ∷ [] }) ∷ []) ∷ [];
}

abbrev head : Position
head = record { shard = 0; place = 0 }

ensure_re_balance_topo_done_example :
    Post
      (λ (_ : Unit {0}) h'. messages_at 0 0 h'.sts_nodes ≡ 0)
      (ensure_re_balance_topo env 0 head 1 moving)
ensure_re_balance_topo_done_example = ensure_re_balance_topo_done env 0 head 1 moving (omega arith)

abbrev operator : Operator Unit
operator = record { messages = empty_queue; world = tt }

reconcile_quiet_example :
    Post
      (λ out _. Answered (get_kvrocks env.k8s key operator.world).0 out)
      (reconcile env key operator)
reconcile_quiet_example = reconcile_quiet env key operator

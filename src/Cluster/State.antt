-- ===== src/Cluster/State.antt =====
-- `KVRocksClusterHandler` of pkg/controllers/cluster/handler.go: one pass over one instance.
pub mod Kept
pub mod Messages
use kvrocks_operator.Base.{ℕ, suc, Bytes, Bool, false, List, [], ◌∷◌, Option, none, some}
use kvrocks_operator.Base.Exec.{Result, Exec, ok, pure, crash, ◌>>=◌, ◌>>◌}
use kvrocks_operator.Api.{Key, Kvrocks}
use kvrocks_operator.Kvrocks.{Node}
use kvrocks_operator.Client.Controller.{Endpoint, new_client}
use kvrocks_operator.Client.K8s.{update_kvrocks}
use kvrocks_operator.Client.Env.{Env}
use kvrocks_operator.Events.Queue.{MessageQueue}

-- A shard's nodes; none is a nil pointer, and the empty list a nil slice.
abbrev pub Shard : Type 0
Shard = List (Option Node)

-- `endpoint` is the state of the controller client and `messages` the queue of failover messages.
-- `masters` of the source is written and never read.
pub record ClusterHandler (W : Type 0) : Type 0 where
  pub instance_ : Kvrocks
  pub password : Bytes
  pub requeue : Bool
  pub sts_nodes : List Shard
  pub key : Key
  pub version : ℕ
  pub endpoint : Endpoint
  pub messages : MessageQueue
  pub world : W

-- `NewKVRocksClusterHandler`
unfoldable pub new_cluster_handler :
    {W : Type 0} → Key → Kvrocks → MessageQueue → W → ClusterHandler W
new_cluster_handler key k messages world = record {
  instance_ = k;
  password = [];
  requeue = false;
  sts_nodes = [];
  key = key;
  version = 0;
  endpoint = new_client;
  messages = messages;
  world = world;
}

abbrev pub Run : Type 0 → Type 0 → Type 0
Run W A = Exec (ClusterHandler W) A

module _ {W : Type 0} where
  unfoldable pub returned :
      {A : Type 0} → ClusterHandler W → Result A × W → Result A × ClusterHandler W
  returned h (r, w) = (r, record h { world = w })

  -- A call of one of the handler's clients.
  unfoldable pub call : {A : Type 0} → Exec W A → Run W A
  unfolding returned
  call m h = returned h (m h.world)

  unfoldable pub lift_result : {A : Type 0} → Result A → Run W A
  lift_result r h = (r, h)

  unfoldable pub set_requeue : Bool → Run W Unit
  set_requeue b h = (ok tt, record h { requeue = b })

  unfoldable pub set_password : Bytes → Run W Unit
  set_password p h = (ok tt, record h { password = p })

  unfoldable pub set_nodes : List Shard → Run W Unit
  set_nodes nodes h = (ok tt, record h { sts_nodes = nodes })

  unfoldable pub set_instance : Kvrocks → Run W Unit
  set_instance k h = (ok tt, record h { instance_ = k })

  unfoldable pub set_version : ℕ → Run W Unit
  set_version v h = (ok tt, record h { version = v })

  unfoldable pub set_endpoint : Endpoint → Run W Unit
  set_endpoint e h = (ok tt, record h { endpoint = e })

  unfoldable pub set_messages : MessageQueue → Run W Unit
  set_messages q h = (ok tt, record h { messages = q })

  -- `h.k8s.UpdateKVRocks(h.instance)`, which decodes the answer into the instance.
  unfoldable pub save_instance : Env W → Kvrocks → Run W Unit
  unfolding ◌>>=◌ call set_instance
  save_instance env k = do
    set_instance k
    saved ← call (update_kvrocks env.k8s k)
    set_instance saved

module _ {W C : Type 0} where
  -- A loop over a shard that may change its nodes, with a local variable of the loop.
  unfoldable pub each_node : (ℕ → C → Node → Run W (Node × C)) → ℕ → C → Shard → Run W (Shard × C)
  unfolding ◌>>=◌
  each_node f j c [] = pure ([], c)
  each_node f j c (none ∷ nodes) = crash
  each_node f j c (some node ∷ nodes) = do
    (node', c') ← f j c node
    (nodes', c'') ← each_node f (suc j) c' nodes
    pure (some node' ∷ nodes', c'')

  -- `for i, sts := range h.stsNodes { for j, node := range sts { … } }`
  unfoldable pub each_shard :
      (ℕ → ℕ → C → Node → Run W (Node × C)) → ℕ → C → List Shard → Run W (List Shard × C)
  unfolding ◌>>=◌ each_node
  each_shard f i c [] = pure ([], c)
  each_shard f i c (shard ∷ shards) = do
    (shard', c') ← each_node (f i) 0 c shard
    (shards', c'') ← each_shard f (suc i) c' shards
    pure (shard' ∷ shards', c'')

-- ===== src/Examples.antt =====
-- Concrete instances, nodes and servers.
pub mod Topology
pub mod Scaling
pub mod Events
pub mod Passes
pub mod Names
pub mod Clients
pub mod Settings
pub mod Monitors
pub mod Counts
pub mod Images
pub mod Refused
pub mod Runs
pub mod Failover
pub mod Claims
pub mod Replication
use kvrocks_operator.Base.{
  ℕ, suc, ◌+◌, ◌-◌, ◌≤◌, ◌<◌, Bytes, Bool, true, false, List, [], ◌∷◌, ◌++◌, ◌≡◌, ◌≢◌, ◌↔◌, ◌||◌,
  refl, arith, codes, Lacks, map, not, Option, none, some, All, keep, leb, length, get_elem?,
  if◌then◌else◌,
}
use kvrocks_operator.Base.Decimal.{max_int}
use kvrocks_operator.Base.Maps.{lookup}
use kvrocks_operator.Base.Exec.{Exec, Result, ok, pure}
use kvrocks_operator.Base.Exec.Ensures.{Post}
use kvrocks_operator.Api.{Kvrocks, Spec, Status, Key, cluster_type, status_running}
use kvrocks_operator.Kvrocks.{Node, empty_node, role_master, role_slaver}
use kvrocks_operator.Kvrocks.Slots.{sort, slots_to_string, slots_to_int}
use kvrocks_operator.Kvrocks.Slots.RoundTrip.{slots_to_int-slots_to_string}
use kvrocks_operator.Client.Pods.{PodTemplate}
use kvrocks_operator.Client.Objects.{
  Store, Cluster, ConfigMap, Service, StatefulSet, NativeStatefulSet, Deployment, Pod, Claim,
}
use kvrocks_operator.Client.Controller.{Http, Member, Response, new_client}
use kvrocks_operator.Client.Kv.{Kv}
use kvrocks_operator.Client.Redis.{Redis, text, kvrocks_client}
use kvrocks_operator.Client.Env.{Env}

-- A server that holds one object of each kind and accepts every write.
abbrev pub store : {W O : Type 0} → O → Store W O
store o = record {
  get = λ _. pure o;
  create = pure;
  update = pure;
  delete = λ _. pure tt;
  list = λ _ _. pure (o ∷ []);
}

abbrev spec : Spec
spec = record {
  image = codes "kvrocks";
  image_pull_policy = [];
  type = cluster_type;
  kvrocks_config = [];
  replicas = 2;
  master = 3;
  password = codes "39c5bb";
  resources = some (codes "1Gi");
  node_selector = [];
  toleration = [];
  affinity = none;
  storage = none;
}

abbrev status : Status
status = record {
  status = status_running;
  reason = [];
  version = 4;
  rebalance = false;
  topo = [];
  shrink = none;
}

abbrev pub instance_demo : Kvrocks
instance_demo = record {
  name = codes "kvrocks-cluster-1-demo";
  namespace = codes "kvrocks";
  kind = codes "KVRocks";
  labels = [];
  annotations = [];
  finalizers = [];
  deleting = false;
  resource_version = codes "1";
  spec = spec;
  status = status;
}

abbrev template : PodTemplate
template = record {
  labels = [];
  affinity = none;
  node_selector = [];
  toleration = [];
  grace_period = none;
  readiness_gates = [];
  volumes = [];
  containers = [];
}

abbrev pub cluster : {W : Type 0} → Cluster W
cluster = record {
  config_maps = store (record { namespace = []; name = []; resource_version = []; contents = [] });
  services = store (record {
    namespace = [];
    name = [];
    labels = [];
    owners = [];
    ports = [];
    selector = [];
    cluster_ip = codes "10.0.0.9";
  });
  stateful_sets = store (record {
    namespace = [];
    name = [];
    resource_version = [];
    labels = [];
    owners = [];
    pod_management = [];
    update_strategy = record {
      type = [];
      pod_update_policy = [];
      paused = false;
      grace_period = 0;
    };
    match_labels = [];
    replicas = 2;
    reserve_ordinals = [];
    ready_replicas = 2;
    template = template;
    claim_templates = [];
  });
  native_stateful_sets = store (record {
    namespace = [];
    name = [];
    owners = [];
    match_labels = [];
    service_name = [];
    replicas = 1;
    ready_replicas = 1;
    template = template;
  });
  deployments = store (record {
    namespace = [];
    name = [];
    labels = [];
    owners = [];
    match_labels = [];
    replicas = 1;
    ready_replicas = 1;
    template = template;
  });
  pods = store (record {
    namespace = [];
    name = codes "demo-0";
    labels = (codes "app", codes "demo") ∷ [];
    ip = codes "10.0.0.1";
    deleting = false;
  });
  claims = store (record { namespace = []; name = codes "data-demo-0-0" });
  kvrockses = store instance_demo;
}

-- Nodes and sentinels that accept every command.
abbrev redis : {W : Type 0} → Redis W
redis = record {
  role = λ _. pure (text role_master ∷ []);
  config_get = λ _ key. pure (text key ∷ text [] ∷ []);
  config_set = λ _ _ _. pure tt;
  config_pipeline = λ _ _. pure tt;
  replica_of = λ _ _ _. pure tt;
  info = λ _ _. pure (codes "role:master");
  ping = λ _. pure tt;
  cluster_nodes = λ _. pure [];
  master = λ _ _. pure ((codes "ip", codes "10.0.0.1") ∷ []);
  remove = λ _ _. pure tt;
  monitor = λ _ _ _ _ _. pure tt;
  set_option = λ _ _ _ _. pure tt;
  reset = λ _ _. pure tt;
}

abbrev pub http : {W : Type 0} → Http W
http = record {
  send = λ _ _ _. pure (record { status_code = 200; body = [] });
  decode_message = λ b. ok b;
  decode_shard = λ _. ok none;
  decode_shards = λ _. ok none;
}

abbrev pub kv : {W : Type 0} → Kv W
kv = kvrocks_client redis

abbrev pub env : Env Unit
env = record { k8s = cluster; kv = kv; http = http; sleep = λ _. pure tt; now = pure 1000 }

-- A node of the demo.
abbrev pub node : Bytes → ℕ → Bytes → Bytes → List ℕ → Node
node role index id master slots = record empty_node {
  ip = codes "10.0.0.1";
  role = role;
  pod_index = index;
  node_id = id;
  master = master;
  slots = slots;
}

abbrev pub leader : Node
leader = node role_master 0 (codes "a") [] (2 ∷ 1 ∷ 0 ∷ [])

abbrev pub follower : Node
follower = node role_slaver 1 (codes "b") (codes "a") []

abbrev pub follower_2 : Node
follower_2 = node role_slaver 2 (codes "c") (codes "a") []

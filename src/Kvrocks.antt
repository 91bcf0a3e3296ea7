-- ===== src/Kvrocks.antt =====
-- pkg/client/kvrocks/kvrocks_client.go: a node as the handlers see it, and its constants.
pub mod Slots
pub mod NodeInfo
use kvrocks_operator.Base.{ℕ, Bool, false, Bytes, List, [], ◌∷◌, codes, leb, if◌then◌else◌}

pub record MigrateMsg : Type 0 where
  pub shard : ℕ
  pub slots : List ℕ

-- `Expected` is a field that nothing reads or writes. A nil slice is the empty list.
pub record Node : Type 0 where
  pub ip : Bytes
  pub role : Bytes
  pub pod_index : ℕ
  pub slots : List ℕ
  pub node_id : Bytes
  pub master : Bytes
  pub failover : Bool
  pub migrate : List MigrateMsg

abbrev pub role_master : Bytes
role_master = codes "master"

abbrev pub role_slaver : Bytes
role_slaver = codes "slave"

abbrev pub kvrocks_port : ℕ
kvrocks_port = 6379

abbrev pub quorum : ℕ
quorum = 2

abbrev pub etcd_stateful_name : Bytes
etcd_stateful_name = codes "etcd0"

abbrev pub etcd_service_name : Bytes
etcd_service_name = codes "etcd0-service"

abbrev pub sentinel_port : ℕ
sentinel_port = 26379

abbrev pub etcd_client_port : ℕ
etcd_client_port = 2379

abbrev pub etcd_server_port : ℕ
etcd_server_port = 2380

abbrev pub controller_port : ℕ
controller_port = 9379

abbrev pub controller_service_name : Bytes
controller_service_name = codes "controller-service"

abbrev pub controller_deployment_name : Bytes
controller_deployment_name = codes "kvrocks-controller"

-- &kvrocks.Node{}
abbrev pub empty_node : Node
empty_node = record {
  ip = [];
  role = [];
  pod_index = 0;
  slots = [];
  node_id = [];
  master = [];
  failover = false;
  migrate = [];
}

insert_node : Node → List Node → List Node
insert_node a [] = a ∷ []
insert_node a (b ∷ nodes) =
    if leb a.pod_index b.pod_index then a ∷ b ∷ nodes else b ∷ insert_node a nodes

-- `sort.Slice(nodes, …)` by pod index.
unfoldable pub sort_nodes : List Node → List Node
unfolding insert_node
sort_nodes [] = []
sort_nodes (a ∷ nodes) = insert_node a (sort_nodes nodes)

-- ===== src/Resources/Services.antt =====
-- pkg/resources/service.go: the services in front of the pods.
use kvrocks_operator.Base.{ℕ, Bytes, List, [], ◌∷◌, some, codes}
use kvrocks_operator.Api.{Labels, Kvrocks}
use kvrocks_operator.Kvrocks.{
  kvrocks_port, sentinel_port, role_master, etcd_service_name, etcd_client_port, etcd_server_port,
  controller_service_name, controller_port,
}
use kvrocks_operator.Client.Pods.{Owner, Port}
use kvrocks_operator.Client.Objects.{Service}
use kvrocks_operator.Resources.Labels.{merge_labels, kvrocks_role}
use kvrocks_operator.Resources.Containers.{port_named}

-- metav1.NewControllerRef
abbrev pub owned_by : Kvrocks → List Owner
owned_by k = record { kind = k.kind; name = k.name } ∷ []

abbrev pub etcd_labels : Labels
etcd_labels = (codes "app", codes "etcd") ∷ []

abbrev pub controller_labels : Labels
controller_labels = (codes "app", codes "kvrocks-controller") ∷ []

-- A port of a service with its target written out.
abbrev port_to : Bytes → Bytes → ℕ → Port
port_to name protocol port = record {
  name = name;
  protocol = protocol;
  port = port;
  target = some port;
}

-- `NewSentinelService`
unfoldable pub new_sentinel_service : Kvrocks → Service
new_sentinel_service k = record {
  namespace = k.namespace;
  name = k.name;
  labels = k.labels;
  owners = owned_by k;
  ports = port_named (codes "sentinel") sentinel_port ∷ [];
  selector = k.labels;
  cluster_ip = [];
}

-- `NewKVRocksService`
unfoldable pub new_kvrocks_service : Kvrocks → Service
new_kvrocks_service k = record {
  namespace = k.namespace;
  name = k.name;
  labels = k.labels;
  owners = owned_by k;
  ports = port_named (codes "kvrocks") kvrocks_port ∷ [];
  selector = merge_labels (k.labels ∷ ((kvrocks_role, role_master) ∷ []) ∷ []) [];
  cluster_ip = [];
}

-- `NewEtcdService`
unfoldable pub new_etcd_service : Kvrocks → Service
new_etcd_service k = record {
  namespace = k.namespace;
  name = etcd_service_name;
  labels = etcd_labels;
  owners = owned_by k;
  ports =
      port_to (codes "client") [] etcd_client_port
      ∷ port_to (codes "server") [] etcd_server_port
      ∷ [];
  selector = etcd_labels;
  cluster_ip = [];
}

-- `NewKVRocksControllerService`
unfoldable pub new_controller_service : Kvrocks → Service
new_controller_service k = record {
  namespace = k.namespace;
  name = controller_service_name;
  labels = controller_labels;
  owners = owned_by k;
  ports = port_to [] (codes "TCP") controller_port ∷ [];
  selector = controller_labels;
  cluster_ip = [];
}

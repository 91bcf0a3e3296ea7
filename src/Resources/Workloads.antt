-- ===== src/Resources/Workloads.antt =====
-- statefulset.go and deployment.go of pkg/resources: the sets and deployments that the handlers
-- create. Fields that the API server fills in are empty. A set is none where its container is: the
-- code panics.
pub mod Routing
use kvrocks_operator.Base.{ℕ, Bytes, false, List, [], ◌∷◌, ◌++◌, Option, none, some, codes}
use kvrocks_operator.Base.Decimal.{print}
use kvrocks_operator.Api.{Labels, Kvrocks, Preference, weighted, AntiAffinity, Affinity, Storage}
use kvrocks_operator.Kvrocks.{
  etcd_stateful_name, etcd_service_name, etcd_client_port, etcd_server_port,
  controller_deployment_name, controller_port,
}
use kvrocks_operator.Client.Pods.{
  Port, Mount, Container, Volume, config_map_volume, empty_dir, PodTemplate, ClaimTemplate,
}
use kvrocks_operator.Client.Objects.{StatefulSet, NativeStatefulSet, Deployment}
use kvrocks_operator.Resources.Names.{indexed, get_stateful_set_name}
use kvrocks_operator.Resources.Labels.{merge_labels, stateful_set_labels, deployment_labels}
use kvrocks_operator.Resources.Containers.{
  new_sentinel_container, new_instance_container, new_exporter_container,
}
use kvrocks_operator.Resources.Services.{owned_by, etcd_labels, controller_labels}
use kvrocks_operator.Resources.Templates.{
  get_affinity, get_persistent_claim, template_of, plain_template, plain_container, port_at,
}

-- `NewStatefulSet`, with no container yet.
unfoldable pub new_stateful_set : Kvrocks → Bytes → StatefulSet
unfolding template_of
new_stateful_set k name =
    let labels = merge_labels (k.labels ∷ stateful_set_labels name ∷ []) [] in
    record {
      namespace = k.namespace;
      name = name;
      resource_version = [];
      labels = labels;
      owners = owned_by k;
      pod_management = codes "Parallel";
      update_strategy = record {
        type = codes "RollingUpdate";
        pod_update_policy = codes "InPlaceIfPossible";
        paused = false;
        grace_period = 10;
      };
      match_labels = labels;
      replicas = k.spec.replicas;
      reserve_ordinals = [];
      ready_replicas = 0;
      template = record (template_of k labels) {
        readiness_gates = codes "InPlaceUpdateReady" ∷ [];
      };
      claim_templates = get_persistent_claim k labels ∷ [];
    }

with_containers : StatefulSet → List Container → StatefulSet
with_containers sts containers = record sts {
  template = record sts.template { containers = sts.template.containers ++ containers };
}

-- The instance's container and the exporter's in the pods of a set.
with_instance : Kvrocks → StatefulSet → Option StatefulSet
unfolding with_containers
with_instance k sts = elim (new_instance_container k) [
  | none ↦ none
  | some container ↦ some (with_containers sts (container ∷ new_exporter_container k ∷ []))
]

-- `NewReplicationStatefulSet`
unfoldable pub new_replication_stateful_set : Kvrocks → Option StatefulSet
unfolding with_instance
new_replication_stateful_set k = with_instance k (new_stateful_set k k.name)

-- `NewSentinelStatefulSet`
unfoldable pub new_sentinel_stateful_set : Kvrocks → Option StatefulSet
unfolding with_containers
new_sentinel_stateful_set k = elim (new_sentinel_container k) [
  | none ↦ none
  | some container ↦ some (with_containers (new_stateful_set k k.name) (container ∷ []))
]

-- `NewClusterStatefulSet`
unfoldable pub new_cluster_stateful_set : Kvrocks → ℕ → Option StatefulSet
unfolding with_instance
new_cluster_stateful_set k index =
    with_instance k (new_stateful_set k (get_stateful_set_name k.name index))

-- The arguments of etcd.
etcd_args : List Bytes
etcd_args =
    codes "/usr/local/bin/etcd"
    ∷ codes "--name=etcd0"
    ∷ (codes "--listen-peer-urls=http://0.0.0.0:" ++ print etcd_server_port)
    ∷ (codes "--listen-client-urls=http://0.0.0.0:" ++ print etcd_client_port)
    ∷ (codes "--advertise-client-urls=http://"
        ++ etcd_service_name
        ++ b':' ∷ print etcd_client_port)
    ∷ (codes "--initial-advertise-peer-urls=http://"
        ++ etcd_service_name
        ++ b':' ∷ print etcd_server_port)
    ∷ (codes "--initial-cluster=etcd0=http://"
        ++ etcd_service_name
        ++ b':' ∷ print etcd_server_port)
    ∷ codes "--initial-cluster-state=new"
    ∷ []

-- `NewEtcdStatefulSet`
unfoldable pub new_etcd_stateful_set : Kvrocks → NativeStatefulSet
unfolding etcd_args
new_etcd_stateful_set k = record {
  namespace = k.namespace;
  name = etcd_stateful_name;
  owners = owned_by k;
  match_labels = etcd_labels;
  service_name = etcd_service_name;
  replicas = 1;
  ready_replicas = 0;
  template = plain_template etcd_labels [] (
      plain_container (codes "etcd") (codes "quay.io/coreos/etcd:latest") etcd_args
        (port_at etcd_server_port ∷ port_at etcd_client_port ∷ []) []
      ∷ []);
}

-- `getSentinelDataVolume`
abbrev get_sentinel_data_volume : Kvrocks → Volume
get_sentinel_data_volume k = empty_dir (codes "data")

-- `GetDeploymentName`
abbrev get_deployment_name : Bytes → List ℕ → Bytes
get_deployment_name name [] = name
get_deployment_name name (index ∷ _) = indexed name index

-- `NewSentinelDeployment`
unfoldable pub new_sentinel_deployment : Kvrocks → Option Deployment
unfolding template_of
new_sentinel_deployment k =
    let name = get_deployment_name k.name [] in
    let labels = merge_labels (k.labels ∷ deployment_labels name ∷ []) [] in
    elim (new_sentinel_container k) [
      | none ↦ none
      | some container ↦ some (record {
        namespace = k.namespace;
        name = name;
        labels = labels;
        owners = owned_by k;
        match_labels = labels;
        replicas = k.spec.replicas;
        ready_replicas = 0;
        template = record (template_of k labels) {
          volumes = config_map_volume (codes "conf") k.name ∷ get_sentinel_data_volume k ∷ [];
          containers = container ∷ [];
        };
      })
    ]

-- `NewKVRocksControllerDeployment`
unfoldable pub new_controller_deployment : Kvrocks → Deployment
new_controller_deployment k = record {
  namespace = k.namespace;
  name = controller_deployment_name;
  labels = [];
  owners = owned_by k;
  match_labels = controller_labels;
  replicas = 1;
  ready_replicas = 0;
  template =
      plain_template controller_labels
        (config_map_volume (codes "config-volume") (codes "controller-config") ∷ [])
        (plain_container (codes "controller") (codes "jinxu95/kvrocks-controller:latest") []
            (port_at controller_port ∷ [])
            (record {
              name = codes "config-volume";
              path = codes "/var/lib/kvctl/config.yaml";
              sub_path = codes "config.yaml";
            }
              ∷ [])
          ∷ []);
}

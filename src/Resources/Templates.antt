-- ===== src/Resources/Templates.antt =====
-- `getAffinity` and `getPersistentClaim` of pkg/resources/statefulset.go, and the pods of sets and
-- deployments.
use kvrocks_operator.Base.{ℕ, Bytes, List, [], ◌∷◌, ◌++◌, Option, none, some, codes}
use kvrocks_operator.Api.{Labels, Kvrocks, Preference, weighted, AntiAffinity, Affinity, Storage}
use kvrocks_operator.Client.Pods.{
  Port, Mount, Container, Volume, config_map_volume, PodTemplate, ClaimTemplate,
}
use kvrocks_operator.Resources.Services.{owned_by}

-- The pod anti-affinity of the resource, or an empty one.
abbrev anti_affinity_of : Option AntiAffinity → AntiAffinity
anti_affinity_of none = record { required = []; preferred = [] }
anti_affinity_of (some anti) = anti

abbrev affinity_of : Option Affinity → Affinity
affinity_of none = record { node_affinity = none; pod_affinity = none; pod_anti_affinity = none }
affinity_of (some affinity) = affinity

-- `getAffinity`: behind what the resource prefers, to keep the pods of the labels on different hosts.
unfoldable pub get_affinity : Kvrocks → Labels → Affinity
get_affinity k labels =
    let affinity = affinity_of k.spec.affinity in
    let anti = anti_affinity_of affinity.pod_anti_affinity in
    let apart : Preference = weighted 100 (codes "kubernetes.io/hostname") labels in
    record affinity {
      pod_anti_affinity = some (record anti { preferred = anti.preferred ++ apart ∷ [] });
    }

abbrev default_storage_size : Bytes
default_storage_size = codes "10Gi"

storage_size : Option Storage → Bytes
storage_size none = default_storage_size
storage_size (some storage) = elim storage.size [ none ↦ default_storage_size | some size ↦ size ]

class_of : Bytes → Option Bytes
class_of [] = none
class_of (c ∷ class) = some (c ∷ class)

storage_class : Option Storage → Option Bytes
unfolding class_of
storage_class none = none
storage_class (some storage) = class_of storage.class

-- `getPersistentClaim`
unfoldable pub get_persistent_claim : Kvrocks → Labels → ClaimTemplate
unfolding storage_size storage_class
get_persistent_claim k labels = record {
  name = codes "data";
  labels = labels;
  owners = owned_by k;
  access_modes = codes "ReadWriteOnce" ∷ [];
  size = storage_size k.spec.storage;
  class = storage_class k.spec.storage;
  volume_mode = codes "Filesystem";
}

-- The pods of a resource, with no container yet.
unfoldable pub template_of : Kvrocks → Labels → PodTemplate
template_of k labels = record {
  labels = labels;
  affinity = some (get_affinity k labels);
  node_selector = k.spec.node_selector;
  toleration = k.spec.toleration;
  grace_period = some 20;
  readiness_gates = [];
  volumes = config_map_volume (codes "conf") k.name ∷ [];
  containers = [];
}

-- The pods of the objects that stand beside a cluster.
abbrev pub plain_template : Labels → List Volume → List Container → PodTemplate
plain_template labels volumes containers = record {
  labels = labels;
  affinity = none;
  node_selector = [];
  toleration = [];
  grace_period = none;
  readiness_gates = [];
  volumes = volumes;
  containers = containers;
}

abbrev pub plain_container : Bytes → Bytes → List Bytes → List Port → List Mount → Container
plain_container name image args ports mounts = record {
  name = name;
  image = image;
  image_pull_policy = [];
  command = [];
  args = args;
  ports = ports;
  resources = none;
  mounts = mounts;
  readiness = none;
  liveness = none;
}

abbrev pub port_at : ℕ → Port
port_at port = record { name = []; protocol = []; port = port; target = none }

-- ===== src/Client/Objects.antt =====
-- The Kubernetes objects that the operator reads and writes, as far as it reads and writes them,
-- and the controller-runtime client for one kind of object.
use kvrocks_operator.Base.{ℕ, Bool, Bytes, List}
use kvrocks_operator.Base.Exec.{Exec}
use kvrocks_operator.Api.{Key, Labels, Kvrocks}
use kvrocks_operator.Client.Pods.{Owner, Port, PodTemplate, ClaimTemplate, UpdateStrategy}

pub record ConfigMap : Type 0 where
  pub namespace : Bytes
  pub name : Bytes
  pub resource_version : Bytes
  pub contents : Labels

pub record Service : Type 0 where
  pub namespace : Bytes
  pub name : Bytes
  pub labels : Labels
  pub owners : List Owner
  pub ports : List Port
  pub selector : Labels
  pub cluster_ip : Bytes

-- The advanced stateful set of Kruise.
pub record StatefulSet : Type 0 where
  pub namespace : Bytes
  pub name : Bytes
  pub resource_version : Bytes
  pub labels : Labels
  pub owners : List Owner
  pub pod_management : Bytes
  pub update_strategy : UpdateStrategy
  pub match_labels : Labels
  pub replicas : ℕ
  pub reserve_ordinals : List ℕ
  pub ready_replicas : ℕ
  pub template : PodTemplate
  pub claim_templates : List ClaimTemplate

pub record NativeStatefulSet : Type 0 where
  pub namespace : Bytes
  pub name : Bytes
  pub owners : List Owner
  pub match_labels : Labels
  pub service_name : Bytes
  pub replicas : ℕ
  pub ready_replicas : ℕ
  pub template : PodTemplate

pub record Deployment : Type 0 where
  pub namespace : Bytes
  pub name : Bytes
  pub labels : Labels
  pub owners : List Owner
  pub match_labels : Labels
  pub replicas : ℕ
  pub ready_replicas : ℕ
  pub template : PodTemplate

pub record Pod : Type 0 where
  pub namespace : Bytes
  pub name : Bytes
  pub labels : Labels
  pub ip : Bytes
  pub deleting : Bool

pub record Claim : Type 0 where
  pub namespace : Bytes
  pub name : Bytes

-- client.Client of controller-runtime at one kind. A create or an update decodes the server's
-- answer into the object that was passed, so the object comes back.
pub record Store (W O : Type 0) : Type 0 where
  pub get : Key → Exec W O
  pub create : O → Exec W O
  pub update : O → Exec W O
  pub delete : O → Exec W Unit
  pub list : Bytes → Labels → Exec W (List O)

pub record Cluster (W : Type 0) : Type 0 where
  pub config_maps : Store W ConfigMap
  pub services : Store W Service
  pub stateful_sets : Store W StatefulSet
  pub native_stateful_sets : Store W NativeStatefulSet
  pub deployments : Store W Deployment
  pub pods : Store W Pod
  pub claims : Store W Claim
  pub kvrockses : Store W Kvrocks

-- ===== src/Api.antt =====
-- api/v1alpha1/kvrocks_types.go: the KVRocks resource. Of the metadata, what the operator reads.
use kvrocks_operator.Base.{ℕ, Bool, true, false, Bytes, List, Option, codes}

pub data KvrocksType : Type 0 where
  sentinel_type standard_type cluster_type : KvrocksType
  -- Any other text: the field is a string with no enumeration in the schema.
  other_type : Bytes → KvrocksType

pub data StatusType : Type 0 where
  status_none status_creating status_running status_failed : StatusType
  other_status : Bytes → StatusType

abbrev pub Labels : Type 0
Labels = List (Bytes × Bytes)

-- A preference of pod placement: one that the resource gives, which is only copied, or a weight, the
-- key of a topology and the labels of the pods to keep away from.
pub data Preference : Type 0 where
  given : Bytes → Preference
  weighted : ℕ → Bytes → Labels → Preference

pub record AntiAffinity : Type 0 where
  pub required : List Bytes
  pub preferred : List Preference

-- corev1.Affinity; a part that is only copied is an opaque text.
pub record Affinity : Type 0 where
  pub node_affinity : Option Bytes
  pub pod_affinity : Option Bytes
  pub pod_anti_affinity : Option AntiAffinity

-- The size is none where the quantity is zero.
pub record Storage : Type 0 where
  pub size : Option Bytes
  pub class : Bytes

-- Resources and tolerations are only copied, and are opaque texts. A pointer is an option.
pub record Spec : Type 0 where
  pub image : Bytes
  pub image_pull_policy : Bytes
  pub type : KvrocksType
  pub kvrocks_config : Labels
  pub replicas : ℕ
  pub master : ℕ
  pub password : Bytes
  pub resources : Option Bytes
  pub node_selector : Labels
  pub toleration : List Bytes
  pub affinity : Option Affinity
  pub storage : Option Storage

pub record MigrateMsg : Type 0 where
  pub shard : ℕ
  pub slots : List Bytes

pub record Topology : Type 0 where
  pub pod : Bytes
  pub role : Bytes
  pub node_id : Bytes
  pub ip : Bytes
  pub port : ℕ
  pub slots : List Bytes
  pub master_id : Bytes
  pub migrate : List MigrateMsg
  pub failover : Bool

pub record TopoPartition : Type 0 where
  pub partition_name : Bytes
  pub shard : ℕ
  pub topology : List Topology

pub record ShrinkMsg : Type 0 where
  pub partition : List ℕ
  pub reserve_msg : List (Bytes × List ℕ)

pub record Status : Type 0 where
  pub status : StatusType
  pub reason : Bytes
  pub version : ℕ
  pub rebalance : Bool
  pub topo : List TopoPartition
  pub shrink : Option ShrinkMsg

pub record Kvrocks : Type 0 where
  pub name : Bytes
  pub namespace : Bytes
  pub kind : Bytes
  pub labels : Labels
  pub annotations : Labels
  pub finalizers : List Bytes
  pub deleting : Bool  -- whether the deletion timestamp is set
  pub resource_version : Bytes
  pub spec : Spec
  pub status : Status

-- types.NamespacedName
pub record Key : Type 0 where
  pub namespace : Bytes
  pub name : Bytes

abbrev pub kvrocks_finalizer : Bytes
kvrocks_finalizer = codes "kvrocks/finalizer"

-- Comparisons with the constants of the two string types.
abbrev pub is_creating : StatusType → Bool
is_creating status_creating = true
is_creating _ = false

abbrev pub is_running : StatusType → Bool
is_running status_running = true
is_running _ = false

abbrev pub is_failed : StatusType → Bool
is_failed status_failed = true
is_failed _ = false

abbrev pub is_none : StatusType → Bool
is_none status_none = true
is_none _ = false

abbrev pub is_cluster : KvrocksType → Bool
is_cluster cluster_type = true
is_cluster _ = false

abbrev pub is_standard : KvrocksType → Bool
is_standard standard_type = true
is_standard _ = false

abbrev pub is_sentinel : KvrocksType → Bool
is_sentinel sentinel_type = true
is_sentinel _ = false

-- ===== src/Client/Pods.antt =====
-- What the objects of pkg/resources say of pods: containers, volumes, claims and the template, with
-- the fields that the operator sets.
use kvrocks_operator.Base.{ℕ, Bool, Bytes, List, Option}
use kvrocks_operator.Api.{Labels, Affinity}

-- A controller reference to the resource.
pub record Owner : Type 0 where
  pub kind : Bytes
  pub name : Bytes

-- A port of a container or a service; the name and the protocol are empty where none is given, and
-- the target is none where it is left to default to the port.
pub record Port : Type 0 where
  pub name : Bytes
  pub protocol : Bytes
  pub port : ℕ
  pub target : Option ℕ

pub record Mount : Type 0 where
  pub name : Bytes
  pub path : Bytes
  pub sub_path : Bytes

-- A probe that runs a command.
pub record Probe : Type 0 where
  pub command : List Bytes
  pub timeout_seconds : ℕ
  pub failure_threshold : ℕ

pub record Container : Type 0 where
  pub name : Bytes
  pub image : Bytes
  pub image_pull_policy : Bytes
  pub command : List Bytes
  pub args : List Bytes
  pub ports : List Port
  pub resources : Option Bytes
  pub mounts : List Mount
  pub readiness : Option Probe
  pub liveness : Option Probe

-- A volume by its name: the files of a config map, or an empty directory.
pub data Volume : Type 0 where
  config_map_volume : Bytes → Bytes → Volume
  empty_dir : Bytes → Volume

pub record PodTemplate : Type 0 where
  pub labels : Labels
  pub affinity : Option Affinity
  pub node_selector : Labels
  pub toleration : List Bytes
  pub grace_period : Option ℕ
  pub readiness_gates : List Bytes
  pub volumes : List Volume
  pub containers : List Container

pub record ClaimTemplate : Type 0 where
  pub name : Bytes
  pub labels : Labels
  pub owners : List Owner
  pub access_modes : List Bytes
  pub size : Bytes
  pub class : Option Bytes
  pub volume_mode : Bytes

-- The update strategy of an advanced stateful set.
pub record UpdateStrategy : Type 0 where
  pub type : Bytes
  pub pod_update_policy : Bytes
  pub paused : Bool
  pub grace_period : ℕ

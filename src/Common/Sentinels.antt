-- ===== src/Common/Sentinels.antt =====
-- `EnsureSentinel` and `GetOrCreateSentinel` of pkg/controllers/common/sentinel.go.
pub mod Watches
pub mod Monitors
use kvrocks_operator.Base.{
  ℕ, Bytes, Bool, true, false, List, Option, none, some, ◌==◌, bytes_eq, if◌then◌else◌,
}
use kvrocks_operator.Base.Exec.{
  Error, Result, Exec, ok, err, panic, pure, crash, attempt, for_each, ◌>>=◌, ◌>>◌,
}
use kvrocks_operator.Api.{Kvrocks}
use kvrocks_operator.Client.Objects.{Pod}
use kvrocks_operator.Client.K8s.{create_if_not_exists_kvrocks}
use kvrocks_operator.Client.Env.{Env}
use kvrocks_operator.Resources.Names.{parse_redis_name, indexed}
use kvrocks_operator.Resources.Sentinel.{get_sentinel_instance}
use kvrocks_operator.Common.{
  Sentinel, sentinel_found, sentinel_waiting, sentinel_failed, get_sentinel, flagged,
}

module _ {W : Type 0} (env : Env W) (instance_ : Kvrocks) where
  after_created : Kvrocks → Result Kvrocks → Exec W Sentinel
  unfolding get_sentinel
  after_created sentinel (ok _) =
      get_sentinel env (record { namespace = sentinel.namespace; name = sentinel.name })
  after_created sentinel (err e) = pure (sentinel_failed false e)
  after_created sentinel panic = crash

  -- `GetOrCreateSentinel`
  unfoldable pub get_or_create_sentinel : Exec W Sentinel
  unfolding ◌>>=◌ attempt after_created get_sentinel_instance
  get_or_create_sentinel = do
    let sentinel = get_sentinel_instance instance_
    created ← attempt (create_if_not_exists_kvrocks env.k8s sentinel)
    after_created sentinel created

-- The name of the master: the instance's, with the index of a shard behind it.
unfoldable pub monitored_name : Kvrocks → Option ℕ → Bytes
unfolding parse_redis_name
monitored_name instance_ index =
    let (_, name) = parse_redis_name instance_.name in
    elim index [ none ↦ name | some i ↦ indexed name i ]

module _ {W : Type 0} (env : Env W) (password : Bytes) where
  -- The error of the removal is dropped.
  monitor_anew : Bytes → Bytes → Bytes → Bytes → Exec W Unit
  unfolding ◌>>=◌ attempt
  monitor_anew ip sentinel_password master_name master_ip = do
    removed ← attempt (env.kv.remove_monitor ip sentinel_password master_name)
    env.kv.create_monitor ip sentinel_password master_name master_ip password

  unfoldable pub with_master : Bytes → Bytes → Bytes → Bytes → Result Bytes → Exec W Unit
  unfolding monitor_anew
  with_master ip sentinel_password master_name master_ip (ok master) =
      if master == master_ip
      then env.kv.reset_monitor ip sentinel_password master_name password
      else monitor_anew ip sentinel_password master_name master_ip
  with_master ip sentinel_password master_name master_ip (err _) =
      monitor_anew ip sentinel_password master_name master_ip
  with_master ip sentinel_password master_name master_ip panic = crash

  -- One sentinel.
  unfoldable pub ensure_monitor : Bytes → Bytes → Bytes → Pod → Exec W Unit
  unfolding ◌>>=◌ attempt with_master
  ensure_monitor sentinel_password master_name master_ip pod = do
    master ← attempt (env.kv.get_master_from_sentinel pod.ip sentinel_password master_name)
    with_master pod.ip sentinel_password master_name master_ip master

  ensure_all : Bytes → Bytes → Sentinel → Exec W (Bool × Option Error)
  unfolding ◌>>=◌ attempt for_each ensure_monitor flagged
  ensure_all master_name master_ip (sentinel_found pods sentinel_password) = do
    r ← attempt (for_each pods (ensure_monitor sentinel_password master_name master_ip))
    flagged env false r
  ensure_all master_name master_ip sentinel_waiting = pure (true, none)
  ensure_all master_name master_ip (sentinel_failed requeue e) = pure (requeue, some e)

  -- `EnsureSentinel`
  unfoldable pub ensure_sentinel : Kvrocks → Bytes → Option ℕ → Exec W (Bool × Option Error)
  unfolding ◌>>=◌ get_or_create_sentinel ensure_all
  ensure_sentinel instance_ master_ip index = do
    sentinel ← get_or_create_sentinel env instance_
    ensure_all (monitored_name instance_ index) master_ip sentinel

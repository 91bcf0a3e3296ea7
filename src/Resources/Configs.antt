-- ===== src/Resources/Configs.antt =====
-- pkg/resources/configmap.go: which settings may change at run time, and the config map's text.
use kvrocks_operator.Base.{
  Bytes, Bool, List, [], ◌∷◌, ◌++◌, ◌≡◌, none, codes, any, arith, ◌==◌, bytes_eq, bytes_beq_iff,
  if◌then◌else◌,
}
use kvrocks_operator.Base.Maps.{lookup}
use kvrocks_operator.Client.Objects.{ConfigMap}
use kvrocks_operator.Api.{Labels, Kvrocks, is_cluster, is_standard}

abbrev pub un_change_cfg : List Bytes
un_change_cfg =
    codes "daemonize"
    ∷ codes "bind"
    ∷ codes "port"
    ∷ codes "workers"
    ∷ codes "tcp-backlog"
    ∷ codes "slaveof"
    ∷ codes "db-name"
    ∷ codes "dir"
    ∷ codes "backup-dir"
    ∷ codes "log-dir"
    ∷ codes "pidfile"
    ∷ codes "supervised"
    ∷ codes "rename-command"
    ∷ codes "rocksdb.block_size"
    ∷ codes "rocksdb.wal_size_limit_mb"
    ∷ codes "rocksdb.enable_pipelined_write"
    ∷ codes "rocksdb.cache_index_and_filter_blocks"
    ∷ codes "rocksdb.subkey_block_cache_size"
    ∷ codes "rocksdb.metadata_block_cache_size"
    ∷ codes "rocksdb.share_metadata_and_subkey_block_cache"
    ∷ codes "rocksdb.row_cache_size"
    ∷ codes "masterauth"
    ∷ codes "requirepass"
    ∷ codes "cluster-enabled"
    ∷ []

unfoldable pub unchangeable : Bytes → Bool
unchangeable key = any (λ k. k == key) un_change_cfg

unfoldable pub parse_kvrocks_configs : Labels → Labels
parse_kvrocks_configs [] = []
parse_kvrocks_configs ((key, value) ∷ config) =
    let rest = parse_kvrocks_configs config in
    if unchangeable key then rest else (key, value) ∷ rest

unchangeable_eq : (k key : Bytes) → k ≡ key → unchangeable k ≡ unchangeable key
unchangeable_eq k key e = rw e

-- A setting that may change keeps its value, and the others are left out.
pub lookup-parse_kvrocks_configs :
    (key : Bytes) (config : Labels)
    → lookup key (parse_kvrocks_configs config)
      ≡ (if unchangeable key then none else lookup key config)
unfolding parse_kvrocks_configs lookup
lookup-parse_kvrocks_configs key [] = ground arith
lookup-parse_kvrocks_configs key ((k, v) ∷ config) =
    ground
      (arith, bytes_beq_iff k key, unchangeable_eq k key, lookup-parse_kvrocks_configs key config)

-- `"%s \"\"\n"` for an empty value, and `"%s %s\n"` for another one.
config_line : Bytes × Bytes → Bytes
config_line (key, []) = key ++ codes " \"\"\n"
config_line (key, c ∷ value) = key ++ codes " " ++ (c ∷ value) ++ codes "\n"

config_lines : Labels → Bytes
unfolding config_line
config_lines [] = []
config_lines (entry ∷ config) = config_line entry ++ config_lines config

-- The text of kvrocks.conf.
unfoldable pub kvrocks_conf : Kvrocks → Bytes
unfolding config_lines
kvrocks_conf k =
    config_lines k.spec.kvrocks_config
    ++ (codes "masterauth " ++ k.spec.password ++ codes "\n")
    ++ (codes "requirepass " ++ k.spec.password ++ codes "\n")
    ++ codes "dir /var/lib/kvrocks\n"
    ++ (if is_cluster k.spec.type then codes "cluster-enabled yes\n" else [])
    ++ (if is_standard k.spec.type then codes "slaveof 127.0.0.1 6379\n" else [])

start_script : Bytes
start_script =
    codes "\n#!/bin/bash\nsleep 15\n./bin/kvrocks -c /var/lib/kvrocks/conf/kvrocks.conf\n"

readiness_probe : Bytes
readiness_probe =
    codes "\n#!/bin/sh\ntimeout 30 redis-cli -a $(cat /var/lib/kvrocks/conf/password) "
    ++ codes "--no-auth-warning ping || timeout 30 redis-cli --no-auth-warning ping\n"

-- `NewKVRocksConfigMap`
unfoldable pub new_kvrocks_config_map : Kvrocks → ConfigMap
unfolding kvrocks_conf start_script readiness_probe
new_kvrocks_config_map k = record {
  namespace = k.namespace;
  name = k.name;
  resource_version = [];
  contents =
      (codes "kvrocks.conf", kvrocks_conf k)
      ∷ (codes "password", k.spec.password)
      ∷ (codes "start.sh", start_script)
      ∷ (codes "readiness_probe.sh", readiness_probe)
      ∷ [];
}

sentinel_default_user : Bytes
sentinel_default_user =
    codes "user default +@all -acl -sentinel +sentinel|master +sentinel|replicas "
    ++ codes "+sentinel|sentinels +sentinel|get-master-addr-by-name "
    ++ codes "+sentinel|is-master-down-by-addr +sentinel|slaves on nopass\n"

-- `NewSentinelConfigMap`
unfoldable pub new_sentinel_config_map : Kvrocks → ConfigMap
unfolding sentinel_default_user
new_sentinel_config_map k = record {
  namespace = k.namespace;
  name = k.name;
  resource_version = [];
  contents =
      (
        codes "sentinel.conf",
        sentinel_default_user
            ++ codes "user superuser ~* +@all on >"
            ++ k.spec.password
            ++ codes "\n",
      )
      ∷ [];
}

-- `NewKVRocksControllerConfigmap`
unfoldable pub new_controller_config_map : Kvrocks → ConfigMap
new_controller_config_map k = record {
  namespace = k.namespace;
  name = codes "controller-config";
  resource_version = [];
  contents =
      (
        codes "config.yaml",
        codes
              "\naddr: \"0.0.0.0:9379\"\netcd:\n  addrs:\n    - \"etcd0-service:2379\"\n  username:\n"
            ++ codes
                "  password:\n  tls:\n    enable: false\n    cert_file:\n    key_file:\n    ca_file:\n",
      )
      ∷ [];
}

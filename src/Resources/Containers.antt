-- ===== src/Resources/Containers.antt =====
-- pkg/resources/container.go: the containers of the pods. The resource's own requirements are a
-- pointer that is followed, so there is no container where it is nil: the code panics.
use kvrocks_operator.Base.{ℕ, Bytes, List, [], ◌∷◌, ◌++◌, Option, none, some, codes}
use kvrocks_operator.Base.Decimal.{print}
use kvrocks_operator.Api.{Kvrocks}
use kvrocks_operator.Kvrocks.{kvrocks_port}
use kvrocks_operator.Client.Pods.{Port, Mount, Probe, Container}

-- A port of a container under a name.
abbrev pub port_named : Bytes → ℕ → Port
port_named name port = record { name = name; protocol = []; port = port; target = none }

abbrev pub mount_at : Bytes → Bytes → Mount
mount_at name path = record { name = name; path = path; sub_path = [] }

abbrev probe_of : List Bytes → Probe
probe_of command = record { command = command; timeout_seconds = 5; failure_threshold = 6 }

-- `newSentinelContainer`
unfoldable pub base_sentinel_container : Kvrocks → Bytes → Container
base_sentinel_container k resources =
    let probe = probe_of (codes "redis-cli" ∷ codes "-p" ∷ codes "26379" ∷ codes "ping" ∷ []) in
    record {
      name = codes "sentinel";
      image = k.spec.image;
      image_pull_policy = k.spec.image_pull_policy;
      command = [];
      args = [];
      ports = [];
      resources = some resources;
      mounts =
          mount_at (codes "data") (codes "/data") ∷ mount_at (codes "conf") (codes "/conf") ∷ [];
      readiness = some probe;
      liveness = some probe;
    }

-- `newKVRocksContainer`
unfoldable pub base_kvrocks_container : Kvrocks → Bytes → Container
base_kvrocks_container k resources =
    let probe = probe_of (codes "sh" ∷ codes "/var/lib/kvrocks/conf/readiness_probe.sh" ∷ []) in
    record {
      name = codes "kvrocks";
      image = k.spec.image;
      image_pull_policy = k.spec.image_pull_policy;
      command = [];
      args = [];
      ports = [];
      resources = some resources;
      mounts =
          mount_at (codes "data") (codes "/var/lib/kvrocks")
          ∷ mount_at (codes "conf") (codes "/var/lib/kvrocks/conf")
          ∷ [];
      readiness = some probe;
      liveness = some probe;
    }

-- `NewSentinelContainer`
unfoldable pub new_sentinel_container : Kvrocks → Option Container
unfolding base_sentinel_container
new_sentinel_container k = elim k.spec.resources [
  | none ↦ none
  | some resources ↦ some (record (base_sentinel_container k resources) {
    command =
        codes "sh"
        ∷ codes "-c"
        ∷ codes
            "cp -n /conf/sentinel.conf /data/sentinel.conf; redis-server /data/sentinel.conf --sentinel"
        ∷ [];
    ports = port_named (codes "sentinel") 26379 ∷ [];
  })
]

-- `NewInstanceContainer`
unfoldable pub new_instance_container : Kvrocks → Option Container
unfolding base_kvrocks_container
new_instance_container k = elim k.spec.resources [
  | none ↦ none
  | some resources ↦ some (record (base_kvrocks_container k resources) {
    command = codes "sh" ∷ codes "/var/lib/kvrocks/conf/start.sh" ∷ [];
    ports = port_named (codes "kvrocks") kvrocks_port ∷ [];
  })
]

-- `NewExporterContainer`
unfoldable pub new_exporter_container : Kvrocks → Container
unfolding print
new_exporter_container k = record {
  name = codes "kvrocks-exporter";
  image = codes "hulkdev/kvrocks-exporter:latest";
  image_pull_policy = [];
  command = [];
  args =
      (codes "--kvrocks.addr=http://localhost:" ++ print kvrocks_port)
      ∷ (codes "--kvrocks.password=" ++ k.spec.password)
      ∷ [];
  ports = port_named (codes "exporter") 9121 ∷ [];
  resources = none;
  mounts = [];
  readiness = none;
  liveness = none;
}

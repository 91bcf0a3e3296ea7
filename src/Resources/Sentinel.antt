-- ===== src/Resources/Sentinel.antt =====
-- `GetSentinelInstance` of pkg/resources/kvrocks.go: the sentinel that an instance asks for. Fields
-- that the code leaves at their zero value are empty.
use kvrocks_operator.Base.{[], false, none}
use kvrocks_operator.Api.{Kvrocks, status_none}
use kvrocks_operator.Resources.Names.{parse_redis_name, get_sentinel_name}

-- The sentinel takes over the type of the instance, as the code has it.
unfoldable pub get_sentinel_instance : Kvrocks → Kvrocks
unfolding parse_redis_name get_sentinel_name
get_sentinel_instance k =
    let (system, _) = parse_redis_name k.name in
    record {
      name = get_sentinel_name system;
      namespace = k.namespace;
      kind = [];
      labels = [];
      annotations = [];
      finalizers = [];
      deleting = false;
      resource_version = [];
      spec = record {
        image = k.spec.image;
        image_pull_policy = k.spec.image_pull_policy;
        type = k.spec.type;
        kvrocks_config = [];
        replicas = k.spec.replicas;
        master = 0;
        password = k.spec.password;
        resources = k.spec.resources;
        node_selector = k.spec.node_selector;
        toleration = k.spec.toleration;
        affinity = k.spec.affinity;
        storage = none;
      };
      status = record {
        status = status_none;
        reason = [];
        version = 0;
        rebalance = false;
        topo = [];
        shrink = none;
      };
    }

-- ===== src/Examples/Names.antt =====
-- The theorems on names, services and the specification at the names of a demo.
use kvrocks_operator.Base.{[], ◌≡◌, ◌≢◌, ◌↔◌, refl, arith, codes, none, ◌==◌, bytes_eq}
use kvrocks_operator.Base.Exec.{ok}
use kvrocks_operator.Base.Maps.{lookup, includes}
use kvrocks_operator.Resources.Names.{
  parse_redis_name, get_cluster_name, indexed, get_pvc_or_pod_index,
  parse_redis_name-get_cluster_name, get_pvc_or_pod_index-indexed,
}
use kvrocks_operator.Resources.Validation.{validate_kvrocks, IsSized, validate_kvrocks_iff}
use kvrocks_operator.Kvrocks.{role_master}
use kvrocks_operator.Resources.Services.{new_kvrocks_service}
use kvrocks_operator.Resources.Workloads.{new_stateful_set}
use kvrocks_operator.Resources.Workloads.Routing.{
  pod_labels, new_kvrocks_service-routes, new_stateful_set-selects,
}
use kvrocks_operator.Examples.{instance_demo}

parse_redis_name-get_cluster_name_example :
    parse_redis_name (get_cluster_name (codes "1") (codes "my-demo")) ≡ (codes "1", codes "my-demo")
parse_redis_name-get_cluster_name_example =
    parse_redis_name-get_cluster_name (codes "1") (codes "my-demo") (λ e. cc, tt)

get_pvc_or_pod_index-indexed_example :
    get_pvc_or_pod_index (indexed (codes "kvrocks-demo-0") 12) ≡ ok 12
get_pvc_or_pod_index-indexed_example =
    get_pvc_or_pod_index-indexed (codes "kvrocks-demo-0") 12 (omega arith)

validate_kvrocks_iff_example : (validate_kvrocks instance_demo ≡ none) ↔ (
    (instance_demo.spec.password ≢ [])
    × (instance_demo.spec.resources ≢ none)
    × IsSized instance_demo.spec.type instance_demo.spec)
validate_kvrocks_iff_example = validate_kvrocks_iff instance_demo

new_kvrocks_service-routes_example :
    includes
      (new_kvrocks_service instance_demo).selector
      (pod_labels instance_demo (codes "demo-0") (codes "slave"))
    ≡ (codes "slave" == role_master)
unfolding lookup
new_kvrocks_service-routes_example =
    new_kvrocks_service-routes instance_demo (codes "demo-0") (codes "slave") refl

new_stateful_set-selects_example :
    includes
      (new_stateful_set instance_demo (codes "demo-0")).match_labels
      (pod_labels instance_demo (codes "demo-1") (codes "slave"))
    ≡ (codes "demo-1" == codes "demo-0")
unfolding lookup
new_stateful_set-selects_example =
    new_stateful_set-selects instance_demo (codes "demo-0") (codes "demo-1") (codes "slave") refl

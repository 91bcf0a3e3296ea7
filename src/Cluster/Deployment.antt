-- ===== src/Cluster/Deployment.antt =====
-- pkg/controllers/cluster/controller.go: etcd and the kvrocks controller.
pub mod Messages
use kvrocks_operator.Base.{Bytes, true, codes, ◌==◌, nat_eq, if◌then◌else◌}
use kvrocks_operator.Base.Exec.{gets, ◌>>=◌, ◌>>◌}
use kvrocks_operator.Api.{Key, Kvrocks}
use kvrocks_operator.Kvrocks.{
  etcd_stateful_name, etcd_service_name, controller_service_name, controller_deployment_name,
}
use kvrocks_operator.Client.K8s.{
  create_if_not_exists_service, create_if_not_exists_native_stateful_set, get_native_stateful_set,
  create_if_not_exists_config_map, create_if_not_exists_deployment, get_deployment,
  delete_deployment, delete_service, delete_config_map, delete_native_stateful_set,
}
use kvrocks_operator.Client.Controller.{set_end_point, create_if_not_exists_namespace}
use kvrocks_operator.Client.Env.{Env}
use kvrocks_operator.Resources.Configs.{new_controller_config_map}
use kvrocks_operator.Resources.Services.{new_etcd_service, new_controller_service}
use kvrocks_operator.Resources.Workloads.{new_etcd_stateful_set, new_controller_deployment}
use kvrocks_operator.Cluster.State.{Run, call, set_requeue, set_endpoint}

abbrev named : Kvrocks → Bytes → Key
named k name = record { namespace = k.namespace; name = name }

module _ {W : Type 0} (env : Env W) where
  -- `createControllerNamespace`
  create_controller_namespace : Run W Unit
  unfolding ◌>>=◌ call
  create_controller_namespace = do
    endpoint ← gets (λ h. h.endpoint)
    call (create_if_not_exists_namespace env.http endpoint)

  connect : Run W Unit
  unfolding ◌>>=◌ call set_endpoint create_controller_namespace
  connect = do
    k ← gets (λ h. h.instance_)
    endpoint ← gets (λ h. h.endpoint)
    found ← call (set_end_point env.http k.namespace env.k8s endpoint)
    set_endpoint found
    create_controller_namespace

  start_controller : Run W Unit
  unfolding ◌>>=◌ call connect set_requeue
  start_controller = do
    k ← gets (λ h. h.instance_)
    call (create_if_not_exists_config_map env.k8s (new_controller_config_map k))
    call (create_if_not_exists_service env.k8s (new_controller_service k))
    call (create_if_not_exists_deployment env.k8s (new_controller_deployment k))
    deployed ← call (get_deployment env.k8s (named k controller_deployment_name))
    if deployed.ready_replicas == deployed.replicas then connect else set_requeue true

  -- `ensureController`
  unfoldable pub ensure_controller : Run W Unit
  unfolding ◌>>=◌ call start_controller set_requeue
  ensure_controller = do
    k ← gets (λ h. h.instance_)
    call (create_if_not_exists_service env.k8s (new_etcd_service k))
    call (create_if_not_exists_native_stateful_set env.k8s (new_etcd_stateful_set k))
    etcd ← call (get_native_stateful_set env.k8s (named k etcd_stateful_name))
    if etcd.ready_replicas == etcd.replicas then start_controller else set_requeue true

  -- `removeController`, whose requeue flag is always false.
  unfoldable pub remove_controller : Run W Unit
  unfolding ◌>>=◌ call
  remove_controller = do
    k ← gets (λ h. h.instance_)
    call (delete_deployment env.k8s (named k controller_deployment_name))
    call (delete_service env.k8s (named k controller_service_name))
    call (delete_config_map env.k8s (named k (codes "controller-config")))
    call (delete_native_stateful_set env.k8s (named k etcd_stateful_name))
    call (delete_service env.k8s (named k etcd_service_name))

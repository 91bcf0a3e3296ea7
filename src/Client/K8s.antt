-- ===== src/Client/K8s.antt =====
-- pkg/client/k8s: the operator's functions over the Kubernetes API. Log lines are left out.
pub mod Lawful
pub mod Puts
pub mod Images
pub mod Claims
use kvrocks_operator.Base.{
  false, Bytes, Bool, List, ◌∷◌, ◌++◌, ◌&&◌, Option, none, some, codes, ◌==◌, bytes_eq,
  if◌then◌else◌,
}
use kvrocks_operator.Base.Exec.{
  Result, Exec, ok, err, panic, not_found, already_exists, pure, raise, crash, attempt, or_crash,
  ◌>>=◌,
}
use kvrocks_operator.Api.{Key, Labels, Kvrocks}
use kvrocks_operator.Client.Pods.{Container}
use kvrocks_operator.Client.Objects.{
  ConfigMap, Service, StatefulSet, NativeStatefulSet, Deployment, Pod, Claim, Store, Cluster,
}

module _ {W O : Type 0} (store : Store W O) where
  -- An object that is there already is no error; the caller's object is then left as it was.
  after_create : O → Result O → Exec W O
  after_create obj (ok created) = pure created
  after_create obj (err already_exists) = pure obj
  after_create obj (err e) = raise e
  after_create obj panic = crash

  unfoldable pub create_if_not_exists : O → Exec W O
  unfolding after_create ◌>>=◌ attempt
  create_if_not_exists obj = do r ← attempt (store.create obj); after_create obj r

  -- Deleting what is not there is no error.
  after_delete : Result (Unit {0}) → Exec W Unit
  after_delete (ok _) = pure tt
  after_delete (err not_found) = pure tt
  after_delete (err e) = raise e
  after_delete panic = crash

  unfoldable pub delete_or_absent : O → Exec W Unit
  unfolding after_delete ◌>>=◌ attempt
  delete_or_absent obj = do r ← attempt (store.delete obj); after_delete r

  unfoldable pub delete_by_key : Key → Exec W Unit
  unfolding ◌>>=◌
  delete_by_key key = do obj ← store.get key; store.delete obj

module _ {W : Type 0} (k8s : Cluster W) where
  -- configmap.go
  abbrev pub get_config_map : Key → Exec W ConfigMap
  get_config_map = k8s.config_maps.get

  abbrev pub update_config_map : ConfigMap → Exec W ConfigMap
  update_config_map = k8s.config_maps.update

  abbrev pub create_if_not_exists_config_map : ConfigMap → Exec W ConfigMap
  create_if_not_exists_config_map = create_if_not_exists k8s.config_maps

  update_over_config_map : ConfigMap → Result ConfigMap → Exec W ConfigMap
  update_over_config_map cm (ok old) =
      update_config_map (record cm { resource_version = old.resource_version })
  update_over_config_map cm (err not_found) = create_if_not_exists_config_map cm
  update_over_config_map cm (err e) = raise e
  update_over_config_map cm panic = crash

  unfoldable pub create_or_update_config_map : ConfigMap → Exec W ConfigMap
  unfolding update_over_config_map ◌>>=◌ attempt create_if_not_exists
  create_or_update_config_map cm = do
    old ← attempt (get_config_map (record { namespace = cm.namespace; name = cm.name }))
    update_over_config_map cm old

  abbrev pub delete_config_map : Key → Exec W Unit
  delete_config_map = delete_by_key k8s.config_maps

  -- service.go
  abbrev pub create_if_not_exists_service : Service → Exec W Service
  create_if_not_exists_service = create_if_not_exists k8s.services

  abbrev pub get_service : Key → Exec W Service
  get_service = k8s.services.get

  abbrev pub delete_service : Key → Exec W Unit
  delete_service = delete_by_key k8s.services

  -- deployment.go
  abbrev pub create_if_not_exists_deployment : Deployment → Exec W Deployment
  create_if_not_exists_deployment = create_if_not_exists k8s.deployments

  abbrev pub get_deployment : Key → Exec W Deployment
  get_deployment = k8s.deployments.get

  abbrev pub update_deployment : Deployment → Exec W Deployment
  update_deployment = k8s.deployments.update

  abbrev pub delete_deployment : Key → Exec W Unit
  delete_deployment = delete_by_key k8s.deployments

  unfoldable pub list_deployment_pods : Key → Exec W (List Pod)
  unfolding ◌>>=◌
  list_deployment_pods key = do
    deployment ← get_deployment key
    k8s.pods.list deployment.namespace deployment.match_labels

  -- statefulset.go
  abbrev pub create_if_not_exists_stateful_set : StatefulSet → Exec W StatefulSet
  create_if_not_exists_stateful_set = create_if_not_exists k8s.stateful_sets

  abbrev pub get_stateful_set : Key → Exec W StatefulSet
  get_stateful_set = k8s.stateful_sets.get

  abbrev pub update_stateful_set : StatefulSet → Exec W StatefulSet
  update_stateful_set = k8s.stateful_sets.update

  unfoldable pub list_stateful_set_pods : Key → Exec W (List Pod)
  unfolding ◌>>=◌
  list_stateful_set_pods key = do
    sts ← get_stateful_set key
    k8s.pods.list sts.namespace sts.match_labels

  update_over_stateful_set : StatefulSet → Result StatefulSet → Exec W StatefulSet
  update_over_stateful_set sts (ok old) =
      update_stateful_set (record sts { resource_version = old.resource_version })
  update_over_stateful_set sts (err not_found) = create_if_not_exists_stateful_set sts
  update_over_stateful_set sts (err e) = raise e
  update_over_stateful_set sts panic = crash

  unfoldable pub create_or_update_stateful_set : StatefulSet → Exec W StatefulSet
  unfolding update_over_stateful_set ◌>>=◌ attempt create_if_not_exists
  create_or_update_stateful_set sts = do
    old ← attempt (get_stateful_set (record { namespace = sts.namespace; name = sts.name }))
    update_over_stateful_set sts old

  same_image : List Container → List Container → Option Bool
  same_image (a ∷ _) (b ∷ _) = some (a.image == b.image)
  same_image _ _ = none

  -- Whether the images of the first two containers agree; none where the code panics. The second
  -- containers are only looked at where the images of the first agree.
  same_images : List Container → List Container → Option Bool
  unfolding same_image
  same_images (a ∷ xs) (b ∷ ys) =
      let rest = same_image xs ys in if a.image == b.image then rest else some false
  same_images _ _ = none

  update_image : StatefulSet → Result StatefulSet → Exec W StatefulSet
  unfolding same_images ◌>>=◌
  update_image sts (ok old) = do
    same ← or_crash (same_images old.template.containers sts.template.containers)
    if same
        then pure sts
        else update_stateful_set (record sts { resource_version = old.resource_version })
  update_image sts (err not_found) = create_if_not_exists_stateful_set sts
  update_image sts (err e) = raise e
  update_image sts panic = crash

  unfoldable pub create_stateful_set_or_update_image : StatefulSet → Exec W StatefulSet
  unfolding update_image ◌>>=◌ attempt create_if_not_exists
  create_stateful_set_or_update_image sts = do
    old ← attempt (get_stateful_set (record { namespace = sts.namespace; name = sts.name }))
    update_image sts old

  abbrev pub list_stateful_sets : Bytes → Labels → Exec W (List StatefulSet)
  list_stateful_sets = k8s.stateful_sets.list

  -- Any failure to read the set counts as its absence.
  delete_found : Result StatefulSet → Exec W Unit
  delete_found (ok sts) = k8s.stateful_sets.delete sts
  delete_found (err e) = pure tt
  delete_found panic = crash

  unfoldable pub delete_stateful_set_if_exists : Key → Exec W Unit
  unfolding delete_found ◌>>=◌ attempt
  delete_stateful_set_if_exists key = do found ← attempt (get_stateful_set key); delete_found found

  abbrev pub create_if_not_exists_native_stateful_set : NativeStatefulSet → Exec W NativeStatefulSet
  create_if_not_exists_native_stateful_set = create_if_not_exists k8s.native_stateful_sets

  abbrev pub get_native_stateful_set : Key → Exec W NativeStatefulSet
  get_native_stateful_set = k8s.native_stateful_sets.get

  abbrev pub delete_native_stateful_set : Key → Exec W Unit
  delete_native_stateful_set = delete_by_key k8s.native_stateful_sets

  -- pod.go
  abbrev pub get_pod : Key → Exec W Pod
  get_pod = k8s.pods.get

  abbrev pub update_pod : Pod → Exec W Pod
  update_pod = k8s.pods.update

  -- A pod that is not there is a nil pointer, which the rest of the function dereferences.
  delete_read_pod : Result Pod → Exec W Unit
  delete_read_pod (ok pod) = delete_or_absent k8s.pods pod
  delete_read_pod (err not_found) = crash
  delete_read_pod (err e) = raise e
  delete_read_pod panic = crash

  unfoldable pub delete_pod_immediately : Bytes → Bytes → Exec W Unit
  unfolding delete_read_pod ◌>>=◌ attempt delete_or_absent
  delete_pod_immediately pod_name namespace = do
    read ← attempt (get_pod (record { namespace = namespace; name = pod_name }))
    delete_read_pod read

  -- pvc.go
  unfoldable pub list_stateful_set_pvc : Key → Exec W (List Claim)
  unfolding ◌>>=◌
  list_stateful_set_pvc key = do
    sts ← get_stateful_set key
    k8s.claims.list key.namespace sts.match_labels

  abbrev pub delete_pvc : Claim → Exec W Unit
  delete_pvc = delete_or_absent k8s.claims

  abbrev pub list_pvc : Bytes → Labels → Exec W (List Claim)
  list_pvc = k8s.claims.list

  delete_read_claim : Result Claim → Exec W Unit
  delete_read_claim (ok claim) = delete_pvc claim
  delete_read_claim (err e) = pure tt
  delete_read_claim panic = crash

  unfoldable pub delete_pvc_by_pod : Bytes → Bytes → Exec W Unit
  unfolding delete_read_claim ◌>>=◌ attempt delete_or_absent
  delete_pvc_by_pod pod_name namespace = do
    read ←
        attempt
          (k8s.claims.get (record { namespace = namespace; name = codes "data-" ++ pod_name }))
    delete_read_claim read

  -- kvrocks.go
  abbrev pub get_kvrocks : Key → Exec W Kvrocks
  get_kvrocks = k8s.kvrockses.get

  abbrev pub update_kvrocks : Kvrocks → Exec W Kvrocks
  update_kvrocks = k8s.kvrockses.update

  abbrev pub list_kvrocks : Bytes → Labels → Exec W (List Kvrocks)
  list_kvrocks = k8s.kvrockses.list

  abbrev pub create_if_not_exists_kvrocks : Kvrocks → Exec W Kvrocks
  create_if_not_exists_kvrocks = create_if_not_exists k8s.kvrockses

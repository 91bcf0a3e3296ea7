-- ===== src/Resources/Workloads/Routing.antt =====
-- Which pods the services and the sets of an instance select by the labels of pkg/resources, once
-- the handlers have written the pods' roles.
use kvrocks_operator.Base.{Bytes, [], ◌≡◌, ◌∙◌, refl, none, codes, ◌==◌, bytes_eq}
use kvrocks_operator.Base.Maps.{lookup, put, put_all, includes}
use kvrocks_operator.Base.Maps.Included.{
  IsMap, put_all-IsMap, lookup-put_all, includes-put, put-put-IsKept_outer, put-put-IsKept_inner,
  lookup-put_same, lookup-put_other,
}
use kvrocks_operator.Api.{Labels, Kvrocks}
use kvrocks_operator.Kvrocks.{role_master}
use kvrocks_operator.Resources.Labels.{merge_labels, kvrocks_role, stateful_set_labels}
use kvrocks_operator.Resources.Services.{new_kvrocks_service}
use kvrocks_operator.Resources.Workloads.{new_stateful_set}

-- The key of `StatefulSetLabels`.
abbrev pub set_key : Bytes
set_key = codes "kvrocks/statefulset"

-- The labels of a pod that the named set has made and whose role has been written.
abbrev pub pod_labels : Kvrocks → Bytes → Bytes → Labels
pod_labels k name role = put kvrocks_role role (new_stateful_set k name).template.labels

-- The labels of the resource as `MergeLabels` copies them.
abbrev own_labels : Kvrocks → Labels
own_labels k = put_all k.labels []

own_labels-IsMap : (k : Kvrocks) → IsMap (own_labels k)
own_labels-IsMap k = put_all-IsMap k.labels [] tt

-- The service of an instance sends its clients to a pod of one of its sets just when the role that
-- the operator has written on the pod is that of a master, if the resource itself has no label of a
-- set.
pub new_kvrocks_service-routes :
    (k : Kvrocks) (name role : Bytes)
    → lookup set_key k.labels ≡ none
    → includes (new_kvrocks_service k).selector (pod_labels k name role) ≡ (role == role_master)
unfolding new_kvrocks_service new_stateful_set merge_labels put_all stateful_set_labels lookup
new_kvrocks_service-routes k name role h =
    includes-put kvrocks_role role_master role (own_labels k)
      (put kvrocks_role role (put set_key name (own_labels k))) (own_labels-IsMap k)
      (put-put-IsKept_outer kvrocks_role role set_key name (own_labels k)
        (lookup-put_all set_key k.labels [] h))
      (lookup-put_same kvrocks_role role (put set_key name (own_labels k)))

-- A set of an instance selects, and the operator lists for it, just the pods of its own among those
-- of all the instance's sets, whatever role has been written on them, if the resource itself has no
-- label of a role.
pub new_stateful_set-selects :
    (k : Kvrocks) (name other role : Bytes)
    → lookup kvrocks_role k.labels ≡ none
    → includes (new_stateful_set k name).match_labels (pod_labels k other role) ≡ (other == name)
unfolding new_stateful_set merge_labels put_all stateful_set_labels lookup
new_stateful_set-selects k name other role h =
    includes-put set_key name other (own_labels k)
      (put kvrocks_role role (put set_key other (own_labels k))) (own_labels-IsMap k)
      (put-put-IsKept_inner kvrocks_role role set_key other (own_labels k)
        (lookup-put_all kvrocks_role k.labels [] h))
      (lookup-put_other kvrocks_role set_key role (put set_key other (own_labels k)) refl
        ∙ lookup-put_same set_key other (own_labels k))

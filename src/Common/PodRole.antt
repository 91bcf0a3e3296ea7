-- ===== src/Common/PodRole.antt =====
-- The role label of a pod: the same end of `updatePodLabels` of the cluster handler and
-- `updateKVRocksRole` of the standard handler.
pub mod Written
use kvrocks_operator.Base.{Bytes, [], ◌∷◌, ◌==◌, bytes_eq, if◌then◌else◌}
use kvrocks_operator.Base.Maps.{lookup, put}
use kvrocks_operator.Base.Exec.{Exec, pure, crash, ◌>>=◌, ◌>>◌}
use kvrocks_operator.Api.{Labels}
use kvrocks_operator.Client.Objects.{Pod}
use kvrocks_operator.Client.K8s.{update_pod}
use kvrocks_operator.Client.Env.{Env}
use kvrocks_operator.Resources.Labels.{kvrocks_role}
use kvrocks_operator.Common.{label_value}

module _ {W : Type 0} (env : Env W) where
  -- A pod without labels has a nil map, and an assignment to it panics.
  write_role : Bytes → Pod → Labels → Exec W Unit
  unfolding ◌>>=◌
  write_role role pod [] = crash
  write_role role pod (label ∷ labels) = do
    update_pod env.k8s (record pod { labels = put kvrocks_role role (label ∷ labels) })
    pure tt

  -- The label is written only if it differs.
  unfoldable pub set_pod_role : Bytes → Pod → Exec W Unit
  unfolding ◌>>=◌ write_role
  set_pod_role role pod =
      if label_value (lookup kvrocks_role pod.labels) == role
      then pure tt
      else write_role role pod pod.labels

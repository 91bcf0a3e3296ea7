-- ===== src/Resources/Labels.antt =====
-- pkg/resources/labels.go
use kvrocks_operator.Base.{Bytes, List, [], ◌∷◌, codes}
use kvrocks_operator.Base.Maps.{put_all}
use kvrocks_operator.Api.{Labels, Kvrocks}

abbrev pub monitored_by : Bytes
monitored_by = codes "kvrocks/monitored-by"

abbrev pub kvrocks_role : Bytes
kvrocks_role = codes "kvrocks/role"

-- The later map wins.
unfoldable pub merge_labels : List Labels → Labels → Labels
unfolding put_all
merge_labels [] res = res
merge_labels (labels ∷ rest) res = merge_labels rest (put_all labels res)

pub deployment_labels : Bytes → Labels
deployment_labels name = (codes "kvrocks/deployment", name) ∷ []

unfoldable pub stateful_set_labels : Bytes → Labels
stateful_set_labels name = (codes "kvrocks/statefulset", name) ∷ []

pub monitor_labels : Bytes → Labels
monitor_labels sentinel = (monitored_by, sentinel) ∷ []

pub selector_labels : Kvrocks → Labels
selector_labels instance_ =
    (codes "app.kubernetes.io/kind", instance_.kind) ∷ (codes "kvrocks/name", instance_.name) ∷ []

pub sentinel_labels : Labels
sentinel_labels = (codes "sentinel", codes "true") ∷ []

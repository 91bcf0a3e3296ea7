-- ===== src/Examples/Images.antt =====
-- The set of a shard whose image changes, in a store in memory.
use kvrocks_operator.Base.{
  ◌≤◌, ◌≡◌, [], ◌∷◌, length, arith, some-inj, codes, Option, none, some, if◌then◌else◌,
}
use mathlib.Core.Path.{subst}
use kvrocks_operator.Base.Exec.{ok}
use kvrocks_operator.Api.{Key}
use kvrocks_operator.Client.Objects.{StatefulSet, Cluster}
use kvrocks_operator.Client.K8s.{create_stateful_set_or_update_image}
use kvrocks_operator.Client.K8s.Lawful.{same_key}
use kvrocks_operator.Client.K8s.Lawful.Memory.{memory, memory-IsLawful}
use kvrocks_operator.Client.K8s.Puts.{sent_at}
use kvrocks_operator.Client.K8s.Images.{
  set_key, same_set_version, set_images, create_stateful_set_or_update_image_lem,
}
use kvrocks_operator.Resources.Workloads.{new_stateful_set}
use kvrocks_operator.Resources.Containers.{new_exporter_container}
use kvrocks_operator.Examples.{cluster, instance_demo}

abbrev Sets : Type 0
Sets = Key → Option StatefulSet

abbrev shard : StatefulSet
shard =
    let sts = new_stateful_set instance_demo (codes "demo-0") in
    record sts {
      template = record sts.template {
        containers =
            new_exporter_container instance_demo ∷ new_exporter_container instance_demo ∷ [];
      };
    }

abbrev newer : StatefulSet
newer = record shard {
  template = record shard.template {
    containers =
        record (new_exporter_container instance_demo) { image = codes "kvrocks:2" }
        ∷ new_exporter_container instance_demo
        ∷ [];
  };
}

abbrev in_memory : Cluster Sets
in_memory = record cluster { stateful_sets = memory set_key same_set_version }

abbrev before : Sets
before k = if same_key (set_key shard) k then some shard else none

create_stateful_set_or_update_image_lem_example :
    (sts' : StatefulSet) × (w' : Sets) × (create_stateful_set_or_update_image in_memory newer before
      ≡ (ok sts', w'))
    × (sent_at set_images (w' (set_key newer)) ≡ some (set_images newer))
unfolding new_stateful_set
create_stateful_set_or_update_image_lem_example =
    create_stateful_set_or_update_image_lem in_memory (λ w k. w k)
      (memory-IsLawful set_key same_set_version set_images) newer before (omega arith)
      (λ x e.
        subst (λ (y : StatefulSet). 2 ≤ length y.template.containers) (some-inj e) (omega arith))

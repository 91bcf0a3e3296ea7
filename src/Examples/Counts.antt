-- ===== src/Examples/Counts.antt =====
-- A sentinel with a count of 4, in a store in memory.
use kvrocks_operator.Base.{
  ◌+◌, Bytes, false, ◌≡◌, refl, arith, codes, [], ◌∷◌, Option, none, some, ◌==◌, bytes_eq,
  if◌then◌else◌,
}
use kvrocks_operator.Base.Decimal.{pos}
use kvrocks_operator.Base.Maps.{lookup}
use kvrocks_operator.Base.Exec.{ok}
use kvrocks_operator.Api.{Key, Kvrocks}
use kvrocks_operator.Client.K8s.Lawful.{same_key}
use kvrocks_operator.Client.K8s.Lawful.Memory.{memory, memory-IsLawful}
use kvrocks_operator.Client.Env.{Env}
use kvrocks_operator.Sentinel.Annotation.{
  change_count, read_count, update_sentinel_annotation_count,
}
use kvrocks_operator.Sentinel.Annotation.Counted.{
  sentinel_key, annotations_of, same_sentinel_version, update_sentinel_annotation_count_lem,
}
use kvrocks_operator.Examples.{cluster, kv, http, instance_demo}

abbrev Sentinels : Type 0
Sentinels = Key → Option Kvrocks

abbrev env : Env Sentinels
env = record {
  k8s = record cluster { kvrockses = memory sentinel_key same_sentinel_version };
  kv = kv;
  http = http;
  sleep = λ _ w. (ok tt, w);
  now = λ w. (ok 0, w);
}

abbrev sentinel : Kvrocks
sentinel = record instance_demo {
  annotations = (codes "note", codes "kept") ∷ (change_count, codes "4") ∷ [];
}

abbrev before : Sentinels
before k = if same_key (sentinel_key sentinel) k then some sentinel else none

count_is_four : read_count (lookup change_count sentinel.annotations) ≡ some (pos 4)
unfolding read_count lookup
count_is_four = refl

update_sentinel_annotation_count_lem_example :
    (k' : Kvrocks) × (w' : Sentinels) × (update_sentinel_annotation_count env sentinel.namespace
        sentinel.name before
      ≡ (ok tt, w'))
    × (w' (sentinel_key sentinel) ≡ some k')
    × (read_count (lookup change_count k'.annotations) ≡ some (pos (4 + 1)))
    × ((j : Bytes)
        → (change_count == j) ≡ false
        → lookup j k'.annotations ≡ lookup j sentinel.annotations)
update_sentinel_annotation_count_lem_example =
    update_sentinel_annotation_count_lem env (λ w k. w k)
      (memory-IsLawful sentinel_key same_sentinel_version annotations_of) sentinel 4 before refl
      count_is_four (omega arith)

-- ===== src/Sentinel/Annotation.antt =====
-- `UpdateSentinelAnnotationCount` of pkg/controllers/sentinel/kubernetes.go: a counter in the
-- annotations of the sentinel, whose change makes it reconcile.
pub mod Counted
use kvrocks_operator.Base.{Bytes, Option, none, some, codes}
use kvrocks_operator.Base.Maps.{lookup, put}
use kvrocks_operator.Base.Decimal.{ℤ, pos, atoi_int, increment, print_int}
use kvrocks_operator.Base.Exec.{Exec, other, pure, raise, ◌>>=◌, ◌>>◌}
use kvrocks_operator.Api.{Kvrocks, Labels}
use kvrocks_operator.Client.K8s.{get_kvrocks, update_kvrocks}
use kvrocks_operator.Client.Env.{Env}

abbrev pub change_count : Bytes
change_count = codes "change-count"

-- The counter of the annotations: 0 where there is none, and no value where it is no number.
unfoldable pub read_count : Option Bytes → Option ℤ
unfolding atoi_int
read_count none = some (pos 0)
read_count (some text) = atoi_int text

-- The annotations with the counter one higher.
unfoldable pub bump_count : Labels → Option ℤ → Option Labels
unfolding increment print_int put
bump_count annotations none = none
bump_count annotations (some n) = some (put change_count (print_int (increment n)) annotations)

module _ {W : Type 0} (env : Env W) where
  write_count : Kvrocks → Option Labels → Exec W Unit
  unfolding ◌>>=◌
  write_count sentinel none = raise (other (codes "invalid syntax"))
  write_count sentinel (some annotations) = do
    update_kvrocks env.k8s (record sentinel { annotations = annotations })
    pure tt

  unfoldable pub update_sentinel_annotation_count : Bytes → Bytes → Exec W Unit
  unfolding ◌>>=◌ write_count read_count bump_count lookup
  update_sentinel_annotation_count namespace sentinel_name = do
    sentinel ← get_kvrocks env.k8s (record { namespace = namespace; name = sentinel_name })
    let counted = read_count (lookup change_count sentinel.annotations)
    write_count sentinel (bump_count sentinel.annotations counted)

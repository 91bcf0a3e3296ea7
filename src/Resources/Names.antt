-- ===== src/Resources/Names.antt =====
-- kvrocks.go and statefulset.go of pkg/resources: names that carry structure, and their parsers.
use kvrocks_operator.Base.{
  ℕ, ◌≤◌, Bytes, List, [], ◌∷◌, ◌++◌, ◌≡◌, codes, split_n, split_n-append, split_n-zero, after_last,
  after_last-append, Lacks, arith,
}
use kvrocks_operator.Base.Decimal.{
  print, Number, number, syntax, range, atoi, atoi-print, max_int, print-Lacks,
}
use kvrocks_operator.Base.Exec.{Result, ok, err, other}

name_fields : List Bytes → Bytes × Bytes
name_fields (_ ∷ _ ∷ system ∷ name ∷ _) = (system, name)
name_fields _ = ([], [])

-- The system id and the name in "kvrocks-cluster-22-test".
unfoldable pub parse_redis_name : Bytes → Bytes × Bytes
unfolding name_fields
parse_redis_name name = name_fields (split_n b'-' 3 name)

-- `"%s-%d"`
abbrev pub indexed : Bytes → ℕ → Bytes
indexed name index = name ++ b'-' ∷ print index

unfoldable pub get_cluster_name : Bytes → Bytes → Bytes
get_cluster_name system name = codes "kvrocks-cluster-" ++ system ++ b'-' ∷ name

unfoldable pub get_stateful_set_name : Bytes → ℕ → Bytes
get_stateful_set_name name index = indexed name index

unfoldable pub get_sentinel_name : Bytes → Bytes
get_sentinel_name system = codes "sentinel-" ++ system

pub number_result : Number → Result ℕ
number_result (number n) = ok n
number_result syntax = err (other (codes "invalid syntax"))
number_result range = err (other (codes "value out of range"))

-- The ordinal behind the last dash of a pod's or a claim's name.
unfoldable pub get_pvc_or_pod_index : Bytes → Result ℕ
unfolding number_result
get_pvc_or_pod_index pod_name = number_result (atoi (after_last b'-' pod_name))

-- A cluster's name gives back its system id and its name, dashes in the name included, if the
-- system id holds no dash.
pub parse_redis_name-get_cluster_name :
    (system name : Bytes)
    → Lacks b'-' system
    → parse_redis_name (get_cluster_name system name) ≡ (system, name)
unfolding parse_redis_name get_cluster_name
parse_redis_name-get_cluster_name system name h = rw (
  split_n-append b'-' 2 (codes "kvrocks") _ (omega arith),
  split_n-append b'-' 1 (codes "cluster") _ (omega arith),
  split_n-append b'-' 0 system name h,
  split_n-zero,
)

-- The ordinal of the pod that a stateful set names `name-index` is read back, whatever the
-- name, if the ordinal fits an int.
pub get_pvc_or_pod_index-indexed :
    (name : Bytes) (index : ℕ)
    → index ≤ max_int
    → get_pvc_or_pod_index (indexed name index) ≡ ok index
unfolding get_pvc_or_pod_index
get_pvc_or_pod_index-indexed name index h = rw (
  after_last-append b'-' name (print index) (print-Lacks b'-' index (omega arith)),
  atoi-print index h,
)

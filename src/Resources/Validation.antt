-- ===== src/Resources/Validation.antt =====
-- `ValidateKVRocks` of pkg/resources/kvrocks.go.
use kvrocks_operator.Base.{
  ◌%◌, ◌≤◌, Bytes, [], ◌∷◌, ◌≡◌, ◌≢◌, ◌↔◌, refl, Option, none, some, codes, ltb, ◌||◌, ◌==◌, nat_eq,
  if◌then◌else◌, arith,
}
use mathlib.Core.List.{cons-ne-nil}
use kvrocks_operator.Api.{
  Kvrocks, Spec, KvrocksType, sentinel_type, standard_type, cluster_type, other_type,
}

abbrev pub error_password_empty : Bytes
error_password_empty = codes "passworUnreasonable"

abbrev pub error_replicas_unreasonable : Bytes
error_replicas_unreasonable = codes "replicasUnreasonable"

abbrev pub error_resources_null : Bytes
error_resources_null = codes "resourcesUnreasonable"

-- The `switch` on the type.
validate_size : KvrocksType → Spec → Option Bytes
validate_size sentinel_type spec =
    if ltb spec.replicas 2 || spec.replicas % 2 == 0 then some error_replicas_unreasonable else none
validate_size standard_type spec =
    if spec.master == 1 then none else some error_replicas_unreasonable
validate_size cluster_type spec =
    if ltb spec.master 3 then some error_replicas_unreasonable else none
validate_size (other_type _) spec = none

validate_spec : Bytes → Spec → Option Bytes
unfolding validate_size
validate_spec [] spec = some error_password_empty
validate_spec (_ ∷ _) spec = elim spec.resources [
  | none ↦ some error_resources_null
  | some _ ↦ validate_size spec.type spec
]

-- The reason of the refusal, or none if the resource is accepted.
unfoldable pub validate_kvrocks : Kvrocks → Option Bytes
unfolding validate_spec
validate_kvrocks k = validate_spec k.spec.password k.spec

-- What the counts of a type have to be.
abbrev pub IsSized : KvrocksType → Spec → Type 0
IsSized sentinel_type spec = (3 ≤ spec.replicas) × (spec.replicas % 2 ≡ 1)
IsSized standard_type spec = spec.master ≡ 1
IsSized cluster_type spec = 3 ≤ spec.master
IsSized (other_type _) spec = Unit

validate_size_iff : (t : KvrocksType) (spec : Spec) → (validate_size t spec ≡ none) ↔ IsSized t spec
unfolding validate_size
validate_size_iff sentinel_type spec = ground arith
validate_size_iff standard_type spec = ground arith
validate_size_iff cluster_type spec = ground arith
validate_size_iff (other_type _) spec = ground arith

validate_spec_iff :
    (p : Bytes) (spec : Spec)
    → (validate_spec p spec ≡ none) ↔ ((p ≢ []) × (spec.resources ≢ none) × IsSized spec.type spec)
unfolding validate_spec
validate_spec_iff [] spec = (
  λ e. cc,
  λ (h : ([] ≢ []) × (spec.resources ≢ none) × IsSized spec.type spec). absurd (h.0 refl),
)
validate_spec_iff (c ∷ p) spec =
    let sized = validate_size_iff spec.type spec in
    (λ v. (cons-ne-nil c p, ground arith, sized.0 (ground arith)), λ h. ground (arith, sized.1 h.2))

-- A resource is accepted exactly when it has a password and resources, and a sentinel has an odd
-- number of at least three replicas, a standard instance one master, a cluster at least three: the
-- replicas of an instance or a cluster may be any number, 0 included, and a cluster's masters even.
pub validate_kvrocks_iff :
    (k : Kvrocks)
    → (validate_kvrocks k ≡ none)
      ↔ ((k.spec.password ≢ []) × (k.spec.resources ≢ none) × IsSized k.spec.type k.spec)
unfolding validate_kvrocks
validate_kvrocks_iff k = validate_spec_iff k.spec.password k.spec

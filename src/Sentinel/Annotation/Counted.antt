-- ===== src/Sentinel/Annotation/Counted.antt =====
-- The counter of `UpdateSentinelAnnotationCount` of pkg/controllers/sentinel/kubernetes.go over a
-- lawful store.
use kvrocks_operator.Base.{
  ℕ, ◌+◌, ◌<◌, ◌≤◌, Bytes, Bool, false, ◌≡◌, refl, ap, ◌∙◌, arith, Option, some, ◌==◌, bytes_eq,
  ==_refl, lt→ltb,
}
use kvrocks_operator.Base.Maps.{lookup, put, lookup-put}
use kvrocks_operator.Base.Maps.Included.{lookup-put_same}
use kvrocks_operator.Base.Decimal.{pos, max_int, print, print_int, increment, atoi_int-print}
use kvrocks_operator.Base.Exec.{ok, pure, ◌>>=◌}
use kvrocks_operator.Api.{Key, Labels, Kvrocks}
use kvrocks_operator.Client.K8s.Lawful.{IsLawful}
use kvrocks_operator.Client.K8s.Puts.{same_key_refl}
use kvrocks_operator.Client.Env.{Env}
use kvrocks_operator.Sentinel.Annotation.{
  change_count, read_count, bump_count, write_count, update_sentinel_annotation_count,
}

abbrev pub sentinel_key : Kvrocks → Key
sentinel_key k = record { namespace = k.namespace; name = k.name }

abbrev pub annotations_of : Kvrocks → Labels
annotations_of k = k.annotations

abbrev pub same_sentinel_version : Kvrocks → Kvrocks → Bool
same_sentinel_version x k = x.resource_version == k.resource_version

-- The annotations that are written for a count of `n`.
abbrev counted : Kvrocks → ℕ → Labels
counted k n = put change_count (print (n + 1)) k.annotations

bumped :
    (k : Kvrocks) (n : ℕ)
    → n < max_int
    → bump_count k.annotations (some (pos n)) ≡ some (counted k n)
unfolding bump_count increment print_int
bumped k n h = rw (increment, lt→ltb n max_int h) refl

read_back : (n : ℕ) → n ≤ max_int → read_count (some (print n)) ≡ some (pos n)
unfolding read_count
read_back n h = atoi_int-print n h

module _ {W : Type 0} (env : Env W) where
  -- A call whose read and whose update go through.
  went_through :
      (namespace name : Bytes) (k k' : Kvrocks) (annotations : Labels) (w w' : W)
      → env.k8s.kvrockses.get (record { namespace = namespace; name = name }) w ≡ (ok k, w)
      → bump_count k.annotations (read_count (lookup change_count k.annotations)) ≡ some annotations
      → env.k8s.kvrockses.update (record k { annotations = annotations }) w ≡ (ok k', w')
      → update_sentinel_annotation_count env namespace name w ≡ (ok tt, w')
  unfolding update_sentinel_annotation_count write_count pure ◌>>=◌
  went_through namespace name k k' annotations w w' found count saved =
      rw (found, count, saved) refl

module _ {W : Type 0} (env : Env W) (view : W → Key → Option Kvrocks)
    (lawful : IsLawful env.k8s.kvrockses sentinel_key annotations_of same_sentinel_version
      view) where
  -- Over a lawful store, a sentinel whose count reads `n`, below the largest int, has its count raised
  -- by one, so that the next call reads the new one, and its other annotations stay. A missing count
  -- reads 0.
  pub update_sentinel_annotation_count_lem :
      (k : Kvrocks) (n : ℕ) (w : W)
      → view w (sentinel_key k) ≡ some k
      → read_count (lookup change_count k.annotations) ≡ some (pos n)
      → n < max_int
      → (k' : Kvrocks) × (w' : W) × (update_sentinel_annotation_count env k.namespace k.name w
          ≡ (ok tt, w'))
        × (view w' (sentinel_key k) ≡ some k')
        × (read_count (lookup change_count k'.annotations) ≡ some (pos (n + 1)))
        × ((j : Bytes)
            → (change_count == j) ≡ false
            → lookup j k'.annotations ≡ lookup j k.annotations)
  update_sentinel_annotation_count_lem k n w there count small =
      let wanted : Kvrocks = record k { annotations = counted k n } in
      let (k', w', saved, same, stored) =
        lawful.update-some wanted k w there (==_refl k.resource_version) in
      (
        k',
        w',
        went_through env k.namespace k.name k k' (counted k n) w w'
            (lawful.get-some (sentinel_key k) w k there)
            (ap (bump_count k.annotations) count ∙ bumped k n small) saved,
        stored (sentinel_key k) ∙ rw (same_key_refl (sentinel_key k)) refl,
        ap (λ m. read_count (lookup change_count m)) same
            ∙ ap read_count (lookup-put_same change_count (print (n + 1)) k.annotations)
            ∙ read_back (n + 1) (omega (arith, small)),
        λ j apart.
            ap (lookup j) same
            ∙ lookup-put change_count j (print (n + 1)) k.annotations
            ∙ rw apart refl,
      )

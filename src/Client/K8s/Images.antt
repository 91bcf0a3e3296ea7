-- ===== src/Client/K8s/Images.antt =====
-- `CreateStatefulSetOrUpdateImage` of pkg/client/k8s/statefulset.go over a lawful store.
use kvrocks_operator.Base.{
  ◌≤◌, Bytes, Bool, true, false, if◌then◌else◌, List, [], ◌∷◌, ◌≡◌, refl, ap, ◌∙◌, ◌&&◌, length,
  arith, Option, none, some, ◌==◌, bytes_eq, ==_refl, ==_sound, Bool-cases, inl, inr,
}
use kvrocks_operator.Base.Exec.{ok, pure, or_crash, ◌>>=◌}
use kvrocks_operator.Base.Exec.Ensures.{attempt-resume}
use kvrocks_operator.Api.{Key}
use kvrocks_operator.Client.Pods.{Container}
use kvrocks_operator.Client.Objects.{StatefulSet, Cluster}
use kvrocks_operator.Client.K8s.{
  same_image, same_images, update_image, create_stateful_set_or_update_image,
}
use kvrocks_operator.Client.K8s.Lawful.{IsLawful}
use kvrocks_operator.Client.K8s.Puts.{same_key_refl, sent_at, created}

abbrev pub set_key : StatefulSet → Key
set_key sts = record { namespace = sts.namespace; name = sts.name }

abbrev pub same_set_version : StatefulSet → StatefulSet → Bool
same_set_version x sts = x.resource_version == sts.resource_version

-- The images that the code compares: the first container's and the second's.
abbrev pub first_images : List Container → Option (Bytes × Bytes)
first_images (a ∷ b ∷ _) = some (a.image, b.image)
first_images _ = none

abbrev pub set_images : StatefulSet → Option (Bytes × Bytes)
set_images sts = first_images sts.template.containers

same_pair :
    (a b c d : Bytes)
    → (a == c && b == d) ≡ true
    → ◌≡◌ {A = Option (Bytes × Bytes)} (some (a, b)) (some (c, d))
same_pair a b c d e = ground (arith, ==_sound a c, ==_sound b d)

in_turn : (b c : Bool) → (if b then some c else some false) ≡ some (b && c)
in_turn true c = refl
in_turn false c = refl

-- The comparison does not panic on two containers or more, and a positive answer is right.
compared :
    {W : Type 0} (k8s : Cluster W) (xs ys : List Container)
    → 2 ≤ length xs
    → 2 ≤ length ys
    → (b : Bool) × (same_images k8s xs ys ≡ some b) × (b ≡ true → first_images xs ≡ first_images ys)
unfolding same_images same_image
compared k8s (a ∷ b ∷ xs) (c ∷ d ∷ ys) h h' = (
  a.image == c.image && b.image == d.image,
  in_turn (a.image == c.image) (b.image == d.image),
  λ e. same_pair (a.image) (b.image) (c.image) (d.image) e,
)
compared k8s [] ys h h' = absurd (omega (arith, h))
compared k8s (a ∷ []) ys h h' = absurd (omega (arith, h))
compared k8s (a ∷ b ∷ xs) [] h h' = absurd (omega (arith, h'))
compared k8s (a ∷ b ∷ xs) (c ∷ []) h h' = absurd (omega (arith, h'))

module _ {W : Type 0} (k8s : Cluster W) (view : W → Key → Option StatefulSet)
    (lawful : IsLawful k8s.stateful_sets set_key set_images same_set_version view) where
  imaged :
      (sts : StatefulSet) (w : W) (v : Option StatefulSet)
      → view w (set_key sts) ≡ v
      → 2 ≤ length sts.template.containers
      → ((x : StatefulSet) → v ≡ some x → 2 ≤ length x.template.containers)
      → (sts' : StatefulSet) × (w' : W) × (create_stateful_set_or_update_image k8s sts w
          ≡ (ok sts', w'))
        × (sent_at set_images (view w' (set_key sts)) ≡ some (set_images sts))
  unfolding create_stateful_set_or_update_image update_image pure or_crash ◌>>=◌
  imaged sts w none e pair _ =
      let (o', w', made, same) =
        created k8s.stateful_sets set_key set_images same_set_version view lawful sts w none e in
      (
        o',
        w',
        attempt-resume (k8s.stateful_sets.get (set_key sts)) _ w
            ∙ rw (lawful.get-none (set_key sts) w e) made,
        same,
      )
  imaged sts w (some x) e pair pairs =
      let (b, answer, right) =
        compared k8s x.template.containers sts.template.containers (pairs x refl) pair in
      let read = attempt-resume (k8s.stateful_sets.get (set_key sts)) (update_image k8s sts) w in
      elim (Bool-cases b) [
        | inl t ↦ (
          sts,
          w,
          read ∙ rw (lawful.get-some (set_key sts) w x e, answer, t) refl,
          rw e (ap some (right t)),
        )
        | inr f ↦
            let current : StatefulSet = record sts { resource_version = x.resource_version } in
            let (o', w', saved, same, there) =
              lawful.update-some current x w e (==_refl x.resource_version) in
            (
              o',
              w',
              read ∙ rw (lawful.get-some (set_key sts) w x e, answer, f) saved,
              rw (there (set_key sts), same_key_refl (set_key sts)) (ap some same),
            )
      ]

  -- Over a lawful store, `CreateStatefulSetOrUpdateImage` succeeds without a panic, for a set of two
  -- containers at least in the place of one that has as many or of none, whatever version is stored.
  -- The stored set's first two containers then have the images of the given one's.
  pub create_stateful_set_or_update_image_lem :
      (sts : StatefulSet) (w : W)
      → 2 ≤ length sts.template.containers
      → ((x : StatefulSet) → view w (set_key sts) ≡ some x → 2 ≤ length x.template.containers)
      → (sts' : StatefulSet) × (w' : W) × (create_stateful_set_or_update_image k8s sts w
          ≡ (ok sts', w'))
        × (sent_at set_images (view w' (set_key sts)) ≡ some (set_images sts))
  create_stateful_set_or_update_image_lem sts w pair pairs =
      imaged sts w (view w (set_key sts)) refl pair pairs

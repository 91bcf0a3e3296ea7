-- ===== src/Common/PodRole/Written.antt =====
-- The role labels of the pods under `set_pod_role`, over a lawful store of pods.
use kvrocks_operator.Base.{
  Bytes, Bool, true, false, [], ◌∷◌, ◌≡◌, refl, sym, ap, ◌∙◌, Option, none, some, Bool-cases, inl,
  inr, ==_sound, subst, ◌==◌, bytes_eq, if◌then◌else◌,
}
use kvrocks_operator.Base.Maps.{lookup, put}
use kvrocks_operator.Base.Maps.Included.{lookup-put_same}
use kvrocks_operator.Base.Exec.{ok, pure, ◌>>=◌}
use kvrocks_operator.Api.{Key, Labels}
use kvrocks_operator.Client.Objects.{Pod}
use kvrocks_operator.Client.K8s.{get_pod}
use kvrocks_operator.Client.K8s.Lawful.{IsLawful, same_key}
use kvrocks_operator.Client.K8s.Puts.{same_key_sound}
use kvrocks_operator.Client.Env.{Env}
use kvrocks_operator.Resources.Labels.{kvrocks_role}
use kvrocks_operator.Common.{label_value}
use kvrocks_operator.Common.PodRole.{write_role, set_pod_role}

abbrev pub pod_key : Pod → Key
pod_key p = record { namespace = p.namespace; name = p.name }

-- What a server of pods keeps as it was sent.
abbrev pub pod_sent : Pod → Key × Labels
pod_sent p = (pod_key p, p.labels)

-- A pod is written whatever its version is: the model's pods have none.
abbrev pub any_version : Pod → Pod → Bool
any_version _ _ = true

abbrev pub role_label : Option Pod → Bytes
role_label none = []
role_label (some p) = label_value (lookup kvrocks_role p.labels)

-- A pod under its key that has labels.
pub record Labelled (found : Option Pod) (key : Key) : Type 0 where
  pub pod : Pod
  pub first : Bytes × Bytes
  pub rest : Labels
  pub there : found ≡ some pod
  pub named : pod_key pod ≡ key
  pub labels : pod.labels ≡ first ∷ rest

-- What a write of a role comes to, with a part of the world that it does not reach.
pub record Written {W A : Type 0} (env : Env W) (pods : W → Key → Option Pod) (beside : W → A)
    (role : Bytes) (key : Key) (w : W) : Type 0 where
  pub pod : Pod
  pub after : W
  pub got : get_pod env.k8s key w ≡ (ok pod, w)
  pub set : set_pod_role env role pod w ≡ (ok tt, after)
  pub roles :
      (k : Key)
      → role_label (pods after k) ≡ (if same_key key k then role else role_label (pods w k))
  pub labelled : (k : Key) → Labelled (pods w k) k → Labelled (pods after k) k
  pub apart : beside after ≡ beside w

at_key :
    (key k : Key) (f : Key → Bytes) (role : Bytes) (b : Bool)
    → same_key key k ≡ b
    → f key ≡ role
    → f k ≡ (if b then role else f k)
at_key key k f role true e h = ap f (sym (same_key_sound key k e)) ∙ h
at_key key k f role false e h = refl

stored :
    (b : Bool) (o' : Option Pod) (p : Option Pod) (role : Bytes)
    → role_label o' ≡ role
    → role_label (if b then o' else p) ≡ (if b then role else role_label p)
stored true o' p role h = h
stored false o' p role h = refl

kept-Labelled :
    (b : Bool) (o' p : Option Pod) (k : Key)
    → (b ≡ true → Labelled o' k)
    → Labelled p k
    → Labelled (if b then o' else p) k
kept-Labelled true o' p k h l = h refl
kept-Labelled false o' p k h l = l

put-cons :
    (k v : Bytes) (first : Bytes × Bytes) (rest : Labels)
    → (first' : Bytes × Bytes) × (rest' : Labels) × (put k v (first ∷ rest) ≡ first' ∷ rest')
unfolding put
put-cons k v (j, u) rest = elim (Bool-cases (j == k)) [
  | inl t ↦ ((k, v), rest, rw t refl)
  | inr f ↦ ((j, u), put k v rest, rw f refl)
]

-- A pod that has been stored with the labels of another and a role.
stored-Labelled :
    (o o' : Pod) (role : Bytes) (first : Bytes × Bytes) (rest : Labels)
    → pod_sent o' ≡ pod_sent (record o { labels = put kvrocks_role role (first ∷ rest) })
    → Labelled (some o') (pod_key o)
stored-Labelled o o' role first rest e =
    let (first', rest', cons) = put-cons kvrocks_role role first rest in
    record {
      pod = o';
      first = first';
      rest = rest';
      there = refl;
      named = ap (λ (x : Key × Labels). x.0) e;
      labels = ap (λ (x : Key × Labels). x.1) e ∙ cons;
    }

module _ {W A : Type 0} (env : Env W) (pods : W → Key → Option Pod) (beside : W → A)
    (lawful : IsLawful env.k8s.pods pod_key pod_sent any_version pods)
    (apart : (p p' : Pod) (w w' : W)
      → env.k8s.pods.update p w ≡ (ok p', w')
      → beside w' ≡ beside w) where
  module _ (role : Bytes) (w : W) (pod : Pod) (first : Bytes × Bytes) (rest : Labels)
      (there : pods w (pod_key pod) ≡ some pod) (labels : pod.labels ≡ first ∷ rest) where
    already-Written :
        (label_value (lookup kvrocks_role pod.labels) == role) ≡ true
        → Written env pods beside role (pod_key pod) w
    unfolding set_pod_role pure
    already-Written t = record {
      pod = pod;
      after = w;
      got = lawful.get-some (pod_key pod) w pod there;
      set = rw t refl;
      roles = λ k.
          at_key (pod_key pod) k (λ k. role_label (pods w k)) role (same_key (pod_key pod) k) refl
            (ap role_label there ∙ ==_sound (label_value (lookup kvrocks_role pod.labels)) role t);
      labelled = λ k h. h;
      apart = refl;
    }

    anew-Written :
        (label_value (lookup kvrocks_role pod.labels) == role) ≡ false
        → Written env pods beside role (pod_key pod) w
    unfolding set_pod_role write_role ◌>>=◌ pure label_value
    anew-Written f =
        let (o', w', saved, same, stored_at) =
          lawful.update-some (record pod { labels = put kvrocks_role role (first ∷ rest) }) pod w
            there refl in
        record {
          pod = pod;
          after = w';
          got = lawful.get-some (pod_key pod) w pod there;
          set = rw (f, labels, saved) refl;
          roles = λ k.
              ap role_label (stored_at k)
              ∙ stored (same_key (pod_key pod) k) (some o') (pods w k) role (
                  ap (λ (x : Key × Labels). label_value (lookup kvrocks_role x.1)) same
                  ∙ ap label_value (lookup-put_same kvrocks_role role (first ∷ rest)));
          labelled = λ k h.
              subst (λ (p : Option Pod). Labelled p k) (sym (stored_at k))
                (kept-Labelled (same_key (pod_key pod) k) (some o') (pods w k) k
                  (λ t.
                    subst (λ (j : Key). Labelled (some o') j) (same_key_sound (pod_key pod) k t)
                      (stored-Labelled pod o' role first rest same))
                  h);
          apart =
              apart (record pod { labels = put kvrocks_role role (first ∷ rest) }) o' w w' saved;
        }

  -- Over a lawful store, the role is on the pod with labels afterwards, and no other pod changes.
  pub set_pod_role-Written :
      (role : Bytes) (key : Key) (w : W)
      → Labelled (pods w key) key
      → Written env pods beside role key w
  set_pod_role-Written role key w l =
      let there = ap (pods w) l.named ∙ l.there in
      subst (λ (j : Key). Written env pods beside role j w) l.named
        (elim (Bool-cases (label_value (lookup kvrocks_role l.pod.labels) == role)) [
          | inl t ↦ already-Written role w l.pod l.first l.rest there l.labels t
          | inr f ↦ anew-Written role w l.pod l.first l.rest there l.labels f
        ])

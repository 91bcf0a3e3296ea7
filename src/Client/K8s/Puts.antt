-- ===== src/Client/K8s/Puts.antt =====
-- The functions of pkg/client/k8s as operations on the map of objects.
use kvrocks_operator.Base.{
  Bytes, Bool, true, false, List, ◌≡◌, refl, ap, ◌∙◌, Option, none, some, ◌==◌, bytes_eq, ==_refl,
  ==_sound, ◌&&◌, false,
}
use kvrocks_operator.Base.Exec.{ok, pure}
use kvrocks_operator.Base.Exec.Ensures.{resume, attempt-resume}
use kvrocks_operator.Api.{Key}
use kvrocks_operator.Client.Objects.{ConfigMap, Store, Cluster}
use kvrocks_operator.Client.K8s.{
  after_create, create_if_not_exists, after_delete, delete_or_absent, update_over_config_map,
  create_or_update_config_map,
}
use kvrocks_operator.Client.K8s.Lawful.{IsLawful, same_key}

pub same_key_refl : (k : Key) → same_key k k ≡ true
same_key_refl k = rw (==_refl k.namespace, ==_refl k.name)

pub both : (b c : Bool) → (b && c) ≡ true → (b ≡ true) × (c ≡ true)
both true c h = (refl, h)
both false c h = cc

pub same_key_sound : (k j : Key) → same_key k j ≡ true → k ≡ j
same_key_sound k j h =
    let (n, m) = both (k.namespace == j.namespace) (k.name == j.name) h in
    ap (λ x. record { namespace = x; name = k.name }) (==_sound k.namespace j.namespace n)
    ∙ ap (λ x. record { namespace = j.namespace; name = x }) (==_sound k.name j.name m)

-- The part of a stored object that was sent.
abbrev pub sent_at : {O C : Type 0} → (O → C) → Option O → Option C
sent_at sent none = none
sent_at sent (some o) = some (sent o)

-- The object that was there, or the new one.
abbrev pub kept_or : {O C : Type 0} → (O → C) → Option O → O → C
kept_or sent none o = sent o
kept_or sent (some x) o = sent x

module _ {W O C : Type 0} (store : Store W O) (key_of : O → Key) (sent : O → C)
    (fresh : O → O → Bool) (view : W → Key → Option O)
    (lawful : IsLawful store key_of sent fresh view) where
  pub created :
      (o : O) (w : W) (v : Option O)
      → view w (key_of o) ≡ v
      → (o' : O) × (w' : W) × (create_if_not_exists store o w ≡ (ok o', w'))
        × (sent_at sent (view w' (key_of o)) ≡ some (kept_or sent v o))
  unfolding create_if_not_exists after_create pure
  created o w none e =
      let (o', w', made, same, there) = lawful.create-none o w e in
      (
        o',
        w',
        attempt-resume (store.create o) _ w ∙ rw made refl,
        rw (there (key_of o), same_key_refl (key_of o)) (ap some same),
      )
  created o w (some x) e =
      (o, w, attempt-resume (store.create o) _ w ∙ rw (lawful.create-some o x w e) refl, rw e refl)

  -- Creating what may be there succeeds over a lawful store. What is stored under the key is then the
  -- object that was there before, or else the new one.
  pub create_if_not_exists_lem :
      (o : O) (w : W)
      → (o' : O) × (w' : W) × (create_if_not_exists store o w ≡ (ok o', w'))
        × (sent_at sent (view w' (key_of o)) ≡ some (kept_or sent (view w (key_of o)) o))
  create_if_not_exists_lem o w = created o w (view w (key_of o)) refl

  deleted :
      (o : O) (w : W) (v : Option O)
      → view w (key_of o) ≡ v
      → (w' : W) × (delete_or_absent store o w ≡ (ok tt, w')) × (view w' (key_of o) ≡ none)
  unfolding delete_or_absent after_delete pure
  deleted o w none e =
      (w, attempt-resume (store.delete o) _ w ∙ rw (lawful.delete-none o w e) refl, e)
  deleted o w (some x) e =
      let (w', gone, there) = lawful.delete-some o x w e in
      (
        w',
        attempt-resume (store.delete o) _ w ∙ rw gone refl,
        rw (there (key_of o), same_key_refl (key_of o)) refl,
      )

  -- Deleting what may be absent succeeds over a lawful store, and nothing is stored under the key
  -- afterwards.
  pub delete_or_absent_lem :
      (o : O) (w : W)
      → (w' : W) × (delete_or_absent store o w ≡ (ok tt, w')) × (view w' (key_of o) ≡ none)
  delete_or_absent_lem o w = deleted o w (view w (key_of o)) refl

  deleted_beside :
      (o : O) (w : W) (k : Key) (v : Option O)
      → view w (key_of o) ≡ v
      → same_key (key_of o) k ≡ false
      → view (delete_or_absent store o w).1 k ≡ view w k
  unfolding delete_or_absent after_delete pure
  deleted_beside o w k none e f =
      ap (λ r. view r.1 k)
        (attempt-resume (store.delete o) (after_delete store) w
          ∙ ap (λ r. resume r (after_delete store)) (lawful.delete-none o w e))
  deleted_beside o w k (some x) e f =
      let (w', gone, there) = lawful.delete-some o x w e in
      ap (λ r. view r.1 k)
        (attempt-resume (store.delete o) (after_delete store) w
          ∙ ap (λ r. resume r (after_delete store)) gone)
      ∙ there k
      ∙ rw f refl

  -- A deletion leaves what is under other keys.
  pub delete_or_absent_beside :
      (o : O) (w : W) (k : Key)
      → same_key (key_of o) k ≡ false
      → view (delete_or_absent store o w).1 k ≡ view w k
  delete_or_absent_beside o w k = deleted_beside o w k (view w (key_of o)) refl

abbrev pub config_map_key : ConfigMap → Key
config_map_key cm = record { namespace = cm.namespace; name = cm.name }

-- An update is refused unless it names the stored version.
abbrev pub same_version : ConfigMap → ConfigMap → Bool
same_version x cm = x.resource_version == cm.resource_version

abbrev pub config_map_contents : ConfigMap → List (Bytes × Bytes)
config_map_contents cm = cm.contents

module _ {W : Type 0} (k8s : Cluster W) (view : W → Key → Option ConfigMap)
    (lawful : IsLawful k8s.config_maps config_map_key config_map_contents same_version view) where
  put :
      (cm : ConfigMap) (w : W) (v : Option ConfigMap)
      → view w (config_map_key cm) ≡ v
      → (cm' : ConfigMap) × (w' : W) × (create_or_update_config_map k8s cm w ≡ (ok cm', w'))
        × (sent_at config_map_contents (view w' (config_map_key cm)) ≡ some cm.contents)
  unfolding create_or_update_config_map update_over_config_map
  put cm w none e =
      let (o', w', made, same) =
        created k8s.config_maps config_map_key config_map_contents same_version view lawful cm w
          none e in
      (
        o',
        w',
        attempt-resume (k8s.config_maps.get (config_map_key cm)) _ w
            ∙ rw (lawful.get-none (config_map_key cm) w e) made,
        same,
      )
  put cm w (some x) e =
      let current : ConfigMap = record cm { resource_version = x.resource_version } in
      let (o', w', saved, same, there) =
        lawful.update-some current x w e (==_refl x.resource_version) in
      (
        o',
        w',
        attempt-resume (k8s.config_maps.get (config_map_key cm)) _ w
            ∙ rw (lawful.get-some (config_map_key cm) w x e) saved,
        rw (there (config_map_key cm), same_key_refl (config_map_key cm)) (ap some same),
      )

  -- Over a lawful store, `CreateOrUpdateConfigMap` is a put: it succeeds whether or not the config map
  -- is there, whatever version is, and what is stored under its key then has its contents.
  pub create_or_update_config_map_lem :
      (cm : ConfigMap) (w : W)
      → (cm' : ConfigMap) × (w' : W) × (create_or_update_config_map k8s cm w ≡ (ok cm', w'))
        × (sent_at config_map_contents (view w' (config_map_key cm)) ≡ some cm.contents)
  create_or_update_config_map_lem cm w = put cm w (view w (config_map_key cm)) refl

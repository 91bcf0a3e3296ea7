-- ===== src/Common/Settings.antt =====
-- What `EnsureConfig` of pkg/controllers/common/config.go leaves on the nodes.
use kvrocks_operator.Base.{
  Bytes, Bool, true, false, List, [], ◌∷◌, ◌≡◌, refl, sym, ap, ◌∙◌, ◌⊎◌, ◌≢◌, subst, arith, any,
  codes, ◌||◌, ◌&&◌, Bool-cases, inl, inr, ==_sound, ◌==◌, bytes_eq, if◌then◌else◌,
}
use kvrocks_operator.Base.Exec.{ok, pure, for_each, ◌>>=◌}
use kvrocks_operator.Api.{Labels, Kvrocks}
use kvrocks_operator.Kvrocks.{Node}
use kvrocks_operator.Client.Kv.{Kv}
use kvrocks_operator.Client.Env.{Env}
use kvrocks_operator.Resources.Configs.{unchangeable, parse_kvrocks_configs}
use kvrocks_operator.Common.{ensure_setting, ensure_node_config, ensure_config}

-- The settings that `ChangePassword` writes.
abbrev pub is_secret : Bytes → Bool
is_secret key = key == codes "masterauth" || key == codes "requirepass"

-- Nodes that answer, and have a value for each setting; a new password is the value of both secrets.
pub record Answers {W : Type 0} (kv : Kv W) (value : W → Bytes → Bytes → Bytes) : Type 0 where
  pub get :
      (ip password key : Bytes) (w : W) → kv.get_config ip password key w ≡ (ok (value w ip key), w)
  pub set :
      (ip password key v : Bytes) (w : W)
      → (w' : W) × (kv.set_config ip password key v w ≡ (ok tt, w'))
        × ((j k : Bytes) → value w' j k ≡ (if ip == j && key == k then v else value w j k))
  pub change :
      (ip password new : Bytes) (w : W)
      → (w' : W) × (kv.change_password ip password new w ≡ (ok tt, w'))
        × ((j k : Bytes) → value w' j k ≡ (if ip == j && is_secret k then new else value w j k))

-- A value under a list of settings: the last one of the key, or the value that was there.
abbrev pub under : Labels → Bytes → Bytes → Bytes
under [] k d = d
under ((key, v) ∷ settings) k d = under settings k (if key == k then v else d)

written_there :
    (f : Bytes → Bytes → Bytes) (ip j key k v : Bytes) (b c : Bool)
    → (ip == j) ≡ b
    → (key == k) ≡ c
    → f ip key ≡ v
    → f j k ≡ (if b && c then v else f j k)
written_there f ip j key k v true true hb hc e =
    sym (ap (λ x. f x k) (==_sound ip j hb)) ∙ sym (ap (λ x. f ip x) (==_sound key k hc)) ∙ e
written_there f ip j key k v true false hb hc e = refl
written_there f ip j key k v false c hb hc e = refl

-- A value that is there already need not be written.
unwritten :
    (f : Bytes → Bytes → Bytes) (ip j key k v : Bytes)
    → f ip key ≡ v
    → f j k ≡ (if ip == j && key == k then v else f j k)
unwritten f ip j key k v e = written_there f ip j key k v (ip == j) (key == k) refl refl e

one_more :
    (b c : Bool) (rest : Labels) (k v d : Bytes)
    → (if b then under rest k (if b && c then v else d) else (if b && c then v else d))
      ≡ (if b then under rest k (if c then v else d) else d)
one_more true c rest k v d = refl
one_more false c rest k v d = refl

-- Either a setting has the key, or none has.
decided :
    (settings : Labels) (k : Bytes)
    → ((d e : Bytes) → under settings k d ≡ under settings k e)
      ⊎ ((d : Bytes) → under settings k d ≡ d)
decided [] k = inr (λ d. refl)
decided ((key, v) ∷ settings) k = elim (decided settings k) [
  | inl h ↦ inl (λ d e. h (if key == k then v else d) (if key == k then v else e))
  | inr h ↦ elim (Bool-cases (key == k)) [
    | inl t ↦ inl (λ d e. rw (under, t) refl)
    | inr f ↦ inr (λ d. rw (under, f) (h d))
  ]
]

under_twice :
    (settings : Labels) (k d : Bytes) → under settings k (under settings k d) ≡ under settings k d
under_twice settings k d = elim (decided settings k) [
  | inl h ↦ h (under settings k d) d
  | inr h ↦ h (under settings k d)
]

same_if : (b : Bool) (d : Bytes) → d ≡ (if b then d else d)
same_if true d = refl
same_if false d = refl

is_secret-unchangeable : (k : Bytes) → is_secret k ≡ true → unchangeable k ≡ true
unfolding unchangeable
is_secret-unchangeable k h = elim (Bool-cases (k == codes "masterauth")) [
  | inl t ↦ subst (λ x. unchangeable x ≡ true) (sym (==_sound k (codes "masterauth") t)) refl
  | inr f ↦ elim (Bool-cases (k == codes "requirepass")) [
    | inl t ↦ subst (λ x. unchangeable x ≡ true) (sym (==_sound k (codes "requirepass") t)) refl
    | inr g ↦ absurd (neither k f g h)
  ]
]
  where
    neither :
        (k : Bytes)
        → (k == codes "masterauth") ≡ false
        → (k == codes "requirepass") ≡ false
        → is_secret k ≢ true
    neither k f g h = ground (arith, f, g, h)

-- The settings that are written hold no secret.
under-parse_kvrocks_configs :
    (config : Labels) (k d : Bytes)
    → unchangeable k ≡ true
    → under (parse_kvrocks_configs config) k d ≡ d
unfolding parse_kvrocks_configs
under-parse_kvrocks_configs [] k d h = refl
under-parse_kvrocks_configs ((key, v) ∷ config) k d h = elim (Bool-cases (unchangeable key)) [
  | inl t ↦ rw t (under-parse_kvrocks_configs config k d h)
  | inr f ↦ elim (Bool-cases (key == k)) [
    | inl e ↦ absurd (differ key k (==_sound key k e) f h)
    | inr g ↦ rw (f, under, g) (under-parse_kvrocks_configs config k d h)
  ]
]
  where
    differ : (key k : Bytes) → key ≡ k → unchangeable key ≡ false → unchangeable k ≢ true
    differ key k e f h = cc

-- What a node should have: the password of the specification for a secret, unless the operator holds
-- that password already, and the value under the settings for another key.
abbrev pub wanted : Bool → Bool → Bytes → Labels → Bytes → Bytes → Bytes
wanted same secret new settings k d =
    if secret then (if same then d else new) else under settings k d

wanted_twice :
    (same secret : Bool) (new : Bytes) (settings : Labels) (k d : Bytes)
    → wanted same secret new settings k (wanted same secret new settings k d)
      ≡ wanted same secret new settings k d
wanted_twice true true new settings k d = refl
wanted_twice false true new settings k d = refl
wanted_twice same false new settings k d = under_twice settings k d

one_node :
    (same secret b c : Bool) (new : Bytes) (settings : Labels) (k d : Bytes)
    → (if c
        then wanted same secret new settings k
            (if b then wanted same secret new settings k d else d)
        else (if b then wanted same secret new settings k d else d))
      ≡ (if b || c then wanted same secret new settings k d else d)
one_node same secret true true new settings k d = wanted_twice same secret new settings k d
one_node same secret true false new settings k d = refl
one_node same secret false true new settings k d = refl
one_node same secret false false new settings k d = refl

one_password :
    (same secret b : Bool) (new : Bytes) (settings : Labels) (k d : Bytes)
    → (secret ≡ true → under settings k d ≡ d)
    → (if same
        then (if b then under settings k d else d)
        else (if b && secret then new else (if b then under settings k d else d)))
      ≡ (if b then wanted same secret new settings k d else d)
one_password true true true new settings k d h = h refl
one_password true true false new settings k d h = refl
one_password true false true new settings k d h = refl
one_password true false false new settings k d h = refl
one_password false true true new settings k d h = refl
one_password false true false new settings k d h = refl
one_password false false true new settings k d h = refl
one_password false false false new settings k d h = refl

module _ {W : Type 0} (env : Env W) (instance_ : Kvrocks) (password : Bytes)
    (value : W → Bytes → Bytes → Bytes) (answers : Answers env.kv value) where
  setting_done :
      (node : Node) (key v : Bytes) (w : W)
      → (w' : W) × (ensure_setting env instance_ password node (key, v) w ≡ (ok tt, w'))
        × ((j k : Bytes) → value w' j k ≡ (if node.ip == j && key == k then v else value w j k))
  unfolding ensure_setting ◌>>=◌ pure
  setting_done node key v w = elim (Bool-cases (value w node.ip key == v)) [
    | inl t ↦ (
      w,
      rw (answers.get node.ip password key w, t) refl,
      λ j k. unwritten (value w) node.ip j key k v (==_sound (value w node.ip key) v t),
    )
    | inr f ↦
        let (w', written, there) = answers.set node.ip password key v w in
        (w', rw (answers.get node.ip password key w, f) written, there)
  ]

  settings_done :
      (node : Node) (settings : Labels) (w : W)
      → (w' : W) × (for_each settings (ensure_setting env instance_ password node) w ≡ (ok tt, w'))
        × ((j k : Bytes)
            → value w' j k ≡ (if node.ip == j then under settings k (value w j k) else value w j k))
  unfolding for_each pure ◌>>=◌
  settings_done node [] w = (w, refl, λ j k. same_if (node.ip == j) (value w j k))
  settings_done node ((key, v) ∷ settings) w =
      let (w1, first, there1) = setting_done node key v w in
      let (w2, later, there2) = settings_done node settings w1 in
      (
        w2,
        rw (for_each, first) later,
        λ j k.
            there2 j k
            ∙ ap (λ d. if node.ip == j then under settings k d else d) (there1 j k)
            ∙ one_more (node.ip == j) (key == k) settings k v (value w j k),
      )

  abbrev settings : Labels
  settings = parse_kvrocks_configs instance_.spec.kvrocks_config

  abbrev held : Bool
  held = password == instance_.spec.password

  abbrev aim : Bytes → Bytes → Bytes
  aim k d = wanted held (is_secret k) instance_.spec.password settings k d

  password_done :
      (same : Bool) (node : Node) (w : W)
      → (w' : W) × ((if same
              then pure tt
              else env.kv.change_password node.ip password instance_.spec.password)
            w
          ≡ (ok tt, w'))
        × ((j k : Bytes)
            → value w' j k ≡ (
                if same
                then value w j k
                else (if node.ip == j && is_secret k
                    then instance_.spec.password
                    else value w j k)))
  unfolding pure
  password_done true node w = (w, refl, λ j k. refl)
  password_done false node w = answers.change node.ip password instance_.spec.password w

  node_done :
      (node : Node) (w : W)
      → (w' : W) × (ensure_node_config env instance_ password node w ≡ (ok tt, w'))
        × ((j k : Bytes)
            → value w' j k ≡ (if node.ip == j then aim k (value w j k) else value w j k))
  unfolding ensure_node_config ◌>>=◌
  node_done node w =
      let (w1, first, there1) = settings_done node settings w in
      let (w2, later, there2) = password_done held node w1 in
      (
        w2,
        rw (ensure_node_config, first) later,
        λ j k.
            there2 j k
            ∙ ap
                (λ d.
                  if held
                  then d
                  else (if node.ip == j && is_secret k then instance_.spec.password else d))
                (there1 j k)
            ∙ one_password held (is_secret k) (node.ip == j) instance_.spec.password settings k
                (value w j k)
                (λ e.
                  under-parse_kvrocks_configs instance_.spec.kvrocks_config k (value w j k)
                    (is_secret-unchangeable k e)),
      )

  nodes_done :
      (nodes : List Node) (w : W)
      → (w' : W) × (ensure_config env instance_ password nodes w ≡ (ok tt, w'))
        × ((j k : Bytes)
            → value w' j k
              ≡ (if any (λ (n : Node). n.ip == j) nodes then aim k (value w j k) else value w j k))
  unfolding ensure_config for_each pure ◌>>=◌
  nodes_done [] w = (w, refl, λ j k. refl)
  nodes_done (node ∷ nodes) w =
      let (w1, first, there1) = node_done node w in
      let (w2, later, there2) = nodes_done nodes w1 in
      (
        w2,
        rw (ensure_config, for_each, first) later,
        λ j k.
            there2 j k
            ∙ ap (λ d. if any (λ (n : Node). n.ip == j) nodes then aim k d else d) (there1 j k)
            ∙ one_node held (is_secret k) (node.ip == j) (any (λ (n : Node). n.ip == j) nodes)
                instance_.spec.password settings k (value w j k),
      )

  -- Over nodes that answer, `EnsureConfig` succeeds. Behind it an address that is none of the nodes'
  -- has its old value of every setting. On a node's address each of the two secrets is the password
  -- of the specification, or as it was if the operator holds that password already; any other
  -- setting has the value that the specification gives it, if it is one that may change, and its old
  -- value otherwise.
  pub ensure_config_lem :
      (nodes : List Node) (w : W) (ip key : Bytes)
      → (w' : W) × (ensure_config env instance_ password nodes w ≡ (ok tt, w'))
        × (value w' ip key ≡ (
            if any (λ (n : Node). n.ip == ip) nodes
            then wanted
                (password == instance_.spec.password)
                (is_secret key)
                instance_.spec.password
                (parse_kvrocks_configs instance_.spec.kvrocks_config)
                key
                (value w ip key)
            else value w ip key))
  ensure_config_lem nodes w ip key =
      let (w', done, there) = nodes_done nodes w in (w', done, there ip key)

-- ===== src/Standard/Replication/Led.antt =====
-- `SlaveOfMaster` and `updateKVRocksRole` of pkg/controllers/standard/kvrocks.go, over nodes and a
-- store of pods that keep what they are told.
use kvrocks_operator.Base.{
  subst, Bytes, Bool, true, false, List, [], ◌∷◌, ◌≡◌, refl, sym, ap, ◌∙◌, Option, All, ==_sound,
  ◌==◌, bytes_eq, if◌then◌else◌,
}
use kvrocks_operator.Base.Exec.{ok, pure, ◌>>=◌}
use kvrocks_operator.Api.{Key, Kvrocks}
use kvrocks_operator.Kvrocks.{Node, role_slaver}
use kvrocks_operator.Client.Objects.{Pod}
use kvrocks_operator.Client.K8s.Lawful.{IsLawful, same_key}
use kvrocks_operator.Client.Env.{Env}
use kvrocks_operator.Resources.Names.{indexed}
use kvrocks_operator.Common.PodRole.Written.{
  pod_key, pod_sent, any_version, role_label, Labelled, set_pod_role-Written,
}
use kvrocks_operator.Standard.State.{StandardHandler, call}
use kvrocks_operator.Standard.Replication.{update_kvrocks_role, slave_of_master}

-- Nodes that follow whom they are told to, and pods that keep their labels, each apart from the
-- other: `master w ip` is the address of the master that the node at `ip` follows, empty for a
-- master.
pub record Replicates {W : Type 0} (env : Env W) (master : W → Bytes → Bytes)
    (pods : W → Key → Option Pod) : Type 0 where
  pub read : (ip password : Bytes) (w : W) → env.kv.get_master ip password w ≡ (ok (master w ip), w)
  pub follow :
      (ip m password : Bytes) (w : W)
      → (w' : W) × (env.kv.slave_of ip m password w ≡ (ok tt, w'))
        × ((j : Bytes) → master w' j ≡ (if ip == j then m else master w j))
        × (pods w' ≡ pods w)
  pub promote :
      (ip password : Bytes) (w : W)
      → (w' : W) × (env.kv.change_myself_to_master ip password w ≡ (ok tt, w'))
        × ((j : Bytes) → master w' j ≡ (if ip == j then [] else master w j))
        × (pods w' ≡ pods w)
  pub lawful : IsLawful env.k8s.pods pod_key pod_sent any_version pods
  pub apart : (p p' : Pod) (w w' : W) → env.k8s.pods.update p w ≡ (ok p', w') → master w' ≡ master w

abbrev pub node_key : Kvrocks → Node → Key
node_key k node = record { namespace = k.namespace; name = indexed k.name node.pod_index }

-- What the nodes follow and the labels of their pods, from one world to the next.
pub record Led {W : Type 0} (master : W → Bytes → Bytes) (pods : W → Key → Option Pod)
    (f : Bytes → Bytes → Bytes) (g : Key → Bytes → Bytes) (w w' : W) : Type 0 where
  pub masters : (j : Bytes) → master w' j ≡ f j (master w j)
  pub roles : (k : Key) → role_label (pods w' k) ≡ g k (role_label (pods w k))
  pub labelled : (k : Key) → Labelled (pods w k) k → Labelled (pods w' k) k

abbrev pub one_role : Key → Bytes → Key → Bytes → Bytes
one_role key role k x = if same_key key k then role else x

abbrev pub one_master : Bytes → Bytes → Bytes → Bytes → Bytes
one_master ip m j x = if ip == j then m else x

at_ip :
    (ip j m : Bytes) (f : Bytes → Bytes) (b : Bool)
    → (ip == j) ≡ b
    → f ip ≡ m
    → f j ≡ (if b then m else f j)
at_ip ip j m f true e h = ap f (sym (==_sound ip j e)) ∙ h
at_ip ip j m f false e h = refl

-- A step that leaves the pods alone.
pub apart-Led :
    {W : Type 0} (master : W → Bytes → Bytes) (pods : W → Key → Option Pod)
    (f : Bytes → Bytes → Bytes) (w w' : W)
    → ((j : Bytes) → master w' j ≡ f j (master w j))
    → pods w' ≡ pods w
    → Led master pods f (λ k x. x) w w'
apart-Led master pods f w w' masters same = record {
  masters = masters;
  roles = λ k. ap (λ pods. role_label (pods k)) same;
  labelled = λ k l. subst (λ (f : Key → Option Pod). Labelled (f k) k) (sym same) l;
}

pub then-Led :
    {W : Type 0} {master : W → Bytes → Bytes} {pods : W → Key → Option Pod}
    {f f' : Bytes → Bytes → Bytes} {g g' : Key → Bytes → Bytes} {w w1 w2 : W}
    → Led master pods f g w w1
    → Led master pods f' g' w1 w2
    → Led master pods (λ j x. f' j (f j x)) (λ k x. g' k (g k x)) w w2
then-Led {f' = f'} {g' = g'} a b = record {
  masters = λ j. b.masters j ∙ ap (f' j) (a.masters j);
  roles = λ k. b.roles k ∙ ap (g' k) (a.roles k);
  labelled = λ k h. b.labelled k (a.labelled k h);
}

-- The nodes' pods have labels.
abbrev pub AllLabelled : {W : Type 0} → (W → Key → Option Pod) → W → Kvrocks → List Node → Type 0
AllLabelled pods w k nodes = All (λ n. Labelled (pods w (node_key k n)) (node_key k n)) nodes

pub still-Labelled :
    {W : Type 0} (pods : W → Key → Option Pod) (k : Kvrocks) (w w' : W)
    → ((key : Key) → Labelled (pods w key) key → Labelled (pods w' key) key)
    → (nodes : List Node) → AllLabelled pods w k nodes
    → AllLabelled pods w' k nodes
still-Labelled pods k w w' keeps [] all = tt
still-Labelled pods k w w' keeps (node ∷ nodes) (l, ls) =
    (keeps (node_key k node) l, still-Labelled pods k w w' keeps nodes ls)

module _ {W : Type 0} (env : Env W) (master : W → Bytes → Bytes) (pods : W → Key → Option Pod)
    (answers : Replicates env master pods) where
  pub role_done :
      (node : Node) (role : Bytes) (h : StandardHandler W)
      → Labelled (pods h.world (node_key h.instance_ node)) (node_key h.instance_ node)
      → (w' : W) × (update_kvrocks_role env node.pod_index role h
          ≡ (ok tt, record h { world = w' }))
        × Led master pods (λ j x. x) (one_role (node_key h.instance_ node) role) h.world w'
  unfolding update_kvrocks_role ◌>>=◌ call
  role_done node role h l =
      let written =
        set_pod_role-Written env pods master answers.lawful answers.apart role
          (node_key h.instance_ node) h.world l in
      (
        written.after,
        rw (written.got, written.set) refl,
        record {
          masters = λ j. ap (λ f. f j) written.apart;
          roles = written.roles;
          labelled = written.labelled;
        },
      )

  pointed :
      (node : Node) (m : Bytes) (b : Bool) (h : StandardHandler W)
      → (master h.world node.ip == m) ≡ b
      → (w' : W) × ((if b then pure tt else call (env.kv.slave_of node.ip m h.password)) h
          ≡ (ok tt, record h { world = w' }))
        × Led master pods (one_master node.ip m) (λ k x. x) h.world w'
  unfolding call pure
  pointed node m true h e = (
    h.world,
    refl,
    record {
      masters = λ j.
          at_ip node.ip j m (master h.world) (node.ip == j) refl
            (==_sound (master h.world node.ip) m e);
      roles = λ k. refl;
      labelled = λ k l. l;
    },
  )
  pointed node m false h e =
      let (w', told, masters, same) = answers.follow node.ip m h.password h.world in
      (w', rw told refl, apart-Led master pods (one_master node.ip m) h.world w' masters same)

  pub follow_done :
      (node : Node) (m : Bytes) (h : StandardHandler W)
      → Labelled (pods h.world (node_key h.instance_ node)) (node_key h.instance_ node)
      → (w' : W) × (slave_of_master env node m h
          ≡ (ok (record node { role = role_slaver }), record h { world = w' }))
        × Led master pods
            (one_master node.ip m)
            (one_role (node_key h.instance_ node) role_slaver)
            h.world
            w'
  unfolding slave_of_master ◌>>=◌ call pure
  follow_done node m h l =
      let (w1, told, led1) = pointed node m (master h.world node.ip == m) h refl in
      let (w2, labelled, led2) =
        role_done node role_slaver (record h { world = w1 })
          (led1.labelled (node_key h.instance_ node) l) in
      (w2, rw (answers.read node.ip h.password h.world, told, labelled) refl, then-Led led1 led2)

  pub promote_done :
      (node : Node) (h : StandardHandler W)
      → (w' : W) × (call (env.kv.change_myself_to_master node.ip h.password) h
          ≡ (ok tt, record h { world = w' }))
        × Led master pods (one_master node.ip []) (λ k x. x) h.world w'
  unfolding call
  promote_done node h =
      let (w', told, masters, same) = answers.promote node.ip h.password h.world in
      (w', rw told refl, apart-Led master pods (one_master node.ip []) h.world w' masters same)

-- ===== src/Standard/Replication/Created.antt =====
-- What `ensureKVRocksReplication` of pkg/controllers/standard/kvrocks.go makes of the nodes of a new
-- instance, over nodes and stores that keep what they are told.
use kvrocks_operator.Base.{
  ap, arith, Bytes, true, List, [], ◌∷◌, ◌≡◌, refl, ◌∙◌, map, any, Option, ◌==◌, bytes_eq,
  if◌then◌else◌,
}
use kvrocks_operator.Base.Exec.{ok, pure, ◌>>=◌}
use kvrocks_operator.Api.{status_running, Key, Kvrocks, is_creating}
use kvrocks_operator.Kvrocks.{Node, role_master, role_slaver}
use kvrocks_operator.Client.K8s.{update_kvrocks}
use kvrocks_operator.Client.Objects.{Pod}
use kvrocks_operator.Client.Env.{Env}
use kvrocks_operator.Common.PodRole.Written.{role_label}
use kvrocks_operator.Standard.Replication.Led.{
  Replicates, node_key, Led, one_role, one_master, AllLabelled, still-Labelled, then-Led, role_done,
  follow_done, promote_done,
}
use kvrocks_operator.Standard.State.{StandardHandler, set_nodes, set_instance, call}
use kvrocks_operator.Standard.Replication.{
  follow_all, create_replication, create_running, ensure_kvrocks_replication,
}

-- A server that takes the instance, keeps its status as it was sent, and does not touch the rest.
pub record Accepts {W : Type 0} (env : Env W) (master : W → Bytes → Bytes)
    (pods : W → Key → Option Pod) (k : Kvrocks) : Type 0 where
  pub saves :
      (w : W)
      → (k' : Kvrocks) × (w' : W) × (update_kvrocks env.k8s k w ≡ (ok k', w'))
        × (k'.status ≡ k.status)
        × (master w' ≡ master w)
        × (pods w' ≡ pods w)

-- The labels of the pods behind nodes that are all slaves.
abbrev pub slaves_after : Kvrocks → List Node → Key → Bytes → Bytes
slaves_after k [] key x = x
slaves_after k (node ∷ nodes) key x =
    slaves_after k nodes key (one_role (node_key k node) role_slaver key x)

abbrev pub enslaved : Node → Node
enslaved node = record node { role = role_slaver }

abbrev masters_after : Bytes → List Node → Bytes → Bytes → Bytes
masters_after m [] j x = x
masters_after m (node ∷ nodes) j x = masters_after m nodes j (one_master node.ip m j x)

followed :
    (m : Bytes) (nodes : List Node) (j x : Bytes)
    → masters_after m nodes j x ≡ (if any (λ (n : Node). n.ip == j) nodes then m else x)
followed m [] j x = refl
followed m (node ∷ nodes) j x =
    ground (arith, followed m nodes j x, followed m nodes j (one_master node.ip m j x))

abbrev pub running : Kvrocks → Kvrocks
running k = record k { status = record k.status { status = status_running } }

module _ {W : Type 0} (env : Env W) (master : W → Bytes → Bytes) (pods : W → Key → Option Pod)
    (answers : Replicates env master pods) where
  follow_all_done :
      (nodes : List Node) (m : Bytes) (h : StandardHandler W)
      → AllLabelled pods h.world h.instance_ nodes
      → (w' : W) × (follow_all env nodes m h ≡ (ok (map enslaved nodes), record h { world = w' }))
        × Led master pods (masters_after m nodes) (slaves_after h.instance_ nodes) h.world w'
  unfolding follow_all ◌>>=◌ pure
  follow_all_done [] m h all =
      (h.world, refl, record { masters = λ j. refl; roles = λ k. refl; labelled = λ k l. l })
  follow_all_done (node ∷ nodes) m h (l, ls) =
      let (w1, first, led1) = follow_done env master pods answers node m h l in
      let (w2, later, led2) =
        follow_all_done nodes m (record h { world = w1 })
          (still-Labelled pods h.instance_ h.world w1 led1.labelled nodes ls) in
      (w2, rw (first, later) refl, then-Led led1 led2)

  create_done :
      (node : Node) (nodes : List Node) (h : StandardHandler W)
      → AllLabelled pods h.world h.instance_ (node ∷ nodes)
      → (w' : W) × (create_replication env (node ∷ nodes) h
          ≡ (ok (record node { role = role_master } ∷ map enslaved nodes), record h { world = w' }))
        × Led master pods
            (λ j x. masters_after node.ip nodes j (one_master node.ip [] j x))
            (λ key x.
              slaves_after h.instance_ nodes key
                (one_role (node_key h.instance_ node) role_master key x))
            h.world
            w'
  unfolding create_replication ◌>>=◌ pure
  create_done node nodes h (l, ls) =
      let (w1, told, led1) = promote_done env master pods answers node h in
      let (w2, labelled, led2) =
        role_done env master pods answers node role_master (record h { world = w1 })
          (led1.labelled (node_key h.instance_ node) l) in
      let led12 = then-Led led1 led2 in
      let (w3, rest, led3) =
        follow_all_done nodes node.ip (record h { world = w2 })
          (still-Labelled pods h.instance_ h.world w2 led12.labelled nodes ls) in
      (w3, rw (told, labelled, rest) refl, then-Led led12 led3)

  -- The first pass over the replication of a new instance whose pods have labels, over a server that
  -- takes the instance, goes through: the instance is running, its first node is the master and the
  -- others are slaves, the address of one of the others follows the first node's, the first node's
  -- address nobody unless another node has it, other addresses follow what they followed before, and
  -- each node's pod is labelled with its role, a pod of several nodes as the last one of them, other
  -- pods as before.
  pub ensure_kvrocks_replication_new :
      (h : StandardHandler W) (node : Node) (nodes : List Node)
      → h.sts_nodes ≡ node ∷ nodes
      → is_creating h.instance_.status.status ≡ true
      → Accepts env master pods (running h.instance_)
      → AllLabelled pods h.world h.instance_ (node ∷ nodes)
      → (k' : Kvrocks) × (w' : W) × (ensure_kvrocks_replication env h ≡ (
        ok tt,
        record h {
          instance_ = k';
          sts_nodes = record node { role = role_master } ∷ map enslaved nodes;
          world = w';
        },
      ))
        × (k'.status ≡ (running h.instance_).status)
        × ((j : Bytes)
            → master w' j ≡ (
                if any (λ (n : Node). n.ip == j) nodes
                then node.ip
                else one_master node.ip [] j (master h.world j)))
        × ((key : Key)
            → role_label (pods w' key)
              ≡ slaves_after h.instance_ nodes key (
                  one_role
                    (node_key h.instance_ node)
                    role_master
                    key
                    (role_label (pods h.world key))))
  unfolding ensure_kvrocks_replication create_running set_nodes set_instance call ◌>>=◌ pure
  ensure_kvrocks_replication_new h node nodes e creating accepts all =
      let (w1, created, led1) = create_done node nodes h all in
      let (k', w2, saved, same, apart, beside) = accepts.saves w1 in
      (
        k',
        w2,
        rw (creating, ap (λ ns. create_replication env ns h) e ∙ created, saved) refl,
        same,
        λ j.
            ap (λ f. f j) apart
            ∙ led1.masters j
            ∙ followed node.ip nodes j (one_master node.ip [] j (master h.world j)),
        λ key. ap (λ f. role_label (f key)) beside ∙ led1.roles key,
      )

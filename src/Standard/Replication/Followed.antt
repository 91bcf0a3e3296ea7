-- ===== src/Standard/Replication/Followed.antt =====
-- What `ensureKVRocksReplication` of pkg/controllers/standard/kvrocks.go makes of the nodes of an
-- instance, over nodes and a store of pods that keep what they are told.
use kvrocks_operator.Base.{
  arith, bytes_beq_iff, Bytes, Bool, true, false, List, [], ◌∷◌, ◌≡◌, refl, ◌∙◌, map, any, not,
  Option, none, ◌==◌, ◌&&◌, bytes_eq, if◌then◌else◌,
}
use kvrocks_operator.Base.Exec.{ok, pure, ◌>>=◌, ◌>>◌}
use kvrocks_operator.Api.{Key, Kvrocks, is_creating, kvrocks_finalizer}
use kvrocks_operator.Base.Maps.{lookup}
use kvrocks_operator.Resources.Labels.{monitored_by}
use kvrocks_operator.Kvrocks.{Node, role_master, role_slaver}
use kvrocks_operator.Client.Objects.{Pod}
use kvrocks_operator.Client.K8s.Lawful.{same_key}
use kvrocks_operator.Client.Env.{Env}
use kvrocks_operator.Common.PodRole.Written.{role_label, Labelled}
use kvrocks_operator.Standard.Replication.Led.{
  Replicates, node_key, Led, one_role, one_master, AllLabelled, still-Labelled, then-Led, role_done,
  follow_done,
}
use kvrocks_operator.Standard.State.{StandardHandler, set_nodes}
use kvrocks_operator.Standard.Replication.{
  find_master, lift_result, update_kvrocks_role, slave_of_master, repair_all, ensure_finalizer,
  notify, repair_running, ensure_kvrocks_replication,
}

-- The labels of the pods behind the nodes, each with its role.
abbrev pub roles_after : Kvrocks → Bytes → List Node → Key → Bytes → Bytes
roles_after k m [] key x = x
roles_after k m (node ∷ nodes) key x = roles_after k m nodes key (
    if same_key (node_key k node) key
    then (if node.ip == m then role_master else role_slaver)
    else x)

-- A node that is not at the master's address is a slave.
abbrev pub assigned : Bytes → Node → Node
assigned m node = if node.ip == m then node else record node { role = role_slaver }

abbrev masters_after : Bytes → List Node → Bytes → Bytes → Bytes
masters_after m [] j x = x
masters_after m (node ∷ nodes) j x =
    masters_after m nodes j (if node.ip == m then x else one_master node.ip m j x)

followed :
    (m : Bytes) (nodes : List Node) (j x : Bytes)
    → masters_after m nodes j x
      ≡ (if any (λ (n : Node). n.ip == j) nodes && not (j == m) then m else x)
followed m [] j x = refl
followed m (node ∷ nodes) j x = ground (
  arith,
  bytes_beq_iff node.ip m,
  bytes_beq_iff node.ip j,
  bytes_beq_iff j m,
  followed m nodes j x,
  followed m nodes j (one_master node.ip m j x),
)

module _ {W : Type 0} (env : Env W) (master : W → Bytes → Bytes) (pods : W → Key → Option Pod)
    (answers : Replicates env master pods) where
  -- One node of a running instance.
  one_done :
      (node : Node) (m : Bytes) (b : Bool) (h : StandardHandler W)
      → Labelled (pods h.world (node_key h.instance_ node)) (node_key h.instance_ node)
      → (w' : W) × ((if b
              then (do update_kvrocks_role env node.pod_index role_master; pure node)
              else slave_of_master env node m)
            h
          ≡ (ok (if b then node else record node { role = role_slaver }), record h { world = w' }))
        × Led master pods
            (λ j x. if b then x else one_master node.ip m j x)
            (one_role (node_key h.instance_ node) (if b then role_master else role_slaver))
            h.world
            w'
  unfolding ◌>>=◌ pure
  one_done node m true h l =
      let (w', labelled, led) = role_done env master pods answers node role_master h l in
      (w', rw labelled refl, led)
  one_done node m false h l = follow_done env master pods answers node m h l

  repair_done :
      (nodes : List Node) (m : Bytes) (h : StandardHandler W)
      → AllLabelled pods h.world h.instance_ nodes
      → (w' : W) × (repair_all env nodes m h
          ≡ (ok (map (assigned m) nodes), record h { world = w' }))
        × Led master pods (masters_after m nodes) (roles_after h.instance_ m nodes) h.world w'
  unfolding repair_all ◌>>=◌ pure
  repair_done [] m h all =
      (h.world, refl, record { masters = λ j. refl; roles = λ k. refl; labelled = λ k l. l })
  repair_done (node ∷ nodes) m h (l, ls) =
      let (w1, first, led1) = one_done node m (node.ip == m) h l in
      let (w2, later, led2) =
        repair_done nodes m (record h { world = w1 })
          (still-Labelled pods h.instance_ h.world w1 led1.labelled nodes ls) in
      (w2, rw (first, later) refl, then-Led led1 led2)

  -- A pass over the replication of an instance that runs, has its finalizer and is not monitored,
  -- where its nodes give one master's address and their pods have labels, goes through: the nodes at
  -- other addresses are slaves, an address follows the master just when it is that of a node and not
  -- the master's own, and otherwise follows what it followed before, and each node's pod is labelled
  -- with its role, a pod of several nodes as the last one of them, other pods as before.
  pub ensure_kvrocks_replication-Led :
      (h : StandardHandler W) (m : Bytes)
      → is_creating h.instance_.status.status ≡ false
      → find_master h.sts_nodes [] ≡ ok m
      → (m == []) ≡ false
      → any (λ f. f == kvrocks_finalizer) h.instance_.finalizers ≡ true
      → lookup monitored_by h.instance_.labels ≡ none
      → AllLabelled pods h.world h.instance_ h.sts_nodes
      → (w' : W) × (ensure_kvrocks_replication env h
          ≡ (ok tt, record h { world = w'; sts_nodes = map (assigned m) h.sts_nodes }))
        × ((j : Bytes)
            → master w' j ≡ (
                if any (λ (n : Node). n.ip == j) h.sts_nodes && not (j == m)
                then m
                else master h.world j))
        × ((key : Key)
            → role_label (pods w' key)
              ≡ roles_after h.instance_ m h.sts_nodes key (role_label (pods h.world key)))
  unfolding ensure_kvrocks_replication repair_running ensure_finalizer notify lift_result set_nodes
      ◌>>=◌ pure
  ensure_kvrocks_replication-Led h m running found some_master final free all =
      let (w', repaired, led) = repair_done h.sts_nodes m h all in
      (
        w',
        rw (running, found, some_master, repaired, final, free) refl,
        λ j. led.masters j ∙ followed m h.sts_nodes j (master h.world j),
        led.roles,
      )

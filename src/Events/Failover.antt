-- ===== src/Events/Failover.antt =====
-- `handleFailover` of pkg/controllers/events/handler.go, which runs under the event lock.
pub mod Consistent
pub mod Counting
pub mod Drained
pub mod Marked
pub mod Settled
use kvrocks_operator.Base.{
  ℕ, ◌+◌, Bytes, Bool, true, false, List, [], ◌∷◌, map, codes, Option, none, some, get_elem?, set,
  ltb, not, ◌==◌, bytes_eq, if◌then◌else◌,
}
use kvrocks_operator.Base.Exec.{
  Error, Result, Exec, ok, err, panic, pure, crash, gets, attempt, or_crash, ◌>>=◌, ◌>>◌,
}
use kvrocks_operator.Api.{Kvrocks, Status, Topology, is_cluster, is_failed, status_failed}
use kvrocks_operator.Kvrocks.{role_master, role_slaver}
use kvrocks_operator.Client.K8s.{get_kvrocks, update_kvrocks}
use kvrocks_operator.Client.Controller.{
  Member, ShardData, Endpoint, set_end_point, failover_shard, get_nodes,
}
use kvrocks_operator.Client.Env.{Env}
use kvrocks_operator.Resources.Names.{indexed, parse_redis_name}
use kvrocks_operator.Common.{remove_monitor}
use kvrocks_operator.Cluster.Roles.{master_member}
use kvrocks_operator.Events.Queue.{EventMessage, MessageQueue, forget, requeue}

-- What the events share: the queue and the controller client.
pub record EventState (W : Type 0) : Type 0 where
  pub messages : MessageQueue
  pub endpoint : Endpoint
  pub world : W

abbrev pub Run : Type 0 → Type 0 → Type 0
Run W A = Exec (EventState W) A

-- Whether the address is that of a master that is not failed over yet; the first such entry decides.
unfoldable pub is_master_failover : Bytes → List Topology → Bool
is_master_failover ip [] = false
is_master_failover ip (topo ∷ topoes) =
    let rest = is_master_failover ip topoes in
    if topo.failover then rest else if topo.ip == ip then topo.role == role_master else rest

-- One member against one entry.
unfoldable pub meet_member : Bytes → Bytes → Topology → Member → Topology
meet_member ip master_id topo m =
    if topo.node_id == m.id
    then record topo {
      failover = topo.ip == ip;
      role = m.role;
      master_id = if m.role == role_slaver then master_id else topo.master_id;
    }
    else record topo { failover = if topo.ip == ip then true else topo.failover }

unfoldable pub meet_members : Bytes → Bytes → List Member → Topology → Topology
unfolding meet_member
meet_members ip master_id [] topo = topo
meet_members ip master_id (m ∷ members) topo =
    meet_members ip master_id members (meet_member ip master_id topo m)

-- The instance after a failover in one partition; none where it has no such partition.
unfoldable pub failed_over : Bytes → Bytes → List Member → ℕ → Kvrocks → Option Kvrocks
unfolding meet_members
failed_over ip master_id members partition k = elim (get_elem? k.status.topo partition) [
  | none ↦ none
  | some part ↦ some (record k {
    status = record k.status {
      topo =
          set k.status.topo partition
            (record part { topology = map (meet_members ip master_id members) part.topology });
      version = k.status.version + 1;
    };
  })
]

-- A status that holds nothing but the failure.
unfoldable pub failed_status : Bytes → Status
failed_status reason = record {
  status = status_failed;
  reason = reason;
  version = 0;
  rebalance = false;
  topo = [];
  shrink = none;
}

abbrev pub err_no_suitable_slaver : Bytes
err_no_suitable_slaver = codes "ErrNoSuitableSlaver"

abbrev pub err_no_master : Bytes
err_no_master = codes "ErrNoMaster"

-- `err` and `requeue` as the deferred function finds them.
pub record Verdict : Type 0 where
  pub error : Option Error
  pub requeue : Bool

abbrev dropped : Option Error → Verdict
dropped e = record { error = e; requeue = false }

abbrev retried : Option Error → Verdict
retried e = record { error = e; requeue = true }

-- The deferred function: an error sends the message round again before its time is out.
unfoldable pub settle : EventMessage → MessageQueue → ℕ → Verdict → MessageQueue
unfolding requeue forget
settle msg q now v = elim v.error [
  | none ↦ forget q msg.ip
  | some e ↦
      if ltb now msg.timeout
      then (if v.requeue then requeue q msg else forget q msg.ip)
      else forget q msg.ip
]

module _ {W : Type 0} where
  returned : {A : Type 0} → EventState W → Result A × W → Result A × EventState W
  returned s (r, w) = (r, record s { world = w })

  call : {A : Type 0} → Exec W A → Run W A
  unfolding returned
  call m s = returned s (m s.world)

  set_endpoint : Endpoint → Run W Unit
  set_endpoint e s = (ok tt, record s { endpoint = e })

  set_messages : MessageQueue → Run W Unit
  set_messages q s = (ok tt, record s { messages = q })

module _ {W : Type 0} (env : Env W) (msg : EventMessage) where
  -- Behind the update that writes a failure.
  after_failure : Result Kvrocks → Run W Verdict
  after_failure (ok _) = pure (dropped none)
  after_failure (err e) = pure (retried (some e))
  after_failure panic = crash

  fail : Kvrocks → Bytes → Run W Verdict
  unfolding ◌>>=◌ attempt call after_failure failed_status
  fail k reason = do
    saved ← attempt (call (update_kvrocks env.k8s (record k { status = failed_status reason })))
    after_failure saved

  after_update : Result Kvrocks → Run W Verdict
  after_update (ok _) = pure (retried none)
  after_update (err e) = pure (retried (some e))
  after_update panic = crash

  write_topology : Kvrocks → List Member → Bytes → Run W Verdict
  unfolding ◌>>=◌ attempt call after_update fail failed_over
  write_topology k members [] = fail k err_no_master
  write_topology k members (c ∷ id) = do
    k' ← or_crash (failed_over msg.ip (c ∷ id) members msg.partition k)
    saved ← attempt (call (update_kvrocks env.k8s k'))
    after_update saved

  -- The controller's answer; a shard that it does not have is a nil pointer.
  with_shard : Kvrocks → Result (Option ShardData) → Run W Verdict
  unfolding write_topology master_member
  with_shard k (ok (some shard)) = write_topology k shard.nodes (master_member shard.nodes)
  with_shard k (ok none) = crash
  with_shard k (err e) = pure (retried (some e))
  with_shard k panic = crash

  after_failover : Kvrocks → Result (Unit {0}) → Run W Verdict
  unfolding ◌>>=◌ attempt call with_shard fail is_master_failover
  after_failover k (ok _) = do
    part ← or_crash (get_elem? k.status.topo msg.partition)
    if is_master_failover msg.ip part.topology
        then (do
          call (remove_monitor env k (indexed (parse_redis_name msg.key.name).1 msg.partition))
          pure tt)
        else pure tt
    endpoint ← gets (λ s. s.endpoint)
    found ← attempt (call (get_nodes env.http endpoint msg.partition))
    with_shard k found
  after_failover k (err _) = fail k err_no_suitable_slaver
  after_failover k panic = crash

  with_endpoint : Kvrocks → Result Endpoint → Run W Verdict
  unfolding ◌>>=◌ attempt call set_endpoint after_failover
  with_endpoint k (ok endpoint) = do
    set_endpoint endpoint
    failed ← attempt (call (failover_shard env.http endpoint msg.partition))
    after_failover k failed
  with_endpoint k (err e) = pure (retried (some e))
  with_endpoint k panic = crash

  with_instance : Result Kvrocks → Run W Verdict
  unfolding ◌>>=◌ attempt call with_endpoint
  with_instance (ok k) =
      if not (is_cluster k.spec.type)
      then pure (dropped none)
      else if k.deleting
      then pure (dropped none)
      else if is_failed k.status.status
      then pure (dropped none)
      else (do
        endpoint ← gets (λ s. s.endpoint)
        found ← attempt (call (set_end_point env.http k.namespace env.k8s endpoint))
        with_endpoint k found)
  with_instance (err e) = pure (dropped (some e))
  with_instance panic = crash

  -- `handleFailover`
  unfoldable pub handle_failover : Run W Unit
  unfolding ◌>>=◌ attempt call with_instance settle set_messages
  handle_failover = do
    found ← attempt (call (get_kvrocks env.k8s msg.key))
    verdict ← with_instance found
    now ← call env.now
    q ← gets (λ s. s.messages)
    set_messages (settle msg q now verdict)

-- ===== src/Cluster/Failover/Reported.antt =====
-- `ensureFailover` of pkg/controllers/cluster/kvrocks.go and the nodes that do not answer.
use kvrocks_operator.Base.{
  ℕ, suc, ◌+◌, Bytes, Bool, true, false, List, [], ◌∷◌, ◌++◌, ◌≡◌, refl, sym, ap, ◌∙◌, subst, arith,
  Option, none, some, any, not, ◌&&◌, ◌||◌, ◌==◌, bytes_eq, ==_refl, ==_sound, Bool-cases, inl, inr,
  if◌then◌else◌,
}
use kvrocks_operator.Base.Exec.{ok, pure, gets, ◌>>=◌, ◌>>◌, crash}
use kvrocks_operator.Base.Exec.Preserves.{Preserves-at, Preserves-bind, Preserves-pure}
use kvrocks_operator.Base.Exec.Ensures.{Post, Post-bind, Post-state}
use kvrocks_operator.Kvrocks.{Node}
use kvrocks_operator.Client.K8s.Puts.{both}
use kvrocks_operator.Client.Env.{Env}
use kvrocks_operator.Events.Queue.{EventMessage, MessageQueue, has_key, add, failover_message}
use kvrocks_operator.Cluster.State.{
  Shard, ClusterHandler, Run, call, set_requeue, set_messages, set_nodes, set_version, each_node,
  each_shard,
}
use kvrocks_operator.Cluster.State.Messages.{
  QueueKept, QueueKept-call, QueueKept-each_node, QueueKept-each_shard, queue_rules,
}
use kvrocks_operator.Cluster.Topology.{ensure_status_topo_msg}
use kvrocks_operator.Cluster.Topology.Messages.{QueueKept-ensure_status_topo_msg}
use kvrocks_operator.Cluster.Failover.Messages.{Closed, QueueKept-fail_over_node}
use kvrocks_operator.Cluster.Failover.{send_failover_msg, watch, fail_over_node, ensure_failover}

-- A node at the address that is not marked as failed over.
abbrev pub watched : Bytes → Option Node → Bool
watched ip none = false
watched ip (some node) = node.ip == ip && not node.failover

-- A message for the address waits in the queue.
abbrev pub waits : Bytes → MessageQueue → Bool
waits ip q = any (λ m. m.ip == ip) q.message

-- If the address has a key, a message for it waits.
abbrev pub backed : Bytes → MessageQueue → Bool
backed ip q = not (has_key q ip) || waits ip q

any-append :
    (f : EventMessage → Bool) (ms : List EventMessage) (m : EventMessage)
    → any f (ms ++ m ∷ []) ≡ (any f ms || f m)
any-append f [] m = ground arith
any-append f (x ∷ ms) m = ground (arith, any-append f ms m)

abbrev Waits : Bytes → MessageQueue → Type 0
Waits ip q = waits ip q ≡ true

abbrev Backed : Bytes → MessageQueue → Type 0
Backed ip q = backed ip q ≡ true

or_left : (b c : Bool) → b ≡ true → (b || c) ≡ true
or_left true c h = refl
or_left false c h = cc

or_right : (b c : Bool) → c ≡ true → (b || c) ≡ true
or_right true c h = refl
or_right false c h = h

Closed-Waits : (ip : Bytes) → Closed (Waits ip)
unfolding add
Closed-Waits ip q msg h = elim (Bool-cases (has_key q msg.ip)) [
  | inl t ↦ rw t h
  | inr f ↦
      rw (f, any-append (λ m. m.ip == ip) q.message msg) (or_left (waits ip q) (msg.ip == ip) h)
]

-- A new key comes with its message.
backed_more :
    (same key waiting : Bool)
    → (not key || waiting) ≡ true
    → (not (same || key) || (waiting || same)) ≡ true
backed_more true true true h = refl
backed_more true true false h = refl
backed_more true false true h = refl
backed_more true false false h = refl
backed_more false true true h = refl
backed_more false true false h = h
backed_more false false true h = refl
backed_more false false false h = refl

Closed-Backed : (ip : Bytes) → Closed (Backed ip)
unfolding add
Closed-Backed ip q msg h = elim (Bool-cases (has_key q msg.ip)) [
  | inl t ↦ rw t h
  | inr f ↦
      rw (f, any-append (λ m. m.ip == ip) q.message msg)
        (backed_more (msg.ip == ip) (has_key q ip) (waits ip q) h)
]

backed_key : (key waiting : Bool) → (not key || waiting) ≡ true → key ≡ true → waiting ≡ true
backed_key true waiting h e = h
backed_key false waiting h e = cc

Waits-add : (q : MessageQueue) (msg : EventMessage) → Backed msg.ip q → Waits msg.ip (add q msg)
unfolding add
Waits-add q msg h = elim (Bool-cases (has_key q msg.ip)) [
  | inl t ↦ rw t (backed_key (has_key q msg.ip) (waits msg.ip q) h t)
  | inr f ↦
      rw (f, any-append (λ m. m.ip == msg.ip) q.message msg)
        (or_right (waits msg.ip q) (msg.ip == msg.ip) (==_refl msg.ip))
]

-- What a method keeps of the queue holds where it ends without an error.
kept_behind :
    {W A : Type 0} (Q : MessageQueue → Type 0) (m : Run W A) (h : ClusterHandler W)
    → QueueKept Q m
    → Q h.messages
    → Post (λ _ h'. Q h'.messages) (m h)
kept_behind Q m h k q =
    Post-state (λ h'. Q h'.messages) (m h) (Preserves-at m k h (record { holds = q })).holds

is_false : (b : Bool) → not b ≡ true → b ≡ false
is_false true h = sym h
is_false false h = refl

later : (b c : Bool) → b ≡ false → (b || c) ≡ true → c ≡ true
later true c e h = cc
later false c e h = h

send_reports :
    {W : Type 0} (env : Env W) (ip : Bytes) (partition : ℕ) (h : ClusterHandler W)
    → Backed ip h.messages
    → Post (λ (_ : Unit {0}) h'. Waits ip h'.messages) (send_failover_msg env ip partition h)
unfolding send_failover_msg ◌>>=◌ set_messages
send_reports env ip partition h b =
    Post-bind (call env.now) _ h (λ _ h'. Backed ip h'.messages) (λ _ h'. Waits ip h'.messages)
      (kept_behind (Backed ip) (call env.now) h (QueueKept-call env.now) b)
      (λ now h' b'. Waits-add h'.messages (failover_message ip h'.key partition now) b')

module _ {W : Type 0} (env : Env W) (ip : Bytes)
    (dead : (password : Bytes) (w : W)
      → (w' : W) × (env.kv.ping ip password w ≡ (ok false, w'))) where
  abbrev Reported : {A : Type 0} → A → ClusterHandler W → Type 0
  Reported _ h = Waits ip h.messages

  abbrev Ready : {A : Type 0} → A → ClusterHandler W → Type 0
  Ready _ h = Backed ip h.messages

  watch_reports :
      (partition : ℕ) (change : Bool) (node : Node) (h : ClusterHandler W)
      → node.ip ≡ ip
      → Backed ip h.messages
      → Post Reported (watch env partition change node h)
  unfolding watch ◌>>=◌ call set_requeue
  watch_reports partition change node h e b =
      let (w', down) = dead h.password h.world in
      rw (ap (λ a. env.kv.ping a h.password h.world) e ∙ down) (
        Post-bind (send_failover_msg env node.ip partition) (λ _. pure (node, change))
          (record h { world = w'; requeue = true }) Reported Reported
          (subst
            (λ a.
              Post Reported
                (send_failover_msg env a partition (record h { world = w'; requeue = true })))
            (sym e) (send_reports env ip partition (record h { world = w'; requeue = true }) b))
          (λ _ h' r. r))

  otherwise :
      {A : Type 0} (b : Bool) (m n : Run W A) (h : ClusterHandler W)
      → b ≡ false
      → Post Reported (n h)
      → Post Reported ((if b then m else n) h)
  otherwise true m n h e k = cc
  otherwise false m n h e k = k

  node_reports :
      (partition index : ℕ) (change : Bool) (node : Node) (h : ClusterHandler W)
      → watched ip (some node) ≡ true
      → Backed ip h.messages
      → Post Reported (fail_over_node env partition index change node h)
  unfolding fail_over_node
  node_reports partition index change node h t b =
      let (same, live) = both (node.ip == ip) (not node.failover) t in
      otherwise node.failover _ (watch env partition change node) h (is_false node.failover live)
        (watch_reports partition change node h (==_sound node.ip ip same) b)

  kept_node :
      (Q : MessageQueue → Type 0) (closed : Closed Q) (i j : ℕ) (c : Bool) (node : Node)
      → QueueKept Q (fail_over_node env i j c node)
  kept_node Q closed i j c node = QueueKept-fail_over_node env Q closed i j c node

  shard_reports :
      (i j : ℕ) (c : Bool) (shard : Shard) (h : ClusterHandler W)
      → any (watched ip) shard ≡ true
      → Backed ip h.messages
      → Post Reported (each_node (fail_over_node env i) j c shard h)
  unfolding each_node crash
  shard_reports i j c [] h t b = cc
  shard_reports i j c (none ∷ nodes) h t b = tt
  shard_reports i j c (some node ∷ nodes) h t b = elim (Bool-cases (watched ip (some node))) [
    | inl here ↦
        Post-bind (fail_over_node env i j c node) _ h Reported Reported
          (node_reports i j c node h here b)
          (λ p h' r.
            kept_behind (Waits ip) _ h'
              (Preserves-bind (each_node (fail_over_node env i) (suc j) p.1 nodes) _
                (QueueKept-each_node (fail_over_node env i)
                  (kept_node (Waits ip) (Closed-Waits ip) i) (suc j) p.1 nodes)
                (λ q. Preserves-pure _))
              r)
    | inr not_here ↦
        Post-bind (fail_over_node env i j c node) _ h Ready Reported
          (kept_behind (Backed ip) (fail_over_node env i j c node) h
            (kept_node (Backed ip) (Closed-Backed ip) i j c node) b)
          (λ p h' b'.
            Post-bind (each_node (fail_over_node env i) (suc j) p.1 nodes) _ h' Reported Reported
              (shard_reports i (suc j) p.1 nodes h'
                (later (watched ip (some node)) (any (watched ip) nodes) not_here t) b')
              (λ q h'' r. r))
  ]

  all_report :
      (i : ℕ) (c : Bool) (shards : List Shard) (h : ClusterHandler W)
      → any (λ shard. any (watched ip) shard) shards ≡ true
      → Backed ip h.messages
      → Post Reported (each_shard (fail_over_node env) i c shards h)
  unfolding each_shard
  all_report i c [] h t b = cc
  all_report i c (shard ∷ shards) h t b = elim (Bool-cases (any (watched ip) shard)) [
    | inl here ↦
        Post-bind (each_node (fail_over_node env i) 0 c shard) _ h Reported Reported
          (shard_reports i 0 c shard h here b)
          (λ p h' r.
            kept_behind (Waits ip) _ h'
              (Preserves-bind (each_shard (fail_over_node env) (suc i) p.1 shards) _
                (QueueKept-each_shard (fail_over_node env) (kept_node (Waits ip) (Closed-Waits ip))
                  (suc i) p.1 shards)
                (λ q. Preserves-pure _))
              r)
    | inr not_here ↦
        Post-bind (each_node (fail_over_node env i) 0 c shard) _ h Ready Reported
          (kept_behind (Backed ip) (each_node (fail_over_node env i) 0 c shard) h
            (QueueKept-each_node (fail_over_node env i) (kept_node (Backed ip) (Closed-Backed ip) i)
              0 c shard)
            b)
          (λ p h' b'.
            Post-bind (each_shard (fail_over_node env) (suc i) p.1 shards) _ h' Reported Reported
              (all_report (suc i) p.1 shards h'
                (later (any (watched ip) shard) (any (λ shard. any (watched ip) shard) shards)
                  not_here t)
                b')
              (λ q h'' r. r))
  ]

  -- The end of `ensureFailover`, behind its loops.
  QueueKept-publish :
      (p : List Shard × Bool)
      → QueueKept (Waits ip) (do
        set_nodes p.0
        if p.1
            then (do
              version ← gets (λ (h : ClusterHandler W). h.version)
              set_version (version + 1)
              ensure_status_topo_msg env)
            else pure tt)
  QueueKept-publish p = search (queue_rules, QueueKept-ensure_status_topo_msg) depth 30

-- If the address of a node that answers no ping and is not marked as failed over has no key in the
-- queue, or has one and a message that waits, then a message for the address waits in the queue when
-- `ensureFailover` ends without an error, whatever the other calls give.
pub ensure_failover_reports :
    {W : Type 0} (env : Env W) (h : ClusterHandler W) (ip : Bytes)
    → ((password : Bytes) (w : W) → (w' : W) × (env.kv.ping ip password w ≡ (ok false, w')))
    → any (λ shard. any (watched ip) shard) h.sts_nodes ≡ true
    → backed ip h.messages ≡ true
    → Post (λ (_ : Unit {0}) h'. waits ip h'.messages ≡ true) (ensure_failover env h)
unfolding ensure_failover
ensure_failover_reports env h ip dead t b =
    Post-bind (each_shard (fail_over_node env) 0 false h.sts_nodes) _ h (Reported env ip dead)
      (Reported env ip dead) (all_report env ip dead 0 false h.sts_nodes h t b)
      (λ p h' r. kept_behind (Waits ip) _ h' (QueueKept-publish env ip dead p) r)

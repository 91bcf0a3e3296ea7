-- ===== src/Events/Failover/Consistent.antt =====
-- The failover queue of pkg/controllers/events as a transition system: `listen` and `SendFailoverMsg`
-- add messages, `consumer` takes the oldest, and each `handleFailover` settles its message.
use kvrocks_operator.Base.{
  ℕ, ◌+◌, ◌≤◌, Bytes, Bool, true, false, List, [], ◌∷◌, ◌++◌, ◌≡◌, refl, sym, ap, subst, ◌∙◌, arith,
  Bool-cases, inl, inr, ==_refl, ==_sound, bytes_eq, ◌==◌, ltb, Option, none, some,
}
use kvrocks_operator.Base.Exec.{Error}
use kvrocks_operator.Events.Queue.{
  EventMessage, MessageQueue, empty_queue, has_key, add, requeue, forget,
}
use kvrocks_operator.Events.Failover.{Verdict, settle}
use kvrocks_operator.Events.Failover.Counting.{
  times, held, held-append, times-absent, times-keep_same, times-keep_other,
}

-- The queue and the messages that goroutines of `handleFailover` hold.
pub record System : Type 0 where
  pub queue : MessageQueue
  pub handling : List EventMessage

abbrev pub start : System
start = record { queue = empty_queue; handling = [] }

pub data Step : System → System → Type 0 where
  send :
      {q : MessageQueue} {hs : List EventMessage} (msg : EventMessage)
      → Step (record { queue = q; handling = hs }) (record { queue = add q msg; handling = hs })
  take :
      {msg : EventMessage} {ms hs : List EventMessage} {keys : List Bytes}
      → Step
          (record { queue = record { message = msg ∷ ms; keys = keys }; handling = hs })
          (record { queue = record { message = ms; keys = keys }; handling = msg ∷ hs })
  finish :
      {q : MessageQueue} (before : List EventMessage) (msg : EventMessage)
      (after : List EventMessage) (now : ℕ) (v : Verdict)
      → Step
          (record { queue = q; handling = before ++ msg ∷ after })
          (record { queue = settle msg q now v; handling = before ++ after })

pub data Reachable : System → Type 0 where
  begin : Reachable start
  then_ : {s t : System} → Reachable s → Step s t → Reachable t

-- The messages of an address, waiting or held.
abbrev pub live : Bytes → System → ℕ
live a s = held a s.handling + held a s.queue.message

-- The keys are the addresses of the live messages, each of which has one message.
abbrev pub Consistent : System → Type 0
Consistent s = (a : Bytes) → (live a s ≡ times a s.queue.keys) × (live a s ≤ 1)

abbrev ConsistentAt : Bytes → System → Type 0
ConsistentAt a s = (live a s ≡ times a s.queue.keys) × (live a s ≤ 1)

absent_at :
    (a : Bytes) (q : MessageQueue) (ip : Bytes)
    → has_key q ip ≡ false
    → (ip == a) ≡ true
    → times a q.keys ≡ 0
absent_at a q ip f e = ap (λ x. times x q.keys) (sym (==_sound ip a e)) ∙ times-absent ip q.keys f

send_at :
    (a : Bytes) (q : MessageQueue) (hs : List EventMessage) (msg : EventMessage)
    → Consistent (record { queue = q; handling = hs })
    → ConsistentAt a (record { queue = add q msg; handling = hs })
unfolding add
send_at a q hs msg h = elim (Bool-cases (has_key q msg.ip)) [
  | inl t ↦ rw t (h a)
  | inr f ↦ rw f (
    ground (arith, held-append a q.message (msg ∷ []), h a),
    ground (arith, held-append a q.message (msg ∷ []), h a, absent_at a q msg.ip f),
  )
]

take_at :
    (a : Bytes) (msg : EventMessage) (ms hs : List EventMessage) (keys : List Bytes)
    → Consistent (record { queue = record { message = msg ∷ ms; keys = keys }; handling = hs })
    → ConsistentAt a (record { queue = record { message = ms; keys = keys }; handling = msg ∷ hs })
take_at a msg ms hs keys h = ground (arith, h a)

-- A message goes back.
requeue_at :
    (a : Bytes) (q : MessageQueue) (before : List EventMessage) (msg : EventMessage)
    (after : List EventMessage)
    → Consistent (record { queue = q; handling = before ++ msg ∷ after })
    → ConsistentAt a (record { queue = requeue q msg; handling = before ++ after })
unfolding requeue
requeue_at a q before msg after h = ground (
  arith,
  h a,
  held-append a q.message (msg ∷ []),
  held-append a before after,
  held-append a before (msg ∷ after),
)

forget_other :
    (a : Bytes) (q : MessageQueue) (before : List EventMessage) (msg : EventMessage)
    (after : List EventMessage)
    → Consistent (record { queue = q; handling = before ++ msg ∷ after })
    → (msg.ip == a) ≡ false
    → ConsistentAt a (record { queue = forget q msg.ip; handling = before ++ after })
unfolding forget
forget_other a q before msg after h e = ground (
  arith,
  h a,
  held-append a before after,
  held-append a before (msg ∷ after),
  times-keep_other a msg.ip q.keys e,
  e,
)

forget_same :
    (q : MessageQueue) (before : List EventMessage) (msg : EventMessage) (after : List EventMessage)
    → Consistent (record { queue = q; handling = before ++ msg ∷ after })
    → ConsistentAt msg.ip (record { queue = forget q msg.ip; handling = before ++ after })
unfolding forget
forget_same q before msg after h = ground (
  arith,
  h msg.ip,
  held-append msg.ip before after,
  held-append msg.ip before (msg ∷ after),
  times-keep_same msg.ip q.keys,
  ==_refl msg.ip,
)

forget_at :
    (a : Bytes) (q : MessageQueue) (before : List EventMessage) (msg : EventMessage)
    (after : List EventMessage)
    → Consistent (record { queue = q; handling = before ++ msg ∷ after })
    → ConsistentAt a (record { queue = forget q msg.ip; handling = before ++ after })
forget_at a q before msg after h = elim (Bool-cases (msg.ip == a)) [
  | inl t ↦
      subst
        (λ (x : Bytes).
          ConsistentAt x (record { queue = forget q msg.ip; handling = before ++ after }))
        (==_sound msg.ip a t) (forget_same q before msg after h)
  | inr f ↦ forget_other a q before msg after h f
]

finish_at :
    (a : Bytes) (q : MessageQueue) (before : List EventMessage) (msg : EventMessage)
    (after : List EventMessage) (now : ℕ) (e : Option Error) (again : Bool)
    → Consistent (record { queue = q; handling = before ++ msg ∷ after })
    → ConsistentAt a (record {
      queue = settle msg q now (record { error = e; requeue = again });
      handling = before ++ after;
    })
unfolding settle
finish_at a q before msg after now none again h = forget_at a q before msg after h
finish_at a q before msg after now (some e) again h = elim (Bool-cases (ltb now msg.timeout)) [
  | inr late ↦ rw late (forget_at a q before msg after h)
  | inl early ↦ elim (Bool-cases again) [
    | inl t ↦ rw (early, t) (requeue_at a q before msg after h)
    | inr f ↦ rw (early, f) (forget_at a q before msg after h)
  ]
]

pub Consistent-Step : {s t : System} → Step s t → Consistent s → Consistent t
Consistent-Step (send {q} {hs} msg) h a = send_at a q hs msg h
Consistent-Step (take {msg} {ms} {hs} {keys}) h a = take_at a msg ms hs keys h
Consistent-Step (finish {q} before msg after now v) h a =
    finish_at a q before msg after now v.error v.requeue h

-- In every state that the queue and its handlers reach, an address has at most one message that waits
-- or is being dealt with, and it is in the set of keys exactly once if it has one and not at all
-- otherwise.
pub Reachable-Consistent : (s : System) → Reachable s → Consistent s
Reachable-Consistent s begin a = (refl, omega arith)
Reachable-Consistent s (then_ {s = before} r step) a =
    Consistent-Step step (Reachable-Consistent before r) a

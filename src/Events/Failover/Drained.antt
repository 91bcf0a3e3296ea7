-- ===== src/Events/Failover/Drained.antt =====
-- The failover queue of pkg/controllers/events empties, since every message has a time out.
use kvrocks_operator.Base.{
  ℕ, Bytes, List, [], ◌∷◌, ◌≡◌, ◌≢◌, refl, sym, subst, arith, Bool, some, none, Option, ==_refl,
  bytes_eq,
}
use kvrocks_operator.Base.Exec.{Error}
use kvrocks_operator.Events.Queue.{EventMessage, MessageQueue, forget}
use kvrocks_operator.Events.Failover.{Verdict, settle}
use kvrocks_operator.Events.Failover.Counting.{times}
use kvrocks_operator.Events.Failover.Consistent.{
  System, Step, take, finish, Reachable, Consistent, Consistent-Step, Reachable-Consistent,
}

-- The steps of the consumer and of handlers that settle their message at its time out, with a verdict
-- for each message.
pub data LateStep (verdict : EventMessage → Verdict) : System → System → Type 0 where
  taken :
      {msg : EventMessage} {ms hs : List EventMessage} {keys : List Bytes}
      → LateStep verdict
          (record { queue = record { message = msg ∷ ms; keys = keys }; handling = hs })
          (record { queue = record { message = ms; keys = keys }; handling = msg ∷ hs })
  settled :
      {q : MessageQueue} {hs : List EventMessage} (msg : EventMessage)
      → LateStep verdict
          (record { queue = q; handling = msg ∷ hs })
          (record { queue = settle msg q msg.timeout (verdict msg); handling = hs })

-- Any number of them.
pub data LateSteps (verdict : EventMessage → Verdict) : System → System → Type 0 where
  rest : {s : System} → LateSteps verdict s s
  step : {s t u : System} → LateStep verdict s t → LateSteps verdict t u → LateSteps verdict s u

module _ {verdict : EventMessage → Verdict} where
  LateSteps-append :
      {s t u : System} → LateSteps verdict s t → LateSteps verdict t u → LateSteps verdict s u
  LateSteps-append rest b = b
  LateSteps-append (step a more) b = step a (LateSteps-append more b)

  LateStep-Step : {s t : System} → LateStep verdict s t → Step s t
  LateStep-Step taken = take
  LateStep-Step (settled {hs} msg) = finish [] msg hs msg.timeout (verdict msg)

  Consistent-LateSteps : {s t : System} → LateSteps verdict s t → Consistent s → Consistent t
  Consistent-LateSteps rest h = h
  Consistent-LateSteps (step a more) h =
      Consistent-LateSteps more (Consistent-Step (LateStep-Step a) h)

-- At its time out a message is given up, whatever its handler found.
settle_late :
    (msg : EventMessage) (q : MessageQueue) (e : Option Error) (again : Bool)
    → settle msg q msg.timeout (record { error = e; requeue = again }) ≡ forget q msg.ip
unfolding settle
settle_late msg q none again = refl
settle_late msg q (some e) again = ground arith

no_keys : (keys : List Bytes) → ((a : Bytes) → times a keys ≡ 0) → keys ≡ []
no_keys [] h = refl
no_keys (k ∷ keys) h = absurd (counted k keys (h k))
  where
    counted : (k : Bytes) (keys : List Bytes) → ◌≢◌ {A = ℕ} (times k (k ∷ keys)) 0
    counted k keys e = ground (arith, ==_refl k, e)

module _ (verdict : EventMessage → Verdict) where
  given_up :
      (q : MessageQueue) (msg : EventMessage) (hs : List EventMessage)
      → LateStep verdict
          (record { queue = q; handling = msg ∷ hs })
          (record { queue = forget q msg.ip; handling = hs })
  given_up q msg hs =
      subst
        (λ (q' : MessageQueue).
          LateStep verdict (record { queue = q; handling = msg ∷ hs })
            (record { queue = q'; handling = hs }))
        (settle_late msg q (verdict msg).error (verdict msg).requeue) (settled msg)

  all_settled :
      (hs ms : List EventMessage) (keys : List Bytes)
      → (keys' : List Bytes) × LateSteps verdict
          (record { queue = record { message = ms; keys = keys }; handling = hs })
          (record { queue = record { message = ms; keys = keys' }; handling = [] })
  unfolding forget
  all_settled [] ms keys = (keys, rest)
  all_settled (msg ∷ hs) ms keys =
      let q : MessageQueue = record { message = ms; keys = keys } in
      let (keys', more) = all_settled hs ms (forget q msg.ip).keys in
      (keys', step (given_up q msg hs) more)

  all_taken :
      (ms : List EventMessage) (keys : List Bytes)
      → (keys' : List Bytes) × LateSteps verdict
          (record { queue = record { message = ms; keys = keys }; handling = [] })
          (record { queue = record { message = []; keys = keys' }; handling = [] })
  unfolding forget
  all_taken [] keys = (keys, rest)
  all_taken (msg ∷ ms) keys =
      let q : MessageQueue = record { message = ms; keys = keys } in
      let (keys', more) = all_taken ms (forget q msg.ip).keys in
      (keys', step taken (step (given_up q msg []) more))

  -- From every reachable state the queue empties, without a key left behind, by steps that only take
  -- messages and settle each at its time out, whatever the verdicts of the handlers are.
  pub Reachable-drained :
      (s : System)
      → Reachable s
      → (t : System) × LateSteps verdict s t
        × (t.queue.message ≡ [])
        × (t.handling ≡ [])
        × (t.queue.keys ≡ [])
  Reachable-drained s r =
      let (keys1, first) = all_settled s.handling s.queue.message s.queue.keys in
      let (keys2, second) = all_taken s.queue.message keys1 in
      let path = LateSteps-append first second in
      let consistent = Consistent-LateSteps path (Reachable-Consistent s r) in
      (
        record { queue = record { message = []; keys = keys2 }; handling = [] },
        path,
        refl,
        refl,
        no_keys keys2 (λ a. sym (consistent a).0),
      )

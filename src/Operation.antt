-- ===== src/Operation.antt =====
-- The operator as a whole: the passes of pkg/controllers/kvrocks_controller.go beside the goroutines
-- of pkg/controllers/events, which the first pass that finds its instance starts.
pub mod Sound
use kvrocks_operator.Base.{
  ℕ, Bytes, Bool, true, false, List, [], ◌∷◌, ◌++◌, Option, none, some, get_elem?, ◌||◌,
  if◌then◌else◌, ◌≡◌,
}
use kvrocks_operator.Base.Exec.{Result, Exec, ok, err, panic}
use kvrocks_operator.Api.{Key, Kvrocks}
use kvrocks_operator.Client.Controller.{Endpoint, new_client}
use kvrocks_operator.Client.K8s.{get_kvrocks}
use kvrocks_operator.Client.Env.{Env}
use kvrocks_operator.Events.Queue.{
  EventMessage, MessageQueue, empty_queue, has_key, failover_message,
}
use kvrocks_operator.Events.Listener.{Heard, read_payload, hear}
use kvrocks_operator.Events.Producer.{ProduceMessage, Subscriptions, producer, listen_ends}
use kvrocks_operator.Events.Failover.{EventState, handle_failover}
use kvrocks_operator.Reconciler.{Operator, Outcome, reconcile}

-- The queue, the messages that calls of `SendFailoverMsg` have found no key for and have yet to insert,
-- whether such an insertion has met a key that had come in by then, the messages that goroutines of
-- `handleFailover` hold, the keys of `producerSentinels`, the goroutines that run `listen`, the controller client of the events, whether `once` has run,
-- whether a panic has ended the process, and the world.
pub record Operation (W : Type 0) : Type 0 where
  pub messages : MessageQueue
  pub sending : List EventMessage
  pub raced : Bool
  pub handling : List EventMessage
  pub registered : List Bytes
  pub listening : List ProduceMessage
  pub endpoint : Endpoint
  pub started : Bool
  pub crashed : Bool
  pub world : W

-- The process starts with an empty queue; `NewEvent` makes the rest.
unfoldable pub new_operation : {W : Type 0} → W → Operation W
new_operation w = record {
  messages = empty_queue;
  sending = [];
  raced = false;
  handling = [];
  registered = [];
  listening = [];
  endpoint = new_client;
  started = false;
  crashed = false;
  world = w;
}

is_panic : {A : Type 0} → Result A → Bool
is_panic (ok _) = false
is_panic (err _) = false
is_panic panic = true

is_ok : {A : Type 0} → Result A → Bool
is_ok (ok _) = true
is_ok (err _) = false
is_ok panic = false

module _ {W : Type 0} where
  abbrev pub operator : Operation W → Operator W
  operator o = record { messages = o.messages; world = o.world }

  abbrev pub subscriptions : Operation W → Subscriptions W
  subscriptions o = record { registered = o.registered; listening = o.listening; world = o.world }

  abbrev pub event_state : Operation W → EventState W
  event_state o = record { messages = o.messages; endpoint = o.endpoint; world = o.world }

  crash : Operation W → Operation W
  crash o = record o { crashed = true }

  passed : Operation W → Bool → Result Outcome × Operator W → Operation W
  unfolding is_panic
  passed o found (r, p) = record o {
    started = o.started || found;
    crashed = is_panic r;
    world = p.world;
  }

  produced : Operation W → Result (Unit {0}) × Subscriptions W → Operation W
  unfolding crash
  produced o (ok _, s) = record o {
    registered = s.registered;
    listening = s.listening;
    world = s.world;
  }
  produced o (_, s) = crash o

  heard_by : Operation W → Result Heard → Operation W
  unfolding crash
  heard_by o (ok h) = record o { messages = hear o.messages h }
  heard_by o (err _) = crash o
  heard_by o panic = crash o

  -- The first half of `add` as `SendFailoverMsg` calls it, without the lock: the look for the key.
  unfoldable pub check : EventMessage → Operation W → Operation W
  check msg o = if has_key o.messages msg.ip then o else record o { sending = msg ∷ o.sending }

  -- The second half, with the other calls' messages given: the key, which may be there by now, and the
  -- message.
  unfoldable pub insert : EventMessage → List EventMessage → Operation W → Operation W
  insert msg left o = record o {
    messages = record {
      message = o.messages.message ++ msg ∷ [];
      keys = if has_key o.messages msg.ip then o.messages.keys else msg.ip ∷ o.messages.keys;
    };
    sending = left;
    raced = o.raced || has_key o.messages msg.ip;
  }

  listened : Operation W → Bytes → ℕ → Option ProduceMessage → Operation W
  unfolding heard_by
  listened o payload now none = o
  listened o payload now (some m) = heard_by o (read_payload m.system_id m.key now payload)

  -- The listener at a place hears a payload at a time.
  unfoldable pub listen : ℕ → Bytes → ℕ → Operation W → Operation W
  unfolding listened
  listen place payload now o = listened o payload now (get_elem? o.listening place)

  ended : Operation W → Subscriptions W → Operation W
  ended o s = record o { registered = s.registered; listening = s.listening }

  -- The channel of a listener is closed.
  unfoldable pub stop_listening : Bytes → Operation W → Operation W
  unfolding ended
  stop_listening key o = ended o (listen_ends key (subscriptions o))

  consumed : Operation W → List EventMessage → Operation W
  consumed o [] = o
  consumed o (msg ∷ rest) = record o {
    messages = record o.messages { message = rest };
    handling = msg ∷ o.handling;
  }

  -- `consumer`: the oldest message goes to a goroutine.
  unfoldable pub consume : Operation W → Operation W
  unfolding consumed
  consume o = consumed o o.messages.message

  settled : Operation W → List EventMessage → Result (Unit {0}) × EventState W → Operation W
  unfolding crash
  settled o left (ok _, s) = record o {
    messages = s.messages;
    handling = left;
    endpoint = s.endpoint;
    world = s.world;
  }
  settled o left (_, s) = crash o

module _ {W : Type 0} (env : Env W) where
  -- A pass over the instance of a key. What it sends to the queue is left to the steps `checks` and
  -- `inserts`, of which there may be any, at any time: a pass reads nothing of the queue, and only
  -- changes it by `SendFailoverMsg`.
  unfoldable pub pass : Key → Operation W → Operation W
  unfolding passed is_ok
  pass key o = passed o (is_ok (get_kvrocks env.k8s key o.world).0) (reconcile env key (operator o))

  -- A round of the cron entry.
  unfoldable pub produce : Operation W → Operation W
  unfolding produced
  produce o = produced o (producer env (subscriptions o))

  -- A goroutine deals with its message and ends, with the other goroutines' messages given.
  unfoldable pub fail_over : EventMessage → List EventMessage → Operation W → Operation W
  unfolding settled
  fail_over msg left o = settled o left (handle_failover env msg (event_state o))

  -- The steps of `listen` and of `handleFailover` on the queue are whole, since they hold the event's
  -- lock; `SendFailoverMsg` does not, and is two steps. `outside` is all that others change: the world, and the endpoint of the client
  -- that the events share with the pass that started them.
  pub data Step : Operation W → Operation W → Type 0 where
    reconciles : {o : Operation W} (key : Key) → Step o (pass key o)
    checks :
        {o : Operation W} (ip : Bytes) (key : Key) (partition now : ℕ)
        → Step o (check (failover_message ip key partition now) o)
    inserts :
        {o : Operation W} (before : List EventMessage) (msg : EventMessage)
        (after : List EventMessage)
        → o.sending ≡ before ++ msg ∷ after
        → Step o (insert msg (before ++ after) o)
    produces : {o : Operation W} → o.started ≡ true → Step o (produce o)
    hears :
        {o : Operation W} (place : ℕ) (payload : Bytes) (now : ℕ)
        → Step o (listen place payload now o)
    stops : {o : Operation W} (key : Bytes) → Step o (stop_listening key o)
    consumes : {o : Operation W} → o.started ≡ true → Step o (consume o)
    fails_over :
        {o : Operation W} (before : List EventMessage) (msg : EventMessage)
        (after : List EventMessage)
        → o.handling ≡ before ++ msg ∷ after
        → Step o (fail_over msg (before ++ after) o)
    outside :
        {o : Operation W} (w : W) (e : Endpoint) → Step o (record o { world = w; endpoint = e })

  pub data Runs : Operation W → Type 0 where
    begin : (w : W) → Runs (new_operation w)
    then_ : {o o' : Operation W} → Runs o → o.crashed ≡ false → Step o o' → Runs o'

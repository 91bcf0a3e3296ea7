-- ===== src/Operation/Sound.antt =====
-- The operator as a whole, and the failover queue and the subscriptions in it.
use kvrocks_operator.Base.{◌≡◌, false}
use kvrocks_operator.Client.Env.{Env}
use kvrocks_operator.Events.Producer.Once.{Once}
use kvrocks_operator.Events.Failover.Consistent.{System, Reachable}
use kvrocks_operator.Events.Failover.Settled.{Settled}
use kvrocks_operator.Operation.{Operation, subscriptions}
use kvrocks_operator.Operation

-- What the failover queue sees of the operator.
abbrev pub view : {W : Type 0} → Operation W → System
view o = record { queue = o.messages; handling = o.handling }

-- The queue is in a state that the abstract system reaches, as long as no insertion has met a key, and
-- no sentinel is listened to twice.
pub record Sound {W : Type 0} (o : Operation W) : Type 0 where
  pub queue : o.raced ≡ false → Reachable (view o)
  pub once : Once (subscriptions o)

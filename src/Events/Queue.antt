-- ===== src/Events/Queue.antt =====
-- `messageQueue` of pkg/controllers/events/event.go: messages that wait, and the addresses that are
-- being dealt with, each at most once.
use kvrocks_operator.Base.{
  ℕ, ◌+◌, Bytes, Bool, List, [], ◌∷◌, ◌++◌, codes, any, keep, not, ◌==◌, bytes_eq, if◌then◌else◌,
}
use kvrocks_operator.Api.{Key}

pub record EventMessage : Type 0 where
  pub ip : Bytes
  pub port : Bytes
  pub key : Key
  pub partition : ℕ
  pub timeout : ℕ  -- the second at which the message is given up

-- `message` is the channel, in the order of arrival.
pub record MessageQueue : Type 0 where
  pub message : List EventMessage
  pub keys : List Bytes

abbrev pub empty_queue : MessageQueue
empty_queue = record { message = []; keys = [] }

abbrev pub has_key : MessageQueue → Bytes → Bool
has_key q ip = any (λ k. k == ip) q.keys

-- `add`
unfoldable pub add : MessageQueue → EventMessage → MessageQueue
add q msg =
    if has_key q msg.ip
    then q
    else record { message = q.message ++ msg ∷ []; keys = msg.ip ∷ q.keys }

-- The message of `SendFailoverMsg` at a time.
unfoldable pub failover_message : Bytes → Key → ℕ → ℕ → EventMessage
failover_message ip key partition now = record {
  ip = ip;
  port = codes "6379";
  key = key;
  partition = partition;
  timeout = now + 30;
}

-- delete(keys, ip)
unfoldable pub forget : MessageQueue → Bytes → MessageQueue
forget q ip = record q { keys = keep (λ k. not (k == ip)) q.keys }

-- A message that goes back into the channel.
unfoldable pub requeue : MessageQueue → EventMessage → MessageQueue
requeue q msg = record q { message = q.message ++ msg ∷ [] }

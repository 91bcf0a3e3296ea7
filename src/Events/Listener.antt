-- ===== src/Events/Listener.antt =====
-- `listen` of pkg/controllers/events/handler.go: what a sentinel's message says.
pub mod Payload
use kvrocks_operator.Base.{ℕ, ◌+◌, Bytes, List, ◌∷◌, split, before_first, bytes_eq}
use kvrocks_operator.Base.Decimal.{atoi, atoi_value}
use kvrocks_operator.Base.Exec.{Result, ok, panic}
use kvrocks_operator.Resources.Names.{get_cluster_name}
use kvrocks_operator.Events.Queue.{EventMessage, MessageQueue, add}

-- What a payload comes to: nothing for a standard instance, or a message.
pub data Heard : Type 0 where
  ignored : Heard
  heard : EventMessage → Heard

-- `masterMsg`, the pieces of the master's name, and the fields behind it.
read_master : Bytes → Bytes → ℕ → List Bytes → List Bytes → Result Heard
read_master system namespace now (name ∷ index ∷ _) (ip ∷ port ∷ _) = ok (
    heard (record {
      ip = ip;
      port = port;
      key = record { namespace = namespace; name = get_cluster_name system name };
      partition = atoi_value (atoi index);
      timeout = now + 30;
    }))
read_master system namespace now (name ∷ index ∷ _) _ = panic
read_master system namespace now _ _ = ok ignored

read_fields : Bytes → Bytes → ℕ → List Bytes → Result Heard
unfolding read_master
read_fields system namespace now (_ ∷ master ∷ rest) =
    read_master system namespace now (split b'-' master) rest
read_fields system namespace now _ = panic

-- One round of the loop of `listen`, up to the message.
unfoldable pub read_payload : Bytes → Bytes → ℕ → Bytes → Result Heard
unfolding read_fields
read_payload system namespace_name now payload =
    read_fields system (before_first b'/' namespace_name) now (split b' ' payload)

-- The rest of the round.
unfoldable pub hear : MessageQueue → Heard → MessageQueue
unfolding add
hear q ignored = q
hear q (heard msg) = add q msg

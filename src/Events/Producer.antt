-- ===== src/Events/Producer.antt =====
-- `producer` of pkg/controllers/events/cron.go, and `sentDownMessage` and the ends of `listen` of
-- handler.go: which sentinels the operator is subscribed to.
pub mod Once
use kvrocks_operator.Base.{
  Bytes, Bool, true, false, List, [], ◌∷◌, ◌++◌, Option, none, some, any, keep, not, split,
  get_elem?, ◌==◌, bytes_eq, if◌then◌else◌,
}
use kvrocks_operator.Base.Exec.{
  Result, Exec, ok, err, panic, pure, crash, gets, modify, attempt, or_crash, for_each, ◌>>=◌, ◌>>◌,
}
use kvrocks_operator.Api.{Kvrocks, is_running}
use kvrocks_operator.Client.Objects.{Pod}
use kvrocks_operator.Client.K8s.{list_kvrocks, list_deployment_pods}
use kvrocks_operator.Client.Env.{Env}
use kvrocks_operator.Resources.Labels.{sentinel_labels}

pub record ProduceMessage : Type 0 where
  pub ip : Bytes
  pub password : Bytes
  pub key : Bytes
  pub system_id : Bytes

-- `registered` holds the keys of `producerSentinels`, `listening` the messages whose goroutines run
-- `listen`.
pub record Subscriptions (W : Type 0) : Type 0 where
  pub registered : List Bytes
  pub listening : List ProduceMessage
  pub world : W

-- `sentDownMessage`: a goroutine that listens to the sentinel's pod.
abbrev sent_down_message : {W : Type 0} → ProduceMessage → Subscriptions W → Subscriptions W
sent_down_message msg s = record s { listening = msg ∷ s.listening }

-- Registration of a sentinel's pod, and the start of its goroutine; a pod is registered once.
unfoldable pub register : {W : Type 0} → ProduceMessage → Subscriptions W → Subscriptions W
register msg s =
    if any (λ k. k == msg.key) s.registered
    then s
    else sent_down_message msg (record s { registered = msg.key ∷ s.registered })

-- The end of `listen`, when its channel is closed.
unfoldable pub listen_ends : {W : Type 0} → Bytes → Subscriptions W → Subscriptions W
listen_ends key s = record s {
  registered = keep (λ k. not (k == key)) s.registered;
  listening = keep (λ (m : ProduceMessage). not (m.key == key)) s.listening;
}

abbrev pub Run : Type 0 → Type 0 → Type 0
Run W A = Exec (Subscriptions W) A

module _ {W : Type 0} where
  returned : {A : Type 0} → Subscriptions W → Result A × W → Result A × Subscriptions W
  returned s (r, w) = (r, record s { world = w })

  call : {A : Type 0} → Exec W A → Run W A
  unfolding returned
  call m s = returned s (m s.world)

-- The message for a pod of a sentinel.
produce_message : Kvrocks → Bytes → Pod → ProduceMessage
produce_message sentinel system_id pod = record {
  ip = pod.ip;
  password = sentinel.spec.password;
  key = pod.namespace ++ b'/' ∷ pod.name;
  system_id = system_id;
}

module _ {W : Type 0} (env : Env W) where
  register_pod : Kvrocks → Bytes → Pod → Run W Unit
  unfolding register produce_message
  register_pod sentinel system_id pod = modify (register (produce_message sentinel system_id pod))

  -- The pods of one sentinel, or the error that ends the round.
  register_pods : Kvrocks → Bytes → Result (List Pod) → Run W Unit → Run W Unit
  unfolding ◌>>=◌ for_each register_pod
  register_pods sentinel system_id (ok pods) later = do
    for_each pods (register_pod sentinel system_id)
    later
  register_pods sentinel system_id (err _) later = pure tt
  register_pods sentinel system_id panic later = crash

  produce_all : List Kvrocks → Run W Unit
  unfolding ◌>>=◌ attempt call register_pods
  produce_all [] = pure tt
  produce_all (sentinel ∷ sentinels) =
      let later = produce_all sentinels in
      if is_running sentinel.status.status
      then (do
        system_id ← or_crash (get_elem? (split b'-' sentinel.name) 1)
        pods ← attempt (
            call (
              list_deployment_pods env.k8s
                (record { namespace = sentinel.namespace; name = sentinel.name })))
        register_pods sentinel system_id pods later)
      else later

  produce_found : Result (List Kvrocks) → Run W Unit
  unfolding produce_all
  produce_found (ok sentinels) = produce_all sentinels
  produce_found (err _) = pure tt
  produce_found panic = crash

  -- `producer`
  unfoldable pub producer : Run W Unit
  unfolding ◌>>=◌ attempt call produce_found
  producer = do
    sentinels ← attempt (call (list_kvrocks env.k8s [] sentinel_labels))
    produce_found sentinels

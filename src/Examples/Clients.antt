-- ===== src/Examples/Clients.antt =====
-- The theorems on the clients at small servers.
use kvrocks_operator.Base.{
  ℕ, ◌+◌, Bytes, true, [], ◌∷◌, ◌++◌, ◌≡◌, refl, codes, Option, some, none, split, contains,
}
use kvrocks_operator.Base.Exec.{ok}
use kvrocks_operator.Kvrocks.NodeInfo.{parse_node_info, IsForeign, own_node, parse_node_info_lem}
use kvrocks_operator.Api.{Key}
use kvrocks_operator.Client.Objects.{ConfigMap, Cluster}
use kvrocks_operator.Client.K8s.{create_or_update_config_map}
use kvrocks_operator.Client.K8s.Lawful.Memory.{memory, memory-IsLawful}
use kvrocks_operator.Client.K8s.Puts.{
  config_map_key, same_version, config_map_contents, sent_at, create_or_update_config_map_lem,
}
use kvrocks_operator.Client.Controller.{Http}
use kvrocks_operator.Client.Env.{Env}
use kvrocks_operator.Events.Queue.{empty_queue}
use kvrocks_operator.Cluster.State.{ClusterHandler, new_cluster_handler}
use kvrocks_operator.Cluster.Migration.{move_slot}
use kvrocks_operator.Cluster.Migration.Tries.{Counts, Tried, move_slot-Tried}
use kvrocks_operator.Examples.{cluster, kv, instance_demo}

abbrev own_line : Bytes
own_line = codes "b 10.0.0.2:6379 myself,slave a 0 0 1 connected"

abbrev other_line : Bytes
other_line = codes "a 10.0.0.1:6379 master - 0 0 1 connected 0-5460"

other-IsForeign : IsForeign other_line
unfolding split contains
other-IsForeign = refl

two_lines : split b'\n' (other_line ++ b'\n' ∷ own_line) ≡ other_line ∷ own_line ∷ []
unfolding split
two_lines = refl

own_fields :
    split b' ' own_line
    ≡ codes "b"
      ∷ codes "10.0.0.2:6379"
      ∷ codes "myself,slave"
      ∷ codes "a"
      ∷ codes "0"
      ∷ codes "0"
      ∷ codes "1"
      ∷ codes "connected"
      ∷ []
unfolding split
own_fields = refl

own_flag : contains (codes "myself") (codes "myself,slave") ≡ true
unfolding contains
own_flag = refl

parse_node_info_lem_example :
    parse_node_info (other_line ++ b'\n' ∷ own_line)
    ≡ own_node (codes "b") (codes "10.0.0.2:6379") (codes "myself,slave") (codes "a") []
parse_node_info_lem_example =
    parse_node_info_lem (other_line ++ b'\n' ∷ own_line) (other_line ∷ []) own_line [] (codes "b")
      (codes "10.0.0.2:6379") (codes "myself,slave") (codes "a") (codes "0") (codes "0") (codes "1")
      (codes "connected") [] two_lines own_fields own_flag (other-IsForeign, tt) tt

abbrev settings : ConfigMap
settings = record {
  namespace = codes "kvrocks";
  name = codes "demo";
  resource_version = codes "7";
  contents = [];
}

-- A server that has no config map yet.
abbrev nothing : Key → Option ConfigMap
nothing k = none

abbrev server : Cluster (Key → Option ConfigMap)
server = record cluster { config_maps = memory config_map_key same_version }

-- One that has an older version.
abbrev older : Key → Option ConfigMap
older k =
    some (record settings { resource_version = codes "8"; contents = (codes "a", codes "b") ∷ [] })

create_or_update_config_map_lem_example :
    (cm' : ConfigMap) × (w' : Key → Option ConfigMap) × (create_or_update_config_map server settings
        older
      ≡ (ok cm', w'))
    × (sent_at config_map_contents (w' (config_map_key settings)) ≡ some [])
create_or_update_config_map_lem_example =
    create_or_update_config_map_lem server (λ w k. w k)
      (memory-IsLawful config_map_key same_version config_map_contents) settings older

-- A controller that counts its requests and refuses them, and a clock that counts the milliseconds slept.
abbrev counting : Http (ℕ × ℕ)
counting = record {
  send = λ _ _ _ (n, ms). (ok (record { status_code = 500; body = [] }), (n + 1, ms));
  decode_message = λ b. ok b;
  decode_shard = λ _. ok none;
  decode_shards = λ _. ok none;
}

abbrev patient : Env (ℕ × ℕ)
patient = record {
  k8s = cluster;
  kv = kv;
  http = counting;
  sleep = λ n (sent, ms). (ok tt, (sent, ms + n));
  now = λ n. (ok 0, n);
}

patient-Counts : Counts patient (λ w. w.0) (λ w. w.1)
patient-Counts = record {
  sent = λ _ _ _ (n, ms). (refl, refl);
  slept = λ _ (n, ms). (refl, refl, refl);
}

abbrev handler : ClusterHandler (ℕ × ℕ)
handler =
    record (new_cluster_handler (record { namespace = []; name = [] }) instance_demo empty_queue
      (0, 0)) { requeue = true }

move_slot-Tried_example :
    Tried
      (λ (h : ClusterHandler (ℕ × ℕ)). h.world.0)
      (λ (h : ClusterHandler (ℕ × ℕ)). h.world.1)
      0
      0
      5
      10
      (move_slot patient 0 1 100 handler)
unfolding new_cluster_handler
move_slot-Tried_example =
    move_slot-Tried patient (λ w. w.0) (λ w. w.1) patient-Counts 0 1 100 handler

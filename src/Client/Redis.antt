-- ===== src/Client/Redis.antt =====
-- The functions of pkg/client/kvrocks/standard.go, sentinel.go and cluster.go, over the commands of
-- the go-redis library. A connection is named by the address and the password it is opened with; log
-- lines and the closing of connections are left out.
use kvrocks_operator.Base.{Bytes, Bool, true, false, List, [], ◌∷◌, ◌++◌, codes}
use kvrocks_operator.Base.Decimal.{ℤ, print}
use kvrocks_operator.Base.Maps.{lookup}
use kvrocks_operator.Base.Exec.{
  Result, Exec, ok, err, panic, other, pure, raise, crash, attempt, or_crash, ◌>>=◌, ◌>>◌,
}
use kvrocks_operator.Api.{Labels}
use kvrocks_operator.Kvrocks.{Node, empty_node, kvrocks_port, quorum}
use kvrocks_operator.Kvrocks.NodeInfo.{parse_node_info}
use kvrocks_operator.Client.Kv.{Kv}
use kvrocks_operator.Client.Replies.{find_master_host, split_lines, find_offset}
use kvrocks_operator.Common.{label_value}

-- An element of a reply: a text, or something that is none.
pub data Reply : Type 0 where
  text : Bytes → Reply
  no_text : Reply

-- A connection.
pub record Conn : Type 0 where
  pub ip : Bytes
  pub password : Bytes

-- The commands of the library that the operator sends, to a node or to a sentinel.
pub record Redis (W : Type 0) : Type 0 where
  pub role : Conn → Exec W (List Reply)
  pub config_get : Conn → Bytes → Exec W (List Reply)
  pub config_set : Conn → Bytes → Bytes → Exec W Unit
  -- CONFIG SET for each pair, in one pipeline
  pub config_pipeline : Conn → Labels → Exec W Unit
  pub replica_of : Conn → Bytes → Bytes → Exec W Unit
  pub info : Conn → Bytes → Exec W Bytes
  pub ping : Conn → Exec W Unit
  pub cluster_nodes : Conn → Exec W Bytes
  -- SENTINEL MASTER, with the fields of the reply
  pub master : Conn → Bytes → Exec W Labels
  pub remove : Conn → Bytes → Exec W Unit
  -- name, host, port, quorum
  pub monitor : Conn → Bytes → Bytes → Bytes → Bytes → Exec W Unit
  -- name, option, value
  pub set_option : Conn → Bytes → Bytes → Bytes → Exec W Unit
  pub reset : Conn → Bytes → Exec W Unit

module _ {W : Type 0} (redis : Redis W) where
  -- A reply without elements leaves the node empty, and no error.
  read_role : Bytes → List Reply → Exec W Node
  read_role ip [] = pure empty_node
  read_role ip (text role ∷ _) = pure (record empty_node { ip = ip; role = role })
  read_role ip (no_text ∷ _) = crash

  -- `NodeInfo`
  unfoldable pub node_info : Bytes → Bytes → Exec W Node
  unfolding ◌>>=◌ read_role
  node_info ip password = do
    reply ← redis.role (record { ip = ip; password = password })
    read_role ip reply

  read_config : Bytes → List Reply → Exec W Bytes
  read_config key (_ ∷ text value ∷ []) = pure value
  read_config key (_ ∷ no_text ∷ []) = crash
  read_config key _ = raise (other (codes "invalid config key: " ++ key))

  -- `GetConfig`
  unfoldable pub get_config : Bytes → Bytes → Bytes → Exec W Bytes
  unfolding ◌>>=◌ read_config
  get_config ip password key = do
    reply ← redis.config_get (record { ip = ip; password = password }) key
    read_config key reply

  -- `SetConfig`
  unfoldable pub set_config : Bytes → Bytes → Bytes → Bytes → Exec W Unit
  set_config ip password key value =
      redis.config_set (record { ip = ip; password = password }) key value

  -- `ChangePassword`
  unfoldable pub change_password : Bytes → Bytes → Bytes → Exec W Unit
  change_password ip password new_password =
      redis.config_pipeline (record { ip = ip; password = password })
        ((codes "masterauth", new_password) ∷ (codes "requirepass", new_password) ∷ [])

  -- `ChangeMyselfToMaster`
  unfoldable pub change_myself_to_master : Bytes → Bytes → Exec W Unit
  change_myself_to_master ip password =
      redis.replica_of (record { ip = ip; password = password }) (codes "NO") (codes "ONE")

  -- `GetMaster`
  unfoldable pub get_master : Bytes → Bytes → Exec W Bytes
  unfolding ◌>>=◌ find_master_host
  get_master ip password = do
    info ← redis.info (record { ip = ip; password = password }) (codes "replication")
    pure (find_master_host info)

  -- `SlaveOf`
  unfoldable pub slave_of : Bytes → Bytes → Bytes → Exec W Unit
  unfolding print
  slave_of slave_ip master_ip password =
      redis.replica_of (record { ip = slave_ip; password = password }) master_ip
        (print kvrocks_port)

  -- `GetOffset`
  unfoldable pub get_offset : Bytes → Bytes → Exec W ℤ
  unfolding ◌>>=◌ split_lines find_offset
  get_offset ip password = do
    info ← redis.info (record { ip = ip; password = password }) (codes "replication")
    or_crash (find_offset (split_lines info))

  -- An error is an answer too.
  answers : Result (Unit {0}) → Exec W Bool
  answers (ok _) = pure true
  answers (err _) = pure false
  answers panic = crash

  -- `Ping`
  unfoldable pub ping : Bytes → Bytes → Exec W Bool
  unfolding ◌>>=◌ attempt answers
  ping ip password = do
    pong ← attempt (redis.ping (record { ip = ip; password = password }))
    answers pong

  -- `ClusterNodeInfo`
  unfoldable pub cluster_node_info : Bytes → Bytes → Exec W Node
  unfolding ◌>>=◌ parse_node_info
  cluster_node_info ip password = do
    info ← redis.cluster_nodes (record { ip = ip; password = password })
    pure (parse_node_info info)

  -- `GetMasterFromSentinel`
  unfoldable pub get_master_from_sentinel : Bytes → Bytes → Bytes → Exec W Bytes
  unfolding ◌>>=◌ label_value lookup
  get_master_from_sentinel ip password master = do
    fields ← redis.master (record { ip = ip; password = password }) master
    pure (label_value (lookup (codes "ip") fields))

  -- `RemoveMonitor`
  unfoldable pub remove_monitor : Bytes → Bytes → Bytes → Exec W Unit
  remove_monitor ip password master = redis.remove (record { ip = ip; password = password }) master

  -- `CreateMonitor`
  unfoldable pub create_monitor : Bytes → Bytes → Bytes → Bytes → Bytes → Exec W Unit
  unfolding ◌>>=◌ print
  create_monitor sentinel_ip password master ip kv_password = do
    let conn : Conn = record { ip = sentinel_ip; password = password }
    redis.monitor conn master ip (print kvrocks_port) (print quorum)
    redis.set_option conn master (codes "AUTH-PASS") kv_password
    redis.set_option conn master (codes "failover-timeout") (codes "30000")
    redis.set_option conn master (codes "down-after-milliseconds") (codes "10000")

  -- `ResetMonitor`
  unfoldable pub reset_monitor : Bytes → Bytes → Bytes → Bytes → Exec W Unit
  unfolding ◌>>=◌
  reset_monitor sentinel_ip sentinel_password master password = do
    let conn : Conn = record { ip = sentinel_ip; password = sentinel_password }
    redis.reset conn master
    redis.set_option conn master (codes "AUTH-PASS") password

  -- The interface of the handlers, by these functions.
  abbrev pub kvrocks_client : Kv W
  kvrocks_client = record {
    change_myself_to_master = change_myself_to_master;
    change_password = change_password;
    cluster_node_info = cluster_node_info;
    create_monitor = create_monitor;
    get_config = get_config;
    get_master = get_master;
    get_master_from_sentinel = get_master_from_sentinel;
    get_offset = get_offset;
    node_info = node_info;
    ping = ping;
    remove_monitor = remove_monitor;
    reset_monitor = reset_monitor;
    set_config = set_config;
    slave_of = slave_of;
  }

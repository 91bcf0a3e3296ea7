-- ===== src/Client/Controller.antt =====
-- pkg/client/controller/controller_client.go: the REST client of the kvrocks controller. HTTP and
-- the JSON of bodies are arguments: a request names its path and holds the value that is marshalled.
pub mod Sent
use kvrocks_operator.Base.{
  ℕ, Bytes, List, [], ◌++◌, Option, none, some, codes, ◌==◌, nat_eq, bytes_eq, if◌then◌else◌,
}
use kvrocks_operator.Base.Decimal.{print}
use kvrocks_operator.Base.Exec.{Error, Result, Exec, other, pure, raise, ◌>>=◌}
use kvrocks_operator.Kvrocks.{controller_service_name}
use kvrocks_operator.Client.Objects.{Cluster}
use kvrocks_operator.Client.K8s.{get_service}

-- `Node` of this package: a member of a shard as the controller reports it. (Its password and
-- creation time are read by nothing.)
pub record Member : Type 0 where
  pub id : Bytes
  pub addr : Bytes
  pub role : Bytes

pub record ShardData : Type 0 where
  pub nodes : List Member
  pub slot_ranges : List Bytes

-- The values that become request bodies.
pub data Body : Type 0 where
  no_body : Body
  namespace_option : Bytes → Body
  cluster_option : Bytes → List Bytes → ℕ → Bytes → Body
  shard_option : List Bytes → Bytes → Body
  node_option : Bytes → Bytes → Bytes → Body
  migration_option : ℕ → ℕ → ℕ → Body

pub data Method : Type 0 where
  get_method post_method delete_method : Method

pub record Response : Type 0 where
  pub status_code : ℕ
  pub body : Bytes

-- net/http and encoding/json, with the decoders for the three forms of answers that are read.
-- A decoder gives an error for a body that does not unmarshal, and none where the entry lacks.
pub record Http (W : Type 0) : Type 0 where
  pub send : Method → Bytes → Body → Exec W Response
  pub decode_message : Bytes → Result Bytes
  pub decode_shard : Bytes → Result (Option ShardData)
  pub decode_shards : Bytes → Result (Option (List ShardData))

pub record Endpoint : Type 0 where
  pub end_point : Bytes
  pub namespace : Bytes
  pub cluster_name : Bytes

-- `NewClient`
abbrev pub new_client : Endpoint
new_client = record {
  end_point = [];
  namespace = codes "cluster-demo";
  cluster_name = codes "cluster-demo";
}

abbrev pub status_ok : ℕ
status_ok = 200

abbrev pub status_created : ℕ
status_created = 201

lift_result : {W A : Type 0} → Result A → Exec W A
lift_result r s = (r, s)

present : {W A : Type 0} → Option A → Exec W A
present none = raise (other (codes "unexpected response format"))
present (some a) = pure a

unexpected : ℕ → Error
unexpected code = other (codes "unexpected response status code: " ++ print code)

expect : {W : Type 0} → ℕ → Response → Exec W Unit
unfolding unexpected
expect code resp = if resp.status_code == code then pure tt else raise (unexpected resp.status_code)

abbrev clusters_path : Endpoint → Bytes
clusters_path c = c.end_point ++ codes "/namespaces/" ++ c.namespace ++ codes "/clusters"

abbrev shards_path : Endpoint → Bytes
shards_path c = clusters_path c ++ codes "/" ++ c.cluster_name ++ codes "/shards"

abbrev shard_path : Endpoint → ℕ → Bytes
shard_path c index = shards_path c ++ codes "/" ++ print index

module _ {W : Type 0} (http : Http W) where
  -- `SetEndPoint`
  unfoldable pub set_end_point : Bytes → Cluster W → Endpoint → Exec W Endpoint
  unfolding ◌>>=◌
  set_end_point namespace k8s c = do
    service ← get_service k8s (record { namespace = namespace; name = controller_service_name })
    pure (record c { end_point = codes "http://" ++ service.cluster_ip ++ codes ":9379/api/v1" })

  module _ (c : Endpoint) where
    -- `CreateIfNotExistsNamespace`
    unfoldable pub create_if_not_exists_namespace : Exec W Unit
    unfolding ◌>>=◌ lift_result
    create_if_not_exists_namespace = do
      resp ←
          http.send post_method (c.end_point ++ codes "/namespaces") (namespace_option c.namespace)
      if resp.status_code == status_created then pure tt else do
        message ← lift_result (http.decode_message resp.body)
        if message == codes "the entry already existed" then pure tt else raise (other message)

    -- `CreateCluster`: an answer other than 201 is no error, since `err` is nil there.
    unfoldable pub create_cluster : ℕ → List Bytes → Bytes → Exec W Unit
    unfolding ◌>>=◌
    create_cluster replicas nodes password = do
      resp ←
          http.send post_method (clusters_path c)
            (cluster_option c.cluster_name nodes replicas password)
      if resp.status_code == status_created then pure tt else pure tt

    unfoldable pub create_shard : List Bytes → Bytes → Exec W Unit
    unfolding ◌>>=◌ expect
    create_shard nodes password = do
      resp ← http.send post_method (shards_path c) (shard_option nodes password)
      expect status_created resp

    -- An answer other than 200 is a nil slice and no error.
    unfoldable pub get_shards : Exec W (List ShardData)
    unfolding ◌>>=◌ lift_result present
    get_shards = do
      resp ← http.send get_method (shards_path c) no_body
      if resp.status_code == status_ok
          then (do shards ← lift_result (http.decode_shards resp.body); present shards)
          else pure []

    unfoldable pub delete_shard : ℕ → Exec W Unit
    unfolding ◌>>=◌ expect
    delete_shard index = do
      resp ← http.send delete_method (shard_path c index) no_body
      expect status_ok resp

    -- An answer other than 200 is a nil pointer and no error.
    unfoldable pub get_nodes : ℕ → Exec W (Option ShardData)
    unfolding ◌>>=◌ lift_result present
    get_nodes index = do
      resp ← http.send get_method (shard_path c index) no_body
      if resp.status_code == status_ok
          then (do
            decoded ← lift_result (http.decode_shard resp.body)
            shard ← present decoded
            pure (some shard))
          else pure none

    unfoldable pub delete_node : ℕ → Bytes → Exec W Unit
    unfolding ◌>>=◌ expect
    delete_node index node_id = do
      resp ← http.send delete_method (shard_path c index ++ codes "/nodes/" ++ node_id) no_body
      expect status_ok resp

    unfoldable pub add_node : ℕ → Bytes → Bytes → Bytes → Exec W Unit
    unfolding ◌>>=◌ expect
    add_node index addr role password = do
      resp ←
          http.send post_method (shard_path c index ++ codes "/nodes")
            (node_option addr role password)
      expect status_created resp

    unfoldable pub failover_shard : ℕ → Exec W Unit
    unfolding ◌>>=◌ expect
    failover_shard index = do
      resp ← http.send post_method (shard_path c index ++ codes "/failover") no_body
      expect status_ok resp

    unfoldable pub migrate_slot_and_data : ℕ → ℕ → ℕ → Exec W Unit
    unfolding ◌>>=◌ expect
    migrate_slot_and_data source target slot = do
      resp ←
          http.send post_method (shards_path c ++ codes "/migration/slot_data")
            (migration_option source target slot)
      expect status_ok resp

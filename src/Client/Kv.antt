-- ===== src/Client/Kv.antt =====
-- The `Client` interface of pkg/client/kvrocks/kvrocks_client.go.
use kvrocks_operator.Base.{Bool, Bytes}
use kvrocks_operator.Base.Decimal.{ℤ}
use kvrocks_operator.Base.Exec.{Exec}
use kvrocks_operator.Kvrocks.{Node}

pub record Kv (W : Type 0) : Type 0 where
  -- ip, password
  pub change_myself_to_master : Bytes → Bytes → Exec W Unit
  -- ip, password, new password
  pub change_password : Bytes → Bytes → Bytes → Exec W Unit
  -- ip, password
  pub cluster_node_info : Bytes → Bytes → Exec W Node
  -- sentinel ip, sentinel password, master, ip, password
  pub create_monitor : Bytes → Bytes → Bytes → Bytes → Bytes → Exec W Unit
  -- ip, password, key
  pub get_config : Bytes → Bytes → Bytes → Exec W Bytes
  -- ip, password
  pub get_master : Bytes → Bytes → Exec W Bytes
  -- sentinel ip, sentinel password, master
  pub get_master_from_sentinel : Bytes → Bytes → Bytes → Exec W Bytes
  -- ip, password
  pub get_offset : Bytes → Bytes → Exec W ℤ
  -- ip, password
  pub node_info : Bytes → Bytes → Exec W Node
  -- ip, password
  pub ping : Bytes → Bytes → Exec W Bool
  -- sentinel ip, sentinel password, master
  pub remove_monitor : Bytes → Bytes → Bytes → Exec W Unit
  -- sentinel ip, sentinel password, master, password
  pub reset_monitor : Bytes → Bytes → Bytes → Bytes → Exec W Unit
  -- ip, password, key, value
  pub set_config : Bytes → Bytes → Bytes → Bytes → Exec W Unit
  -- slave ip, master ip, password
  pub slave_of : Bytes → Bytes → Bytes → Exec W Unit

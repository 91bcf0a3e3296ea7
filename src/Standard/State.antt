-- ===== src/Standard/State.antt =====
-- `KVRocksStandardHandler` of pkg/controllers/standard/handler.go: one pass over one instance.
pub mod Kept
use kvrocks_operator.Base.{Bytes, Bool, false, List, []}
use kvrocks_operator.Base.Exec.{Result, Exec, ok}
use kvrocks_operator.Api.{Key, Kvrocks}
use kvrocks_operator.Kvrocks.{Node}

-- `world` is all that the clients of the handler act on.
pub record StandardHandler (W : Type 0) : Type 0 where
  pub instance_ : Kvrocks
  pub password : Bytes
  pub sts_nodes : List Node
  pub requeue : Bool
  pub key : Key
  pub world : W

-- `NewKVRocksStandardHandler`
unfoldable pub new_standard_handler : {W : Type 0} → Key → Kvrocks → W → StandardHandler W
new_standard_handler key k world = record {
  instance_ = k;
  password = [];
  sts_nodes = [];
  requeue = false;
  key = key;
  world = world;
}

abbrev pub Run : Type 0 → Type 0 → Type 0
Run W A = Exec (StandardHandler W) A

module _ {W : Type 0} where
  returned : {A : Type 0} → StandardHandler W → Result A × W → Result A × StandardHandler W
  returned h (r, w) = (r, record h { world = w })

  -- A call of one of the handler's clients.
  unfoldable pub call : {A : Type 0} → Exec W A → Run W A
  unfolding returned
  call m h = returned h (m h.world)

  unfoldable pub set_requeue : Bool → Run W Unit
  set_requeue b h = (ok tt, record h { requeue = b })

  unfoldable pub set_password : Bytes → Run W Unit
  set_password p h = (ok tt, record h { password = p })

  unfoldable pub set_nodes : List Node → Run W Unit
  set_nodes nodes h = (ok tt, record h { sts_nodes = nodes })

  unfoldable pub set_instance : Kvrocks → Run W Unit
  set_instance k h = (ok tt, record h { instance_ = k })

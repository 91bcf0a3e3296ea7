-- ===== src/Common/Reserve.antt =====
-- Which pods a scale-down removes. The loop over the nodes from the highest ordinal is the same in
-- `ResizeStatefulSet` of pkg/controllers/common, `resizeStatefulSet` of the standard handler and
-- `getReserveIndex` of the cluster handler; they differ in what they do with its result.
pub mod Picked
use kvrocks_operator.Base.{ℕ, zero, suc, Bool, List, [], ◌∷◌, ◌++◌, ◌==◌, bytes_eq, if◌then◌else◌}
use kvrocks_operator.Kvrocks.{Node, role_master}

abbrev pub is_master : Node → Bool
is_master node = node.role == role_master

-- The ordinals to remove in the order found, and the ordinal of the last master passed. The first
-- argument is `delta`, the nodes come from the highest ordinal down.
unfoldable pub pick : ℕ → List Node → List ℕ → ℕ → List ℕ × ℕ
pick zero nodes reserve master_id = (reserve, master_id)
pick (suc delta) [] reserve master_id = (reserve, master_id)
pick (suc delta) (node ∷ nodes) reserve master_id =
    pick (if is_master node then suc delta else delta) nodes
      (if is_master node then reserve else reserve ++ node.pod_index ∷ [])
      (if is_master node then node.pod_index else master_id)

-- ===== src/Kvrocks/NodeInfo.antt =====
-- pkg/client/kvrocks/cluster.go: the node's own line of CLUSTER NODES.
use kvrocks_operator.Base.{
  Bytes, Bool, true, false, List, [], ◌∷◌, ◌++◌, ◌≡◌, refl, codes, split, contains, before_first,
  All, if◌then◌else◌,
}
use kvrocks_operator.Kvrocks.{Node, empty_node, role_master, role_slaver}
use kvrocks_operator.Kvrocks.Slots.{slots_to_int}

-- The role, with the slots of a master or the master of a slave.
with_role : Bytes → Bytes → List Bytes → Node → Node
with_role flags master slots node =
    if contains role_master flags
    then record node { role = role_master; slots = slots_to_int slots }
    else if contains role_slaver flags
    then record node { role = role_slaver; master = master }
    else node

-- A line of fewer than eight fields is skipped, and so is a line of another node.
parse_fields : Node → List Bytes → Node
unfolding with_role
parse_fields node (id ∷ addr ∷ flags ∷ master ∷ _ ∷ _ ∷ _ ∷ _ ∷ slots) =
    if contains (codes "myself") flags
    then with_role flags master slots (record node { node_id = id; ip = before_first b':' addr })
    else node
parse_fields node _ = node

parse_lines : Node → List Bytes → Node
unfolding parse_fields
parse_lines node [] = node
parse_lines node (line ∷ lines) = parse_lines (parse_fields node (split b' ' line)) lines

unfoldable pub parse_node_info : Bytes → Node
unfolding parse_lines
parse_node_info info = parse_lines empty_node (split b'\n' info)

abbrev names_myself : List Bytes → Bool
names_myself (_ ∷ _ ∷ flags ∷ _) = contains (codes "myself") flags
names_myself _ = false

-- Whether the line is one of another node, or of none.
abbrev pub IsForeign : Bytes → Type 0
IsForeign line = names_myself (split b' ' line) ≡ false

foreign_fields :
    (node : Node) (fields : List Bytes)
    → names_myself fields ≡ false
    → parse_fields node fields ≡ node
unfolding parse_fields
foreign_fields node [] h = refl
foreign_fields node (a ∷ []) h = refl
foreign_fields node (a ∷ b ∷ []) h = refl
foreign_fields node (a ∷ b ∷ c ∷ []) h = refl
foreign_fields node (a ∷ b ∷ c ∷ d ∷ []) h = refl
foreign_fields node (a ∷ b ∷ c ∷ d ∷ e ∷ []) h = refl
foreign_fields node (a ∷ b ∷ c ∷ d ∷ e ∷ f ∷ []) h = refl
foreign_fields node (a ∷ b ∷ c ∷ d ∷ e ∷ f ∷ g ∷ []) h = refl
foreign_fields node (a ∷ b ∷ c ∷ d ∷ e ∷ f ∷ g ∷ k ∷ rest) h = rw h

foreign_lines :
    (node : Node) (lines : List Bytes) → All IsForeign lines → parse_lines node lines ≡ node
unfolding parse_lines
foreign_lines node [] h = refl
foreign_lines node (line ∷ lines) (hl, h) =
    rw (foreign_fields node (split b' ' line) hl) (foreign_lines node lines h)

parse_lines-append :
    (node : Node) (before after : List Bytes)
    → parse_lines node (before ++ after) ≡ parse_lines (parse_lines node before) after
unfolding parse_lines
parse_lines-append node [] after = refl
parse_lines-append node (line ∷ before) after =
    parse_lines-append (parse_fields node (split b' ' line)) before after

-- What a node says of itself on a line of the given fields.
abbrev pub own_node : Bytes → Bytes → Bytes → Bytes → List Bytes → Node
own_node id addr flags master slots =
    let named : Node = record empty_node { node_id = id; ip = before_first b':' addr } in
    if contains role_master flags
    then record named { role = role_master; slots = slots_to_int slots }
    else if contains role_slaver flags
    then record named { role = role_slaver; master = master }
    else named

-- Where all lines but one are of other nodes, the node read is that of the one line, which has the
-- flag `myself` and its eight fields at least: its id, the address up to the port, the role, and the
-- slots of a master or the id of a slave's master.
pub parse_node_info_lem :
    (info : Bytes) (before : List Bytes) (line : Bytes) (after : List Bytes)
    (id addr flags master a b c d : Bytes) (slots : List Bytes)
    → split b'\n' info ≡ before ++ line ∷ after
    → split b' ' line ≡ id ∷ addr ∷ flags ∷ master ∷ a ∷ b ∷ c ∷ d ∷ slots
    → contains (codes "myself") flags ≡ true
    → All IsForeign before
    → All IsForeign after
    → parse_node_info info ≡ own_node id addr flags master slots
unfolding parse_node_info parse_lines parse_fields with_role
parse_node_info_lem info before line after id addr flags master a b c d slots e f m hb ha =
    rw
      (
        e,
        parse_lines-append empty_node before (line ∷ after),
        foreign_lines empty_node before hb,
        f,
        m,
      )
      (foreign_lines _ after ha)

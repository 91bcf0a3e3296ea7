-- ===== src/Common/Reserve/Picked.antt =====
-- What a scale-down picks, and why the set controller then removes just that.
use mathlib.Core.List.{reverse, reverse-cons}
use kvrocks_operator.Base.{
  ℕ, zero, suc, ◌<◌, Bool, true, false, List, [], ◌∷◌, ◌++◌, ◌≡◌, ◌∙◌, map, append_assoc,
  append-nil, All, All-append, keep, not, nat_eq, bytes_eq, if◌then◌else◌,
}
use kvrocks_operator.Kvrocks.{Node}
use kvrocks_operator.Common.Reserve.{pick, is_master}

-- The ordinals of the first `delta` nodes that are no masters.
abbrev pub take : ℕ → List Node → List Node
take zero nodes = []
take (suc n) [] = []
take (suc n) (node ∷ nodes) = node ∷ take n nodes

abbrev pub slaves : List Node → List Node
slaves = keep (λ node. not (is_master node))

abbrev pub picked : ℕ → List Node → List ℕ
picked delta nodes = map (λ (node : Node). node.pod_index) (take delta (slaves nodes))

-- The last master that is passed on the way.
abbrev pub passed : ℕ → List Node → ℕ → ℕ
passed zero nodes m = m
passed (suc delta) [] m = m
passed (suc delta) (node ∷ nodes) m =
    passed (if is_master node then suc delta else delta) nodes
      (if is_master node then node.pod_index else m)

abbrev Picks : ℕ → List Node → Type 0
Picks delta nodes =
    (reserve : List ℕ) (m : ℕ)
    → pick delta nodes reserve m ≡ (reserve ++ picked delta nodes, passed delta nodes m)

-- One turn of the loop, by the answer of its test.
turn :
    (delta : ℕ) (node : Node) (nodes : List Node) (reserve : List ℕ) (m : ℕ) (b : Bool)
    → Picks (suc delta) nodes
    → Picks delta nodes
    → pick
        (if b then suc delta else delta)
        nodes
        (if b then reserve else reserve ++ node.pod_index ∷ [])
        (if b then node.pod_index else m)
      ≡ (
        reserve
            ++ map
                (λ (n : Node). n.pod_index)
                (take
                  (suc delta)
                  (elim (not b) [ true ↦ node ∷ slaves nodes | false ↦ slaves nodes ])),
        passed (if b then suc delta else delta) nodes (if b then node.pod_index else m),
      )
turn delta node nodes reserve m true more fewer = more reserve node.pod_index
turn delta node nodes reserve m false more fewer =
    fewer (reserve ++ node.pod_index ∷ []) m ∙ rw append_assoc

-- The loop picks, from the highest ordinal down, the first `delta` nodes that are no masters, or all
-- of them if there are fewer, behind what it has picked before, and keeps the ordinal of the last
-- master that it passes on the way.
pub pick-picked :
    (delta : ℕ) (nodes : List Node) (reserve : List ℕ) (m : ℕ)
    → pick delta nodes reserve m ≡ (reserve ++ picked delta nodes, passed delta nodes m)
unfolding pick
pick-picked zero nodes reserve m = rw append-nil
pick-picked (suc delta) [] reserve m = rw append-nil
pick-picked (suc delta) (node ∷ nodes) reserve m =
    turn delta node nodes reserve m (is_master node) (pick-picked (suc delta) nodes)
      (pick-picked delta nodes)

-- Ordinals fall along the list.
abbrev pub IsDescending : List Node → Type 0
IsDescending [] = Unit
IsDescending (a ∷ nodes) = All (λ (b : Node). b.pod_index < a.pod_index) nodes × IsDescending nodes

abbrev pub IsAscending : List Node → Type 0
IsAscending [] = Unit
IsAscending (a ∷ nodes) = All (λ (b : Node). a.pod_index < b.pod_index) nodes × IsAscending nodes

IsDescending-append :
    (nodes : List Node) (a : Node)
    → IsDescending nodes
    → All (λ (b : Node). a.pod_index < b.pod_index) nodes
    → IsDescending (nodes ++ a ∷ [])
IsDescending-append [] a d h = (tt, tt)
IsDescending-append (b ∷ nodes) a (below, d) (ab, h) =
    (All-append _ nodes (a ∷ []) below (ab, tt), IsDescending-append nodes a d h)

pub All-reverse : (P : Node → Type 0) (nodes : List Node) → All P nodes → All P (reverse nodes)
All-reverse P [] h = tt
All-reverse P (a ∷ nodes) (pa, h) =
    rw (reverse-cons a nodes)
      (All-append P (reverse nodes) (a ∷ []) (All-reverse P nodes h) (pa, tt))

-- The handlers walk an ascending list from its end.
pub IsDescending-reverse : (nodes : List Node) → IsAscending nodes → IsDescending (reverse nodes)
IsDescending-reverse [] h = tt
IsDescending-reverse (a ∷ nodes) (above, h) = rw (reverse-cons a nodes) (
    IsDescending-append (reverse nodes) a (IsDescending-reverse nodes h)
      (All-reverse (λ (b : Node). a.pod_index < b.pod_index) nodes above))

turn_All :
    (P : ℕ → Type 0) (delta : ℕ) (node : Node) (nodes : List Node) (b : Bool)
    → P node.pod_index
    → All P (picked (suc delta) nodes)
    → All P (picked delta nodes)
    → All P (
        map
          (λ (n : Node). n.pod_index)
          (take (suc delta) (elim (not b) [ true ↦ node ∷ slaves nodes | false ↦ slaves nodes ])))
turn_All P delta node nodes true p more fewer = more
turn_All P delta node nodes false p more fewer = (p, fewer)

picked-All :
    (P : ℕ → Type 0) (delta : ℕ) (nodes : List Node)
    → All (λ (b : Node). P b.pod_index) nodes
    → All P (picked delta nodes)
picked-All P zero nodes h = tt
picked-All P (suc delta) [] h = tt
picked-All P (suc delta) (node ∷ nodes) (p, h) =
    turn_All P delta node nodes (is_master node) p (picked-All P (suc delta) nodes h)
      (picked-All P delta nodes h)

-- Every picked ordinal is one of the nodes'.
pub picked-below :
    (delta bound : ℕ) (nodes : List Node)
    → All (λ (b : Node). b.pod_index < bound) nodes
    → All (λ id. id < bound) (picked delta nodes)
picked-below delta bound nodes h = picked-All (λ id. id < bound) delta nodes h

-- Numbers fall along the list.
abbrev pub Falling : List ℕ → Type 0
Falling [] = Unit
Falling (a ∷ ids) = All (λ b. b < a) ids × Falling ids

turn-Falling :
    (delta : ℕ) (node : Node) (nodes : List Node) (b : Bool)
    → All (λ (b : Node). b.pod_index < node.pod_index) nodes
    → Falling (picked (suc delta) nodes)
    → Falling (picked delta nodes)
    → Falling (
        map
          (λ (n : Node). n.pod_index)
          (take (suc delta) (elim (not b) [ true ↦ node ∷ slaves nodes | false ↦ slaves nodes ])))
turn-Falling delta node nodes true below more fewer = more
turn-Falling delta node nodes false below more fewer =
    (picked-below delta node.pod_index nodes below, fewer)

pub picked-Falling :
    (delta : ℕ) (nodes : List Node) → IsDescending nodes → Falling (picked delta nodes)
picked-Falling zero nodes h = tt
picked-Falling (suc delta) [] h = tt
picked-Falling (suc delta) (node ∷ nodes) (below, h) =
    turn-Falling delta node nodes (is_master node) below (picked-Falling (suc delta) nodes h)
      (picked-Falling delta nodes h)

-- Numbers rise along the list.
abbrev pub Rising : List ℕ → Type 0
Rising [] = Unit
Rising (a ∷ ids) = All (λ b. a < b) ids × Rising ids

Rising-append : (ids : List ℕ) (a : ℕ) → Rising ids → All (λ b. b < a) ids → Rising (ids ++ a ∷ [])
Rising-append [] a h below = (tt, tt)
Rising-append (b ∷ ids) a (above, h) (ba, below) =
    (All-append _ ids (a ∷ []) above (ba, tt), Rising-append ids a h below)

pub All-ids-reverse : (P : ℕ → Type 0) (ids : List ℕ) → All P ids → All P (reverse ids)
All-ids-reverse P [] h = tt
All-ids-reverse P (a ∷ ids) (pa, h) =
    rw (reverse-cons a ids) (All-append P (reverse ids) (a ∷ []) (All-ids-reverse P ids h) (pa, tt))

pub Rising-reverse : (ids : List ℕ) → Falling ids → Rising (reverse ids)
Rising-reverse [] h = tt
Rising-reverse (a ∷ ids) (below, h) =
    rw (reverse-cons a ids) (
      Rising-append (reverse ids) a (Rising-reverse ids h) (All-ids-reverse (λ b. b < a) ids below))

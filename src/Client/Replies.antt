-- ===== src/Client/Replies.antt =====
-- How pkg/client/kvrocks/standard.go reads the text of INFO.
pub mod Host
use kvrocks_operator.Base.{
  ℕ, ◌+◌, Bytes, Bool, true, false, List, [], ◌∷◌, ◌++◌, codes, drop, split, starts_with, leb, ◌&&◌,
  ◌||◌, ◌==◌, nat_eq, if◌then◌else◌, Option, none, some,
}
use kvrocks_operator.Base.Decimal.{ℤ, pos, negsuc, atoi_int_value}

-- A byte of the class [0-9a-zA-Z\.].
abbrev pub is_host : ℕ → Bool
is_host c =
    leb b'0' c && leb c b'9' || leb b'a' c && leb c b'z' || leb b'A' c && leb c b'Z' || c == b'.'

abbrev pub host_prefix : Bytes → Bytes
host_prefix [] = []
host_prefix (c ∷ s) = let rest = host_prefix s in if is_host c then c ∷ rest else []

abbrev pub master_host : Bytes
master_host = codes "master_host:"

host_or : Bytes → Bytes → Bytes
host_or [] later = later
host_or (c ∷ host) later = c ∷ host

-- The group of the leftmost match of `master_host:([0-9a-zA-Z\.]+)`, or nothing.
unfoldable pub find_master_host : Bytes → Bytes
unfolding starts_with host_or
find_master_host [] = []
find_master_host (c ∷ s) =
    let later = find_master_host s in
    if starts_with master_host (c ∷ s) then host_or (host_prefix (drop 12 (c ∷ s))) later else later

-- A byte in front of the first line.
before_line : ℕ → List Bytes → List Bytes
before_line c [] = (c ∷ []) ∷ []
before_line c (line ∷ lines) = (c ∷ line) ∷ lines

-- strings.Split(s, "\r\n")
unfoldable pub split_lines : Bytes → List Bytes
unfolding before_line
split_lines [] = [] ∷ []
split_lines (c ∷ []) = (c ∷ []) ∷ []
split_lines (c ∷ d ∷ s) =
    let after = split_lines s in
    let same = split_lines (d ∷ s) in if c == 13 && d == 10 then [] ∷ after else before_line c same

-- The second piece of a line cut at colons; none where there is no second piece.
offset_of : List Bytes → Option ℤ
unfolding atoi_int_value
offset_of (_ ∷ offset ∷ _) = some (atoi_int_value offset)
offset_of _ = none

-- The loop of `GetOffset`: -1 where no line has the prefix, and none where the code panics.
unfoldable pub find_offset : List Bytes → Option ℤ
unfolding offset_of
find_offset [] = some (negsuc 0)
find_offset (line ∷ lines) =
    let later = find_offset lines in
    if starts_with (codes "slave_repl_offset") line then offset_of (split b':' line) else later

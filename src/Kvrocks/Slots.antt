-- ===== src/Kvrocks/Slots.antt =====
-- `SlotsToString`, `SlotsToInt` and `InsertSlot`: slot lists as texts of single slots and ranges.
pub mod Order
pub mod RoundTrip
use kvrocks_operator.Base.{
  ℕ, zero, suc, ◌+◌, ◌-◌, Bytes, List, [], ◌∷◌, ◌++◌, codes, split, ltb, leb, ◌==◌, nat_eq,
  if◌then◌else◌,
}
use kvrocks_operator.Base.Decimal.{print, atoi, atoi_value}

insert : ℕ → List ℕ → List ℕ
insert a [] = a ∷ []
insert a (b ∷ xs) = if leb a b then a ∷ b ∷ xs else b ∷ insert a xs

-- sort.Ints
unfoldable pub sort : List ℕ → List ℕ
unfolding insert
sort [] = []
sort (a ∷ xs) = insert a (sort xs)

-- `"%d-%d"` of a run of slots, or `"%d"` of a single one.
run_text : ℕ → ℕ → Bytes
run_text head last = if head == last then print head else print head ++ b'-' ∷ print last

-- The loop of `SlotsToString`, with `head` and the slot before the current one.
runs : ℕ → ℕ → List ℕ → List Bytes
unfolding run_text
runs head previous [] = run_text head previous ∷ []
runs head previous (slot ∷ slots) =
    let broken = run_text head previous ∷ runs slot slot slots in
    let longer = runs head slot slots in if slot == previous + 1 then longer else broken

runs_of : List ℕ → List Bytes
unfolding runs
runs_of [] = []
runs_of (slot ∷ slots) = runs slot slot slots

unfoldable pub slots_to_string : List ℕ → List Bytes
unfolding runs_of sort
slots_to_string slots = runs_of (sort slots)

-- `for i := begin; i <= end; i++`, for an `end` below the largest int: at the largest one, `i` wraps
-- around and the loop never ends.
count_up : ℕ → ℕ → List ℕ
count_up zero begin = []
count_up (suc n) begin = begin ∷ count_up n (begin + 1)

-- The slots of one text, whose last number is below the largest int. A text that is no number counts
-- as 0, since the error is dropped.
range_of : List Bytes → List ℕ
unfolding count_up
range_of [] = []
range_of (single ∷ []) = atoi_value (atoi single) ∷ []
range_of (first ∷ last ∷ _) =
    let begin = atoi_value (atoi first) in
    let end = atoi_value (atoi last) in count_up (end + 1 - begin) begin

unfoldable pub slots_to_int : List Bytes → List ℕ
unfolding range_of
slots_to_int [] = []
slots_to_int (slot ∷ slots) = range_of (split b'-' slot) ++ slots_to_int slots

-- `InsertSlot`, on the slots of the node.
unfoldable pub insert_slot : ℕ → List ℕ → List ℕ
unfolding sort
insert_slot value slots = sort (slots ++ value ∷ [])

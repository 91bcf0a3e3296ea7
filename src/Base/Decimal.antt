-- ===== src/Base/Decimal.antt =====
-- `fmt` with %d and `strconv.Atoi`, on byte lists.
use Prim.Native.Nat.{ℕ, zero, suc, ◌+◌, ◌-◌, ◌*◌, ◌/◌, ◌%◌, ◌^◌, ◌≤◌, ◌<◌}
use mathlib.Core.Path.{◌≡◌, refl, ◌∙◌}
use mathlib.Core.Logic.{◌≢◌}
use mathlib.Core.Option.{Option, none, some}
use mathlib.Core.Bool.{◌||◌}
use mathlib.Core.List.{[], ◌∷◌}
use native.Mathlib.Omega.{arith}
use kvrocks_operator.Base.Tests.{ltb, if◌then◌else◌}
use kvrocks_operator.Base.Lists.{All}
use kvrocks_operator.Base.Text.{Bytes, Lacks}

digits : ℕ → ℕ → Bytes → Bytes
digits zero n out = out
digits (suc fuel) n out =
    let more = digits fuel (n / 10) ((b'0' + n % 10) ∷ out) in
    if ltb n 10 then (b'0' + n) ∷ out else more

-- `%d` of a number that is not negative. One round for each digit, and n has at most n + 1.
unfoldable pub print : ℕ → Bytes
unfolding digits
print n = digits (suc n) n []

-- What Atoi returns: a number, or 0 with a syntax error, or the largest int with a range error.
pub data Number : Type 0 where
  number : ℕ → Number
  syntax range : Number

abbrev pub max_int : ℕ
max_int = 2 ^ 63 - 1

-- strconv.ParseUint: a uint64, with its range error as soon as the number no longer fits.
scan : Bytes → ℕ → Number
scan [] n = number n
scan (c ∷ s) n =
    if ltb c b'0' || ltb b'9' c
    then syntax
    else if ltb (n * 10 + (c - b'0')) (2 ^ 64)
    then scan s (n * 10 + (c - b'0'))
    else range

scan_first : Bytes → Number
unfolding scan
scan_first [] = syntax
scan_first (c ∷ s) = scan (c ∷ s) 0

-- What fits a uint64 may not fit an int.
cap_at : ℕ → Number → Number
cap_at limit (number n) = if ltb limit n then range else number n
cap_at limit syntax = syntax
cap_at limit range = range

-- `strconv.Atoi` of a text that does not begin with a minus sign.
unfoldable pub atoi : Bytes → Number
unfolding scan_first cap_at
atoi [] = syntax
atoi (c ∷ s) =
    cap_at max_int (if ltb c b'+' || ltb b'+' c then scan_first (c ∷ s) else scan_first s)

-- The value that Atoi returns beside its error.
abbrev pub atoi_value : Number → ℕ
atoi_value (number n) = n
atoi_value syntax = 0
atoi_value range = max_int

abbrev IsDigit : ℕ → Type 0
IsDigit c = (b'0' ≤ c) × (c ≤ b'9')

digits-All : (f n : ℕ) (out : Bytes) → All IsDigit out → All IsDigit (digits f n out)
unfolding digits
digits-All zero n out h = h
digits-All (suc f) n out h = ground (arith, digits-All f (n / 10) ((b'0' + n % 10) ∷ out))

scan-digits : (f n : ℕ) (out : Bytes) → n < f → n ≤ max_int → scan (digits f n out) 0 ≡ scan out n
unfolding digits scan
scan-digits zero n out h k = absurd (omega arith)
scan-digits (suc f) n out h k = ground (arith, scan-digits f (n / 10) ((b'0' + n % 10) ∷ out))

scan-print : (n : ℕ) → n ≤ max_int → scan (print n) 0 ≡ number n
unfolding print
scan-print n h = scan-digits (suc n) n [] (omega arith) h ∙ unfold scan in ground arith

atoi-scan : (s : Bytes) → s ≢ [] → All IsDigit s → atoi s ≡ cap_at max_int (scan s 0)
unfolding atoi
atoi-scan [] h d = absurd (h refl)
atoi-scan (c ∷ s) h d = ground arith

digits-ne-nil : (f n : ℕ) (out : Bytes) → out ≢ [] → digits f n out ≢ []
unfolding digits
digits-ne-nil zero n out h = h
digits-ne-nil (suc f) n out h = ground (arith, digits-ne-nil f (n / 10) ((b'0' + n % 10) ∷ out))

pub print-ne-nil : (n : ℕ) → print n ≢ []
unfolding print digits
print-ne-nil n = ground (arith, digits-ne-nil n (n / 10) ((b'0' + n % 10) ∷ []))

-- Every int that is not negative is read back from its decimal print.
pub atoi-print : (n : ℕ) → n ≤ max_int → atoi (print n) ≡ number n
atoi-print n h =
    atoi-scan (print n) (print-ne-nil n) (unfold print in digits-All (suc n) n [] tt)
    ∙ rw (scan-print n h) (unfold cap_at in ground arith)

Lacks-digits : (c : ℕ) (s : Bytes) → c < b'0' → All IsDigit s → Lacks c s
Lacks-digits c [] h d = tt
Lacks-digits c (b ∷ s) h (db, ds) = (omega arith, Lacks-digits c s h ds)

-- A decimal print holds no character below the digits, such as a dash, a slash or a space.
pub print-Lacks : (c n : ℕ) → c < b'0' → Lacks c (print n)
print-Lacks c n h = Lacks-digits c (print n) h (unfold print in digits-All (suc n) n [] tt)

-- Whole numbers: `negsuc n` is -(n + 1).
pub data ℤ : Type 0 where
  pos : ℕ → ℤ
  negsuc : ℕ → ℤ

negative : Number → Option ℤ
negative (number zero) = some (pos 0)
negative (number (suc n)) = some (negsuc n)
negative syntax = none
negative range = none

positive : Number → Option ℤ
positive (number n) = some (pos n)
positive syntax = none
positive range = none

-- `strconv.Atoi` of any text, for callers that give up on an error.
unfoldable pub atoi_int : Bytes → Option ℤ
unfolding atoi scan_first cap_at negative positive
atoi_int [] = none
atoi_int (c ∷ s) =
    if ltb c b'-' || ltb b'-' c
    then positive (atoi (c ∷ s))
    else negative (cap_at (max_int + 1) (scan_first s))

from_positive : Number → ℤ
from_positive (number n) = pos n
from_positive syntax = pos 0
from_positive range = pos max_int

from_negative : Number → ℤ
from_negative (number zero) = pos 0
from_negative (number (suc n)) = negsuc n
from_negative syntax = pos 0
from_negative range = negsuc max_int

-- The number that `strconv.Atoi` returns, for callers that drop the error: 0 for a text that is no
-- number, and the nearest int for a number that is none.
unfoldable pub atoi_int_value : Bytes → ℤ
unfolding atoi scan_first cap_at from_positive from_negative
atoi_int_value [] = pos 0
atoi_int_value (c ∷ s) =
    if ltb c b'-' || ltb b'-' c
    then from_positive (atoi (c ∷ s))
    else from_negative (cap_at (max_int + 1) (scan_first s))

-- `n++` on an int of 64 bits.
unfoldable pub increment : ℤ → ℤ
increment (pos n) = if ltb n max_int then pos (n + 1) else negsuc max_int
increment (negsuc zero) = pos 0
increment (negsuc (suc n)) = negsuc n

-- `strconv.Itoa`
unfoldable pub print_int : ℤ → Bytes
unfolding print
print_int (pos n) = print n
print_int (negsuc n) = b'-' ∷ print (n + 1)

atoi_int-positive : (s : Bytes) → s ≢ [] → Lacks b'-' s → atoi_int s ≡ positive (atoi s)
unfolding atoi_int
atoi_int-positive [] h l = absurd (h refl)
atoi_int-positive (c ∷ s) h (apart, l) = ground arith

-- What `Itoa` prints of a number that fits an int is read back by `Atoi`.
pub atoi_int-print : (n : ℕ) → n ≤ max_int → atoi_int (print n) ≡ some (pos n)
unfolding positive
atoi_int-print n h =
    atoi_int-positive (print n) (print-ne-nil n) (print-Lacks b'-' n (omega arith))
    ∙ rw (atoi-print n h) refl

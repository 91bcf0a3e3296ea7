-- ===== src/Base/Text.antt =====
-- Text as the list of its bytes, and the functions of Go's `strings` that the operator calls.
use Prim.Native.Char.{code}
use Prim.Native.Nat.{ℕ}
use Prim.Native.String.{String}
use mathlib.Core.Path.{◌≡◌, refl}
use mathlib.Core.Logic.{◌≢◌}
use mathlib.Core.Bool.{Bool, true, false, not, ◌&&◌, ◌||◌}
use native.Mathlib.Omega.{arith}
use mathlib.Core.List.{List, [], ◌∷◌, ◌++◌}
use kvrocks_operator.Base.Tests.{◌==◌, nat_eq, if◌then◌else◌, ==_refl, ne→==_false}
use kvrocks_operator.Base.Lists.{All}

abbrev pub Bytes : Type 0
Bytes = List ℕ

-- The bytes of an ASCII literal.
abbrev pub codes : String → Bytes
codes String.[] = []
codes (String.◌∷◌ c s) = code c ∷ codes s

abbrev pub Lacks : ℕ → Bytes → Type 0
Lacks b = All (λ c. c ≢ b)

-- The same as a test, which computes on a literal.
abbrev pub lacks : ℕ → Bytes → Bool
lacks b [] = true
lacks b (c ∷ s) = not (c == b) && lacks b s

lacks_head : (c b : ℕ) (s : Bytes) → lacks b (c ∷ s) ≡ true → c ≢ b
lacks_head c b s h e = ground (arith, e, h)

lacks_tail : (c b : ℕ) (s : Bytes) → lacks b (c ∷ s) ≡ true → lacks b s ≡ true
lacks_tail c b s h = ground (arith, h)

pub lacks-Lacks : (b : ℕ) (s : Bytes) → lacks b s ≡ true → Lacks b s
lacks-Lacks b [] h = tt
lacks-Lacks b (c ∷ s) h = (lacks_head c b s h, lacks-Lacks b s (lacks_tail c b s h))

push_first : ℕ → List Bytes → List Bytes
push_first c [] = (c ∷ []) ∷ []
push_first c (p ∷ ps) = (c ∷ p) ∷ ps

-- strings.Split(s, sep) for a separator of one byte: never empty.
unfoldable pub split : ℕ → Bytes → List Bytes
unfolding push_first
split sep [] = [] ∷ []
split sep (c ∷ s) = let rest = split sep s in if c == sep then [] ∷ rest else push_first c rest

-- strings.SplitN(s, sep, n + 1) for a separator of one byte: at most `n` cuts.
unfoldable pub split_n : ℕ → ℕ → Bytes → List Bytes
unfolding push_first
split_n sep ℕ.zero s = s ∷ []
split_n sep (ℕ.suc n) [] = [] ∷ []
split_n sep (ℕ.suc n) (c ∷ s) =
    let fewer = split_n sep n s in
    let same = split_n sep (ℕ.suc n) s in if c == sep then [] ∷ fewer else push_first c same

after_loop : ℕ → Bytes → Bytes → Bytes
after_loop sep [] tail = tail
after_loop sep (c ∷ s) tail = after_loop sep s (if c == sep then s else tail)

-- s[strings.LastIndex(s, sep) + 1:] for a separator of one byte.
unfoldable pub after_last : ℕ → Bytes → Bytes
unfolding after_loop
after_last sep s = after_loop sep s s

-- strings.HasPrefix(s, p) and strings.Contains(s, p).
unfoldable pub starts_with : Bytes → Bytes → Bool
starts_with [] s = true
starts_with (b ∷ p) [] = false
starts_with (b ∷ p) (c ∷ s) = b == c && starts_with p s

unfoldable pub contains : Bytes → Bytes → Bool
unfolding starts_with
contains p [] = starts_with p []
contains p (c ∷ s) = starts_with p (c ∷ s) || contains p s

module _ (sep : ℕ) where
  pub split-Lacks : (s : Bytes) → Lacks sep s → split sep s ≡ s ∷ []
  unfolding split
  split-Lacks [] h = refl
  split-Lacks (c ∷ s) (hc, hs) = rw (ne→==_false c sep hc, split-Lacks s hs)

  -- A piece with no separator stands before the first cut.
  pub split-append : (p s : Bytes) → Lacks sep p → split sep (p ++ sep ∷ s) ≡ p ∷ split sep s
  unfolding split
  split-append [] s h = rw (==_refl sep)
  split-append (c ∷ p) s (hc, hs) = rw (ne→==_false c sep hc, split-append p s hs)

  pub split_n-append :
      (n : ℕ) (p s : Bytes)
      → Lacks sep p
      → split_n sep (ℕ.suc n) (p ++ sep ∷ s) ≡ p ∷ split_n sep n s
  unfolding split_n
  split_n-append n [] s h = rw (==_refl sep)
  split_n-append n (c ∷ p) s (hc, hs) = rw (ne→==_false c sep hc, split_n-append n p s hs)

  pub split_n-zero : (s : Bytes) → split_n sep ℕ.zero s ≡ s ∷ []
  unfolding split_n
  split_n-zero s = refl

  after_loop-Lacks : (s tail : Bytes) → Lacks sep s → after_loop sep s tail ≡ tail
  unfolding after_loop
  after_loop-Lacks [] tail h = refl
  after_loop-Lacks (c ∷ s) tail (hc, hs) = rw (ne→==_false c sep hc) (after_loop-Lacks s tail hs)

  after_loop-append : (p s tail : Bytes) → Lacks sep s → after_loop sep (p ++ sep ∷ s) tail ≡ s
  unfolding after_loop
  after_loop-append [] s tail h = rw (after_loop, ==_refl sep) (after_loop-Lacks s s h)
  after_loop-append (c ∷ p) s tail h =
      after_loop-append p s (if c == sep then p ++ sep ∷ s else tail) h

  pub after_last-append : (p s : Bytes) → Lacks sep s → after_last sep (p ++ sep ∷ s) ≡ s
  unfolding after_last
  after_last-append p s h = after_loop-append p s (p ++ sep ∷ s) h

head_or_nil : List Bytes → Bytes
head_or_nil [] = []
head_or_nil (p ∷ ps) = p

-- strings.Split(s, sep)[0], which is always there.
unfoldable pub before_first : ℕ → Bytes → Bytes
unfolding head_or_nil
before_first sep s = head_or_nil (split sep s)

pub before_first-append :
    (sep : ℕ) (p s : Bytes) → Lacks sep p → before_first sep (p ++ sep ∷ s) ≡ p
unfolding before_first
before_first-append sep p s h = rw (split-append sep p s h)

pub before_first-Lacks : (sep : ℕ) (s : Bytes) → Lacks sep s → before_first sep s ≡ s
unfolding before_first
before_first-Lacks sep s h = rw (split-Lacks sep s h)

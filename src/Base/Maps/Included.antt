-- ===== src/Base/Maps/Included.antt =====
-- Maps with one entry for a key, and when one map has all the entries of another.
use mathlib.Core.Path.{◌≡◌, refl, sym, subst}
use mathlib.Core.Bool.{Bool, true, false, ◌&&◌}
use mathlib.Core.List.{List, [], ◌∷◌}
use mathlib.Core.Option.{Option, none, some, none-ne-some}
use native.Mathlib.Omega.{arith}
use kvrocks_operator.Base.Tests.{◌==◌, bytes_eq, bytes_beq_iff}
use kvrocks_operator.Base.Text.{Bytes}
use kvrocks_operator.Base.Maps.{lookup, put, put_all, lookup-put, includes}

abbrev Texts : Type 0
Texts = List (Bytes × Bytes)

-- No key stands twice.
abbrev pub IsMap : Texts → Type 0
IsMap [] = Unit
IsMap ((k, v) ∷ m) = (lookup k m ≡ none) × IsMap m

put-IsMap : (k v : Bytes) (m : Texts) → IsMap m → IsMap (put k v m)
unfolding put lookup
put-IsMap k v [] h = (refl, tt)
put-IsMap k v ((j, w) ∷ m) (h, hs) =
    ground (arith, bytes_beq_iff j k, bytes_beq_iff k j, lookup-put k j v m, put-IsMap k v m hs)

pub put_all-IsMap : (from m : Texts) → IsMap m → IsMap (put_all from m)
unfolding put_all
put_all-IsMap [] m h = h
put_all-IsMap ((k, v) ∷ from) m h = put_all-IsMap from (put k v m) (put-IsMap k v m h)

pub lookup-put_all :
    (k : Bytes) (from m : Texts) → lookup k from ≡ none → lookup k (put_all from m) ≡ lookup k m
unfolding put_all lookup
lookup-put_all k [] m h = refl
lookup-put_all k ((j, v) ∷ from) m h =
    ground (arith, lookup-put_all k from (put j v m), lookup-put j k v m)

-- All entries of the first map under a key other than `k` are in the second.
abbrev pub IsKept : Bytes → Texts → Texts → Type 0
IsKept k m n = (j v : Bytes) → (k == j) ≡ false → lookup j m ≡ some v → lookup j n ≡ some v

-- Where every entry of a map is in another, the test says so.
includes-all :
    (m n : Texts)
    → IsMap m
    → ((j v : Bytes) → lookup j m ≡ some v → lookup j n ≡ some v)
    → includes m n ≡ true
unfolding includes lookup
includes-all [] n h f = refl
includes-all ((k, v) ∷ m) n (h, hs) f =
    let here : lookup k n ≡ some v = f k v (ground (arith, bytes_beq_iff k k)) in
    let rest : includes m n ≡ true =
      includes-all m n hs (λ j w e. f j w (ground (arith, bytes_beq_iff k j))) in
    rw (here, includes) (ground (arith, bytes_beq_iff v v))

-- The first entry of a map that has all of its entries in another.
included_head :
    (k w : Bytes) (m n : Texts) (found : Option Bytes)
    → lookup k n ≡ found
    → includes ((k, w) ∷ m) n ≡ true
    → (lookup k n ≡ some w) × (includes m n ≡ true)
unfolding includes
included_head k w m n none e h =
    let no : false ≡ true =
      subst (λ (y : Option Bytes). elim y [ none ↦ false | some z ↦ z == w && includes m n ] ≡ true)
        e h in
    cc
included_head k w m n (some x) e h =
    let both : (x == w && includes m n) ≡ true =
      subst (λ y. elim y [ none ↦ false | some z ↦ z == w && includes m n ] ≡ true) e h in
    ground (arith, bytes_beq_iff x w)

included :
    (m n : Texts) (j v : Bytes) → includes m n ≡ true → lookup j m ≡ some v → lookup j n ≡ some v
unfolding lookup
included [] n j v h e = absurd (none-ne-some v e)
included ((k, w) ∷ m) n j v h e =
    let (here, rest) = included_head k w m n (lookup k n) refl h in
    let later = included m n j v rest in ground (arith, bytes_beq_iff k j)

same_answer : (b c : Bool) → (b ≡ true → c ≡ true) → (c ≡ true → b ≡ true) → b ≡ c
same_answer true true f g = refl
same_answer true false f g = sym (f refl)
same_answer false true f g = g refl
same_answer false false f g = refl

-- A map with an entry put into it is included in another, which has the rest of it, just when that
-- one has the same value there.
pub includes-put :
    (k u w : Bytes) (m n : Texts)
    → IsMap m
    → IsKept k m n
    → lookup k n ≡ some w
    → includes (put k u m) n ≡ (w == u)
includes-put k u w m n unique kept e =
    same_answer (includes (put k u m) n) (w == u)
      (λ h.
        let there =
          included (put k u m) n k u h
            (rw (lookup-put k k u m) (ground (arith, bytes_beq_iff k k))) in
        ground (arith, bytes_beq_iff w u))
      (λ h. includes-all (put k u m) n (put-IsMap k u m unique) (λ j v f.
        ground (arith, bytes_beq_iff w u, bytes_beq_iff k j, lookup-put k j u m, kept j v)))

-- What two entries put into a map leave of it, if the map has none under one of their keys.
pub put-put-IsKept_outer :
    (x r s a : Bytes) (m : Texts) → lookup s m ≡ none → IsKept x m (put x r (put s a m))
put-put-IsKept_outer x r s a m none_there j v apart e =
    ground
      (arith, bytes_beq_iff s j, lookup-put x j r (put s a m), lookup-put s j a m, none-ne-some v)

pub put-put-IsKept_inner :
    (x r s a : Bytes) (m : Texts) → lookup x m ≡ none → IsKept s m (put x r (put s a m))
put-put-IsKept_inner x r s a m none_there j v apart e =
    ground
      (arith, bytes_beq_iff x j, lookup-put x j r (put s a m), lookup-put s j a m, none-ne-some v)

pub lookup-put_same : (k v : Bytes) (m : Texts) → lookup k (put k v m) ≡ some v
lookup-put_same k v m = rw (lookup-put k k v m) (ground (arith, bytes_beq_iff k k))

pub lookup-put_other :
    (k j v : Bytes) (m : Texts) → (k == j) ≡ false → lookup j (put k v m) ≡ lookup j m
lookup-put_other k j v m h = rw (lookup-put k j v m, h) refl

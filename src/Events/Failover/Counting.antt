-- ===== src/Events/Failover/Counting.antt =====
-- How often an address stands in the queue of pkg/controllers/events.
use kvrocks_operator.Base.{
  ℕ, suc, ◌+◌, Bytes, Bool, true, false, List, [], ◌∷◌, ◌++◌, ◌≡◌, refl, ap, ◌∙◌, any, keep, not,
  arith, ◌==◌, bytes_eq, if◌then◌else◌, Bool-cases, inl, inr, ==_sound,
}
use kvrocks_operator.Events.Queue.{EventMessage}

abbrev pub bump : Bool → ℕ → ℕ
bump b n = if b then suc n else n

-- The keys that are the address.
abbrev pub times : Bytes → List Bytes → ℕ
times a [] = 0
times a (k ∷ keys) = bump (k == a) (times a keys)

-- The messages of the address.
abbrev pub held : Bytes → List EventMessage → ℕ
held a [] = 0
held a (m ∷ ms) = bump (m.ip == a) (held a ms)

bump_add : (b : Bool) (m n : ℕ) → bump b (m + n) ≡ bump b m + n
bump_add true m n = omega arith
bump_add false m n = refl

pub held-append :
    (a : Bytes) (xs ys : List EventMessage) → held a (xs ++ ys) ≡ held a xs + held a ys
held-append a [] ys = omega arith
held-append a (x ∷ xs) ys =
    ap (bump (x.ip == a)) (held-append a xs ys) ∙ bump_add (x.ip == a) (held a xs) (held a ys)

pub times-absent :
    (a : Bytes) (keys : List Bytes) → any (λ k. k == a) keys ≡ false → times a keys ≡ 0
times-absent a [] h = refl
times-absent a (k ∷ keys) h = ground (arith, times-absent a keys)

-- Without the keys that are one address, the others stand as often as before.
pub times-keep_same : (a : Bytes) (keys : List Bytes) → times a (keep (λ k. not (k == a)) keys) ≡ 0
times-keep_same a [] = refl
times-keep_same a (k ∷ keys) = ground (arith, times-keep_same a keys)

pub times-keep_other :
    (a ip : Bytes) (keys : List Bytes)
    → (ip == a) ≡ false
    → times a (keep (λ k. not (k == ip)) keys) ≡ times a keys
times-keep_other a ip [] e = refl
times-keep_other a ip (k ∷ keys) e = elim (Bool-cases (k == ip)) [
  | inl t ↦
      let differs : (k == a) ≡ false = ap (λ x. x == a) (==_sound k ip t) ∙ e in
      ground (arith, times-keep_other a ip keys e, differs, t)
  | inr f ↦ ground (arith, times-keep_other a ip keys e, f)
]

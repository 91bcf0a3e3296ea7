-- ===== src/Common/Sentinels/Watches.antt =====
-- What `EnsureSentinel` and `RemoveMonitor` rely on of the sentinels, and what a loop over their pods
-- leaves of them.
use kvrocks_operator.Base.{
  Bytes, Bool, true, false, List, [], ◌∷◌, ◌≡◌, refl, sym, ap, ◌∙◌, any, ◌||◌, ◌&&◌, ==_sound,
  Option, none, some, ◌==◌, bytes_eq, if◌then◌else◌, ==_refl,
}
use kvrocks_operator.Base.Exec.{Error, Exec, ok, err, pure, for_each, ◌>>=◌}
use kvrocks_operator.Client.Kv.{Kv}

-- A change of what the sentinel at `ip` says of the master.
abbrev pub Changed :
    {W : Type 0}
    → (W → Bytes → Bytes → Option Bytes)
    → Bytes
    → Bytes
    → Option Bytes
    → W
    → W
    → Type 0
Changed monitors ip master there w w' =
    (j n : Bytes) → monitors w' j n ≡ (if ip == j && master == n then there else monitors w j n)

-- Sentinels that answer: each keeps the address of every master that it monitors, reports an error on
-- one that it does not know, and monitors no name twice.
pub record Watches {W : Type 0} (kv : Kv W) (monitors : W → Bytes → Bytes → Option Bytes)
    : Type 0 where
  pub get-some :
      (ip password master a : Bytes) (w : W)
      → monitors w ip master ≡ some a
      → kv.get_master_from_sentinel ip password master w ≡ (ok a, w)
  pub get-none :
      (ip password master : Bytes) (w : W)
      → monitors w ip master ≡ none
      → (e : Error) × (kv.get_master_from_sentinel ip password master w ≡ (err e, w))
  pub remove-some :
      (ip password master a : Bytes) (w : W)
      → monitors w ip master ≡ some a
      → (w' : W) × (kv.remove_monitor ip password master w ≡ (ok tt, w'))
        × Changed monitors ip master none w w'
  pub remove-none :
      (ip password master : Bytes) (w : W)
      → monitors w ip master ≡ none
      → (e : Error) × (kv.remove_monitor ip password master w ≡ (err e, w))
  pub create-none :
      (ip password master a kv_password : Bytes) (w : W)
      → monitors w ip master ≡ none
      → (w' : W) × (kv.create_monitor ip password master a kv_password w ≡ (ok tt, w'))
        × Changed monitors ip master (some a) w w'
  pub reset-some :
      (ip password master a kv_password : Bytes) (w : W)
      → monitors w ip master ≡ some a
      → (w' : W) × (kv.reset_monitor ip password master kv_password w ≡ (ok tt, w'))
        × ((j n : Bytes) → monitors w' j n ≡ monitors w j n)

-- Two changes of the same entry are the later one.
pub overwritten :
    (b : Bool) (x y d : Option Bytes)
    → (if b then y else (if b then x else d)) ≡ (if b then y else d)
overwritten true x y d = refl
overwritten false x y d = refl

joined :
    (b c a : Bool) (x d : Option Bytes)
    → (if a && c then x else (if b && c then x else d)) ≡ (if (b || a) && c then x else d)
joined true true true x d = refl
joined true true false x d = refl
joined true false true x d = refl
joined true false false x d = refl
joined false c a x d = refl

at_its_place :
    (f : Bytes → Bytes → Option Bytes) (ip j master n : Bytes) (b c : Bool) (there : Option Bytes)
    → (ip == j) ≡ b
    → (master == n) ≡ c
    → f ip master ≡ there
    → f j n ≡ (if b && c then there else f j n)
at_its_place f ip j master n true true there hb hc e =
    sym (ap (λ x. f x n) (==_sound ip j hb)) ∙ sym (ap (λ x. f ip x) (==_sound master n hc)) ∙ e
at_its_place f ip j master n true false there hb hc e = refl
at_its_place f ip j master n false c there hb hc e = refl

module _ {W : Type 0} (monitors : W → Bytes → Bytes → Option Bytes) where
  -- What is there already is no change.
  pub unchanged :
      (ip master : Bytes) (there : Option Bytes) (w : W)
      → monitors w ip master ≡ there
      → Changed monitors ip master there w w
  unchanged ip master there w e j n =
      at_its_place (monitors w) ip j master n (ip == j) (master == n) there refl refl e

  pub gone :
      (ip master : Bytes) (there : Option Bytes) (w w' : W)
      → Changed monitors ip master there w w'
      → monitors w' ip master ≡ there
  gone ip master there w w' h = rw (h ip master, ==_refl ip, ==_refl master) refl

  -- What a loop over the sentinels leaves, from what its body leaves of one.
  pub all-Changed :
      {A : Type 0} (ip_of : A → Bytes) (f : A → Exec W Unit) (master : Bytes) (there : Option Bytes)
      → ((a : A) (w : W)
          → (w' : W) × (f a w ≡ (ok tt, w')) × Changed monitors (ip_of a) master there w w')
      → (elements : List A) (w : W)
      → (w' : W) × (for_each elements f w ≡ (ok tt, w'))
        × ((j n : Bytes)
            → monitors w' j n
              ≡ (if any (λ a. ip_of a == j) elements && master == n then there else monitors w j n))
  unfolding for_each pure ◌>>=◌
  all-Changed ip_of f master there body [] w = (w, refl, λ j n. refl)
  all-Changed ip_of f master there body (a ∷ rest) w =
      let (w1, first, changed) = body a w in
      let (w2, later, behind) = all-Changed ip_of f master there body rest w1 in
      (
        w2,
        rw (for_each, first) later,
        λ j n.
            behind j n
            ∙ ap (λ d. if any (λ b. ip_of b == j) rest && master == n then there else d)
                (changed j n)
            ∙ joined (ip_of a == j) (master == n) (any (λ b. ip_of b == j) rest) there
                (monitors w j n),
      )

-- ===== src/Cluster/Migration/Tries.antt =====
-- How often `ensureReBalanceTopo` of pkg/controllers/cluster/rebalance.go asks the controller to move
-- one slot, and how long it waits in between.
use kvrocks_operator.Base.{ℕ, zero, suc, ◌+◌, ◌*◌, ◌≤◌, Bytes, ◌≡◌, sym, ap, subst, ◌∙◌, ◌≢◌, arith}
use kvrocks_operator.Base.Exec.{
  Error, Result, ok, err, and_then, panic, Exec, raise, crash, pure, gets, ◌>>=◌, ◌>>◌,
}
use kvrocks_operator.Base.Exec.Ensures.{attempt-resume, resume}
use kvrocks_operator.Client.Controller.{Method, Body, Endpoint, migrate_slot_and_data}
use kvrocks_operator.Client.Controller.Sent.{migrate_slot_and_data_state}
use kvrocks_operator.Client.Env.{Env}
use kvrocks_operator.Cluster.State.{ClusterHandler, returned, call}
use kvrocks_operator.Cluster.Migration.{after_try, try_move, move_slot}

-- The requests that were sent and the milliseconds that were slept, with a sleep that always returns.
pub record Counts {W : Type 0} (env : Env W) (count waited : W → ℕ) : Type 0 where
  pub sent :
      (method : Method) (path : Bytes) (body : Body) (w : W)
      → (count (env.http.send method path body w).1 ≡ count w + 1)
        × (waited (env.http.send method path body w).1 ≡ waited w)
  pub slept :
      (n : ℕ) (w : W)
      → ((env.sleep n w).0 ≡ ok tt)
        × (count (env.sleep n w).1 ≡ count w)
        × (waited (env.sleep n w).1 ≡ waited w + n)

-- So many waits, each ten times as long as the one before.
abbrev pub waits : ℕ → ℕ → ℕ
waits wait zero = 0
waits wait (suc k) = wait + waits (wait * 10) k

-- A first request and `k` more, with the waits between them.
abbrev pub Spent : {S : Type 0} → (S → ℕ) → (S → ℕ) → ℕ → ℕ → ℕ → ℕ → S → Type 0
Spent count waited sent slept wait k s =
    (count s ≡ sent + suc k) × (waited s ≡ slept + waits wait k)

-- Some number of tries behind the first, `left` at most, and `left` of them before an error.
abbrev pub Tried : {S : Type 0} → (S → ℕ) → (S → ℕ) → ℕ → ℕ → ℕ → ℕ → Result (Unit {0}) × S → Type 0
Tried count waited sent slept left wait (ok _, s) =
    (k : ℕ) × (k ≤ left) × Spent count waited sent slept wait k s
Tried count waited sent slept left wait (err _, s) = Spent count waited sent slept wait left s
Tried count waited sent slept left wait (panic, s) =
    (k : ℕ) × (k ≤ left) × Spent count waited sent slept wait k s

err-ne-ok : (x : Error) → ◌≢◌ {A = Result (Unit {0})} (err x) (ok tt)
err-ne-ok x e = cc

panic-ne-ok : ◌≢◌ {A = Result (Unit {0})} panic (ok tt)
panic-ne-ok e = cc

module _ {W : Type 0} (env : Env W) (count waited : W → ℕ) (counts : Counts env count waited) where
  module _ (endpoint : Endpoint) (src dest slot : ℕ) where
    abbrev move : Exec W Unit
    move = migrate_slot_and_data env.http endpoint src dest slot

    one_request : (w : W) → (count (move w).1 ≡ count w + 1) × (waited (move w).1 ≡ waited w)
    one_request w =
        let moved = migrate_slot_and_data_state env.http endpoint src dest slot w in
        (ap count moved ∙ (counts.sent _ _ _ w).0, ap waited moved ∙ (counts.sent _ _ _ w).1)

    last_try :
        (sent slept wait : ℕ) (x : Error) (r : Result (Unit {0}) × W)
        → count r.1 ≡ sent + 1
        → waited r.1 ≡ slept
        → Tried count waited sent slept 0 wait (resume r (λ moved. after_try moved (raise x)))
    unfolding after_try pure crash raise
    last_try sent slept wait x (ok _, w) h h' =
        (0, omega arith, (omega (arith, h), omega (arith, h')))
    last_try sent slept wait x (err e, w) h h' = (omega (arith, h), omega (arith, h'))
    last_try sent slept wait x (panic, w) h h' =
        (0, omega arith, (omega (arith, h), omega (arith, h')))

    one_more :
        (sent slept n wait : ℕ) (r : Result (Unit {0}) × W)
        → Tried count waited (sent + 1) (slept + wait) n (wait * 10) r
        → Tried count waited sent slept (suc n) wait r
    one_more sent slept n wait (ok _, w) (k, b, (c, d)) =
        (suc k, omega (arith, b), (omega (arith, c), omega (arith, d)))
    one_more sent slept n wait (err e, w) (c, d) = (omega (arith, c), omega (arith, d))
    one_more sent slept n wait (panic, w) (k, b, (c, d)) =
        (suc k, omega (arith, b), (omega (arith, c), omega (arith, d)))

    rested :
        (sent slept n wait : ℕ) (r : Result (Unit {0}) × W) (f : Exec W Unit)
        → r.0 ≡ ok tt
        → Tried count waited sent slept n wait (f r.1)
        → Tried count waited sent slept n wait (and_then r (λ _. f))
    rested sent slept n wait (ok _, w) f e h = h
    rested sent slept n wait (err x, w) f e h = absurd (err-ne-ok x e)
    rested sent slept n wait (panic, w) f e h = absurd (panic-ne-ok e)

    -- A wait, and what comes behind it.
    after_sleep :
        (n wait : ℕ) (f : Exec W Unit) (w : W)
        → ((w : W) → Tried count waited (count w) (waited w) n (wait * 10) (f w))
        → Tried count waited (count w) (waited w + wait) n (wait * 10) ((env.sleep wait >> f) w)
    unfolding ◌>>=◌
    after_sleep n wait f w k =
        let (slept, same, longer) = counts.slept wait w in
        rested (count w) (waited w + wait) n (wait * 10) (env.sleep wait w) f slept (
          subst (λ d. Tried count waited (count w) d n (wait * 10) (f (env.sleep wait w).1)) longer
            (subst
              (λ c.
                Tried count waited c (waited (env.sleep wait w).1) n (wait * 10)
                  (f (env.sleep wait w).1))
              same (k (env.sleep wait w).1)))

    try_again :
        (sent slept n wait : ℕ) (f : Exec W Unit) (r : Result (Unit {0}) × W)
        → count r.1 ≡ sent + 1
        → waited r.1 ≡ slept
        → ((w : W) → Tried count waited (count w) (waited w) n (wait * 10) (f w))
        → Tried count waited sent slept
            (suc n)
            wait
            (resume r (λ moved. after_try moved (env.sleep wait >> f)))
    unfolding after_try pure crash
    try_again sent slept n wait f (ok _, w) h h' k =
        (0, omega arith, (omega (arith, h), omega (arith, h')))
    try_again sent slept n wait f (err e, w) h h' k =
        one_more sent slept n wait ((env.sleep wait >> f) w) (
          subst
            (λ d. Tried count waited (sent + 1) (d + wait) n (wait * 10) ((env.sleep wait >> f) w))
            h'
            (subst
              (λ c. Tried count waited c (waited w + wait) n (wait * 10) ((env.sleep wait >> f) w))
              h (after_sleep n wait f w k)))
    try_again sent slept n wait f (panic, w) h h' k =
        (0, omega arith, (omega (arith, h), omega (arith, h')))

    try_move-Tried :
        (left wait : ℕ) (w : W)
        → Tried count waited
            (count w)
            (waited w)
            left
            wait
            (try_move env endpoint src dest slot left wait w)
    unfolding try_move
    try_move-Tried zero wait w =
        subst (Tried count waited (count w) (waited w) 0 wait) (sym (attempt-resume move _ w))
          (last_try (count w) (waited w) wait _ (move w) (one_request w).0 (one_request w).1)
    try_move-Tried (suc left) wait w =
        subst (Tried count waited (count w) (waited w) (suc left) wait)
          (sym (attempt-resume move _ w))
          (try_again (count w) (waited w) left wait
            (try_move env endpoint src dest slot left (wait * 10)) (move w) (one_request w).0
            (one_request w).1 (try_move-Tried left (wait * 10)))

  of_handler :
      (sent slept left wait : ℕ) (h : ClusterHandler W) (r : Result (Unit {0}) × W)
      → Tried count waited sent slept left wait r
      → Tried
          (λ (h : ClusterHandler W). count h.world)
          (λ (h : ClusterHandler W). waited h.world)
          sent
          slept
          left
          wait
          (returned h r)
  unfolding returned
  of_handler sent slept left wait h (ok _, w) t = t
  of_handler sent slept left wait h (err e, w) t = t
  of_handler sent slept left wait h (panic, w) t = t

  -- Moving a slot sends a request and up to five more, six in all, and waits before each of the
  -- later ones, 10 ms first and then ten times as long each time; it ends with an error only behind
  -- the sixth request and the fifth wait.
  pub move_slot-Tried :
      (src dest slot : ℕ) (h : ClusterHandler W)
      → Tried
          (λ (h : ClusterHandler W). count h.world)
          (λ (h : ClusterHandler W). waited h.world)
          (count h.world)
          (waited h.world)
          5
          10
          (move_slot env src dest slot h)
  unfolding move_slot ◌>>=◌ gets call
  move_slot-Tried src dest slot h =
      of_handler (count h.world) (waited h.world) 5 10 h
        (try_move env h.endpoint src dest slot 5 10 h.world)
        (try_move-Tried h.endpoint src dest slot 5 10 h.world)

-- ===== src/Reconciler/Refused.antt =====
-- What `Reconcile` of pkg/controllers/kvrocks_controller.go makes of a resource that
-- `checkSpecification` refuses, in the pass that finds it and in the next one.
use kvrocks_operator.Base.{
  Bytes, Bool, false, ◌≡◌, refl, ap, ◌∙◌, Option, some, ◌==◌, bytes_eq, ==_refl, if◌then◌else◌,
}
use kvrocks_operator.Base.Exec.{ok, pure}
use kvrocks_operator.Base.Exec.Ensures.{attempt-resume}
use kvrocks_operator.Api.{Key, Kvrocks, Status, is_failed, status_failed}
use kvrocks_operator.Client.K8s.Lawful.{IsLawful}
use kvrocks_operator.Client.K8s.Puts.{same_key_refl}
use kvrocks_operator.Client.Env.{Env}
use kvrocks_operator.Resources.Validation.{validate_kvrocks}
use kvrocks_operator.Reconciler.{
  Operator, done, call, returned, reconcile, with_instance, check_specification, refuse,
  delete_instance,
}
use kvrocks_operator.Reconciler.Outcomes.{reconcile_failed}

abbrev pub key_of : Kvrocks → Key
key_of k = record { namespace = k.namespace; name = k.name }

-- What the server keeps of a resource that is updated, as far as it matters here.
abbrev pub kept : Kvrocks → Status × Bool
kept k = (k.status, k.deleting)

abbrev pub same_version : Kvrocks → Kvrocks → Bool
same_version x k = x.resource_version == k.resource_version

-- The status with the reason of the refusal.
abbrev pub refused_with : Bytes → Kvrocks → Kvrocks
refused_with reason k = record k {
  status = record k.status { status = status_failed; reason = reason };
}

-- The third of three branches.
last_branch :
    {A : Type 0} (b c : Bool) (x y z : A)
    → b ≡ false
    → c ≡ false
    → (if b then x else if c then y else z) ≡ z
last_branch b c x y z h h' = rw (h, h') refl

module _ {W : Type 0} (env : Env W) (key : Key) where
  -- The rest of a pass that has found a refused resource.
  refused_found :
      (k : Kvrocks) (reason : Bytes)
      → k.deleting ≡ false
      → is_failed k.status.status ≡ false
      → validate_kvrocks k ≡ some reason
      → with_instance env key (ok k) ≡ refuse env key k reason
  unfolding with_instance check_specification
  refused_found k reason alive healthy refused =
      last_branch k.deleting (is_failed k.status.status) (delete_instance env key k) (pure done)
        (check_specification env key k (validate_kvrocks k)) alive healthy
      ∙ ap (check_specification env key k) refused

  -- The pass of a refused resource whose update is taken.
  refused_pass :
      (k k' : Kvrocks) (reason : Bytes) (o : Operator W) (w : W)
      → env.k8s.kvrockses.get key o.world ≡ (ok k, o.world)
      → with_instance env key (ok k) ≡ refuse env key k reason
      → env.k8s.kvrockses.update (refused_with reason k) o.world ≡ (ok k', w)
      → reconcile env key o ≡ (ok done, record o { world = w })
  unfolding reconcile refuse call returned pure
  refused_pass k k' reason o w found rest saved =
      attempt-resume (call (env.k8s.kvrockses.get key)) _ o
      ∙ rw (found, rest)
          (attempt-resume (call (env.k8s.kvrockses.update (refused_with reason k))) _ o
            ∙ rw saved refl)

module _ {W : Type 0} (env : Env W) (view : W → Key → Option Kvrocks)
    (lawful : IsLawful env.k8s.kvrockses key_of kept same_version view) where
  -- Over a lawful store, a resource whose specification is refused fails for good: the pass that finds
  -- it ends without another run and leaves it stored with the failed status and the reason, and the
  -- next pass ends the same way and changes nothing.
  pub reconcile_refused :
      (o : Operator W) (k : Kvrocks) (reason : Bytes)
      → view o.world (key_of k) ≡ some k
      → k.deleting ≡ false
      → is_failed k.status.status ≡ false
      → validate_kvrocks k ≡ some reason
      → (o' : Operator W) × (k' : Kvrocks) × (reconcile env (key_of k) o ≡ (ok done, o'))
        × (view o'.world (key_of k) ≡ some k')
        × (k'.status ≡ (refused_with reason k).status)
        × (reconcile env (key_of k) o' ≡ (ok done, o'))
  reconcile_refused o k reason there alive healthy refused =
      let (k', w', saved, same, put) =
        lawful.update-some (refused_with reason k) k o.world there (==_refl k.resource_version) in
      let stored : view w' (key_of k) ≡ some k' =
        put (key_of k) ∙ rw (same_key_refl (key_of k)) refl in
      let o' : Operator W = record o { world = w' } in
      (
        o',
        k',
        refused_pass env (key_of k) k k' reason o w' (lawful.get-some (key_of k) o.world k there)
            (refused_found env (key_of k) k reason alive healthy refused) saved,
        stored,
        ap (λ p. p.0) same,
        reconcile_failed env (key_of k) o' k' w' (lawful.get-some (key_of k) w' k' stored)
            (ap (λ p. p.1) same ∙ alive) (ap (λ p. is_failed p.0.status) same),
      )

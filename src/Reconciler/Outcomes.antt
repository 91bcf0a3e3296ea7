-- ===== src/Reconciler/Outcomes.antt =====
-- What `Reconcile` of pkg/controllers/kvrocks_controller.go answers to the work queue.
use kvrocks_operator.Base.{
  Bytes, Bool, true, false, ◌≡◌, refl, ◌∙◌, sym, subst, any, ◌||◌, Option, none, some,
  if◌then◌else◌, bytes_eq, ◌==◌,
}
use kvrocks_operator.Base.Exec.{
  Error, Result, ok, err, panic, not_found, already_exists, conflict, forbidden, invalid, other,
  pure, crash, attempt, ◌>>=◌,
}
use kvrocks_operator.Base.Exec.Ensures.{Post, Ensures, Ensures-after, attempt-resume, resume}
use kvrocks_operator.Api.{Key, Kvrocks, kvrocks_finalizer, is_failed, status_failed}
use kvrocks_operator.Client.K8s.{get_kvrocks, update_kvrocks}
use kvrocks_operator.Client.Env.{Env}
use kvrocks_operator.Resources.Validation.{validate_kvrocks}
use kvrocks_operator.Reconciler.{
  Operator, Outcome, done, again, failed, should_retry, should_not_retry, outcome_of, Run, call,
  returned, run_handler, run_finalizer, after_clear, clear_finalizer, after_finalizer,
  delete_instance, run_if_initialize, after_initialize, refuse, check_specification, with_instance,
  reconcile,
}

-- The errors that `Reconcile` tries again by itself, and those that it drops.
abbrev is_handled : Error → Bool
is_handled not_found = true
is_handled conflict = true
is_handled forbidden = true
is_handled invalid = true
is_handled _ = false

-- Whether the work queue is told of such an error.
abbrev reports_handled : Outcome → Bool
reports_handled (failed e) = is_handled e
reports_handled _ = false

-- What a pass may answer, by what the read of its instance gave: nothing for one that is not there,
-- any other error of the read as it is, and for an instance no error that is tried again or dropped.
abbrev pub Answered : Result Kvrocks → Outcome → Type 0
Answered (ok _) out = reports_handled out ≡ false
Answered (err not_found) out = out ≡ done
Answered (err e) out = out ≡ failed e
Answered panic out = Unit

abbrev Quiet : {W : Type 0} → Outcome → Operator W → Type 0
Quiet out o = reports_handled out ≡ false

outcome_of-quiet :
    (requeue : Bool) (e : Option Error) → reports_handled (outcome_of requeue e) ≡ false
unfolding outcome_of should_retry should_not_retry
outcome_of-quiet true none = refl
outcome_of-quiet false none = refl
outcome_of-quiet true (some e) = refl
outcome_of-quiet false (some not_found) = refl
outcome_of-quiet false (some already_exists) = refl
outcome_of-quiet false (some conflict) = refl
outcome_of-quiet false (some forbidden) = refl
outcome_of-quiet false (some invalid) = refl
outcome_of-quiet false (some (other text)) = refl

branch :
    {W : Type 0} (b : Bool) (m n : Run W Outcome) (o : Operator W)
    → Post Quiet (m o)
    → Post Quiet (n o)
    → Post Quiet ((if b then m else n) o)
branch true m n o hm hn = hm
branch false m n o hm hn = hn

resumed :
    {W A : Type 0} (m : Run W A) (f : Result A → Run W Outcome) (o : Operator W)
    → ((r : Result A) → Ensures (f r) Quiet)
    → Post Quiet ((attempt m >>= f) o)
resumed m f o k = Ensures-after (attempt m) f Quiet k o

module _ {W : Type 0} (env : Env W) (key : Key) where
  clear-Quiet : (r : Result Kvrocks) → Ensures (after_clear env key r) Quiet
  unfolding after_clear pure crash
  clear-Quiet (ok k) o = refl
  clear-Quiet (err e) o = branch (should_retry (some e)) (pure again) (pure done) o refl refl
  clear-Quiet panic o = tt

  finalizer-Quiet :
      (requeue : Bool) (e : Option Error) (k : Kvrocks)
      → Ensures
          (after_finalizer env key (record { requeue = requeue; error = e; instance_ = k }))
          Quiet
  unfolding after_finalizer pure
  finalizer-Quiet requeue none k o =
      branch (requeue || should_retry none) (pure again) _ o refl
        (resumed (call (update_kvrocks env.k8s (clear_finalizer env key k))) _ o clear-Quiet)
  finalizer-Quiet requeue (some e) k o =
      branch (requeue || should_retry (some e)) (pure again) (pure done) o refl refl

  delete-Quiet : (k : Kvrocks) → Ensures (delete_instance env key k) Quiet
  unfolding delete_instance pure
  delete-Quiet k o =
      branch (any (λ f. f == kvrocks_finalizer) k.finalizers) _ (pure done) o
        (Ensures-after (run_finalizer env key k.spec.type k) (λ l. after_finalizer env key l) Quiet
          (λ l. finalizer-Quiet l.requeue l.error l.instance_) o)
        refl

  initialize-Quiet : (r : Result Kvrocks) → Ensures (after_initialize env key r) Quiet
  unfolding after_initialize pure crash
  initialize-Quiet (ok k) o =
      Ensures-after (run_handler env key k.spec.type k) (λ l. pure (outcome_of l.requeue l.error))
        Quiet (λ l o'. outcome_of-quiet l.requeue l.error) o
  initialize-Quiet (err e) o = refl
  initialize-Quiet panic o = tt

  refuse-Quiet : (k : Kvrocks) (reason : Bytes) → Ensures (refuse env key k reason) Quiet
  unfolding refuse pure
  refuse-Quiet k reason o =
      resumed
        (call (
          update_kvrocks env.k8s
            (record k { status = record k.status { status = status_failed; reason = reason } })))
        (λ _. pure done) o (λ _ o'. refl)

  check-Quiet :
      (k : Kvrocks) (reason : Option Bytes) → Ensures (check_specification env key k reason) Quiet
  unfolding check_specification
  check-Quiet k (some reason) o = refuse-Quiet k reason o
  check-Quiet k none o = resumed (run_if_initialize env key k) _ o initialize-Quiet

  instance-Answered :
      (o : Operator W) (r : Result Kvrocks × W)
      → Post (λ out _. Answered r.0 out) (resume (returned o r) (with_instance env key))
  unfolding with_instance pure crash returned
  instance-Answered o (ok k, w) =
      branch k.deleting (delete_instance env key k) _ (record o { world = w })
        (delete-Quiet k (record o { world = w }))
        (branch (is_failed k.status.status) (pure done) _ (record o { world = w }) refl
          (check-Quiet k (validate_kvrocks k) (record o { world = w })))
  instance-Answered o (err not_found, w) = refl
  instance-Answered o (err already_exists, w) = refl
  instance-Answered o (err conflict, w) = refl
  instance-Answered o (err forbidden, w) = refl
  instance-Answered o (err invalid, w) = refl
  instance-Answered o (err (other text), w) = refl
  instance-Answered o (panic, w) = tt

  -- Whatever its clients answer, a pass that does not panic answers as follows. If its instance is not
  -- there, it is over; another error of reading the instance goes to the work queue. If the instance
  -- is read, no not-found, conflict, forbidden or invalid error goes to the work queue.
  pub reconcile_quiet :
      (o : Operator W)
      → Post (λ out _. Answered (get_kvrocks env.k8s key o.world).0 out) (reconcile env key o)
  unfolding reconcile call
  reconcile_quiet o =
      subst (Post (λ out _. Answered (get_kvrocks env.k8s key o.world).0 out))
        (sym (attempt-resume (call (get_kvrocks env.k8s key)) _ o))
        (instance-Answered o (get_kvrocks env.k8s key o.world))

  -- An instance that has failed, and is not being deleted, is left alone: the pass is over with the
  -- read of the instance as its only call.
  pub reconcile_failed :
      (o : Operator W) (k : Kvrocks) (w : W)
      → get_kvrocks env.k8s key o.world ≡ (ok k, w)
      → k.deleting ≡ false
      → is_failed k.status.status ≡ true
      → reconcile env key o ≡ (ok done, record o { world = w })
  unfolding reconcile call returned with_instance pure
  reconcile_failed o k w found alive failed_ =
      attempt-resume (call (get_kvrocks env.k8s key)) _ o ∙ rw (found, alive, failed_) refl

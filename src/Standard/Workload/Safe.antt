-- ===== src/Standard/Workload/Safe.antt =====
-- The claims under `cleanPersistentVolumeClaim` of pkg/controllers/standard/kubernetes.go, over a
-- lawful store of claims.
use kvrocks_operator.Base.{
  ℕ, Bytes, true, false, List, ◌≡◌, refl, sym, subst, ap, ◌∙◌, Option, any, Bool-cases, inl, inr,
  ◌==◌, nat_eq,
}
use kvrocks_operator.Base.Exec.{Result, Exec, ok, err, panic, and_then, pure, gets, for_each, ◌>>=◌}
use kvrocks_operator.Base.Exec.Preserves.{
  Preserves, kept, Preserves-at, Preserves-for_each, preserves_rules,
}
use kvrocks_operator.Api.{Key}
use kvrocks_operator.Kvrocks.{Node}
use kvrocks_operator.Client.Objects.{Claim, StatefulSet}
use kvrocks_operator.Client.K8s.{delete_pvc, get_stateful_set, list_stateful_set_pvc}
use kvrocks_operator.Client.K8s.Lawful.{same_key}
use kvrocks_operator.Client.K8s.Claims.{claim_key, any_claim, Claims}
use kvrocks_operator.Client.K8s.Puts.{delete_or_absent_beside, same_key_sound}
use kvrocks_operator.Client.Env.{Env}
use kvrocks_operator.Resources.Names.{get_pvc_or_pod_index}
use kvrocks_operator.Standard.State.{StandardHandler, Run, call}
use kvrocks_operator.Standard.State.Kept.{call_world}
use kvrocks_operator.Standard.Workload.{lift_result, clean_claim, clean_persistent_volume_claim}

-- The name under the key is that of the claim of a node.
pub record InUse (nodes : List Node) (key : Key) : Type 0 where
  pub pod : ℕ
  pub place : get_pvc_or_pod_index key.name ≡ ok pod
  pub held : any (λ (node : Node). node.pod_index == pod) nodes ≡ true

-- The claim under the key is as it was, and the nodes are the handler's.
record Safe {W : Type 0} (view : W → Key → Option Claim) (key : Key) (v : Option Claim)
    (nodes : List Node) (h : StandardHandler W) : Type 0 where
  pub same : view h.world key ≡ v
  pub held : h.sts_nodes ≡ nodes

module _ {W : Type 0} (env : Env W) (view : W → Key → Option Claim) (claims : Claims env view)
    (key : Key) (v : Option Claim) (nodes : List Node) (in_use : InUse nodes key) where
  abbrev Keeps : {A : Type 0} → Run W A → Type 0
  Keeps m = Preserves (Safe view key v nodes) m

  Keeps-call :
      {A : Type 0} (m : Exec W A) → ((w : W) → view (m w).1 key ≡ view w key) → Keeps (call m)
  Keeps-call m same = kept (λ h safe.
      subst (λ (h' : StandardHandler W). Safe view key v nodes h') (sym (call_world m h))
        (record { same = same h.world ∙ safe.same; held = safe.held }))

  Keeps-lift_result : {A : Type 0} (r : Result A) → Keeps (lift_result {W = W} r)
  unfolding lift_result
  Keeps-lift_result r = kept (λ h safe. safe)

  Keeps-delete_pvc :
      (claim : Claim)
      → same_key (claim_key claim) key ≡ false
      → Keeps (call (delete_pvc env.k8s claim))
  Keeps-delete_pvc claim f = Keeps-call (delete_pvc env.k8s claim) (λ w.
      delete_or_absent_beside env.k8s.claims claim_key claim_key any_claim view claims.lawful claim
        w key f)

  listed :
      (r : Result StatefulSet × W) (namespace : Bytes)
      → view (and_then r (λ sts. env.k8s.claims.list namespace sts.match_labels)).1 key
        ≡ view r.1 key
  listed (ok sts, w) namespace = ap (λ f. f key) (claims.listed namespace sts.match_labels w)
  listed (err e, w) namespace = refl
  listed (panic, w) namespace = refl

  Keeps-list : (k : Key) → Keeps (call (list_stateful_set_pvc env.k8s k))
  unfolding list_stateful_set_pvc ◌>>=◌
  Keeps-list k = Keeps-call (list_stateful_set_pvc env.k8s k) (λ w.
      listed (get_stateful_set env.k8s k w) k.namespace ∙ ap (λ f. f key) (claims.read_set k w))

  the_same :
      (claim : Claim) (h : StandardHandler W)
      → same_key (claim_key claim) key ≡ true
      → Safe view key v nodes h
      → Safe view key v nodes (clean_claim env nodes claim h).1
  unfolding clean_claim ◌>>=◌ lift_result pure
  the_same claim h t safe =
      rw
        (
          ap (λ (k : Key). get_pvc_or_pod_index k.name) (same_key_sound (claim_key claim) key t)
              ∙ in_use.place,
          in_use.held,
        )
        safe

  Keeps-clean_claim : (claim : Claim) → Keeps (clean_claim env nodes claim)
  unfolding clean_claim
  Keeps-clean_claim claim = elim (Bool-cases (same_key (claim_key claim) key)) [
    | inl t ↦ kept (λ h safe. the_same claim h t safe)
    | inr f ↦ search (preserves_rules, Keeps-lift_result, Keeps-delete_pvc claim f) depth 30
  ]

  Keeps-clean_all :
      (list : List Claim)
      → Keeps (do
        held ← gets (λ (h : StandardHandler W). h.sts_nodes)
        for_each list (clean_claim env held))
  unfolding ◌>>=◌
  Keeps-clean_all list = kept (λ h safe.
      Preserves-at (for_each list (clean_claim env h.sts_nodes))
        (subst (λ (ns : List Node). Keeps (for_each list (clean_claim env ns))) (sym safe.held)
          (Preserves-for_each list (clean_claim env nodes) Keeps-clean_claim))
        h safe)

  Keeps-clean : Keeps (clean_persistent_volume_claim env)
  unfolding clean_persistent_volume_claim
  Keeps-clean = search (preserves_rules, Keeps-list, Keeps-clean_all) depth 30

-- `cleanPersistentVolumeClaim` of the standard handler, however it ends, leaves the claim whose name
-- ends in the ordinal of a node that the handler holds as it is, over a lawful store of claims.
pub standard_claim_safe :
    {W : Type 0} (env : Env W) (view : W → Key → Option Claim)
    → Claims env view
    → (h : StandardHandler W) (key : Key) → InUse h.sts_nodes key
    → view (clean_persistent_volume_claim env h).1.world key ≡ view h.world key
standard_claim_safe env view claims h key u =
    (Preserves-at (clean_persistent_volume_claim env)
      (Keeps-clean env view claims key (view h.world key) h.sts_nodes u) h
      (record { same = refl; held = refl })).same

-- ===== src/Cluster/Shrink/Safe.antt =====
-- The claims under `cleanPersistentVolumeClaim` of pkg/controllers/cluster/kubernetes.go, over a lawful
-- store of claims.
use kvrocks_operator.Base.{
  ℕ, Bytes, true, false, List, ◌≡◌, refl, sym, subst, ap, ◌∙◌, Option, none, some, leb, split,
  get_elem?, Bool-cases, inl, inr,
}
use kvrocks_operator.Base.Exec.{Exec, or_crash, pure, ◌>>=◌}
use kvrocks_operator.Base.Exec.Preserves.{Preserves, kept, Preserves-at, preserves_rules}
use kvrocks_operator.Api.{Key, Labels, ShrinkMsg}
use kvrocks_operator.Kvrocks.{Node}
use kvrocks_operator.Client.Objects.{Claim}
use kvrocks_operator.Client.K8s.{delete_pvc, list_pvc}
use kvrocks_operator.Client.K8s.Lawful.{same_key}
use kvrocks_operator.Client.K8s.Claims.{claim_key, any_claim, Claims}
use kvrocks_operator.Client.K8s.Puts.{same_key_sound, delete_or_absent_beside}
use kvrocks_operator.Client.Env.{Env}
use kvrocks_operator.Common.Reserve.Picked.{IsAscending}
use kvrocks_operator.Cluster.State.{Shard, ClusterHandler, Run, call}
use kvrocks_operator.Cluster.State.Kept.{call_world}
use kvrocks_operator.Cluster.Shrink.Claims.{has_pod, is_orphan_lem}
use kvrocks_operator.Cluster.Shrink.Reserve.{present}
use kvrocks_operator.Cluster.Shrink.{
  is_orphan, claim_place, clean_claim, clean_claims, clean_persistent_volume_claim,
}

-- The name under the key is that of the claim of a node that the handler holds.
pub record InUse (master : ℕ) (shards : List Shard) (key : Key) : Type 0 where
  pub shard : ℕ
  pub pod : ℕ
  pub nodes : List Node
  pub place : claim_place (split b'-' key.name) ≡ some (shard, pod)
  pub wanted : leb master shard ≡ false
  pub there : get_elem? shards shard ≡ some (present nodes)
  pub ascending : IsAscending nodes
  pub held : has_pod pod nodes ≡ true

-- The claim under the key is as it was, and in use.
record Safe {W : Type 0} (view : W → Key → Option Claim) (key : Key) (v : Option Claim)
    (h : ClusterHandler W) : Type 0 where
  pub in_use : InUse h.instance_.spec.master h.sts_nodes key
  pub same : view h.world key ≡ v

module _ {W : Type 0} (env : Env W) (view : W → Key → Option Claim) (claims : Claims env view)
    (key : Key) (v : Option Claim) where
  abbrev Keeps : {A : Type 0} → Run W A → Type 0
  Keeps m = Preserves (Safe view key v) m

  Keeps-call :
      {A : Type 0} (m : Exec W A) → ((w : W) → view (m w).1 key ≡ view w key) → Keeps (call m)
  Keeps-call m same = kept (λ h safe.
      subst (λ (h' : ClusterHandler W). Safe view key v h') (sym (call_world m h))
        (record { in_use = safe.in_use; same = same h.world ∙ safe.same }))

  Keeps-delete_pvc :
      (claim : Claim)
      → same_key (claim_key claim) key ≡ false
      → Keeps (call (delete_pvc env.k8s claim))
  Keeps-delete_pvc claim f = Keeps-call (delete_pvc env.k8s claim) (λ w.
      delete_or_absent_beside env.k8s.claims claim_key claim_key any_claim view claims.lawful claim
        w key f)

  Keeps-list_pvc :
      (namespace : Bytes) (labels : Labels) → Keeps (call (list_pvc env.k8s namespace labels))
  Keeps-list_pvc namespace labels =
      Keeps-call (list_pvc env.k8s namespace labels)
        (λ w. ap (λ f. f key) (claims.listed namespace labels w))

  -- A claim in use is no orphan.
  kept_claim :
      (h : ClusterHandler W) (u : InUse h.instance_.spec.master h.sts_nodes key)
      → is_orphan h.instance_.spec.master h.sts_nodes (u.shard, u.pod) ≡ some false
  kept_claim h u =
      is_orphan_lem h.instance_.spec.master u.shard u.pod h.sts_nodes u.nodes u.there u.ascending
      ∙ rw (u.wanted, u.held) refl

  the_same :
      (claim : Claim) (h : ClusterHandler W)
      → same_key (claim_key claim) key ≡ true
      → Safe view key v h
      → Safe view key v (clean_claim env claim h).1
  unfolding clean_claim ◌>>=◌ or_crash pure
  the_same claim h t safe =
      rw
        (
          ap (λ (k : Key). claim_place (split b'-' k.name)) (same_key_sound (claim_key claim) key t)
              ∙ safe.in_use.place,
          kept_claim h safe.in_use,
        )
        safe

  Keeps-clean_claim : (claim : Claim) → Keeps (clean_claim env claim)
  unfolding clean_claim
  Keeps-clean_claim claim = elim (Bool-cases (same_key (claim_key claim) key)) [
    | inl t ↦ kept (λ h safe. the_same claim h t safe)
    | inr f ↦ search (preserves_rules, Keeps-delete_pvc claim f) depth 30
  ]

  Keeps-clean_claims : (shrink : Option ShrinkMsg) → Keeps (clean_claims env shrink)
  unfolding clean_claims
  Keeps-clean_claims none = search (preserves_rules, Keeps-list_pvc, Keeps-clean_claim) depth 30
  Keeps-clean_claims (some _) = search preserves_rules

  Keeps-clean : Keeps (clean_persistent_volume_claim env)
  unfolding clean_persistent_volume_claim
  Keeps-clean = search (preserves_rules, Keeps-clean_claims) depth 30

-- `cleanPersistentVolumeClaim`, however it ends, leaves the claim of a node that the handler holds
-- as it is, over a lawful store of claims: where the last two numbers of the claim's name are the
-- shard and the ordinal of the node, the shard is one of the wanted ones and its nodes ascend without
-- nil pointers.
pub clean_persistent_volume_claim_safe :
    {W : Type 0} (env : Env W) (view : W → Key → Option Claim)
    → Claims env view
    → (h : ClusterHandler W) (key : Key) → InUse h.instance_.spec.master h.sts_nodes key
    → view (clean_persistent_volume_claim env h).1.world key ≡ view h.world key
clean_persistent_volume_claim_safe env view claims h key u =
    (Preserves-at (clean_persistent_volume_claim env)
      (Keeps-clean env view claims key (view h.world key)) h
      (record { in_use = u; same = refl })).same

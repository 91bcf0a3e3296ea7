-- ===== src/Cluster/Shrink/Removed.antt =====
-- The claims that `cleanPersistentVolumeClaim` of pkg/controllers/cluster/kubernetes.go deletes, over a
-- lawful store of claims.
use kvrocks_operator.Base.{
  ℕ, Bool, true, false, not, List, [], ◌∷◌, ◌++◌, ◌≡◌, refl, sym, subst, ap, ◌∙◌, Option, none,
  some, leb, split, get_elem?, Bool-cases, inl, inr, ◌||◌,
}
use kvrocks_operator.Base.Exec.{Result, ok, err, panic, for_each, gets, or_crash, pure, ◌>>=◌}
use kvrocks_operator.Base.Exec.Preserves.{
  Preserves, kept, Preserves-at, Preserves-for_each, preserves_rules,
}
use kvrocks_operator.Base.Exec.Ensures.{Post, Post-bind, Post-state, Post-weaken}
use kvrocks_operator.Api.{Key}
use kvrocks_operator.Kvrocks.{Node}
use kvrocks_operator.Client.Objects.{Claim}
use kvrocks_operator.Client.K8s.{delete_pvc, list_pvc}
use kvrocks_operator.Client.K8s.Lawful.{same_key}
use kvrocks_operator.Client.K8s.Claims.{claim_key, any_claim, Claims}
use kvrocks_operator.Client.K8s.Puts.{same_key_sound, delete_or_absent_lem, delete_or_absent_beside}
use kvrocks_operator.Client.Env.{Env}
use kvrocks_operator.Common.Reserve.Picked.{IsAscending}
use kvrocks_operator.Resources.Labels.{selector_labels}
use kvrocks_operator.Cluster.State.{Shard, ClusterHandler, returned, call}
use kvrocks_operator.Cluster.State.Kept.{call_world}
use kvrocks_operator.Cluster.Shrink.Claims.{has_pod, is_orphan_lem}
use kvrocks_operator.Cluster.Shrink.Reserve.{present}
use kvrocks_operator.Cluster.Shrink.{
  is_orphan, claim_place, clean_claim, clean_claims, clean_persistent_volume_claim,
}

-- The name under the key is that of a claim of no node: its shard is past the wanted ones, or none of
-- the shard's nodes, which ascend without nil pointers, has its ordinal.
pub data Unused (master : ℕ) (shards : List Shard) (key : Key) : Type 0 where
  past_masters :
      (shard pod : ℕ)
      → claim_place (split b'-' key.name) ≡ some (shard, pod)
      → leb master shard ≡ true
      → Unused master shards key
  of_no_node :
      (shard pod : ℕ) (nodes : List Node)
      → claim_place (split b'-' key.name) ≡ some (shard, pod)
      → get_elem? shards shard ≡ some (present nodes)
      → IsAscending nodes
      → has_pod pod nodes ≡ false
      → Unused master shards key

either_way : (b c : Bool) → c ≡ false → (b || not c) ≡ true
either_way true c h = refl
either_way false true h = sym h
either_way false false h = refl

-- It has a place, and the code takes it for an orphan.
orphaned :
    (master : ℕ) (shards : List Shard) (key : Key)
    → Unused master shards key
    → (place : ℕ × ℕ) × (claim_place (split b'-' key.name) ≡ some place)
      × (is_orphan master shards place ≡ some true)
unfolding is_orphan
orphaned master shards key (past_masters shard pod e past) = ((shard, pod), e, rw past refl)
orphaned master shards key (of_no_node shard pod nodes e there ascending absent) = (
  (shard, pod),
  e,
  is_orphan_lem master shard pod shards nodes there ascending
      ∙ ap (λ b. some b) (either_way (leb master shard) (has_pod pod nodes) absent),
)

-- The claim under the key is to go, and is gone.
record Loose {W : Type 0} (key : Key) (h : ClusterHandler W) : Type 0 where
  pub unused : Unused h.instance_.spec.master h.sts_nodes key

record Gone {W : Type 0} (view : W → Key → Option Claim) (key : Key) (h : ClusterHandler W)
    : Type 0 where
  pub gone : view h.world key ≡ none

module _ {W : Type 0} (env : Env W) (view : W → Key → Option Claim) (claims : Claims env view)
    (key : Key) where
  Loose-call : {A : Type 0} (m : W → Result A × W) → Preserves (Loose key) (call m)
  Loose-call m = kept (λ h loose.
      subst (λ (h' : ClusterHandler W). Loose key h') (sym (call_world m h))
        (record { unused = loose.unused }))

  Loose-clean_claim : (claim : Claim) → Preserves (Loose key) (clean_claim env claim)
  unfolding clean_claim
  Loose-clean_claim claim = search (preserves_rules, Loose-call) depth 30

  -- A deletion, of whichever claim, leaves nothing where there was nothing.
  deleted_Gone :
      (claim : Claim) (w : W) → view w key ≡ none → view (delete_pvc env.k8s claim w).1 key ≡ none
  deleted_Gone claim w h = elim (Bool-cases (same_key (claim_key claim) key)) [
    | inl t ↦
        let (w', done, there) =
          delete_or_absent_lem env.k8s.claims claim_key claim_key any_claim view claims.lawful claim
            w in
        ap (λ r. view r.1 key) done
        ∙ ap (λ k. view w' k) (sym (same_key_sound (claim_key claim) key t))
        ∙ there
    | inr f ↦
        delete_or_absent_beside env.k8s.claims claim_key claim_key any_claim view claims.lawful
          claim w key f
        ∙ h
  ]

  Gone-delete_pvc : (claim : Claim) → Preserves (Gone view key) (call (delete_pvc env.k8s claim))
  Gone-delete_pvc claim = kept (λ h g.
      subst (λ (h' : ClusterHandler W). Gone view key h')
        (sym (call_world (delete_pvc env.k8s claim) h))
        (record { gone = deleted_Gone claim h.world g.gone }))

  Gone-clean_claim : (claim : Claim) → Preserves (Gone view key) (clean_claim env claim)
  unfolding clean_claim
  Gone-clean_claim claim = search (preserves_rules, Gone-delete_pvc) depth 30

  clean_claim_removes :
      (claim : Claim) (h : ClusterHandler W)
      → claim_key claim ≡ key
      → Loose key h
      → Post (λ _ h'. Gone view key h') (clean_claim env claim h)
  unfolding clean_claim ◌>>=◌ gets or_crash pure
  clean_claim_removes claim h e loose =
      let (place, named, orphan) = orphaned h.instance_.spec.master h.sts_nodes key loose.unused in
      let (w', done, there) =
        delete_or_absent_lem env.k8s.claims claim_key claim_key any_claim view claims.lawful claim
          h.world in
      rw (ap (λ (k : Key). claim_place (split b'-' k.name)) e ∙ named, orphan)
        (Post-state (Gone view key) (call (delete_pvc env.k8s claim) h) (
          subst (λ (h' : ClusterHandler W). Gone view key h')
            (sym (call_world (delete_pvc env.k8s claim) h))
            (record { gone = ap (λ r. view r.1 key) done ∙ ap (λ k. view w' k) (sym e) ∙ there })))

  clean_all_removes :
      (before : List Claim) (claim : Claim) (after : List Claim) (h : ClusterHandler W)
      → claim_key claim ≡ key
      → Loose key h
      → Post (λ _ h'. Gone view key h') (for_each (before ++ claim ∷ after) (clean_claim env) h)
  unfolding for_each
  clean_all_removes [] claim after h e loose =
      Post-bind (clean_claim env claim) (λ _. for_each after (clean_claim env)) h
        (λ _ h'. Gone view key h') (λ _ h'. Gone view key h') (clean_claim_removes claim h e loose)
        (λ _ h' g. Post-state (Gone view key) (for_each after (clean_claim env) h') (
          Preserves-at (for_each after (clean_claim env))
            (Preserves-for_each after (clean_claim env) Gone-clean_claim) h' g))
  clean_all_removes (c ∷ before) claim after h e loose =
      Post-bind (clean_claim env c) (λ _. for_each (before ++ claim ∷ after) (clean_claim env)) h
        (λ _ h'. Loose key h') (λ _ h'. Gone view key h')
        (Post-state (Loose key) (clean_claim env c h)
          (Preserves-at (clean_claim env c) (Loose-clean_claim c) h loose))
        (λ _ h' loose'. clean_all_removes before claim after h' e loose')

  listed_Loose :
      (list : List Claim) (h : ClusterHandler W) (r : Result (List Claim) × W)
      → r.0 ≡ ok list
      → Loose key h
      → Post (λ found h'. (found ≡ list) × Loose key h') (returned h r)
  unfolding returned
  listed_Loose list h (ok found, w) e loose = (cc, record { unused = loose.unused })
  listed_Loose list h (err x, w) e loose = tt
  listed_Loose list h (panic, w) e loose = tt

  clean_removes :
      (before : List Claim) (claim : Claim) (after : List Claim) (h : ClusterHandler W)
      → h.instance_.status.shrink ≡ none
      → (list_pvc env.k8s h.instance_.namespace (selector_labels h.instance_) h.world).0
        ≡ ok (before ++ claim ∷ after)
      → claim_key claim ≡ key
      → Loose key h
      → Post (λ _ h'. Gone view key h') (clean_persistent_volume_claim env h)
  unfolding clean_persistent_volume_claim clean_claims ◌>>=◌ gets call
  clean_removes before claim after h idle listed e loose =
      subst (λ s. Post (λ _ h'. Gone view key h') (clean_claims env s h)) (sym idle)
        (Post-bind (call (list_pvc env.k8s h.instance_.namespace (selector_labels h.instance_)))
          (λ found. for_each found (clean_claim env)) h
          (λ found h'. (found ≡ before ++ claim ∷ after) × Loose key h') (λ _ h'. Gone view key h')
          (listed_Loose (before ++ claim ∷ after) h
            (list_pvc env.k8s h.instance_.namespace (selector_labels h.instance_) h.world) listed
            loose)
          (λ found h' (same, loose').
            subst (λ list. Post (λ _ h''. Gone view key h'') (for_each list (clean_claim env) h'))
              (sym same) (clean_all_removes before claim after h' e loose')))

-- Over a lawful store of claims, when no shrink is under way and `cleanPersistentVolumeClaim` ends
-- without an error or a panic, a claim of no node that the server listed is no longer stored.
pub clean_persistent_volume_claim_removes :
    {W : Type 0} (env : Env W) (view : W → Key → Option Claim)
    → Claims env view
    → (h : ClusterHandler W) (before : List Claim) (claim : Claim) (after : List Claim)
    → h.instance_.status.shrink ≡ none
    → (list_pvc env.k8s h.instance_.namespace (selector_labels h.instance_) h.world).0
      ≡ ok (before ++ claim ∷ after)
    → Unused h.instance_.spec.master h.sts_nodes (claim_key claim)
    → Post
        (λ (_ : Unit {0}) h'. view h'.world (claim_key claim) ≡ none)
        (clean_persistent_volume_claim env h)
clean_persistent_volume_claim_removes env view claims h before claim after idle listed u =
    Post-weaken (λ _ h'. Gone view (claim_key claim) h') _ (clean_persistent_volume_claim env h)
      (clean_removes env view claims (claim_key claim) before claim after h idle listed refl
        (record { unused = u }))
      (λ _ h' g. g.gone)

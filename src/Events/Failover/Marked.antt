-- ===== src/Events/Failover/Marked.antt =====
-- What `handleFailover` of pkg/controllers/events/handler.go leaves of the topology in the status.
use kvrocks_operator.Base.{
  ℕ, zero, suc, ◌+◌, Bytes, Bool, true, List, [], ◌∷◌, ◌≡◌, ◌≢◌, refl, ap, map, arith, some,
  get_elem?, set, All, bytes_eq, ◌==◌, if◌then◌else◌,
}
use kvrocks_operator.Api.{Kvrocks, Topology, TopoPartition}
use kvrocks_operator.Client.Controller.{Member}
use kvrocks_operator.Events.Failover.{failed_over, meet_member, meet_members}

-- An entry of the address is marked.
abbrev pub marked : Bytes → Topology → Bool
marked ip t = if t.ip == ip then t.failover else true

meet_member-ip : (ip mid : Bytes) (t : Topology) (m : Member) → (meet_member ip mid t m).ip ≡ t.ip
unfolding meet_member
meet_member-ip ip mid t m = ground (arith)

meet_member-marked :
    (ip mid : Bytes) (t : Topology) (m : Member) → marked ip (meet_member ip mid t m) ≡ true
unfolding meet_member
meet_member-marked ip mid t m = ground (arith)

meet_members-marked :
    (ip mid : Bytes) (m : Member) (ms : List Member) (t : Topology)
    → marked ip (meet_members ip mid (m ∷ ms) t) ≡ true
unfolding meet_members
meet_members-marked ip mid m [] t = meet_member-marked ip mid t m
meet_members-marked ip mid m (m' ∷ ms) t = meet_members-marked ip mid m' ms (meet_member ip mid t m)

map-marked :
    (ip mid : Bytes) (m : Member) (ms : List Member) (ts : List Topology)
    → All (λ t. marked ip t ≡ true) (map (meet_members ip mid (m ∷ ms)) ts)
map-marked ip mid m ms [] = tt
map-marked ip mid m ms (t ∷ ts) = (meet_members-marked ip mid m ms t, map-marked ip mid m ms ts)

module _ {ℓ} {A : Type ℓ} where
  get_elem?-set_same :
      (xs : List A) (i : ℕ) (v w : A) → get_elem? xs i ≡ some w → get_elem? (set xs i v) i ≡ some v
  get_elem?-set_same [] i v w e = cc
  get_elem?-set_same (x ∷ xs) zero v w e = refl
  get_elem?-set_same (x ∷ xs) (suc i) v w e = get_elem?-set_same xs i v w e

  get_elem?-set_other :
      (xs : List A) (i j : ℕ) (v : A) → j ≢ i → get_elem? (set xs i v) j ≡ get_elem? xs j
  get_elem?-set_other [] i j v h = refl
  get_elem?-set_other (x ∷ xs) zero zero v h = absurd (h refl)
  get_elem?-set_other (x ∷ xs) zero (suc j) v h = refl
  get_elem?-set_other (x ∷ xs) (suc i) zero v h = refl
  get_elem?-set_other (x ∷ xs) (suc i) (suc j) v h =
      get_elem?-set_other xs i j v (λ e. h (ap suc e))

-- Where the instance has the partition and the shard has members, the failover raises the version by
-- one, marks every entry of the failed address in the partition, and leaves another partition `q` as
-- it was.
pub failed_over_lem :
    (ip mid : Bytes) (m : Member) (ms : List Member) (p q : ℕ) (k : Kvrocks) (part : TopoPartition)
    → get_elem? k.status.topo p ≡ some part
    → q ≢ p
    → (k' : Kvrocks) × (part' : TopoPartition) × (failed_over ip mid (m ∷ ms) p k ≡ some k')
      × (k'.status.version ≡ k.status.version + 1)
      × (get_elem? k'.status.topo p ≡ some part')
      × All (λ t. marked ip t ≡ true) part'.topology
      × (get_elem? k'.status.topo q ≡ get_elem? k.status.topo q)
unfolding failed_over
failed_over_lem ip mid m ms p q k part e differs =
    let part' : TopoPartition = record part {
      topology = map (meet_members ip mid (m ∷ ms)) part.topology;
    } in
    (
      record k {
        status = record k.status {
          topo = set k.status.topo p part';
          version = k.status.version + 1;
        };
      },
      part',
      rw (failed_over, e) refl,
      refl,
      get_elem?-set_same k.status.topo p part' part e,
      map-marked ip mid m ms part.topology,
      get_elem?-set_other k.status.topo p q part' differs,
    )

-- ===== src/Client/Replies/Host.antt =====
-- The address that `GetMaster` of pkg/client/kvrocks/standard.go reads.
use kvrocks_operator.Base.{
  ℕ, Bytes, true, [], ◌∷◌, ◌++◌, ◌≡◌, refl, sym, All, Lacks, starts_with, nat_eq, ne→==_false,
}
use kvrocks_operator.Client.Replies.{is_host, host_prefix, master_host, find_master_host}

host_prefix-append :
    (host rest : Bytes) → All (λ c. is_host c ≡ true) host → host_prefix (host ++ 13 ∷ rest) ≡ host
host_prefix-append [] rest h = refl
host_prefix-append (c ∷ host) rest (hc, h) =
    rw (host_prefix, hc, host_prefix-append host rest h) refl

at_match :
    (c : ℕ) (host rest : Bytes)
    → All (λ c. is_host c ≡ true) (c ∷ host)
    → find_master_host (master_host ++ (c ∷ host) ++ 13 ∷ rest) ≡ c ∷ host
unfolding find_master_host starts_with
at_match c host rest (hc, h) = rw (hc, host_prefix-append host rest h) refl

-- The address behind the first `master_host:` is read, up to the end of its line, if no byte before
-- it is an m and all bytes of the address may stand in one.
pub find_master_host-append :
    (before : Bytes) (c : ℕ) (host rest : Bytes)
    → Lacks b'm' before
    → All (λ c. is_host c ≡ true) (c ∷ host)
    → find_master_host (before ++ master_host ++ (c ∷ host) ++ 13 ∷ rest) ≡ c ∷ host
unfolding find_master_host starts_with
find_master_host-append [] c host rest hb h = at_match c host rest h
find_master_host-append (b ∷ before) c host rest (hm, hb) h =
    rw (ne→==_false b'm' b (λ e. hm (sym e))) (find_master_host-append before c host rest hb h)

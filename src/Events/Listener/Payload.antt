-- ===== src/Events/Listener/Payload.antt =====
-- The messages that `listen` of pkg/controllers/events/handler.go makes of what sentinels publish.
use kvrocks_operator.Base.{
  ℕ, ◌+◌, ◌≤◌, Bytes, ◌∷◌, ◌++◌, ◌≡◌, refl, ap, ◌∙◌, arith, codes, Lacks, lacks-Lacks, ◌≢◌,
  All-append, split, split-append, split-Lacks, before_first-append,
}
use kvrocks_operator.Base.Decimal.{print, print-Lacks, atoi-print, max_int}
use kvrocks_operator.Base.Exec.{ok}
use kvrocks_operator.Resources.Names.{get_cluster_name, indexed}
use kvrocks_operator.Events.Listener.{heard, read_payload}

-- "master name-index ip port @ rest"
abbrev pub payload : Bytes → ℕ → Bytes → Bytes → Bytes → Bytes
payload name index ip port rest =
    codes "master"
    ++ (b' ' ∷ (indexed name index ++ (b' ' ∷ (ip ++ (b' ' ∷ (port ++ (b' ' ∷ rest)))))))

master_word : Lacks b' ' (codes "master")
master_word = lacks-Lacks b' ' (codes "master") refl

indexed_word : (name : Bytes) (index : ℕ) → Lacks b' ' name → Lacks b' ' (indexed name index)
indexed_word name index h =
    All-append (λ c. c ≢ b' ') name (b'-' ∷ print index) h
      ((λ e. cc), print-Lacks b' ' index (omega arith))

split-payload :
    (name : Bytes) (index : ℕ) (ip port rest : Bytes)
    → Lacks b' ' name
    → Lacks b' ' ip
    → Lacks b' ' port
    → split b' ' (payload name index ip port rest)
      ≡ codes "master" ∷ indexed name index ∷ ip ∷ port ∷ split b' ' rest
split-payload name index ip port rest hb hi hp =
    split-append b' ' (codes "master") _ master_word
    ∙ ap (λ l. codes "master" ∷ l)
        (split-append b' ' (indexed name index) _ (indexed_word name index hb)
          ∙ ap (λ l. indexed name index ∷ l)
              (split-append b' ' ip _ hi ∙ ap (λ l. ip ∷ l) (split-append b' ' port rest hp)))

-- The message on a shard of a cluster names its resource and its partition, and is given up after
-- thirty seconds: where the name of the cluster holds neither a dash nor a blank, the addresses no
-- blank, the namespace no slash, and the index fits an int.
pub read_payload-payload :
    (system namespace pod name ip port rest : Bytes) (index now : ℕ)
    → Lacks b'/' namespace
    → Lacks b'-' name
    → Lacks b' ' name
    → Lacks b' ' ip
    → Lacks b' ' port
    → index ≤ max_int
    → read_payload system (namespace ++ b'/' ∷ pod) now (payload name index ip port rest)
      ≡ ok (
          heard (record {
            ip = ip;
            port = port;
            key = record { namespace = namespace; name = get_cluster_name system name };
            partition = index;
            timeout = now + 30;
          }))
unfolding read_payload
read_payload-payload system namespace pod name ip port rest index now hn hd hb hi hp fits =
    rw
      (
        split-payload name index ip port rest hb hi hp,
        before_first-append b'/' namespace pod hn,
        split-append b'-' name (print index) hd,
        split-Lacks b'-' (print index) (print-Lacks b'-' index (omega arith)),
        atoi-print index fits,
      )
      refl

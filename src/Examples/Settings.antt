-- ===== src/Examples/Settings.antt =====
-- The settings of nodes that keep what they are sent.
use kvrocks_operator.Base.{
  Bytes, [], ◌∷◌, ◌≡◌, refl, any, codes, ◌&&◌, ◌==◌, bytes_eq, if◌then◌else◌,
}
use kvrocks_operator.Base.Exec.{ok}
use kvrocks_operator.Kvrocks.{Node}
use kvrocks_operator.Api.{Kvrocks}
use kvrocks_operator.Client.Kv.{Kv}
use kvrocks_operator.Client.Env.{Env}
use kvrocks_operator.Resources.Configs.{parse_kvrocks_configs}
use kvrocks_operator.Common.{ensure_config}
use kvrocks_operator.Common.Settings.{Answers, is_secret, wanted, ensure_config_lem}
use kvrocks_operator.Examples.{cluster, kv, http, instance_demo, leader}

-- The value of each setting by address.
abbrev Values : Type 0
Values = Bytes → Bytes → Bytes

abbrev keeping : Kv Values
keeping = record kv {
  get_config = λ ip _ key w. (ok (w ip key), w);
  set_config = λ ip _ key v w. (ok tt, λ j k. if ip == j && key == k then v else w j k);
  change_password = λ ip _ new w. (ok tt, λ j k. if ip == j && is_secret k then new else w j k);
}

abbrev env : Env Values
env = record {
  k8s = cluster;
  kv = keeping;
  http = http;
  sleep = λ _ w. (ok tt, w);
  now = λ w. (ok 0, w);
}

keeping-Answers : Answers keeping (λ w. w)
keeping-Answers = record {
  get = λ ip _ key w. refl;
  set = λ ip _ key v w. ((λ j k. if ip == j && key == k then v else w j k), refl, λ j k. refl);
  change =
      λ ip _ new w. ((λ j k. if ip == j && is_secret k then new else w j k), refl, λ j k. refl);
}

abbrev configured : Kvrocks
configured = record instance_demo {
  spec = record instance_demo.spec { kvrocks_config = (codes "timeout", codes "5") ∷ [] };
}

abbrev before : Values
before _ _ = codes "0"

ensure_config_lem_example :
    (w' : Values) × (ensure_config env configured (codes "old") (leader ∷ []) before ≡ (ok tt, w'))
    × (w' (codes "10.0.0.1") (codes "requirepass") ≡ (
        if any (λ (n : Node). n.ip == codes "10.0.0.1") (leader ∷ [])
        then wanted
            (codes "old" == configured.spec.password)
            (is_secret (codes "requirepass"))
            configured.spec.password
            (parse_kvrocks_configs configured.spec.kvrocks_config)
            (codes "requirepass")
            (before (codes "10.0.0.1") (codes "requirepass"))
        else before (codes "10.0.0.1") (codes "requirepass")))
ensure_config_lem_example =
    ensure_config_lem env configured (codes "old") (λ w. w) keeping-Answers (leader ∷ []) before
      (codes "10.0.0.1") (codes "requirepass")

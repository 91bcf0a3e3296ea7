-- ===== src/Client/Controller/Sent.antt =====
-- What a call of pkg/client/controller/controller_client.go sends.
use kvrocks_operator.Base.{
  ℕ, Bool, true, false, ◌≡◌, refl, ◌++◌, codes, ◌==◌, nat_eq, if◌then◌else◌,
}
use kvrocks_operator.Base.Exec.{Exec, pure, raise, ◌>>=◌}
use kvrocks_operator.Base.Exec.Ensures.{and_then_state}
use kvrocks_operator.Client.Controller.{
  Http, Response, Endpoint, post_method, migration_option, expect, shards_path,
  migrate_slot_and_data,
}

checked :
    {W : Type 0} (b : Bool) (m n : Exec W Unit) (w : W)
    → (m w).1 ≡ w
    → (n w).1 ≡ w
    → ((if b then m else n) w).1 ≡ w
checked true m n w hm hn = hm
checked false m n w hm hn = hn

expect_state : {W : Type 0} (code : ℕ) (resp : Response) (w : W) → (expect code resp w).1 ≡ w
unfolding expect pure raise
expect_state code resp w = checked (resp.status_code == code) (pure tt) _ w refl refl

-- A slot is moved by one request, and nothing else is sent.
pub migrate_slot_and_data_state :
    {W : Type 0} (http : Http W) (c : Endpoint) (source target slot : ℕ) (w : W)
    → (migrate_slot_and_data http c source target slot w).1
      ≡ (http.send post_method
          (shards_path c ++ codes "/migration/slot_data")
          (migration_option source target slot)
          w).1
unfolding migrate_slot_and_data ◌>>=◌
migrate_slot_and_data_state http c source target slot w =
    and_then_state (http.send post_method _ (migration_option source target slot) w) _
      (λ resp s. expect_state _ resp s)

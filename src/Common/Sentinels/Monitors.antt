-- ===== src/Common/Sentinels/Monitors.antt =====
-- Which masters the sentinels monitor behind `EnsureSentinel` and `RemoveMonitor` of
-- pkg/controllers/common/sentinel.go.
use kvrocks_operator.Base.{
  ℕ, Bytes, false, List, ◌≡◌, refl, ap, ◌∙◌, any, ◌&&◌, Bool-cases, inl, inr, ==_sound, Option,
  none, some, ◌==◌, bytes_eq, if◌then◌else◌,
}
use kvrocks_operator.Base.Maps.{lookup}
use kvrocks_operator.Base.Exec.{ok, pure, for_each, ◌>>=◌}
use kvrocks_operator.Base.Exec.Ensures.{attempt-resume}
use kvrocks_operator.Api.{Kvrocks}
use kvrocks_operator.Client.Objects.{Pod}
use kvrocks_operator.Client.Env.{Env}
use kvrocks_operator.Resources.Labels.{monitored_by}
use kvrocks_operator.Common.{
  sentinel_found, get_sentinel, remove_from, remove_known, remove_all, remove_monitor, flagged,
  label_value,
}
use kvrocks_operator.Common.Sentinels.{
  ensure_monitor, with_master, monitor_anew, ensure_all, ensure_sentinel, get_or_create_sentinel,
  monitored_name,
}
use kvrocks_operator.Common.Sentinels.Watches.{
  Watches, Changed, overwritten, unchanged, gone, all-Changed,
}

module _ {W : Type 0} (env : Env W) (monitors : W → Bytes → Bytes → Option Bytes)
    (watches : Watches env.kv monitors) where
  removed_from :
      (password master : Bytes) (pod : Pod) (w : W) (there : Option Bytes)
      → monitors w pod.ip master ≡ there
      → (w' : W) × (remove_from env password master pod w ≡ (ok tt, w'))
        × Changed monitors pod.ip master none w w'
  unfolding remove_from remove_known pure
  removed_from password master pod w none e =
      let (error, asked) = watches.get-none pod.ip password master w e in
      (
        w,
        attempt-resume (env.kv.get_master_from_sentinel pod.ip password master) _ w ∙ rw asked refl,
        unchanged monitors pod.ip master none w e,
      )
  removed_from password master pod w (some a) e =
      let asked = watches.get-some pod.ip password master a w e in
      let (w', removed, changed) = watches.remove-some pod.ip password master a w e in
      (
        w',
        attempt-resume (env.kv.get_master_from_sentinel pod.ip password master) _ w
            ∙ rw asked removed,
        changed,
      )

  -- Where the sentinel that the instance names is found, and its pods answer, `RemoveMonitor` ends
  -- without an error and without asking for another run. No pod of the sentinel then monitors the
  -- master, and all else that sentinels monitor is as it was.
  pub remove_monitor_lem :
      (instance_ : Kvrocks) (master password : Bytes) (pods : List Pod) (w w1 : W)
      → get_sentinel env
          (record {
            namespace = instance_.namespace;
            name = label_value (lookup monitored_by instance_.labels);
          })
          w
        ≡ (ok (sentinel_found pods password), w1)
      → (w' : W) × (remove_monitor env instance_ master w ≡ (ok (false, none), w'))
        × ((j n : Bytes)
            → monitors w' j n ≡ (
                if any (λ (pod : Pod). pod.ip == j) pods && master == n
                then none
                else monitors w1 j n))
  unfolding remove_monitor remove_all flagged ◌>>=◌ pure
  remove_monitor_lem instance_ master password pods w w1 found =
      let (w', done, there) =
        all-Changed monitors (λ (pod : Pod). pod.ip) (remove_from env password master) master none
          (λ pod w. removed_from password master pod w (monitors w pod.ip master) refl) pods w1 in
      (
        w',
        rw (remove_monitor, found)
            (attempt-resume (for_each pods (remove_from env password master)) _ w1 ∙ rw done refl),
        there,
      )

  created_anew :
      (password ip sentinel_password master master_ip : Bytes) (w : W) (there : Option Bytes)
      → monitors w ip master ≡ there
      → (w' : W) × (monitor_anew env password ip sentinel_password master master_ip w ≡ (ok tt, w'))
        × Changed monitors ip master (some master_ip) w w'
  unfolding monitor_anew
  created_anew password ip sentinel_password master master_ip w none e =
      let (error, refused) = watches.remove-none ip sentinel_password master w e in
      let (w', created, changed) =
        watches.create-none ip sentinel_password master master_ip password w e in
      (
        w',
        attempt-resume (env.kv.remove_monitor ip sentinel_password master) _ w ∙ rw refused created,
        changed,
      )
  created_anew password ip sentinel_password master master_ip w (some a) e =
      let (w1, removed, without) = watches.remove-some ip sentinel_password master a w e in
      let (w', created, changed) =
        watches.create-none ip sentinel_password master master_ip password w1
          (gone monitors ip master none w w1 without) in
      (
        w',
        attempt-resume (env.kv.remove_monitor ip sentinel_password master) _ w ∙ rw removed created,
        λ j n.
            changed j n
            ∙ ap (λ d. if ip == j && master == n then some master_ip else d) (without j n)
            ∙ overwritten (ip == j && master == n) none (some master_ip) (monitors w j n),
      )

  pub ensured_by :
      (password sentinel_password master master_ip : Bytes) (pod : Pod) (w : W)
      (there : Option Bytes)
      → monitors w pod.ip master ≡ there
      → (w' : W) × (ensure_monitor env password sentinel_password master master_ip pod w
          ≡ (ok tt, w'))
        × Changed monitors pod.ip master (some master_ip) w w'
  unfolding ensure_monitor with_master
  ensured_by password sentinel_password master master_ip pod w none e =
      let (error, asked) = watches.get-none pod.ip sentinel_password master w e in
      let (w', made, changed) =
        created_anew password pod.ip sentinel_password master master_ip w none e in
      (
        w',
        attempt-resume (env.kv.get_master_from_sentinel pod.ip sentinel_password master) _ w
            ∙ rw asked made,
        changed,
      )
  ensured_by password sentinel_password master master_ip pod w (some a) e =
      let asked = watches.get-some pod.ip sentinel_password master a w e in
      let tried =
        attempt-resume (env.kv.get_master_from_sentinel pod.ip sentinel_password master) _ w in
      elim (Bool-cases (a == master_ip)) [
        | inl t ↦
            let (w', reset, same) =
              watches.reset-some pod.ip sentinel_password master a password w e in
            (
              w',
              tried ∙ rw (asked, with_master, t) reset,
              λ j n.
                  same j n
                  ∙ unchanged monitors pod.ip master (some master_ip) w
                      (e ∙ ap some (==_sound a master_ip t)) j n,
            )
        | inr f ↦
            let (w', made, changed) =
              created_anew password pod.ip sentinel_password master master_ip w (some a) e in
            (w', tried ∙ rw (asked, with_master, f) made, changed)
      ]

  -- Where the sentinel of an instance is found, and its pods answer, `EnsureSentinel` ends without an
  -- error and without asking for another run. Each pod of the sentinel then monitors the master under
  -- the instance's name at the given address, whatever it monitored before, and all else that
  -- sentinels monitor is as it was.
  pub ensure_sentinel_lem :
      (password : Bytes) (instance_ : Kvrocks) (master_ip : Bytes) (index : Option ℕ)
      (sentinel_password : Bytes) (pods : List Pod) (w w1 : W)
      → get_or_create_sentinel env instance_ w ≡ (ok (sentinel_found pods sentinel_password), w1)
      → (w' : W) × (ensure_sentinel env password instance_ master_ip index w
          ≡ (ok (false, none), w'))
        × ((j n : Bytes)
            → monitors w' j n ≡ (
                if any (λ (pod : Pod). pod.ip == j) pods && monitored_name instance_ index == n
                then some master_ip
                else monitors w1 j n))
  unfolding ensure_sentinel ensure_all flagged ◌>>=◌ pure
  ensure_sentinel_lem password instance_ master_ip index sentinel_password pods w w1 found =
      let master = monitored_name instance_ index in
      let step = ensure_monitor env password sentinel_password master master_ip in
      let (w', done, there) =
        all-Changed monitors (λ (pod : Pod). pod.ip) step master (some master_ip)
          (λ pod w.
            ensured_by password sentinel_password master master_ip pod w (monitors w pod.ip master)
              refl)
          pods w1 in
      (
        w',
        rw (ensure_sentinel, found) (attempt-resume (for_each pods step) _ w1 ∙ rw done refl),
        there,
      )

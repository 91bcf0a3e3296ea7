-- ===== src/Sentinel/Handler/Monitored.antt =====
-- Which masters the sentinels monitor behind `ensureMonitor` of pkg/controllers/sentinel/monitor.go,
-- whose treatment of one sentinel is that of `EnsureSentinel` of pkg/controllers/common.
use kvrocks_operator.Base.{
  Bytes, false, [], ◌≡◌, refl, sym, ◌∙◌, any, ◌&&◌, Option, some, ◌==◌, bytes_eq, if◌then◌else◌,
}
use kvrocks_operator.Base.Exec.{Result, Exec, ok, err, panic, gets, ◌>>=◌}
use kvrocks_operator.Base.Exec.Ensures.{attempt-resume, resume}
use kvrocks_operator.Client.Objects.{Pod}
use kvrocks_operator.Client.Env.{Env}
use kvrocks_operator.Common.Sentinels as CommonSentinels
use kvrocks_operator.Common.Sentinels.{with_master}
use kvrocks_operator.Common.Sentinels.Watches.{Watches, all-Changed}
use kvrocks_operator.Common.Sentinels.Monitors.{ensured_by}
use kvrocks_operator.Sentinel.Handler.{
  SentinelHandler, call, returned, point_sentinel, monitor_at, ensure_monitor,
}

-- A pod of which only the address matters.
abbrev pod_at : Bytes → Pod
pod_at ip = record { namespace = []; name = []; labels = []; ip = ip; deleting = false }

resume_cong :
    {S A B : Type 0} (r : Result A × S) (f g : Result A → Exec S B)
    → ((a : Result A) (s : S) → f a s ≡ g a s)
    → resume r f ≡ resume r g
resume_cong (ok a, s) f g h = h (ok a) s
resume_cong (err e, s) f g h = h (err e) s
resume_cong (panic, s) f g h = refl

module _ {W : Type 0} (env : Env W) where
  same_step :
      (ip sentinel_password name master_ip password : Bytes) (r : Result Bytes) (w : W)
      → point_sentinel env ip sentinel_password name master_ip password r w
        ≡ with_master env password ip sentinel_password name master_ip r w
  unfolding point_sentinel with_master
  same_step ip sentinel_password name master_ip password (ok known) w = refl
  same_step ip sentinel_password name master_ip password (err e) w = refl
  same_step ip sentinel_password name master_ip password panic w = refl

  same_monitor :
      (ip sentinel_password name master_ip password : Bytes) (w : W)
      → monitor_at env sentinel_password name master_ip password ip w
        ≡ CommonSentinels.ensure_monitor env password sentinel_password name master_ip (pod_at ip) w
  unfolding monitor_at CommonSentinels.ensure_monitor
  same_monitor ip sentinel_password name master_ip password w =
      attempt-resume (env.kv.get_master_from_sentinel ip sentinel_password name) _ w
      ∙ resume_cong (env.kv.get_master_from_sentinel ip sentinel_password name w) _ _
          (same_step ip sentinel_password name master_ip password)
      ∙ sym (attempt-resume (env.kv.get_master_from_sentinel ip sentinel_password name) _ w)

module _ {W : Type 0} (env : Env W) (monitors : W → Bytes → Bytes → Option Bytes)
    (watches : Watches env.kv monitors) where
  -- Where the pods of a sentinel answer, `ensureMonitor` ends without an error and changes nothing of
  -- the handler. Each pod that the handler has read then monitors the master of the given name at the
  -- given address, whatever it monitored before, and all else that sentinels monitor is as it was.
  pub ensure_monitor_lem :
      (master_ip name password : Bytes) (h : SentinelHandler W)
      → (w' : W) × (ensure_monitor env master_ip name password h ≡ (ok tt, record h { world = w' }))
        × ((j n : Bytes)
            → monitors w' j n ≡ (
                if any (λ ip. ip == j) h.pods && name == n
                then some master_ip
                else monitors h.world j n))
  unfolding ensure_monitor call returned gets ◌>>=◌
  ensure_monitor_lem master_ip name password h =
      let secret = h.instance_.spec.password in
      let (w', done, there) =
        all-Changed monitors (λ (ip : Bytes). ip) (monitor_at env secret name master_ip password)
          name (some master_ip)
          (λ ip w.
            let (w1, made, changed) =
              ensured_by env monitors watches password secret name master_ip (pod_at ip) w
                (monitors w ip name) refl in
            (w1, same_monitor env ip secret name master_ip password w ∙ made, changed))
          h.pods h.world in
      (w', rw (ensure_monitor, done) refl, there)

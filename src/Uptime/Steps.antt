-- ===== src/Uptime/Steps.antt =====
-- The tables of the monitors over any sequence of operations (store/uptime.go).
use mizu_panel.Prelude.{ℕ, ◌<◌, ◌≡◌, ap, String, Bool, ◌==◌, Option-cases, inl, inr}
use mizu_panel.Prelude.Result.{ok, err_not_ok, ok_unique, or_fail}
use mizu_panel.Tables.{find_first}
use mizu_panel.Uptime.Model.{UptimeMonitor, UptimeProbeResult, UptimeTransition, UptimeDb, no_rows}
use mizu_panel.Uptime.Probes.{apply_probe}
use mizu_panel.Uptime.Monitors.{
  create_monitor, update_monitor, set_monitor_enabled, delete_monitor, update_incident_notification,
}
use mizu_panel.Uptime.Invariant.{IsMonitored}
use mizu_panel.Uptime.Probed.{apply_probe_total}
use mizu_panel.Uptime.Operations.{
  created-IsMonitored, notified-IsMonitored, deleted-IsMonitored, updated-IsMonitored,
  switched-IsMonitored,
}

-- What one committed operation makes of the tables. The thresholds are those that the validation of
-- the configuration lets through.
pub data Step : UptimeDb → UptimeDb → Type 0 where
  creates :
      (db : UptimeDb) (monitor : UptimeMonitor) (now : ℕ)
      → 0 < monitor.failure_threshold
      → Step db (create_monitor db monitor now).1
  updates :
      (db db' : UptimeDb) (next updated : UptimeMonitor) (now : ℕ) (material : Bool)
      → 0 < next.failure_threshold
      → update_monitor db next now ≡ ok ((updated, material), db')
      → Step db db'
  switches :
      (db db' : UptimeDb) (id : ℕ) (enabled : Bool) (now : ℕ) (updated : UptimeMonitor)
      → set_monitor_enabled db id enabled now ≡ ok (updated, db')
      → Step db db'
  deletes : (db : UptimeDb) (id : ℕ) → Step db (delete_monitor db id).1
  probes :
      (db db' : UptimeDb) (id : ℕ) (probe : UptimeProbeResult) (now : ℕ) (t : UptimeTransition)
      → apply_probe db id probe now ≡ ok (t, db')
      → Step db db'
  notifies :
      (db : UptimeDb) (id : ℕ) (recovery sent : Bool) (message : String) (at : ℕ)
      → Step db (update_incident_notification db id recovery sent message at)

pub data Reach (start : UptimeDb) : UptimeDb → Type 0 where
  here : Reach start start
  after : (db db' : UptimeDb) → Reach start db → Step db db' → Reach start db'

probed_step-IsMonitored :
    (db db' : UptimeDb) (id : ℕ) (probe : UptimeProbeResult) (now : ℕ) (t : UptimeTransition)
    → IsMonitored db
    → apply_probe db id probe now ≡ ok (t, db')
    → IsMonitored db'
unfolding apply_probe
probed_step-IsMonitored db db' id probe now t v h =
    elim (Option-cases (find_first (λ m. m.id == id) db.monitors)) [
      | inl missing ↦ err_not_ok (rw missing at h)
      | inr (monitor, e) ↦
          let (t', made, done, result) =
            apply_probe_total db id monitor probe now v (ap (λ r. or_fail r no_rows) e) in
          let same : made ≡ db' = ap (λ r. r.1) (ok_unique done h) in rw same at result.monitored
    ]

pub step-IsMonitored : (db db' : UptimeDb) → IsMonitored db → Step db db' → IsMonitored db'
step-IsMonitored _ _ v (creates db monitor now t) = created-IsMonitored db monitor now v t
step-IsMonitored _ _ v (updates db db' next updated now material t h) =
    updated-IsMonitored db db' next updated now material v t h
step-IsMonitored _ _ v (switches db db' id enabled now updated h) =
    switched-IsMonitored db db' id enabled now updated v h
step-IsMonitored _ _ v (deletes db id) = deleted-IsMonitored db id v
step-IsMonitored _ _ v (probes db db' id probe now t h) =
    probed_step-IsMonitored db db' id probe now t v h
step-IsMonitored _ _ v (notifies db id recovery sent message at) =
    notified-IsMonitored db id recovery sent message at v

-- Tables that satisfy the invariant satisfy it after any sequence of operations on them.
pub reach-IsMonitored : (start db : UptimeDb) → IsMonitored start → Reach start db → IsMonitored db
reach-IsMonitored start _ v (here) = v
reach-IsMonitored start _ v (after mid db reached step) =
    step-IsMonitored mid db (reach-IsMonitored start mid v reached) step

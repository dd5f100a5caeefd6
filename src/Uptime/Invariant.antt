-- ===== src/Uptime/Invariant.antt =====
-- What the tables of the monitors keep (store/uptime.go), and that a probe keeps it.
use mizu_panel.Prelude.{
  ℕ, ◌≤◌, ◌<◌, ◌≡◌, ap, ◌∙◌, true, some, List, [], ◌∷◌, arith, leb, ◌==◌, if◌then◌else◌, count_if,
  All, Bool-cases, inl, inr,
}
use mizu_panel.Tables.{find_first, update_where}
use mizu_panel.Uptime.Model.{
  UptimeMonitor, UptimeIncident, UptimeProbeResult, UptimeDb, availability,
}
use mizu_panel.Uptime.Probes.{Changes, failures_after, probed_monitor}
use mizu_panel.Uptime.Incidents.{IsSingle}
use mizu_panel.Uptime.Transitions.{has_open, Outcome}
use mizu_panel.Uptime.Kept.{IsDescending, result_count}

-- The incidents as a transaction finds them.
abbrev pub before : UptimeDb → Changes
before db = record {
  incidents = db.incidents;
  next_incident_id = db.next_incident_id;
  triggered = [];
  resolved = [];
}

-- An enabled monitor whose failures have reached its threshold has an open incident.
abbrev pub IsAlarmed : List UptimeIncident → UptimeMonitor → Type 0
IsAlarmed incidents m =
    m.enabled ≡ true
    → leb m.failure_threshold m.consecutive_failures ≡ true
    → has_open m.id availability incidents ≡ true

pub record IsMonitored (db : UptimeDb) : Type 0 where
  pub monitor_unique : (i : ℕ) → count_if (λ m. m.id == i) db.monitors ≤ 1
  pub monitors_below : All (λ m. m.id < db.next_monitor_id) db.monitors
  pub thresholds : All (λ m. 0 < m.failure_threshold) db.monitors
  pub alarmed : All (IsAlarmed db.incidents) db.monitors
  pub single : IsSingle (before db)
  pub descending : IsDescending db.results
  pub results_below : All (λ r. r.id < db.next_result_id) db.results
  pub kept : (m : ℕ) → result_count m db.results ≤ 200

-- An UPDATE by id of the row that the query finds gives the changed row.
pub found_updated :
    (f : UptimeMonitor → UptimeMonitor) (id : ℕ) (ms : List UptimeMonitor) {m : UptimeMonitor}
    → ((x : UptimeMonitor) → (f x).id ≡ x.id)
    → find_first (λ x. x.id == id) ms ≡ some m
    → find_first (λ x. x.id == id) (update_where (λ x. x.id == id) f ms) ≡ some (f m)
found_updated f id [] keep e = cc
found_updated f id (x ∷ xs) {m} keep e = elim (Bool-cases (x.id == id)) [
  | inl hit ↦
      let found : some x ≡ some m = rw hit at e in
      let same : x ≡ m = cc in ground (arith, hit, keep x, ap f same)
  | inr miss ↦ ground (arith, miss, found_updated f id xs keep (rw miss at e))
]

own_alarmed :
    (db : UptimeDb) (probe : UptimeProbeResult) (monitor : UptimeMonitor) (c : Changes)
    (x : UptimeMonitor)
    → Outcome monitor probe (failures_after monitor probe) (before db) c
    → 0 < x.failure_threshold
    → x ≡ monitor
    → leb x.failure_threshold (failures_after monitor probe) ≡ true
    → has_open x.id availability c.incidents ≡ true
own_alarmed db probe monitor c x o pos same reached =
    let key : x.id ≡ monitor.id = ap (λ m. m.id) same in
    let bound : x.failure_threshold ≡ monitor.failure_threshold =
      ap (λ m. m.failure_threshold) same in
    rw key (o.available ∙ ground (arith, reached, pos, bound))

-- The row of the monitor is changed by its probe, and the others are as they were.
pub probed-IsAlarmed :
    (db : UptimeDb) (probe : UptimeProbeResult) (monitor : UptimeMonitor) (c : Changes)
    (x : UptimeMonitor)
    → Outcome monitor probe (failures_after monitor probe) (before db) c
    → 0 < x.failure_threshold
    → IsAlarmed db.incidents x
    → ((x.id == monitor.id) ≡ true → x ≡ monitor)
    → IsAlarmed c.incidents
        (if x.id == monitor.id then probed_monitor (failures_after monitor probe) probe x else x)
probed-IsAlarmed db probe monitor c x o pos old same = elim (Bool-cases (x.id == monitor.id)) [
  | inl hit ↦ rw hit (λ on reached. own_alarmed db probe monitor c x o pos (same hit) reached)
  | inr miss ↦
      rw miss (λ on reached. ground (arith, o.others x.id availability miss, old on reached))
]

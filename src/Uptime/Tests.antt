-- ===== src/Uptime/Tests.antt =====
-- The theorems on concrete monitors, and runs of the definitions (store/uptime.go, uptime/engine.go,
-- uptime/model.go).
use mizu_panel.Prelude.Time.{sub}
use mizu_panel.Prelude.{
  ◌^◌, All, ℕ, ◌+◌, ◌-◌, ◌*◌, ◌≤◌, ◌<◌, ◌≡◌, refl, true, false, ◌&&◌, none, some, [], ◌∷◌, arith,
  leb, ◌==◌, String,
}
use mizu_panel.Prelude.Result.{ok, err}
use mizu_panel.Uptime.Model.{
  UptimeIncident, IncidentMessage, UptimeStatus, UptimeMonitor, UptimeProbeResult, UptimeTransition,
  UptimeDb, availability, day, uptime_tls_remaining_days,
}
use mizu_panel.Uptime.Probes.{new_incident, new_result, apply_probe, checked_probe}
use mizu_panel.Uptime.Monitors.{create_monitor}
use mizu_panel.Uptime.Transitions.{has_open}
use mizu_panel.Uptime.Invariant.{before, IsMonitored}
use mizu_panel.Uptime.Probed.{Probed, apply_probe_total}
use mizu_panel.Uptime.Steps.{Reach, here, after, creates}
use mizu_panel.Uptime.Alarms.{
  empty_db, reach-empty, apply_all, apply_all-alarm, uptime_tls_remaining_days_lem,
}
use mizu_panel.Uptime.Engine.{
  deliver_transitions, Engine, check_in_progress, UptimePayload, UptimeDeliveryResult, begin_check,
  check_now, sweep, held_check, monitor_due, is_active, second,
}
use mizu_panel.Uptime.Checks.{check_now_lem, sweep_lem, apply_probe-monitor_due}
use mizu_panel.Uptime.Delivered.{IsRecorded, deliver_transitions-IsRecorded}
use mizu_panel.Uptime.Exclusive.{Lock, Turns, idle, then_turn, begins, holding, begin_check_once}
use mizu_panel.Uptime.Validation.{
  Libraries, validate_monitor, apply_defaults, check_defaulted, validate_http_target,
  validate_notification_channels,
}
use mizu_panel.Uptime.Validated.{IsConfigured, validate_monitor-IsConfigured, validate_monitor_idem}

abbrev site : UptimeMonitor
site = record {
  id = 1;
  name = "site";
  type = "http";
  target = "https://example.com";
  enabled = true;
  interval_seconds = 60;
  timeout_seconds = 5;
  failure_threshold = 2;
  expected_status_min = 200;
  expected_status_max = 399;
  tls_expiry_threshold_days = 30;
  notification_channels = [];
  status = UptimeStatus.pending;
  consecutive_failures = 0;
  last_latency_ms = 0;
  last_status_code = 0;
  last_error = "";
  last_checked_at = none;
  tls_expires_at = none;
  created_at = 100;
  updated_at = 100;
}

abbrev site_db : UptimeDb
site_db = record empty_db { monitors = site ∷ []; next_monitor_id = 2 }

site-Reach : Reach empty_db site_db
unfolding create_monitor
site-Reach = after empty_db site_db (here) (creates empty_db site 100 (omega arith))

abbrev refused_probe : UptimeProbeResult
refused_probe = record {
  success = false;
  latency_ms = 3;
  status_code = 0;
  error = "refused";
  tls_expires_at = none;
  tls_checked = false;
  tls_expiring = false;
  checked_at = 200;
}

abbrev expiring_probe : UptimeProbeResult
expiring_probe = record refused_probe {
  success = true;
  status_code = 200;
  error = "";
  tls_expires_at = some 300;
  tls_checked = true;
  tls_expiring = true;
}

reach-empty_example : IsMonitored site_db
reach-empty_example = reach-empty site_db site-Reach

apply_probe_total_example :
    (t : UptimeTransition) × (db : UptimeDb) × (apply_probe site_db 1 refused_probe 200
      ≡ ok (t, db))
    × Probed site_db site (checked_probe refused_probe 200) t db
apply_probe_total_example =
    apply_probe_total site_db 1 site refused_probe 200 reach-empty_example refl

apply_all-alarm_example :
    (db : UptimeDb) × (apply_all site_db 1 ((refused_probe, 200) ∷ (refused_probe, 260) ∷ [])
      ≡ ok db)
    × (has_open 1 availability db.incidents ≡ true)
apply_all-alarm_example =
    apply_all-alarm site_db 1 site ((refused_probe, 200) ∷ (refused_probe, 260) ∷ []) site-Reach
      refl refl (refl, (refl, tt)) (omega arith)

-- A certificate that never ends has the days of the longest duration.
remaining_days_saturate : uptime_tls_remaining_days (some 0) (some (2 ^ 70)) ≡ some 106752
unfolding uptime_tls_remaining_days sub
remaining_days_saturate = refl

uptime_tls_remaining_days_lem_example :
    (days : ℕ) × (uptime_tls_remaining_days (some 100) (some 200) ≡ some days)
    × (100 ≤ days * day)
    × (0 < days → (days - 1) * day < 100)
uptime_tls_remaining_days_lem_example = uptime_tls_remaining_days_lem 100 200

apply_probe-monitor_due_example :
    (t : UptimeTransition) × (db : UptimeDb) × (apply_probe site_db 1 refused_probe 200
      ≡ ok (t, db))
    × (monitor_due t.monitor 300 ≡ (true && leb (200 + 60 * second) 300))
apply_probe-monitor_due_example =
    apply_probe-monitor_due site_db 1 site refused_probe 200 300 reach-empty_example refl

abbrev failing_prober : UptimeMonitor → UptimeProbeResult
failing_prober m = refused_probe

abbrev deliveries : UptimePayload → UptimeDeliveryResult
deliveries p = record { sent = true; error = ""; attempted_at = 250 }

abbrev whole : String → String
whole s = s

abbrev engine : Engine
engine = record { active = []; db = site_db }

check_now_lem_example :
    (let done = check_now failing_prober deliveries whole engine 1 false 200 in
      (done.1.active ≡ [])
      × IsMonitored done.1.db
      × (is_active 1 [] ≡ true → done ≡ (err check_in_progress, engine))
      × (is_active 1 [] ≡ false
          → done.0 ≡ (held_check failing_prober deliveries whole site_db 1 false 200).0))
check_now_lem_example =
    check_now_lem failing_prober deliveries whole engine 1 false 200 reach-empty_example

abbrev site_incident : UptimeIncident
site_incident =
    new_incident (before site_db) 1 availability (IncidentMessage.failed 2 "refused") 260

abbrev site_transition : UptimeTransition
site_transition = record {
  monitor = site;
  result = new_result 2 1 refused_probe;
  triggered = site_incident ∷ [];
  resolved = [];
}

abbrev alarmed_db : UptimeDb
alarmed_db = record site_db { incidents = site_incident ∷ []; next_incident_id = 2 }

deliver_transitions-IsRecorded_example :
    (let rows =
        (deliver_transitions failing_prober deliveries whole alarmed_db
          site_transition).incidents in
      All (IsRecorded false rows) (site_incident ∷ []) × All (IsRecorded true rows) [])
deliver_transitions-IsRecorded_example =
    deliver_transitions-IsRecorded deliveries whole failing_prober alarmed_db site_transition

sweep_lem_example :
    (let done = sweep failing_prober deliveries whole engine false 200 in
      (done.active ≡ []) × IsMonitored done.db)
sweep_lem_example = sweep_lem failing_prober deliveries whole engine false 200 reach-empty_example

abbrev one_lock : Lock
one_lock = record { active = 1 ∷ []; holders = 1 ∷ [] }

one-Turns : Turns one_lock
unfolding begin_check
one-Turns =
    then_turn (record { active = []; holders = [] }) one_lock (idle)
      (begins (record { active = []; holders = [] }) 1 refl)

begin_check_once_example :
    (holding 1 (1 ∷ []) ≤ 1) × ((begin_check (1 ∷ []) 1).0 ≡ (holding 1 (1 ∷ []) == 0))
begin_check_once_example = begin_check_once one_lock 1 one-Turns

abbrev libraries : Libraries
libraries = record {
  trim_space = λ s. s;
  to_lower = λ s. s;
  valid_string = λ s. true;
  rune_count = λ s. 4;
  byte_count = λ s. 19;
  parse_url = λ s. some (record {
    is_abs = true;
    scheme = "https";
    host = "example.com";
    has_user = false;
    fragment = "";
  });
  split_host_port = λ s. none;
  atoi = λ s. none;
}

site_accepted : validate_monitor libraries site ≡ ok site
unfolding validate_monitor apply_defaults check_defaulted validate_http_target
    validate_notification_channels
site_accepted = refl

validate_monitor-IsConfigured_example : IsConfigured libraries site
validate_monitor-IsConfigured_example =
    validate_monitor-IsConfigured libraries site site site_accepted

validate_monitor_idem_example : validate_monitor libraries site ≡ ok site
validate_monitor_idem_example =
    validate_monitor_idem libraries site site (λ t. refl) (λ t. refl) refl site_accepted

-- ===== src/Uptime/Monitors.antt =====
-- The operations on monitors and the queries (store/uptime.go).
use text.Mathlib.Text.{◌==◌ as str_eq}
use mathlib.Core.List.{reverse}
use mizu_panel.Prelude.{
  ℕ, suc, String, Bool, true, false, not, ◌&&◌, ◌||◌, none, some, List, [], ◌∷◌, ◌++◌, ltb, ◌==◌,
  if◌then◌else◌, select, take, count_if,
}
use mizu_panel.Prelude.Int.{ℤ, pos, negsuc}
use mizu_panel.Prelude.Result.{Result, ok, ◌>>=◌, ◌>>◌, refuse_if}
use mizu_panel.Tables.{update_where}
use mizu_panel.Uptime.Model.{
  UptimeStatus, UptimeMonitor, UptimeResult, UptimeIncident, UptimeError, UptimeDb, no_rows,
  max_uptime_results, max_uptime_incidents,
}
use mizu_panel.Uptime.Probes.{get_monitor, closed_incident}

abbrev pub created_monitor : UptimeMonitor → ℕ → ℕ → UptimeMonitor
created_monitor monitor id now = record monitor {
  id = id;
  status = UptimeStatus.pending;
  consecutive_failures = 0;
  last_latency_ms = 0;
  last_status_code = 0;
  last_error = "";
  last_checked_at = none;
  tls_expires_at = none;
  created_at = now;
  updated_at = now;
}

-- CreateMonitor; the columns that the INSERT does not name have their defaults.
unfoldable pub create_monitor : UptimeDb → UptimeMonitor → ℕ → UptimeMonitor × UptimeDb
create_monitor db monitor now =
    let created = created_monitor monitor db.next_monitor_id now in
    (
      created,
      record db {
        monitors = db.monitors ++ created ∷ [];
        next_monitor_id = suc db.next_monitor_id;
      },
    )

unfoldable pub list_monitors : UptimeDb → Bool → List UptimeMonitor
list_monitors db enabled_only = select (λ m. not enabled_only || m.enabled) db.monitors

unfoldable pub uptime_materially_changed : UptimeMonitor → UptimeMonitor → Bool
uptime_materially_changed existing next =
    not (str_eq existing.type next.type)
    || (not (str_eq existing.target next.target)
        || (not (existing.interval_seconds == next.interval_seconds)
            || (not (existing.timeout_seconds == next.timeout_seconds)
                || (not (existing.failure_threshold == next.failure_threshold)
                    || (not (existing.expected_status_min == next.expected_status_min)
                        || (not (existing.expected_status_max == next.expected_status_max)
                            || not (
                                existing.tls_expiry_threshold_days
                                == next.tls_expiry_threshold_days)))))))

-- The first UPDATE of UpdateMonitor.
abbrev pub configured : UptimeMonitor → ℕ → UptimeMonitor → UptimeMonitor
configured next now m = record m {
  name = next.name;
  type = next.type;
  target = next.target;
  interval_seconds = next.interval_seconds;
  timeout_seconds = next.timeout_seconds;
  failure_threshold = next.failure_threshold;
  expected_status_min = next.expected_status_min;
  expected_status_max = next.expected_status_max;
  tls_expiry_threshold_days = next.tls_expiry_threshold_days;
  notification_channels = next.notification_channels;
  updated_at = now;
}

-- The second one, after a material change.
abbrev pub restarted : UptimeMonitor → UptimeMonitor
restarted m = record m {
  status = UptimeStatus.pending;
  consecutive_failures = 0;
  last_latency_ms = 0;
  last_status_code = 0;
  last_error = "";
  last_checked_at = none;
  tls_expires_at = none;
}

-- resolveActiveUptimeIncidentsTx
abbrev pub resolve_active : ℕ → ℕ → List UptimeIncident → List UptimeIncident
resolve_active monitor_id at =
    update_where (λ i. i.monitor_id == monitor_id && i.active) (closed_incident at)

abbrev pub reconfigured : UptimeDb → UptimeMonitor → ℕ → UptimeDb
reconfigured db next now = record db {
  monitors = update_where (λ m. m.id == next.id) (configured next now) db.monitors;
}

abbrev pub reset : UptimeDb → ℕ → ℕ → UptimeDb
reset db id now = record db {
  monitors = update_where (λ m. m.id == id) restarted db.monitors;
  incidents = resolve_active id now db.incidents;
}

-- UpdateMonitor gives the monitor as it is stored and whether the change was material.
unfoldable pub update_monitor :
    UptimeDb → UptimeMonitor → ℕ → Result UptimeError ((UptimeMonitor × Bool) × UptimeDb)
update_monitor db next now = do
  existing ← get_monitor db next.id
  let material = uptime_materially_changed existing next
  let stored = reconfigured db next now
  let after = if material then reset stored next.id now else stored
  updated ← get_monitor after next.id
  ok ((updated, material), after)

abbrev pub with_enabled : Bool → ℕ → UptimeMonitor → UptimeMonitor
with_enabled enabled now m = record m { enabled = enabled; updated_at = now }

abbrev pub started : UptimeMonitor → UptimeMonitor
started m = record m {
  status = UptimeStatus.pending;
  consecutive_failures = 0;
  last_checked_at = none;
}

abbrev pub switched : UptimeDb → ℕ → Bool → ℕ → UptimeDb
switched db id enabled now = record db {
  monitors = update_where (λ m. m.id == id) (with_enabled enabled now) db.monitors;
}

unfoldable pub set_monitor_enabled :
    UptimeDb → ℕ → Bool → ℕ → Result UptimeError (UptimeMonitor × UptimeDb)
set_monitor_enabled db id enabled now = do
  refuse_if (count_if (λ m. m.id == id) db.monitors == 0) no_rows
  let stored = switched db id enabled now
  let after =
      if enabled
      then record stored { monitors = update_where (λ m. m.id == id) started stored.monitors }
      else record stored { incidents = resolve_active id now stored.incidents }
  updated ← get_monitor after id
  ok (updated, after)

-- DeleteMonitor, with ON DELETE CASCADE on results and incidents.
unfoldable pub delete_monitor : UptimeDb → ℕ → Bool × UptimeDb
delete_monitor db id = (
  ltb 0 (count_if (λ m. m.id == id) db.monitors),
  if count_if (λ m. m.id == id) db.monitors == 0 then db else record db {
    monitors = select (λ m. not (m.id == id)) db.monitors;
    results = select (λ r. not (r.monitor_id == id)) db.results;
    incidents = select (λ i. not (i.monitor_id == id)) db.incidents;
  },
)

-- `if limit <= 0 || limit > max { limit = max }`
abbrev pub page_size : ℤ → ℕ → ℕ
page_size (negsuc n) most = most
page_size (pos n) most = if n == 0 || ltb most n then most else n

unfoldable pub list_results : UptimeDb → ℕ → ℤ → List UptimeResult
list_results db monitor_id limit =
    take (page_size limit max_uptime_results) (select (λ r. r.monitor_id == monitor_id) db.results)

-- The incidents are stored oldest first, and read newest first.
unfoldable pub list_incidents : UptimeDb → ℕ → ℤ → List UptimeIncident
list_incidents db monitor_id limit =
    take (page_size limit max_uptime_incidents)
      (reverse (select (λ i. i.monitor_id == monitor_id) db.incidents))

abbrev pub with_notification : Bool → Bool → String → ℕ → UptimeIncident → UptimeIncident
with_notification true sent message at i = record i {
  recovery_notification_sent = sent;
  recovery_notification_error = message;
  recovery_notification_attempted_at = some at;
}
with_notification false sent message at i = record i {
  notification_sent = sent;
  notification_error = message;
  notification_attempted_at = some at;
}

unfoldable pub update_incident_notification : UptimeDb → ℕ → Bool → Bool → String → ℕ → UptimeDb
update_incident_notification db id recovery sent message at = record db {
  incidents =
      update_where (λ i. i.id == id) (with_notification recovery sent message at) db.incidents;
}

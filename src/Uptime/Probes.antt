-- ===== src/Uptime/Probes.antt =====
-- ApplyProbe (store/uptime.go): the result of a probe is stored, the monitor updated, incidents are
-- opened and resolved, and old results are deleted.
use mizu_panel.Prelude.{
  ℕ, suc, ◌+◌, ◌-◌, Bool, true, false, not, ◌&&◌, ◌||◌, Option, none, some, List, [], ◌∷◌, ◌++◌,
  ltb, ◌==◌, if◌then◌else◌, select, drop, count_if,
}
use mizu_panel.Prelude.Result.{Result, ok, ◌>>=◌, ◌>>◌, refuse_if, or_fail}
use mizu_panel.Tables.{find_first, update_where}
use mizu_panel.Uptime.Model.{
  UptimeStatus, IncidentKind, IncidentMessage, UptimeMonitor, UptimeResult, UptimeIncident,
  UptimeProbeResult, UptimeTransition, UptimeError, UptimeDb, no_rows, duplicate, is_open,
  max_uptime_results, availability, certificate,
}

-- The incidents table of a transaction with the lists of the transition.
pub record Changes : Type 0 where
  pub incidents : List UptimeIncident
  pub next_incident_id : ℕ
  pub triggered : List UptimeIncident
  pub resolved : List UptimeIncident

abbrev pub active_incident : ℕ → IncidentKind → Changes → Option UptimeIncident
active_incident monitor_id kind c = find_first (is_open monitor_id kind) c.incidents

abbrev pub new_incident : Changes → ℕ → IncidentKind → IncidentMessage → ℕ → UptimeIncident
new_incident c monitor_id kind message started_at = record {
  id = c.next_incident_id;
  monitor_id = monitor_id;
  kind = kind;
  message = message;
  active = true;
  started_at = started_at;
  resolved_at = none;
  notification_sent = false;
  notification_error = "";
  notification_attempted_at = none;
  recovery_notification_sent = false;
  recovery_notification_error = "";
  recovery_notification_attempted_at = none;
  created_at = started_at;
}

-- createUptimeIncidentTx; the unique index refuses a second open incident of the kind.
unfoldable pub create_incident :
    Changes → ℕ → IncidentKind → IncidentMessage → ℕ → Result UptimeError Changes
create_incident c monitor_id kind message started_at = do
  refuse_if (ltb 0 (count_if (is_open monitor_id kind) c.incidents)) duplicate
  let incident = new_incident c monitor_id kind message started_at
  ok (record c {
    incidents = c.incidents ++ incident ∷ [];
    next_incident_id = suc c.next_incident_id;
    triggered = c.triggered ++ incident ∷ [];
  })

abbrev pub closed_incident : ℕ → UptimeIncident → UptimeIncident
closed_incident at i = record i { resolved_at = some at; active = false }

abbrev pub is_active_id : ℕ → UptimeIncident → Bool
is_active_id id i = i.id == id && i.active

-- resolveUptimeIncidentTx
unfoldable pub resolve_incident : Changes → UptimeIncident → ℕ → Changes
resolve_incident c incident at = record c {
  incidents = update_where (is_active_id incident.id) (closed_incident at) c.incidents;
  resolved = c.resolved ++ record incident { resolved_at = some at } ∷ [];
}

unfoldable pub apply_availability_transition :
    UptimeMonitor → UptimeProbeResult → ℕ → Changes → Result UptimeError Changes
apply_availability_transition monitor probe failures c =
    elim (active_incident monitor.id availability c) [
      | some incident ↦
          ok (if probe.success then resolve_incident c incident probe.checked_at else c)
      | none ↦
          if probe.success || ltb failures monitor.failure_threshold
          then ok c
          else create_incident c monitor.id availability
              (IncidentMessage.failed failures probe.error) probe.checked_at
    ]

unfoldable pub apply_certificate_transition :
    UptimeMonitor → UptimeProbeResult → Changes → Result UptimeError Changes
apply_certificate_transition monitor probe c = elim (active_incident monitor.id certificate c) [
  | some incident ↦
      ok (if probe.tls_expiring then c else resolve_incident c incident probe.checked_at)
  | none ↦
      if probe.tls_expiring
      then create_incident c monitor.id certificate
          (IncidentMessage.expires probe.tls_expires_at probe.checked_at) probe.checked_at
      else ok c
]

-- pruneUptimeResultsTx: the result with 199 newer ones is the oldest that stays.
unfoldable pub prune_results : ℕ → List UptimeResult → List UptimeResult
prune_results monitor_id results =
    elim (drop (max_uptime_results - 1) (select (λ r. r.monitor_id == monitor_id) results)) [
      | [] ↦ results
      | boundary ∷ older ↦
          select (λ r. not (r.monitor_id == monitor_id && ltb r.id boundary.id)) results
    ]

abbrev pub status_after : UptimeProbeResult → UptimeStatus
status_after probe =
    if not probe.success
    then UptimeStatus.down
    else if probe.tls_expiring
    then UptimeStatus.warning
    else UptimeStatus.up

abbrev pub failures_after : UptimeMonitor → UptimeProbeResult → ℕ
failures_after monitor probe = if probe.success then 0 else monitor.consecutive_failures + 1

abbrev pub probed_monitor : ℕ → UptimeProbeResult → UptimeMonitor → UptimeMonitor
probed_monitor failures probe m = record m {
  status = status_after probe;
  consecutive_failures = failures;
  last_latency_ms = probe.latency_ms;
  last_status_code = probe.status_code;
  last_error = probe.error;
  last_checked_at = some probe.checked_at;
  tls_expires_at = probe.tls_expires_at;
  updated_at = probe.checked_at;
}

abbrev pub new_result : ℕ → ℕ → UptimeProbeResult → UptimeResult
new_result id monitor_id probe = record {
  id = id;
  monitor_id = monitor_id;
  success = probe.success;
  latency_ms = probe.latency_ms;
  status_code = probe.status_code;
  error = probe.error;
  tls_expires_at = probe.tls_expires_at;
  checked_at = probe.checked_at;
}

-- `if probe.CheckedAt.IsZero() { … = time.Now() }`
abbrev pub checked_probe : UptimeProbeResult → ℕ → UptimeProbeResult
checked_probe probe now = record probe {
  checked_at = if probe.checked_at == 0 then now else probe.checked_at;
}

abbrev pub get_monitor : UptimeDb → ℕ → Result UptimeError UptimeMonitor
get_monitor db id = or_fail (find_first (λ m. m.id == id) db.monitors) no_rows

-- The certificate is looked at after a success that checked it.
unfoldable pub certificate_step :
    UptimeMonitor → UptimeProbeResult → Changes → Result UptimeError Changes
certificate_step monitor probe c =
    if probe.success && probe.tls_checked
    then apply_certificate_transition monitor probe c
    else ok c

-- The two transitions of ApplyProbe.
unfoldable pub apply_transitions :
    UptimeMonitor → UptimeProbeResult → ℕ → Changes → Result UptimeError Changes
apply_transitions monitor probe failures c = do
  after ← apply_availability_transition monitor probe failures c
  certificate_step monitor probe after

-- The tables that the transaction commits.
abbrev pub probed : UptimeDb → ℕ → UptimeProbeResult → ℕ → Changes → UptimeDb
probed db monitor_id probe failures c = record db {
  monitors = update_where (λ m. m.id == monitor_id) (probed_monitor failures probe) db.monitors;
  results = prune_results monitor_id (new_result db.next_result_id monitor_id probe ∷ db.results);
  incidents = c.incidents;
  next_result_id = suc db.next_result_id;
  next_incident_id = c.next_incident_id;
}

unfoldable pub apply_probe :
    UptimeDb → ℕ → UptimeProbeResult → ℕ → Result UptimeError (UptimeTransition × UptimeDb)
apply_probe db monitor_id given now = do
  let probe = checked_probe given now
  monitor ← get_monitor db monitor_id
  let failures = failures_after monitor probe
  changes ← apply_transitions monitor probe failures (record {
    incidents = db.incidents;
    next_incident_id = db.next_incident_id;
    triggered = [];
    resolved = [];
  })
  let after = probed db monitor_id probe failures changes
  updated ← get_monitor after monitor_id
  ok (
    record {
      monitor = updated;
      result = new_result db.next_result_id monitor_id probe;
      triggered = changes.triggered;
      resolved = changes.resolved;
    },
    after,
  )

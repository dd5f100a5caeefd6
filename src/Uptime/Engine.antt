-- ===== src/Uptime/Engine.antt =====
-- The engine of the checks (uptime/engine.go).
--
-- The engine's state is its table of running checks and the database that the store reads and writes.
-- The prober and the notifier are parameters: they ask the network. A call is cancelled or it is not,
-- which is decided where it waits for a slot.
use mizu_panel.Prelude.{
  ℕ, ◌+◌, ◌*◌, String, Bool, true, false, not, Option, none, some, List, [], ◌∷◌, ltb, ◌==◌,
  if◌then◌else◌, select, count_if,
}
use mizu_panel.Prelude.Result.{Result, ok, err}
use mizu_panel.Uptime.Model.{
  UptimeStatus, IncidentKind, UptimeMonitor, UptimeIncident, UptimeProbeResult, UptimeTransition,
  UptimeDb, no_rows, duplicate,
}
use mizu_panel.Uptime.Probes.{get_monitor, apply_probe}
use mizu_panel.Uptime.Monitors.{list_monitors, update_incident_notification}

-- ErrCheckInProgress, ErrMonitorDisabled, ErrMonitorNotFound, the error of a cancelled context, and
-- an error of the store.
pub data EngineError : Type 0 where
  check_in_progress monitor_disabled monitor_not_found cancelled persist : EngineError

pub record Engine : Type 0 where
  pub active : List ℕ
  pub db : UptimeDb

-- What a notifier is given (alerting.UptimePayload) and what it gives.
pub record UptimePayload : Type 0 where
  pub monitor_name : String
  pub target : String
  pub incident_kind : IncidentKind
  pub resolved : Bool
  pub monitor_state : UptimeStatus
  pub latency_ms : ℕ
  pub status_code : ℕ
  pub error : String
  pub tls_expires_at : Option ℕ
  pub triggered_at : ℕ
  pub resolved_at : Option ℕ

pub record UptimeDeliveryResult : Type 0 where
  pub sent : Bool
  pub error : String
  pub attempted_at : ℕ

abbrev pub second : ℕ
second = 1000000000

unfoldable pub monitor_due : UptimeMonitor → ℕ → Bool
monitor_due monitor now = elim monitor.last_checked_at [
  | none ↦ monitor.enabled
  | some checked ↦
      if not monitor.enabled
      then monitor.enabled
      else not (ltb now (checked + monitor.interval_seconds * second))
]

abbrev pub is_active : ℕ → List ℕ → Bool
is_active id active = ltb 0 (count_if (λ a. a == id) active)

unfoldable pub begin_check : List ℕ → ℕ → Bool × List ℕ
begin_check active id = if is_active id active then (false, active) else (true, id ∷ active)

unfoldable pub end_check : List ℕ → ℕ → List ℕ
end_check active id = select (λ a. not (a == id)) active

abbrev pub uptime_payload : UptimeTransition → UptimeIncident → Bool → UptimePayload
uptime_payload t incident recovery = record {
  monitor_name = t.monitor.name;
  target = t.monitor.target;
  incident_kind = incident.kind;
  resolved = recovery;
  monitor_state = t.monitor.status;
  latency_ms = t.result.latency_ms;
  status_code = t.result.status_code;
  error = t.result.error;
  tls_expires_at = t.result.tls_expires_at;
  triggered_at = incident.started_at;
  resolved_at = incident.resolved_at;
}

-- `bounded` is boundedDeliveryError, over the runes of a Go string.
module _ (probe : UptimeMonitor → UptimeProbeResult)
    (deliver_uptime : UptimePayload → UptimeDeliveryResult) (bounded : String → String) where
  -- deliverIncident
  abbrev pub deliver_incident : UptimeDb → UptimeTransition → Bool → UptimeIncident → UptimeDb
  deliver_incident db t recovery incident =
      let delivery = deliver_uptime (uptime_payload t incident recovery) in
      update_incident_notification db incident.id recovery delivery.sent (bounded delivery.error)
        delivery.attempted_at

  abbrev pub deliver_all : UptimeDb → UptimeTransition → Bool → List UptimeIncident → UptimeDb
  deliver_all db t recovery [] = db
  deliver_all db t recovery (incident ∷ rest) =
      deliver_all (deliver_incident db t recovery incident) t recovery rest

  unfoldable pub deliver_transitions : UptimeDb → UptimeTransition → UptimeDb
  deliver_transitions db t = deliver_all (deliver_all db t false t.triggered) t true t.resolved

  -- checkMonitor; the tables stay as they are where the transaction fails.
  unfoldable pub check_monitor :
      UptimeDb → UptimeMonitor → ℕ → Result EngineError UptimeMonitor × UptimeDb
  check_monitor db monitor now = elim (apply_probe db monitor.id (probe monitor) now) [
    | ok (t, after) ↦ (ok t.monitor, deliver_transitions after t)
    | err no_rows ↦ (err monitor_not_found, db)
    | err duplicate ↦ (err persist, db)
  ]

  -- What CheckNow does while it holds the check.
  abbrev pub held_check : UptimeDb → ℕ → Bool → ℕ → Result EngineError UptimeMonitor × UptimeDb
  held_check db id gives_up now = elim (get_monitor db id) [
    | err e ↦ (err monitor_not_found, db)
    | ok monitor ↦
        if not monitor.enabled
        then (err monitor_disabled, db)
        else if gives_up
        then (err cancelled, db)
        else check_monitor db monitor now
  ]

  unfoldable pub check_now : Engine → ℕ → Bool → ℕ → Result EngineError UptimeMonitor × Engine
  check_now e id gives_up now =
      if (begin_check e.active id).0
      then (let (result, db) = held_check e.db id gives_up now in
          (result, record { active = end_check (begin_check e.active id).1 id; db = db }))
      else (err check_in_progress, e)

  -- One goroutine of Sweep, from the reload of the monitor to the end of its check.
  abbrev pub swept_check : UptimeDb → ℕ → Bool → ℕ → UptimeDb
  swept_check db id gives_up now = if gives_up then db else elim (get_monitor db id) [
    | err e ↦ db
    | ok current ↦ if monitor_due current now then (check_monitor db current now).1 else db
  ]

  abbrev pub swept : Engine → ℕ → Bool → ℕ → Engine
  swept e id gives_up now =
      if (begin_check e.active id).0
      then record {
        active = end_check (begin_check e.active id).1 id;
        db = swept_check e.db id gives_up now;
      }
      else e

  abbrev pub sweep_all : Engine → List UptimeMonitor → Bool → ℕ → Engine
  sweep_all e [] gives_up now = e
  sweep_all e (m ∷ rest) gives_up now =
      sweep_all (if monitor_due m now then swept e m.id gives_up now else e) rest gives_up now

  -- Sweep, with its goroutines run one after the other in the order in which they are started.
  unfoldable pub sweep : Engine → Bool → ℕ → Engine
  sweep e gives_up now = sweep_all e (list_monitors e.db true) gives_up now

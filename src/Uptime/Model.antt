-- ===== src/Uptime/Model.antt =====
-- The rows of store/uptime.go and the tables that its statements read and write.
--
-- Instants are nanoseconds and 0 is Go's zero time. A number that the validation of a monitor
-- refuses where it is negative is a natural number. `notification_channels` is what its JSON text stands
-- for. The message of an incident is kept by the arguments of its format.
use mizu_panel.Prelude.{
  ℕ, ◌+◌, ◌*◌, ◌/◌, ◌%◌, String, Bool, true, false, ◌&&◌, Option, none, some, List, ltb, ◌==◌,
  if◌then◌else◌,
}
use mizu_panel.Prelude.Int.{ℤ, pos, negsuc}
use mizu_panel.Prelude.Time.{sub}

pub data UptimeStatus : Type 0 where
  pending up warning down : UptimeStatus

pub data IncidentKind : Type 0 where
  availability certificate : IncidentKind

-- `连续 %d 次检测失败` with the error of the probe, and `HTTPS 证书将在 %d 天内到期`, whose number of days
-- is computed from the two instants.
pub data IncidentMessage : Type 0 where
  failed : ℕ → String → IncidentMessage
  expires : Option ℕ → ℕ → IncidentMessage

pub record NotificationChannel : Type 0 where
  pub type : String
  pub webhook_url : String
  pub secret : String
  pub headers : List (String × String)

pub record UptimeMonitor : Type 0 where
  pub id : ℕ
  pub name : String
  pub type : String
  pub target : String
  pub enabled : Bool
  pub interval_seconds : ℕ
  pub timeout_seconds : ℕ
  pub failure_threshold : ℕ
  pub expected_status_min : ℕ
  pub expected_status_max : ℕ
  pub tls_expiry_threshold_days : ℕ
  pub notification_channels : List NotificationChannel
  pub status : UptimeStatus
  pub consecutive_failures : ℕ
  pub last_latency_ms : ℕ
  pub last_status_code : ℕ
  pub last_error : String
  pub last_checked_at : Option ℕ
  pub tls_expires_at : Option ℕ
  pub created_at : ℕ
  pub updated_at : ℕ

pub record UptimeResult : Type 0 where
  pub id : ℕ
  pub monitor_id : ℕ
  pub success : Bool
  pub latency_ms : ℕ
  pub status_code : ℕ
  pub error : String
  pub tls_expires_at : Option ℕ
  pub checked_at : ℕ

-- `active` is `active_marker = 1`.
pub record UptimeIncident : Type 0 where
  pub id : ℕ
  pub monitor_id : ℕ
  pub kind : IncidentKind
  pub message : IncidentMessage
  pub active : Bool
  pub started_at : ℕ
  pub resolved_at : Option ℕ
  pub notification_sent : Bool
  pub notification_error : String
  pub notification_attempted_at : Option ℕ
  pub recovery_notification_sent : Bool
  pub recovery_notification_error : String
  pub recovery_notification_attempted_at : Option ℕ
  pub created_at : ℕ

pub record UptimeProbeResult : Type 0 where
  pub success : Bool
  pub latency_ms : ℕ
  pub status_code : ℕ
  pub error : String
  pub tls_expires_at : Option ℕ
  pub tls_checked : Bool
  pub tls_expiring : Bool
  pub checked_at : ℕ

pub record UptimeTransition : Type 0 where
  pub monitor : UptimeMonitor
  pub result : UptimeResult
  pub triggered : List UptimeIncident
  pub resolved : List UptimeIncident

-- `no_rows` is sql.ErrNoRows, `duplicate` the refusal of uq_uptime_incidents_active.
pub data UptimeError : Type 0 where
  no_rows duplicate : UptimeError

-- The results stand newest first, the order of `ORDER BY id DESC`, in which the queries read them.
pub record UptimeDb : Type 0 where
  pub monitors : List UptimeMonitor
  pub results : List UptimeResult
  pub incidents : List UptimeIncident
  pub next_monitor_id : ℕ
  pub next_result_id : ℕ
  pub next_incident_id : ℕ

abbrev pub is_kind : IncidentKind → IncidentKind → Bool
is_kind availability availability = true
is_kind certificate certificate = true
is_kind _ _ = false

-- `monitor_id = ? AND kind = ? AND active_marker = 1`
abbrev pub is_open : ℕ → IncidentKind → UptimeIncident → Bool
is_open monitor_id kind i = i.monitor_id == monitor_id && (is_kind kind i.kind && i.active)

abbrev pub max_uptime_results : ℕ
max_uptime_results = 200

abbrev pub max_uptime_incidents : ℕ
max_uptime_incidents = 100

abbrev pub day : ℕ
day = 24 * 3600 * 1000000000

-- The days that a duration takes, and none where it is not positive.
abbrev pub days_of : ℤ → ℕ
days_of (negsuc n) = 0
days_of (pos remaining) = if ltb 0 (remaining % day) then remaining / day + 1 else remaining / day

unfoldable pub uptime_tls_remaining_days : Option ℕ → Option ℕ → Option ℕ
uptime_tls_remaining_days none expires_at = none
uptime_tls_remaining_days (some checked_at) none = none
uptime_tls_remaining_days (some checked_at) (some expires_at) =
    some (days_of (sub expires_at checked_at))

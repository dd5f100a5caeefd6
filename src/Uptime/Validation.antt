-- ===== src/Uptime/Validation.antt =====
-- The configuration of a monitor (uptime/model.go).
use text.Mathlib.Text.{◌==◌ as str_eq}
use mizu_panel.Prelude.{
  ℕ, String, Bool, not, ◌&&◌, ◌||◌, Option, none, some, List, [], ◌∷◌, ltb, ◌==◌, if◌then◌else◌,
  length,
}
use mizu_panel.Prelude.Result.{Result, ok, err, ◌>>◌, refuse_if}
use mizu_panel.Uptime.Model.{UptimeMonitor, NotificationChannel}

-- What the checks of an address use of `net/url` and `net`: `Parse` and `SplitHostPort`.
pub record Url : Type 0 where
  pub is_abs : Bool
  pub scheme : String
  pub host : String
  pub has_user : Bool
  pub fragment : String

pub record Libraries : Type 0 where
  pub trim_space : String → String
  pub to_lower : String → String
  pub valid_string : String → Bool
  pub rune_count : String → ℕ
  pub byte_count : String → ℕ
  pub parse_url : String → Option Url
  pub split_host_port : String → Option (String × String)
  pub atoi : String → Option ℕ

pub data MonitorRefusal : Type 0 where
  bad_name bad_target bad_interval bad_timeout bad_threshold bad_status_range bad_expiry bad_type
        bad_http_target http_user http_fragment bad_tcp_target bad_port too_many_channels
        bad_channel_type channel_headers channel_too_long bad_webhook :
      MonitorRefusal

abbrev pub is_empty : String → Bool
is_empty s = str_eq s ""

abbrev pub or_default : ℕ → ℕ → ℕ
or_default n default = if n == 0 then default else n

abbrev pub out_of : ℕ → ℕ → ℕ → Bool
out_of low high n = ltb n low || ltb high n

abbrev pub is_web : Url → Bool
is_web u =
    u.is_abs && (not (is_empty u.host) && (str_eq u.scheme "http" || str_eq u.scheme "https"))

module _ (lib : Libraries) where
  abbrev pub default_type : String → String
  default_type type = if is_empty type then "http" else type

  unfoldable pub apply_defaults : UptimeMonitor → UptimeMonitor
  apply_defaults m = record m {
    name = lib.trim_space m.name;
    type = default_type (lib.to_lower (lib.trim_space m.type));
    target = lib.trim_space m.target;
    interval_seconds = or_default m.interval_seconds 60;
    timeout_seconds = or_default m.timeout_seconds 5;
    failure_threshold = or_default m.failure_threshold 3;
    expected_status_min = or_default m.expected_status_min 200;
    expected_status_max = or_default m.expected_status_max 399;
    tls_expiry_threshold_days = or_default m.tls_expiry_threshold_days 30;
  }

  unfoldable pub validate_http_target : String → Result MonitorRefusal (Unit {0})
  validate_http_target target = elim (lib.parse_url target) [
    | none ↦ err bad_http_target
    | some parsed ↦ do
      refuse_if (not (is_web parsed)) bad_http_target
      refuse_if parsed.has_user http_user
      refuse_if (not (is_empty parsed.fragment)) http_fragment
      ok tt
  ]

  -- `strconv.Atoi` fails on what is no number; a negative one is below 1 as well.
  unfoldable pub validate_tcp_target : String → Result MonitorRefusal (Unit {0})
  validate_tcp_target target = elim (lib.split_host_port target) [
    | none ↦ err bad_tcp_target
    | some (host, port_value) ↦ do
      refuse_if (is_empty (lib.trim_space host)) bad_tcp_target
      elim (lib.atoi port_value) [
        | none ↦ err bad_port
        | some port ↦ refuse_if (out_of 1 65535 port) bad_port
      ]
  ]

  abbrev pub validate_webhook : String → Result MonitorRefusal (Unit {0})
  validate_webhook webhook = elim (lib.parse_url (lib.trim_space webhook)) [
    | none ↦ err bad_webhook
    | some parsed ↦ refuse_if (not (is_web parsed) || parsed.has_user) bad_webhook
  ]

  abbrev pub validate_each_channel : List NotificationChannel → Result MonitorRefusal (Unit {0})
  validate_each_channel [] = ok tt
  validate_each_channel (c ∷ cs) = do
    refuse_if
        (not (str_eq c.type "webhook")
          && (not (str_eq c.type "dingtalk") && not (str_eq c.type "feishu")))
        bad_channel_type
    refuse_if (ltb 0 (length c.headers)) channel_headers
    refuse_if (ltb 4096 (lib.byte_count c.webhook_url) || ltb 4096 (lib.byte_count c.secret))
        channel_too_long
    validate_webhook c.webhook_url
    validate_each_channel cs

  unfoldable pub validate_notification_channels :
      List NotificationChannel → Result MonitorRefusal (Unit {0})
  validate_notification_channels cs = do
    refuse_if (ltb 10 (length cs)) too_many_channels
    validate_each_channel cs

  abbrev pub validate_target : UptimeMonitor → Result MonitorRefusal (Unit {0})
  validate_target m =
      if str_eq m.type "http"
      then validate_http_target m.target
      else if str_eq m.type "tcp"
      then validate_tcp_target m.target
      else err bad_type

  abbrev pub is_bad_name : UptimeMonitor → Bool
  is_bad_name m =
      is_empty m.name || (not (lib.valid_string m.name) || ltb 120 (lib.rune_count m.name))

  abbrev pub is_bad_target : UptimeMonitor → Bool
  is_bad_target m = is_empty m.target || ltb 2048 (lib.byte_count m.target)

  abbrev pub is_bad_timeout : UptimeMonitor → Bool
  is_bad_timeout m = out_of 1 30 m.timeout_seconds || not (ltb m.timeout_seconds m.interval_seconds)

  abbrev pub is_bad_range : UptimeMonitor → Bool
  is_bad_range m =
      out_of 100 599 m.expected_status_min
      || (out_of 100 599 m.expected_status_max || ltb m.expected_status_max m.expected_status_min)

  -- The checks of ValidateMonitor after ApplyDefaults.
  unfoldable pub check_defaulted : UptimeMonitor → Result MonitorRefusal (Unit {0})
  check_defaulted m = do
    refuse_if (is_bad_name m) bad_name
    refuse_if (is_bad_target m) bad_target
    refuse_if (out_of 30 86400 m.interval_seconds) bad_interval
    refuse_if (is_bad_timeout m) bad_timeout
    refuse_if (out_of 1 10 m.failure_threshold) bad_threshold
    refuse_if (is_bad_range m) bad_status_range
    refuse_if (out_of 1 365 m.tls_expiry_threshold_days) bad_expiry
    validate_target m
    validate_notification_channels m.notification_channels

  -- ValidateMonitor changes the monitor that it is given: the result is that monitor.
  unfoldable pub validate_monitor : UptimeMonitor → Result MonitorRefusal UptimeMonitor
  validate_monitor m = do check_defaulted (apply_defaults m); ok (apply_defaults m)

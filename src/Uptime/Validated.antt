-- ===== src/Uptime/Validated.antt =====
-- What a configuration that is accepted satisfies (uptime/model.go).
use mizu_panel.Prelude.{ℕ, ◌≤◌, ◌<◌, ◌≡◌, refl, String, false, arith, ◌==◌, Bool-cases, inl, inr}
use mizu_panel.Prelude.Result.{ok, ok_unique, passed, succeeded}
use mizu_panel.Uptime.Model.{UptimeMonitor}
use mizu_panel.Uptime.Validation.{
  Libraries, bad_name, bad_target, bad_interval, bad_timeout, bad_threshold, bad_status_range,
  bad_expiry, is_bad_name, is_bad_target, is_bad_timeout, is_bad_range, is_empty, or_default,
  default_type, apply_defaults, check_defaulted, validate_target, validate_notification_channels,
  validate_monitor, out_of,
}

-- The limits of a configuration.
pub record IsConfigured (lib : Libraries) (m : UptimeMonitor) : Type 0 where
  pub named : is_empty m.name ≡ false
  pub name_short : lib.rune_count m.name ≤ 120
  pub targeted : is_empty m.target ≡ false
  pub target_short : lib.byte_count m.target ≤ 2048
  pub interval : (30 ≤ m.interval_seconds) × (m.interval_seconds ≤ 86400)
  pub timeout : (1 ≤ m.timeout_seconds) × (m.timeout_seconds ≤ 30)
  pub in_time : m.timeout_seconds < m.interval_seconds
  pub threshold : (1 ≤ m.failure_threshold) × (m.failure_threshold ≤ 10)
  pub status_range :
      (100 ≤ m.expected_status_min)
      × (m.expected_status_min ≤ m.expected_status_max)
      × (m.expected_status_max ≤ 599)
  pub expiry : (1 ≤ m.tls_expiry_threshold_days) × (m.tls_expiry_threshold_days ≤ 365)
  pub reachable : validate_target lib m ≡ ok tt
  pub notified : validate_notification_channels lib m.notification_channels ≡ ok tt

module _ (lib : Libraries) where
  within : (low high n : ℕ) → out_of low high n ≡ false → (low ≤ n) × (n ≤ high)
  within low high n h = (ground (arith, h), ground (arith, h))

  check_defaulted_inv : (m : UptimeMonitor) → check_defaulted lib m ≡ ok tt → IsConfigured lib m
  unfolding check_defaulted
  check_defaulted_inv m h =
      let (name, h1) = passed (is_bad_name lib m) bad_name _ h in
      let (target, h2) = passed (is_bad_target lib m) bad_target _ h1 in
      let (interval, h3) = passed (out_of 30 86400 m.interval_seconds) bad_interval _ h2 in
      let (timeout, h4) = passed (is_bad_timeout lib m) bad_timeout _ h3 in
      let (threshold, h5) = passed (out_of 1 10 m.failure_threshold) bad_threshold _ h4 in
      let (range, h6) = passed (is_bad_range lib m) bad_status_range _ h5 in
      let (expiry, h7) = passed (out_of 1 365 m.tls_expiry_threshold_days) bad_expiry _ h6 in
      let (reached, h8) = succeeded (validate_target lib m) _ h7 in
      record {
        named = ground (arith, name);
        name_short = ground (arith, name);
        targeted = ground (arith, target);
        target_short = ground (arith, target);
        interval = within 30 86400 m.interval_seconds interval;
        timeout = (ground (arith, timeout), ground (arith, timeout));
        in_time = ground (arith, timeout);
        threshold = within 1 10 m.failure_threshold threshold;
        status_range = (ground (arith, range), ground (arith, range), ground (arith, range));
        expiry = within 1 365 m.tls_expiry_threshold_days expiry;
        reachable = reached;
        notified = h8;
      }

  -- A configuration that ValidateMonitor accepts is within all the limits after its defaults are
  -- applied: the name and the target are not empty nor too long, the interval, the timeout, the
  -- threshold, the status codes and the days of the certificate are in their ranges, the timeout is
  -- shorter than the interval, and the target and the channels are accepted.
  pub validate_monitor-IsConfigured :
      (m checked : UptimeMonitor) → validate_monitor lib m ≡ ok checked → IsConfigured lib checked
  unfolding validate_monitor
  validate_monitor-IsConfigured m checked h =
      let (fine, same) = succeeded (check_defaulted lib (apply_defaults lib m)) _ h in
      let e : apply_defaults lib m ≡ checked = ok_unique refl same in
      rw e at (check_defaulted_inv (apply_defaults lib m) fine)

  or_default_idem :
      (n default : ℕ)
      → (default == 0) ≡ false
      → or_default (or_default n default) default ≡ or_default n default
  or_default_idem n default h = ground (arith, h)

  default_type_idem :
      (clean : String → String) (s : String)
      → ((t : String) → clean (clean t) ≡ clean t)
      → clean "http" ≡ "http"
      → default_type lib (clean (default_type lib (clean s))) ≡ default_type lib (clean s)
  default_type_idem clean s idem http = elim (Bool-cases (is_empty (clean s))) [
    | inl empty ↦ rw (empty, http) refl
    | inr other ↦ rw (other, idem s, other) refl
  ]

  apply_defaults_idem :
      (m : UptimeMonitor)
      → ((t : String) → lib.trim_space (lib.trim_space t) ≡ lib.trim_space t)
      → ((t : String)
          → lib.to_lower (lib.trim_space (lib.to_lower (lib.trim_space t)))
            ≡ lib.to_lower (lib.trim_space t))
      → lib.to_lower (lib.trim_space "http") ≡ "http"
      → apply_defaults lib (apply_defaults lib m) ≡ apply_defaults lib m
  unfolding apply_defaults
  apply_defaults_idem m trims lowers http =
      rw
        (
          trims m.name,
          trims m.target,
          default_type_idem (λ s. lib.to_lower (lib.trim_space s)) m.type lowers http,
          or_default_idem m.interval_seconds 60 refl,
          or_default_idem m.timeout_seconds 5 refl,
          or_default_idem m.failure_threshold 3 refl,
          or_default_idem m.expected_status_min 200 refl,
          or_default_idem m.expected_status_max 399 refl,
          or_default_idem m.tls_expiry_threshold_days 30 refl,
        )
        refl

  -- A configuration that ValidateMonitor returned is accepted again, unchanged, where trimming and
  -- lowering a text a second time change nothing and `http` is trimmed and lower already.
  pub validate_monitor_idem :
      (m checked : UptimeMonitor)
      → ((t : String) → lib.trim_space (lib.trim_space t) ≡ lib.trim_space t)
      → ((t : String)
          → lib.to_lower (lib.trim_space (lib.to_lower (lib.trim_space t)))
            ≡ lib.to_lower (lib.trim_space t))
      → lib.to_lower (lib.trim_space "http") ≡ "http"
      → validate_monitor lib m ≡ ok checked
      → validate_monitor lib checked ≡ ok checked
  unfolding validate_monitor
  validate_monitor_idem m checked trims lowers http h =
      let (fine, same) = succeeded (check_defaulted lib (apply_defaults lib m)) _ h in
      let e : apply_defaults lib m ≡ checked = ok_unique refl same in
      let again : apply_defaults lib checked ≡ checked =
        rw e at (apply_defaults_idem m trims lowers http) in
      rw (again, rw e at fine) refl

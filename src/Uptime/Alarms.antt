-- ===== src/Uptime/Alarms.antt =====
-- A run of probes of one monitor (store/uptime.go: ApplyProbe), and the remaining days of a certificate.
use mizu_panel.Prelude.Time.{sub, max_duration}
use mizu_panel.Prelude.{
  min, leb, ℕ, ◌+◌, ◌-◌, ◌*◌, ◌/◌, ◌%◌, ◌≤◌, ◌<◌, ◌≡◌, refl, ap, ◌∙◌, Bool, true, false, some, List,
  [], ◌∷◌, arith, ltb, ◌==◌, length, All, Bool-cases, inl, inr,
}
use mizu_panel.Prelude.Result.{Result, ok, ◌>>=◌}
use mizu_panel.Tables.{find_first}
use mizu_panel.Uptime.Model.{
  UptimeMonitor, UptimeProbeResult, UptimeError, UptimeDb, availability, day,
  uptime_tls_remaining_days,
}
use mizu_panel.Uptime.Probes.{get_monitor, apply_probe}
use mizu_panel.Uptime.Transitions.{has_open}
use mizu_panel.Uptime.Invariant.{IsMonitored, IsAlarmed}
use mizu_panel.Uptime.Probed.{get_monitor_inv, found_id, apply_probe_total}
use mizu_panel.Uptime.Steps.{Reach, reach-IsMonitored}

-- No monitors yet.
abbrev pub empty_db : UptimeDb
empty_db = record {
  monitors = [];
  results = [];
  incidents = [];
  next_monitor_id = 1;
  next_result_id = 1;
  next_incident_id = 1;
}

-- After any sequence of operations on empty tables (creation, change, switch and deletion of
-- monitors, probes, stored deliveries, with the thresholds that are accepted): every enabled
-- monitor whose consecutive failures have reached its threshold has an open availability incident,
-- at most one incident of a monitor and a kind is open, at most 200 results of a monitor are
-- stored, and the ids of monitors and incidents are unique.
pub reach-empty : (db : UptimeDb) → Reach empty_db db → IsMonitored db
reach-empty db r =
    reach-IsMonitored empty_db db
      (record {
        monitor_unique = λ i. omega arith;
        monitors_below = tt;
        thresholds = tt;
        alarmed = tt;
        single = record {
          one_open = λ m k. omega arith;
          ids_unique = λ i. omega arith;
          ids_below = tt;
        };
        descending = tt;
        results_below = tt;
        kept = λ m. omega arith;
      })
      r

-- Probes of one monitor, one after the other, each with the instant at which it is stored.
abbrev pub apply_all : UptimeDb → ℕ → List (UptimeProbeResult × ℕ) → Result UptimeError UptimeDb
apply_all db id [] = ok db
apply_all db id ((probe, now) ∷ rest) = apply_probe db id probe now >>= λ r. apply_all r.1 id rest

abbrev pub HasFailed : UptimeProbeResult × ℕ → Type 0
HasFailed (probe, now) = probe.success ≡ false

found_alarmed :
    (P : UptimeMonitor → Type 0) (q : UptimeMonitor → Bool) (ms : List UptimeMonitor)
    {m : UptimeMonitor}
    → find_first q ms ≡ some m
    → All P ms
    → P m
found_alarmed P q [] e a = absurd cc
found_alarmed P q (x ∷ xs) {m} e a = elim (Bool-cases (q x)) [
  | inl hit ↦ let found : some x ≡ some m = rw hit at e in let same : x ≡ m = cc in rw same at a.0
  | inr miss ↦ found_alarmed P q xs (rw miss at e) a.1
]

-- What a run of failing probes leaves.
abbrev pub Failing : UptimeMonitor → ℕ → ℕ → UptimeDb → Type 0
Failing monitor id count db =
    (after : UptimeMonitor) × (get_monitor db id ≡ ok after)
    × (after.enabled ≡ monitor.enabled)
    × (after.failure_threshold ≡ monitor.failure_threshold)
    × (after.consecutive_failures ≡ monitor.consecutive_failures + count)

apply_all_fails :
    (db : UptimeDb) (id : ℕ) (monitor : UptimeMonitor) (ps : List (UptimeProbeResult × ℕ))
    → IsMonitored db
    → get_monitor db id ≡ ok monitor
    → All HasFailed ps
    → (db' : UptimeDb) × (apply_all db id ps ≡ ok db')
      × IsMonitored db'
      × Failing monitor id (length ps) db'
apply_all_fails db id monitor [] v h a = (db, refl, v, (monitor, h, refl, refl, omega arith))
apply_all_fails db id monitor ((probe, now) ∷ rest) v h a =
    let (t, mid, done, o) = apply_probe_total db id monitor probe now v h in
    let e : monitor.id ≡ id = found_id db id h in
    let (db', all_done, w, (m', got, on, bound, count)) =
      apply_all_fails mid id t.monitor rest o.monitored (rw e at o.stored) a.1 in
    (
      db',
      rw done all_done,
      w,
      (
        m',
        got,
        on ∙ ap (λ m. m.enabled) o.changed,
        bound ∙ ap (λ m. m.failure_threshold) o.changed,
        ground (arith, count, ap (λ m. m.consecutive_failures) o.changed, a.0),
      ),
    )

-- In tables that operations on empty ones lead to: an enabled monitor whose next probes all fail,
-- at least as many as its threshold, has every probe stored without an error, and has an open
-- availability incident after them.
pub apply_all-alarm :
    (db : UptimeDb) (id : ℕ) (monitor : UptimeMonitor) (ps : List (UptimeProbeResult × ℕ))
    → Reach empty_db db
    → get_monitor db id ≡ ok monitor
    → monitor.enabled ≡ true
    → All HasFailed ps
    → monitor.failure_threshold ≤ length ps
    → (db' : UptimeDb) × (apply_all db id ps ≡ ok db')
      × (has_open id availability db'.incidents ≡ true)
apply_all-alarm db id monitor ps r h on a enough =
    let (db', done, v, (m', got, kept_on, bound, count)) =
      apply_all_fails db id monitor ps (reach-empty db r) h a in
    let alarm =
      found_alarmed (IsAlarmed db'.incidents) (λ m. m.id == id) db'.monitors
        (get_monitor_inv db' id got) v.alarmed in
    let raised = alarm (kept_on ∙ on) (ground (arith, enough, bound, count)) in
    (db', done, rw (found_id db' id got) at raised)

-- The remaining days of a certificate are the time from the check to its expiry, at most the
-- longest duration of 2^63 - 1 nanoseconds, in days, rounded up, and 0 where it has expired.
pub uptime_tls_remaining_days_lem :
    (checked_at expires_at : ℕ)
    → (let remaining = min (expires_at - checked_at) max_duration in
        (days : ℕ) × (uptime_tls_remaining_days (some checked_at) (some expires_at) ≡ some days)
        × (remaining ≤ days * day)
        × (0 < days → (days - 1) * day < remaining))
unfolding uptime_tls_remaining_days sub
uptime_tls_remaining_days_lem checked_at expires_at =
    let remaining = min (expires_at - checked_at) max_duration in
    elim (Bool-cases (leb checked_at expires_at)) [
      | inr past ↦ (0, rw past refl, ground (arith, past), λ p. absurd (omega (arith, p)))
      | inl ahead ↦ elim (Bool-cases (ltb 0 (remaining % day))) [
        | inl more ↦ (
          remaining / day + 1,
          rw (ahead, more) refl,
          ground (arith, more),
          λ p. ground (arith, more),
        )
        | inr exact ↦ (
          remaining / day,
          rw (ahead, exact) refl,
          ground (arith, exact),
          λ p. ground (arith, exact, p),
        )
      ]
    ]

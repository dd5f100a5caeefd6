-- ===== src/Uptime/Checks.antt =====
-- The checks of the engine keep its table and its tables consistent (uptime/engine.go).
use mizu_panel.Prelude.{
  ℕ, ◌+◌, ◌*◌, ◌≡◌, refl, ap, ◌∙◌, String, Bool, true, false, not, ◌&&◌, List, [], ◌∷◌, arith, leb,
  ◌==◌, ==_iff, select, count_if, Bool-cases, inl, inr,
}
use mizu_panel.Prelude.Result.{ok, err, Result-cases}
use mizu_panel.Uptime.Model.{
  UptimeMonitor, UptimeIncident, UptimeProbeResult, UptimeTransition, UptimeError, UptimeDb,
  no_rows, duplicate,
}
use mizu_panel.Uptime.Probes.{get_monitor, apply_probe, checked_probe}
use mizu_panel.Uptime.Monitors.{list_monitors}
use mizu_panel.Uptime.Engine.{
  Engine, UptimePayload, UptimeDeliveryResult, uptime_payload, check_in_progress, is_active,
  begin_check, end_check, deliver_incident, deliver_all, deliver_transitions, check_monitor,
  held_check, check_now, swept_check, swept, sweep_all, sweep, monitor_due, second,
}
use mizu_panel.Uptime.Invariant.{IsMonitored}
use mizu_panel.Uptime.Probed.{apply_probe_total}
use mizu_panel.Uptime.Steps.{probes, notifies, step-IsMonitored}

select_absent :
    (id : ℕ) (active : List ℕ)
    → count_if (λ a. a == id) active ≡ 0
    → select (λ a. not (a == id)) active ≡ active
select_absent id [] h = refl
select_absent id (a ∷ rest) h = elim (Bool-cases (a == id)) [
  | inl hit ↦ absurd (ground (arith, hit, h))
  | inr miss ↦ rw miss (ap (λ r. a ∷ r) (select_absent id rest (rw miss at h)))
]

-- A check that begins and ends leaves the table of the running checks as it was.
begin_check-end_check :
    (active : List ℕ) (id : ℕ)
    → (begin_check active id).0 ≡ true
    → end_check (begin_check active id).1 id ≡ active
unfolding begin_check end_check
begin_check-end_check active id h = elim (Bool-cases (is_active id active)) [
  | inl running ↦ absurd (ground (arith, running, h))
  | inr free ↦
      let own : (id == id) ≡ true = (==_iff id id).1 refl in
      rw (free, own) (select_absent id active (ground (arith, free)))
]

module _ (probe : UptimeMonitor → UptimeProbeResult)
    (deliver_uptime : UptimePayload → UptimeDeliveryResult) (bounded : String → String) where
  deliver_all-IsMonitored :
      (db : UptimeDb) (t : UptimeTransition) (recovery : Bool) (is : List UptimeIncident)
      → IsMonitored db
      → IsMonitored (deliver_all probe deliver_uptime bounded db t recovery is)
  deliver_all-IsMonitored db t recovery [] v = v
  deliver_all-IsMonitored db t recovery (i ∷ is) v =
      let delivery = deliver_uptime (uptime_payload t i recovery) in
      deliver_all-IsMonitored (deliver_incident probe deliver_uptime bounded db t recovery i) t
        recovery is
        (step-IsMonitored db (deliver_incident probe deliver_uptime bounded db t recovery i) v
          (notifies db i.id recovery delivery.sent (bounded delivery.error) delivery.attempted_at))

  check_monitor-IsMonitored :
      (db : UptimeDb) (monitor : UptimeMonitor) (now : ℕ)
      → IsMonitored db
      → IsMonitored (check_monitor probe deliver_uptime bounded db monitor now).1
  unfolding check_monitor deliver_transitions
  check_monitor-IsMonitored db monitor now v =
      elim (Result-cases (apply_probe db monitor.id (probe monitor) now)) [
        | inl (e, failed) ↦ unchanged e failed
        | inr ((t, db'), done) ↦
            rw (done, check_monitor)
              (deliver_all-IsMonitored _ t true t.resolved (
                deliver_all-IsMonitored db' t false t.triggered (
                  step-IsMonitored db db' v (probes db db' monitor.id (probe monitor) now t done))))
      ]
    where
      unchanged :
          (e : UptimeError)
          → apply_probe db monitor.id (probe monitor) now ≡ err e
          → IsMonitored (check_monitor probe deliver_uptime bounded db monitor now).1
      unchanged no_rows failed = rw (failed, check_monitor) v
      unchanged duplicate failed = rw (failed, check_monitor) v

  -- A check leaves the tables consistent, whatever it meets.
  held_check-IsMonitored :
      (db : UptimeDb) (id : ℕ) (gives_up : Bool) (now : ℕ)
      → IsMonitored db
      → IsMonitored (held_check probe deliver_uptime bounded db id gives_up now).1
  held_check-IsMonitored db id gives_up now v = elim (Result-cases (get_monitor db id)) [
    | inl (e, failed) ↦ rw (failed, held_check) v
    | inr (monitor, found) ↦ elim (Bool-cases monitor.enabled) [
      | inr off ↦ rw (found, off, held_check) v
      | inl on ↦ elim (Bool-cases gives_up) [
        | inl cancel ↦ rw (found, on, cancel, held_check) v
        | inr go ↦
            rw (found, on, go, held_check)
              (check_monitor-IsMonitored db (record monitor { enabled = true }) now v)
      ]
    ]
  ]

  -- On consistent tables, whatever the prober and the notifier answer: CheckNow leaves the table of
  -- the running checks as it was and the tables consistent; where a check of the monitor is running
  -- it is refused and changes nothing, and else it returns the result of the check.
  pub check_now_lem :
      (e : Engine) (id : ℕ) (gives_up : Bool) (now : ℕ)
      → IsMonitored e.db
      → (let after = check_now probe deliver_uptime bounded e id gives_up now in
          (after.1.active ≡ e.active)
          × IsMonitored after.1.db
          × (is_active id e.active ≡ true → after ≡ (err check_in_progress, e))
          × (is_active id e.active ≡ false
              → after.0 ≡ (held_check probe deliver_uptime bounded e.db id gives_up now).0))
  unfolding check_now begin_check
  check_now_lem e id gives_up now v = elim (Bool-cases (is_active id e.active)) [
    | inl running ↦ rw running (refl, v, (λ t. refl), (λ t. absurd cc))
    | inr free ↦
        let restored = begin_check-end_check e.active id (rw free refl) in
        rw free (
          rw free at restored,
          held_check-IsMonitored e.db id gives_up now v,
          (λ t. absurd cc),
          (λ t. refl),
        )
  ]

  swept_check-IsMonitored :
      (db : UptimeDb) (id : ℕ) (gives_up : Bool) (now : ℕ)
      → IsMonitored db
      → IsMonitored (swept_check probe deliver_uptime bounded db id gives_up now)
  swept_check-IsMonitored db id true now v = v
  swept_check-IsMonitored db id false now v = elim (Result-cases (get_monitor db id)) [
    | inl (e, failed) ↦ rw (failed, swept_check) v
    | inr (monitor, found) ↦ elim (Bool-cases (monitor_due monitor now)) [
      | inl due ↦ rw (found, due, swept_check) (check_monitor-IsMonitored db monitor now v)
      | inr waits ↦ rw (found, waits, swept_check) v
    ]
  ]

  swept_lem :
      (e : Engine) (id : ℕ) (gives_up : Bool) (now : ℕ)
      → IsMonitored e.db
      → (let after = swept probe deliver_uptime bounded e id gives_up now in
          (after.active ≡ e.active) × IsMonitored after.db)
  unfolding begin_check
  swept_lem e id gives_up now v = elim (Bool-cases (is_active id e.active)) [
    | inl running ↦ rw (running, swept) (refl, v)
    | inr free ↦
        let restored = begin_check-end_check e.active id (rw free refl) in
        rw (free, swept) (rw free at restored, swept_check-IsMonitored e.db id gives_up now v)
  ]

  sweep_all_lem :
      (e : Engine) (ms : List UptimeMonitor) (gives_up : Bool) (now : ℕ)
      → IsMonitored e.db
      → (let after = sweep_all probe deliver_uptime bounded e ms gives_up now in
          (after.active ≡ e.active) × IsMonitored after.db)
  sweep_all_lem e [] gives_up now v = (refl, v)
  sweep_all_lem e (m ∷ rest) gives_up now v = elim (Bool-cases (monitor_due m now)) [
    | inl due ↦
        let (same, w) = swept_lem e m.id gives_up now v in
        let (all_same, u) =
          sweep_all_lem (swept probe deliver_uptime bounded e m.id gives_up now) rest gives_up now
            w in
        rw (due, sweep_all) (all_same ∙ same, u)
    | inr waits ↦ rw (waits, sweep_all) (sweep_all_lem e rest gives_up now v)
  ]

  -- On consistent tables, whatever the prober and the notifier answer, a sweep leaves the table of
  -- the running checks as it was and the tables consistent.
  pub sweep_lem :
      (e : Engine) (gives_up : Bool) (now : ℕ)
      → IsMonitored e.db
      → (let after = sweep probe deliver_uptime bounded e gives_up now in
          (after.active ≡ e.active) × IsMonitored after.db)
  unfolding sweep
  sweep_lem e gives_up now v = sweep_all_lem e (list_monitors e.db true) gives_up now v

-- In consistent tables, after a probe of a stored monitor is stored, the monitor is due exactly if
-- it is enabled and its interval has passed since the check.
pub apply_probe-monitor_due :
    (db : UptimeDb) (id : ℕ) (monitor : UptimeMonitor) (given : UptimeProbeResult) (now later : ℕ)
    → IsMonitored db
    → get_monitor db id ≡ ok monitor
    → (t : UptimeTransition) × (after : UptimeDb) × (apply_probe db id given now ≡ ok (t, after))
      × (monitor_due t.monitor later ≡ (
          monitor.enabled
          && leb ((checked_probe given now).checked_at + monitor.interval_seconds * second) later))
unfolding monitor_due
apply_probe-monitor_due db id monitor given now later v h =
    let (t, after, done, o) = apply_probe_total db id monitor given now v h in
    (t, after, done, rw o.changed (ground arith))

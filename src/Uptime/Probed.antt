-- ===== src/Uptime/Probed.antt =====
-- ApplyProbe (store/uptime.go) always commits, and what it commits.
use mizu_panel.Prelude.{
  ℕ, ◌≤◌, ◌≡◌, refl, sym, ap, ◌∙◌, Bool, some, ◌∷◌, arith, ◌==◌, ==_iff, Bool-cases, Option-cases,
  inl, inr,
}
use mizu_panel.Prelude.Result.{ok, err, or_fail}
use mizu_panel.Tables.{
  find_first, All-map, All-both, All-update_where, count_if-update_where, find_first-only,
  find_first_holds,
}
use mizu_panel.Uptime.Model.{UptimeMonitor, UptimeProbeResult, UptimeTransition, UptimeDb, no_rows}
use mizu_panel.Uptime.Probes.{
  Changes, get_monitor, checked_probe, failures_after, probed_monitor, new_result, probed,
  apply_probe, prune_results,
}
use mizu_panel.Uptime.Transitions.{Outcome, apply_transitions-Outcome}
use mizu_panel.Uptime.Kept.{
  IsDescending, result_count, prune_results-result_count, prune_results-le,
  prune_results-IsDescending, All-prune_results,
}
use mizu_panel.Uptime.Invariant.{before, IsMonitored, found_updated, probed-IsAlarmed}

pub get_monitor_inv :
    (db : UptimeDb) (id : ℕ) {monitor : UptimeMonitor}
    → get_monitor db id ≡ ok monitor
    → find_first (λ m. m.id == id) db.monitors ≡ some monitor
get_monitor_inv db id {monitor} h = elim (Option-cases (find_first (λ m. m.id == id) db.monitors)) [
  | inl missing ↦ absurd (let e : err no_rows ≡ ok monitor = rw missing at h in cc)
  | inr (row, e) ↦ let there : ok row ≡ ok monitor = rw e at h in e ∙ (cc)
]

new_kept :
    (db : UptimeDb) (id m : ℕ) (probe : UptimeProbeResult)
    → IsMonitored db
    → IsDescending (new_result db.next_result_id id probe ∷ db.results)
    → result_count m (prune_results id (new_result db.next_result_id id probe ∷ db.results)) ≤ 200
new_kept db id m probe v d =
    let rs = new_result db.next_result_id id probe ∷ db.results in
    elim (Bool-cases (id == m)) [
      | inl own ↦
          let e : id ≡ m = (==_iff id m).0 own in
          omega (
            arith,
            prune_results-result_count id rs d,
            ap (λ k. result_count k (prune_results id rs)) e,
          )
      | inr other ↦
          let same : result_count m rs ≡ result_count m db.results = ground (arith, other) in
          omega (arith, v.kept m, prune_results-le id m rs, same)
    ]

probed-IsMonitored :
    (db : UptimeDb) (probe : UptimeProbeResult) (monitor : UptimeMonitor) (c : Changes)
    → IsMonitored db
    → get_monitor db monitor.id ≡ ok monitor
    → Outcome monitor probe (failures_after monitor probe) (before db) c
    → IsMonitored (probed db monitor.id probe (failures_after monitor probe) c)
probed-IsMonitored db probe monitor c v h o =
    let f = probed_monitor (failures_after monitor probe) probe in
    let q : UptimeMonitor → Bool = λ m. m.id == monitor.id in
    let found = get_monitor_inv db monitor.id h in
    let d : IsDescending (new_result db.next_result_id monitor.id probe ∷ db.results) =
      (v.results_below, v.descending) in
    record {
      monitor_unique = λ i. omega (
        arith,
        v.monitor_unique i,
        count_if-update_where (λ m. m.id == i) q f db.monitors (λ x t. refl),
      );
      monitors_below = All-update_where _ _ q f db.monitors (λ x l. ground arith) v.monitors_below;
      thresholds = All-update_where _ _ q f db.monitors (λ x l. ground arith) v.thresholds;
      alarmed =
          All-update_where _ _ q f db.monitors
            (λ x l. probed-IsAlarmed db probe monitor c x o l.0 l.1.0 l.1.1)
            (All-both _ _ db.monitors v.thresholds (
              All-both _ _ db.monitors v.alarmed (
                find_first-only (λ x. x ≡ monitor) q db.monitors found (v.monitor_unique monitor.id)
                  refl)));
      single = record {
        one_open = o.single.one_open;
        ids_unique = o.single.ids_unique;
        ids_below = o.single.ids_below;
      };
      descending = prune_results-IsDescending monitor.id _ d;
      results_below =
          All-prune_results _ monitor.id
            (new_result db.next_result_id monitor.id probe ∷ db.results)
            (omega arith, All-map _ _ db.results (λ r l. omega (arith, l)) v.results_below);
      kept = λ m. new_kept db monitor.id m probe v d;
    }

pub found_id :
    (db : UptimeDb) (id : ℕ) {monitor : UptimeMonitor}
    → get_monitor db id ≡ ok monitor
    → monitor.id ≡ id
found_id db id {monitor} h =
    (==_iff monitor.id id).0
      (find_first_holds (λ m. m.id == id) db.monitors (get_monitor_inv db id h))

-- What a committed probe of a monitor leaves.
pub record Probed (db : UptimeDb) (monitor : UptimeMonitor) (probe : UptimeProbeResult)
    (t : UptimeTransition) (after : UptimeDb) : Type 0 where
  pub monitored : IsMonitored after
  pub stored : get_monitor after monitor.id ≡ ok t.monitor
  pub changed : t.monitor ≡ probed_monitor (failures_after monitor probe) probe monitor
  pub outcome : Outcome monitor probe (failures_after monitor probe) (before db) (before after)

own_probe :
    (db : UptimeDb) (monitor : UptimeMonitor) (given : UptimeProbeResult) (now : ℕ)
    → IsMonitored db
    → get_monitor db monitor.id ≡ ok monitor
    → (t : UptimeTransition) × (after : UptimeDb) × (apply_probe db monitor.id given now
        ≡ ok (t, after))
      × Probed db monitor (checked_probe given now) t after
unfolding apply_probe
own_probe db monitor given now v h =
    let probe = checked_probe given now in
    let failures = failures_after monitor probe in
    let (c, done, o) = apply_transitions-Outcome monitor probe failures (before db) v.single in
    let after = probed db monitor.id probe failures c in
    let found =
      found_updated (probed_monitor failures probe) monitor.id db.monitors (λ x. refl)
        (get_monitor_inv db monitor.id h) in
    let again : get_monitor after monitor.id ≡ ok (probed_monitor failures probe monitor) =
      ap (λ r. or_fail r no_rows) found in
    (
      record {
        monitor = probed_monitor failures probe monitor;
        result = new_result db.next_result_id monitor.id probe;
        triggered = c.triggered;
        resolved = c.resolved;
      },
      after,
      rw h (rw done (rw again refl)),
      record {
        monitored = probed-IsMonitored db probe monitor c v h o;
        stored = again;
        changed = refl;
        outcome = record {
          single = record {
            one_open = o.single.one_open;
            ids_unique = o.single.ids_unique;
            ids_below = o.single.ids_below;
          };
          available = o.available;
          certified = o.certified;
          others = o.others;
        };
      },
    )

-- In consistent tables ApplyProbe of a stored monitor succeeds. The tables stay consistent; the
-- monitor that is returned is the stored one, changed by the probe; an availability incident is
-- open after it exactly if the probe failed and one was open or the failures reach the threshold; a
-- certificate incident is open exactly if the certificate expires, where a successful probe checked
-- it, and else as before; incidents of other monitors stay.
pub apply_probe_total :
    (db : UptimeDb) (id : ℕ) (monitor : UptimeMonitor) (given : UptimeProbeResult) (now : ℕ)
    → IsMonitored db
    → get_monitor db id ≡ ok monitor
    → (t : UptimeTransition) × (after : UptimeDb) × (apply_probe db id given now ≡ ok (t, after))
      × Probed db monitor (checked_probe given now) t after
apply_probe_total db id monitor given now v h =
    let e : id ≡ monitor.id = sym (found_id db id h) in
    let (t, after, done, result) = own_probe db monitor given now v (rw e at h) in
    (t, after, rw e done, result)

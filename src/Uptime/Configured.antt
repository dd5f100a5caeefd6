-- ===== src/Uptime/Configured.antt =====
-- The operations on monitors keep what the tables keep (store/uptime.go).
use mizu_panel.Prelude.{
  ℕ, ◌<◌, ◌≡◌, refl, ap, Bool, true, false, ◌&&◌, List, [], ◌∷◌, arith, ◌==◌, All, Bool-cases, inl,
  inr,
}
use mizu_panel.Tables.{update_where, All-map, All-both, All-update_where, count_if-update_where}
use mizu_panel.Uptime.Model.{UptimeMonitor, UptimeIncident, UptimeDb, availability, is_open}
use mizu_panel.Uptime.Probes.{closed_incident}
use mizu_panel.Uptime.Monitors.{
  configured, restarted, reconfigured, reset, resolve_active, with_enabled, started, switched,
}
use mizu_panel.Uptime.Incidents.{IsSingle, closed-IsSingle}
use mizu_panel.Uptime.Invariant.{before, IsAlarmed, IsMonitored}

-- An UPDATE of monitors that keeps the ids and the results and the incidents as they are.
rows-IsMonitored :
    (db : UptimeDb) (id : ℕ) (f : UptimeMonitor → UptimeMonitor)
    → ((x : UptimeMonitor) → (f x).id ≡ x.id)
    → ((x : UptimeMonitor) → 0 < x.failure_threshold → 0 < (f x).failure_threshold)
    → All (λ x. (x.id == id) ≡ true → IsAlarmed db.incidents (f x)) db.monitors
    → IsMonitored db
    → IsMonitored (record db { monitors = update_where (λ m. m.id == id) f db.monitors })
rows-IsMonitored db id f same pos own v =
    let q : UptimeMonitor → Bool = λ m. m.id == id in
    record {
      monitor_unique = λ i. omega (
        arith,
        v.monitor_unique i,
        count_if-update_where (λ m. m.id == i) q f db.monitors (λ x t. ap (λ n. n == i) (same x)),
      );
      monitors_below =
          All-update_where _ _ q f db.monitors (λ x l. ground (arith, l, same x)) v.monitors_below;
      thresholds =
          All-update_where _ _ q f db.monitors (λ x l. ground (arith, l, pos x)) v.thresholds;
      alarmed =
          All-update_where _ _ q f db.monitors
            (λ x l. elim (Bool-cases (x.id == id)) [
              | inl hit ↦ rw hit (l.0 hit)
              | inr miss ↦ rw miss l.1
            ])
            (All-both _ _ db.monitors own v.alarmed);
      single = record {
        one_open = v.single.one_open;
        ids_unique = v.single.ids_unique;
        ids_below = v.single.ids_below;
      };
      descending = v.descending;
      results_below = v.results_below;
      kept = v.kept;
    }

-- An UPDATE of incidents.
pub incidents-IsMonitored :
    (db : UptimeDb) (is : List UptimeIncident)
    → IsSingle (record (before db) { incidents = is })
    → All (IsAlarmed is) db.monitors
    → IsMonitored db
    → IsMonitored (record db { incidents = is })
incidents-IsMonitored db is w a v = record {
  monitor_unique = v.monitor_unique;
  monitors_below = v.monitors_below;
  thresholds = v.thresholds;
  alarmed = a;
  single = record { one_open = w.one_open; ids_unique = w.ids_unique; ids_below = w.ids_below };
  descending = v.descending;
  results_below = v.results_below;
  kept = v.kept;
}

-- Where a monitor's alarms do not matter, all its incidents can be closed.
resolved-IsMonitored :
    (db : UptimeDb) (id at : ℕ)
    → All (λ m. (m.id == id) ≡ true → IsAlarmed (resolve_active id at db.incidents) m) db.monitors
    → IsMonitored db
    → IsMonitored (record db { incidents = resolve_active id at db.incidents })
resolved-IsMonitored db id at own v =
    incidents-IsMonitored db (resolve_active id at db.incidents)
      (closed-IsSingle (before db) (λ i. i.monitor_id == id && i.active) at v.single)
      (All-map _ _ db.monitors
        (λ x l. elim (Bool-cases (x.id == id)) [
          | inl hit ↦ l.0 hit
          | inr miss ↦ λ on reached. ground (
            arith,
            count_if-update_where (is_open x.id availability) (λ i. i.monitor_id == id && i.active)
                (closed_incident at) db.incidents (λ i t. ground (arith, t, miss)),
            l.1 on reached,
          )
        ])
        (All-both _ _ db.monitors own v.alarmed))
      v

-- Two UPDATEs of the same rows are one.
update_where-update_where :
    (p : UptimeMonitor → Bool) (f g : UptimeMonitor → UptimeMonitor) (xs : List UptimeMonitor)
    → ((x : UptimeMonitor) → p (f x) ≡ p x)
    → update_where p g (update_where p f xs) ≡ update_where p (λ x. g (f x)) xs
update_where-update_where p f g [] h = refl
update_where-update_where p f g (x ∷ xs) h = elim (Bool-cases (p x)) [
  | inl hit ↦
      rw hit (rw (h x) (rw hit (ap (λ r. g (f x) ∷ r) (update_where-update_where p f g xs h))))
  | inr miss ↦ rw miss (rw miss (ap (λ r. x ∷ r) (update_where-update_where p f g xs h)))
]

-- A monitor that is started again has no failures that reach its threshold.
pub reset-IsMonitored :
    (db : UptimeDb) (next : UptimeMonitor) (now : ℕ)
    → IsMonitored db
    → 0 < next.failure_threshold
    → IsMonitored (reset (reconfigured db next now) next.id now)
reset-IsMonitored db next now v t =
    let f : UptimeMonitor → UptimeMonitor = λ x. restarted (configured next now x) in
    let rows : IsMonitored
        (record db { monitors = update_where (λ m. m.id == next.id) f db.monitors }) =
      rows-IsMonitored db next.id f (λ x. refl) (λ x l. t)
        (All-map _ _ db.monitors (λ x l hit on reached. absurd (ground (arith, t, reached)))
          v.thresholds)
        v in
    rw
      (update_where-update_where (λ m. m.id == next.id) (configured next now) restarted db.monitors
        (λ x. refl))
      (resolved-IsMonitored _ next.id now
        (All-update_where (λ m. 0 < m.failure_threshold) _ (λ m. m.id == next.id) f db.monitors
          (λ x l. elim (Bool-cases (x.id == next.id)) [
            | inl hit ↦ rw hit (λ own on reached. absurd (ground (arith, t, reached)))
            | inr miss ↦ rw miss (λ own on reached. absurd (ground (arith, own, miss)))
          ])
          v.thresholds)
        rows)

-- A change that is not material keeps the threshold.
pub reconfigured-IsMonitored :
    (db : UptimeDb) (next : UptimeMonitor) (now : ℕ)
    → IsMonitored db
    → 0 < next.failure_threshold
    → All (λ m. (m.id == next.id) ≡ true → m.failure_threshold ≡ next.failure_threshold) db.monitors
    → IsMonitored (reconfigured db next now)
reconfigured-IsMonitored db next now v t same =
    rows-IsMonitored db next.id (configured next now) (λ x. refl) (λ x l. t)
      (All-map _ _ db.monitors (λ x l hit on reached. l.1 on (rw (l.0 hit) reached))
        (All-both _ _ db.monitors same v.alarmed))
      v

pub enabled-IsMonitored :
    (db : UptimeDb) (id now : ℕ)
    → IsMonitored db
    → IsMonitored (record db {
      monitors = update_where (λ m. m.id == id) started (switched db id true now).monitors;
    })
enabled-IsMonitored db id now v =
    rw
      (update_where-update_where (λ m. m.id == id) (with_enabled true now) started db.monitors
        (λ x. refl))
      (rows-IsMonitored db id (λ x. started (with_enabled true now x)) (λ x. refl) (λ x l. l)
        (All-map _ _ db.monitors (λ x l hit on reached. absurd (ground (arith, l, reached)))
          v.thresholds)
        v)

pub disabled-IsMonitored :
    (db : UptimeDb) (id now : ℕ)
    → IsMonitored db
    → IsMonitored
        (record (switched db id false now) { incidents = resolve_active id now db.incidents })
disabled-IsMonitored db id now v =
    resolved-IsMonitored (switched db id false now) id now
      (All-update_where (λ m. 0 < m.failure_threshold) _ (λ m. m.id == id) (with_enabled false now)
        db.monitors
        (λ x l. elim (Bool-cases (x.id == id)) [
          | inl hit ↦ rw hit (λ own on reached. absurd cc)
          | inr miss ↦ rw miss (λ own on reached. absurd (ground (arith, own, miss)))
        ])
        v.thresholds)
      (rows-IsMonitored db id (with_enabled false now) (λ x. refl) (λ x l. l)
        (All-map _ _ db.monitors (λ x l hit on reached. absurd cc) v.thresholds) v)

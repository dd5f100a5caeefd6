-- ===== src/Uptime/Operations.antt =====
-- The operations on monitors keep the tables consistent, with every error (store/uptime.go).
use mizu_panel.Prelude.{
  ℕ, ◌<◌, ◌≡◌, refl, ap, ◌∙◌, String, Bool, true, false, not, some, [], ◌∷◌, arith, ltb, ◌==◌,
  if◌then◌else◌, select, count_if, All-append, Bool-cases, Option-cases, inl, inr,
}
use mizu_panel.Prelude.Result.{ok, err_not_ok, ok_unique}
use mizu_panel.Tables.{
  find_first, update_where, All-map, All-both, All-update_where, count_if-append,
  count_if-update_where, count_if_none, find_first-only, select_le, select_others, All-kept,
  All-selected,
}
use mizu_panel.Uptime.Model.{
  IncidentKind, UptimeMonitor, UptimeIncident, UptimeDb, availability, is_open,
}
use mizu_panel.Uptime.Monitors.{
  created_monitor, create_monitor, uptime_materially_changed, update_monitor, reconfigured, reset,
  set_monitor_enabled, switched, started, resolve_active, delete_monitor, with_notification,
  update_incident_notification,
}
use mizu_panel.Uptime.Incidents.{open_count}
use mizu_panel.Uptime.Kept.{All-select, select-IsDescending, count_if-select-le}
use mizu_panel.Uptime.Invariant.{IsMonitored}
use mizu_panel.Uptime.Configured.{
  incidents-IsMonitored, reset-IsMonitored, reconfigured-IsMonitored, enabled-IsMonitored,
  disabled-IsMonitored,
}

pub created-IsMonitored :
    (db : UptimeDb) (monitor : UptimeMonitor) (now : ℕ)
    → IsMonitored db
    → 0 < monitor.failure_threshold
    → IsMonitored (create_monitor db monitor now).1
unfolding create_monitor
created-IsMonitored db monitor now v t =
    let made = created_monitor monitor db.next_monitor_id now in
    record {
      monitor_unique = λ i. elim (Bool-cases (db.next_monitor_id == i)) [
        | inl new ↦ ground (
          arith,
          new,
          count_if-append (λ m. m.id == i) db.monitors (made ∷ []),
          count_if_none (λ m. m.id == i) db.monitors
              (All-map _ _ db.monitors (λ m l. ground (arith, l, new)) v.monitors_below),
        )
        | inr old ↦ ground (
          arith,
          old,
          count_if-append (λ m. m.id == i) db.monitors (made ∷ []),
          v.monitor_unique i,
        )
      ];
      monitors_below =
          All-append _ db.monitors (made ∷ [])
            (All-map _ _ db.monitors (λ m l. omega (arith, l)) v.monitors_below) (omega arith, tt);
      thresholds = All-append _ db.monitors (made ∷ []) v.thresholds (t, tt);
      alarmed =
          All-append _ db.monitors (made ∷ []) v.alarmed
            ((λ on reached. absurd (ground (arith, t, reached))), tt);
      single = record {
        one_open = v.single.one_open;
        ids_unique = v.single.ids_unique;
        ids_below = v.single.ids_below;
      };
      descending = v.descending;
      results_below = v.results_below;
      kept = v.kept;
    }

pub notified-IsMonitored :
    (db : UptimeDb) (id : ℕ) (recovery sent : Bool) (message : String) (at : ℕ)
    → IsMonitored db
    → IsMonitored (update_incident_notification db id recovery sent message at)
unfolding update_incident_notification
notified-IsMonitored db id recovery sent message at v =
    let f = with_notification recovery sent message at in
    let q : UptimeIncident → Bool = λ i. i.id == id in
    let same : (m : ℕ) (k : IncidentKind)
        → open_count m k (update_where q f db.incidents) ≡ open_count m k db.incidents =
      λ m k.
        count_if-update_where (is_open m k) q f db.incidents
          (λ x t. notified_open m k recovery sent message at x) in
    incidents-IsMonitored db (update_where q f db.incidents)
      (record {
        one_open = λ m k. omega (arith, same m k, v.single.one_open m k);
        ids_unique = λ i. omega (
          arith,
          v.single.ids_unique i,
          count_if-update_where (λ x. x.id == i) q f db.incidents
              (λ x t. ap (λ n. n == i) (notified_id recovery sent message at x)),
        );
        ids_below =
            All-update_where _ _ q f db.incidents
              (λ x l. ground (arith, l, notified_id recovery sent message at x)) v.single.ids_below;
      })
      (All-map _ _ db.monitors
        (λ x l on reached. ap (ltb 0) (same x.id availability) ∙ l on reached) v.alarmed)
      v
  where
    notified_id :
        (recovery sent : Bool) (message : String) (at : ℕ) (x : UptimeIncident)
        → (with_notification recovery sent message at x).id ≡ x.id
    notified_id true sent message at x = refl
    notified_id false sent message at x = refl

    notified_open :
        (m : ℕ) (k : IncidentKind) (recovery sent : Bool) (message : String) (at : ℕ)
        (x : UptimeIncident)
        → is_open m k (with_notification recovery sent message at x) ≡ is_open m k x
    notified_open m k true sent message at x = refl
    notified_open m k false sent message at x = refl

-- The delete cascades to the results and the incidents of the monitor only.
pub deleted-IsMonitored :
    (db : UptimeDb) (id : ℕ) → IsMonitored db → IsMonitored (delete_monitor db id).1
unfolding delete_monitor
deleted-IsMonitored db id v = elim (Bool-cases (count_if (λ m. m.id == id) db.monitors == 0)) [
  | inl missing ↦ rw missing v
  | inr found ↦ rw found (record {
    monitor_unique = λ i.
        omega (
          arith,
          v.monitor_unique i,
          select_le (λ m. m.id == i) (λ m. not (m.id == id)) db.monitors,
        );
    monitors_below = All-kept _ (λ m. not (m.id == id)) db.monitors v.monitors_below;
    thresholds = All-kept _ (λ m. not (m.id == id)) db.monitors v.thresholds;
    alarmed =
        All-map _ _ (select (λ m. not (m.id == id)) db.monitors)
          (λ m l on reached. ground (
            arith,
            l.1 on reached,
            select_others (is_open m.id availability) (λ i. not (i.monitor_id == id)) db.incidents
                (λ i t. ground (arith, t, l.0)),
          ))
          (All-both _ _ (select (λ m. not (m.id == id)) db.monitors)
            (All-selected (λ m. not (m.id == id)) db.monitors)
            (All-kept _ (λ m. not (m.id == id)) db.monitors v.alarmed));
    single = record {
      one_open = λ m k. omega (
        arith,
        v.single.one_open m k,
        select_le (is_open m k) (λ i. not (i.monitor_id == id)) db.incidents,
      );
      ids_unique = λ i. omega (
        arith,
        v.single.ids_unique i,
        select_le (λ x. x.id == i) (λ i. not (i.monitor_id == id)) db.incidents,
      );
      ids_below = All-kept _ (λ i. not (i.monitor_id == id)) db.incidents v.single.ids_below;
    };
    descending = select-IsDescending (λ r. not (r.monitor_id == id)) db.results v.descending;
    results_below = All-select _ (λ r. not (r.monitor_id == id)) db.results v.results_below;
    kept = λ m. omega (
      arith,
      v.kept m,
      count_if-select-le (λ r. r.monitor_id == m) (λ r. not (r.monitor_id == id)) db.results,
    );
  })
]

-- Where the change is not material, the threshold stays.
same_threshold :
    (existing next : UptimeMonitor)
    → uptime_materially_changed existing next ≡ false
    → existing.failure_threshold ≡ next.failure_threshold
unfolding uptime_materially_changed
same_threshold existing next h = ground arith

-- What a successful change of the configuration commits.
update_monitor_inv :
    (db db' : UptimeDb) (next updated existing : UptimeMonitor) (now : ℕ) (material : Bool)
    → find_first (λ m. m.id == next.id) db.monitors ≡ some existing
    → update_monitor db next now ≡ ok ((updated, material), db')
    → (if uptime_materially_changed existing next
        then reset (reconfigured db next now) next.id now
        else reconfigured db next now)
      ≡ db'
unfolding update_monitor
update_monitor_inv db db' next updated existing now material e h =
    let stored =
      if uptime_materially_changed existing next
      then reset (reconfigured db next now) next.id now
      else reconfigured db next now in
    elim (Option-cases (find_first (λ m. m.id == next.id) stored.monitors)) [
      | inl missing ↦ err_not_ok (rw (e, missing) at h)
      | inr (row, there) ↦ ap (λ r. r.1) (ok_unique refl (rw (e, there) at h))
    ]

pub updated-IsMonitored :
    (db db' : UptimeDb) (next updated : UptimeMonitor) (now : ℕ) (material : Bool)
    → IsMonitored db
    → 0 < next.failure_threshold
    → update_monitor db next now ≡ ok ((updated, material), db')
    → IsMonitored db'
unfolding update_monitor
updated-IsMonitored db db' next updated now material v t h =
    elim (Option-cases (find_first (λ m. m.id == next.id) db.monitors)) [
      | inl missing ↦ err_not_ok (rw missing at h)
      | inr (existing, e) ↦
          let same = update_monitor_inv db db' next updated existing now material e h in
          elim (Bool-cases (uptime_materially_changed existing next)) [
            | inl changed ↦
                let to : reset (reconfigured db next now) next.id now ≡ db' = rw changed at same in
                rw to at (reset-IsMonitored db next now v t)
            | inr kept_same ↦
                let to : reconfigured db next now ≡ db' = rw kept_same at same in
                rw to at (
                  reconfigured-IsMonitored db next now v t (
                    find_first-only (λ m. m.failure_threshold ≡ next.failure_threshold)
                      (λ m. m.id == next.id) db.monitors e (v.monitor_unique next.id)
                      (same_threshold existing next kept_same)))
          ]
    ]

set_monitor_enabled_inv :
    (db db' : UptimeDb) (id : ℕ) (enabled : Bool) (now : ℕ) (updated : UptimeMonitor)
    → set_monitor_enabled db id enabled now ≡ ok (updated, db')
    → (let stored = switched db id enabled now in
        if enabled
        then record stored { monitors = update_where (λ m. m.id == id) started stored.monitors }
        else record stored { incidents = resolve_active id now stored.incidents })
      ≡ db'
unfolding set_monitor_enabled
set_monitor_enabled_inv db db' id enabled now updated h =
    let stored = switched db id enabled now in
    let changed =
      if enabled
      then record stored { monitors = update_where (λ m. m.id == id) started stored.monitors }
      else record stored { incidents = resolve_active id now stored.incidents } in
    elim (Bool-cases (count_if (λ m. m.id == id) db.monitors == 0)) [
      | inl missing ↦ err_not_ok (rw missing at h)
      | inr there ↦ elim (Option-cases (find_first (λ m. m.id == id) changed.monitors)) [
        | inl gone ↦ err_not_ok (rw (there, gone) at h)
        | inr (row, e) ↦ ap (λ r. r.1) (ok_unique refl (rw (there, e) at h))
      ]
    ]

pub switched-IsMonitored :
    (db db' : UptimeDb) (id : ℕ) (enabled : Bool) (now : ℕ) (updated : UptimeMonitor)
    → IsMonitored db
    → set_monitor_enabled db id enabled now ≡ ok (updated, db')
    → IsMonitored db'
switched-IsMonitored db db' id true now updated v h =
    rw (set_monitor_enabled_inv db db' id true now updated h) at (enabled-IsMonitored db id now v)
switched-IsMonitored db db' id false now updated v h =
    rw (set_monitor_enabled_inv db db' id false now updated h) at (disabled-IsMonitored db id now v)

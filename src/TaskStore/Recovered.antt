-- ===== src/TaskStore/Recovered.antt =====
-- RecoverInterruptedRuns (store/tasks.go) always succeeds and leaves no run active.
use mizu_panel.Prelude.{
  ℕ, ◌≡◌, refl, ap, Bool, true, false, ◌||◌, List, [], ◌∷◌, arith, ◌==◌, length, select, All,
  Bool-cases, inl, inr, if◌then◌else◌,
}
use mizu_panel.Prelude.Result.{ok}
use mizu_panel.TaskStore.Model.{TaskRun, Db, is_active_run, at_or_now}
use mizu_panel.Tables.{update_where, All-map, All-update_where, count_if-update_where}
use mizu_panel.TaskStore.Runs.{of_run, aggregated, aggregate_run_tx, run_exists, status_of}
use mizu_panel.TaskStore.Transitions.{
  interrupts, interrupted_target, interrupted_run, interrupt_runs, recover_interrupted_runs,
}
use mizu_panel.TaskStore.Consistent.{aggregated-id}
use mizu_panel.TaskStore.Preserved.{regrouped}

-- A run of the list has this id.
abbrev has_id : List TaskRun → ℕ → Bool
has_id [] i = false
has_id (r ∷ rs) i = r.id == i || has_id rs i

abbrev IsListed : List TaskRun → TaskRun → Type 0
IsListed rs q = is_active_run q.status ≡ true → has_id rs q.id ≡ true

-- The tables after a turn of the loop.
abbrev interrupted_at : Db → ℕ → ℕ → Db
interrupted_at db i at = record db {
  runs = update_where (λ q. q.id == i) (interrupted_run at) (regrouped db i at).runs;
}

aggregate_exists :
    (db : Db) (i at : ℕ)
    → run_exists i db.runs ≡ true
    → aggregate_run_tx db i at ≡ ok (status_of (of_run i db.targets), regrouped db i at)
unfolding aggregate_run_tx
aggregate_exists db i at there = ground (arith, there)

exists_after :
    (db : Db) (i at k : ℕ)
    → run_exists k db.runs ≡ true
    → run_exists k (interrupted_at db i at).runs ≡ true
exists_after db i at k there = ground (
  arith,
  count_if-update_where (λ q. q.id == k) (λ q. q.id == i) (interrupted_run at)
      (regrouped db i at).runs (λ q h. refl),
  count_if-update_where (λ q. q.id == k) (λ q. q.id == i) (aggregated (of_run i db.targets) at)
      db.runs (λ q h. ap (λ n. n == k) (aggregated-id (of_run i db.targets) at q)),
)

IsListed-after :
    (db : Db) (r : TaskRun) (rs : List TaskRun) (at : ℕ)
    → All (IsListed (r ∷ rs)) db.runs
    → All (IsListed rs) (interrupted_at db r.id at).runs
IsListed-after db r rs at a =
    All-update_where (λ q. (q.id == r.id) ≡ false → IsListed rs q) (IsListed rs) (λ q. q.id == r.id)
      (interrupted_run at) (regrouped db r.id at).runs (λ q f. second q f)
      (All-update_where (IsListed (r ∷ rs)) (λ q. (q.id == r.id) ≡ false → IsListed rs q)
        (λ q. q.id == r.id) (aggregated (of_run r.id db.targets) at) db.runs (λ q f. first q f) a)
  where
    first :
        (q : TaskRun)
        → IsListed (r ∷ rs) q
        → (λ (p : TaskRun). (p.id == r.id) ≡ false → IsListed rs p)
            (if q.id == r.id then aggregated (of_run r.id db.targets) at q else q)
    first q f = elim (Bool-cases (q.id == r.id)) [
      | inl hit ↦
          rw hit (λ miss.
            absurd (ground (arith, miss, hit, aggregated-id (of_run r.id db.targets) at q)))
      | inr other ↦ rw other (λ _ t. ground (arith, other, f t))
    ]

    second :
        (q : TaskRun)
        → ((q.id == r.id) ≡ false → IsListed rs q)
        → IsListed rs (if q.id == r.id then interrupted_run at q else q)
    second q f = elim (Bool-cases (q.id == r.id)) [
      | inl hit ↦ rw hit (λ t. absurd cc)
      | inr other ↦ rw other (f other)
    ]

interrupt_runs_lem :
    (rs : List TaskRun) (db : Db) (at : ℕ)
    → All (λ r. run_exists r.id db.runs ≡ true) rs
    → All (IsListed rs) db.runs
    → (db' : Db) × (interrupt_runs db rs at ≡ ok db')
      × All (λ q. is_active_run q.status ≡ false) db'.runs
unfolding interrupt_runs
interrupt_runs_lem [] db at there listed =
    (db, refl, All-map (IsListed []) _ db.runs (λ q f. ground (arith, f)) listed)
interrupt_runs_lem (r ∷ rs) db at there listed =
    let (db', done, idle) =
      interrupt_runs_lem rs (interrupted_at db r.id at) at
        (All-map _ _ rs (λ q e. exists_after db r.id at q.id e) there.1)
        (IsListed-after db r rs at listed) in
    (db', rw (aggregate_exists db r.id at there.0) done, idle)

own_exists :
    (p : TaskRun → Bool) (rs : List TaskRun) → All (λ r. run_exists r.id rs ≡ true) (select p rs)
own_exists p [] = tt
own_exists p (r ∷ rs) =
    let later =
      All-map (λ q. run_exists q.id rs ≡ true) (λ q. run_exists q.id (r ∷ rs) ≡ true) (select p rs)
        (λ q e. ground (arith, e)) (own_exists p rs) in
    elim (Bool-cases (p r)) [ inl hit ↦ rw hit (ground arith, later) | inr miss ↦ rw miss later ]

own-IsListed : (rs : List TaskRun) → All (IsListed (select (λ r. is_active_run r.status) rs)) rs
own-IsListed [] = tt
own-IsListed (r ∷ rs) = (
  (λ t. ground (arith, t)),
  All-map (IsListed (select (λ q. is_active_run q.status) rs)) _ rs (λ q f t. ground (arith, f t))
      (own-IsListed rs),
)

-- RecoverInterruptedRuns succeeds on every table, reports the number of runs that were active and
-- leaves no run active.
pub recover_interrupted_runs_lem :
    (db : Db) (interrupted now : ℕ)
    → (db' : Db) × (recover_interrupted_runs db interrupted now
        ≡ ok (length (select (λ r. is_active_run r.status) db.runs), db'))
      × All (λ r. is_active_run r.status ≡ false) db'.runs
unfolding recover_interrupted_runs
recover_interrupted_runs_lem db interrupted now =
    let active = select (λ r. is_active_run r.status) db.runs in
    let at = at_or_now interrupted now in
    let (db', done, idle) =
      interrupt_runs_lem active
        (record db {
          targets = update_where (interrupts db.runs) (interrupted_target at) db.targets;
        })
        at (own_exists _ db.runs) (own-IsListed db.runs) in
    (db', rw done refl, idle)

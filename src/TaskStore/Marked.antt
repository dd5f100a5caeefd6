-- ===== src/TaskStore/Marked.antt =====
-- The start of a target keeps the tables consistent (store/tasks.go: MarkRunTargetRunning).
use mizu_panel.Prelude.{
  ℕ, ◌≡◌, refl, Bool, true, false, List, arith, ◌==◌, if◌then◌else◌, Option-cases, inl, inr,
}
use mizu_panel.Prelude.Result.{ok}
use mizu_panel.TaskStore.Model.{TaskRun, RunTarget, Db, is_active_target, is_success, at_or_now}
use mizu_panel.Tables.{find_first, All-update_where}
use mizu_panel.TaskStore.Runs.{of_run}
use mizu_panel.TaskStore.Transitions.{
  starts, started_target, runs_on, started_run, marked, mark_run_target_running,
}
use mizu_panel.TaskStore.Consistent.{Agrees, IsConsistent, Agrees-of_run, unique-update_where}

starts_queued :
    (i at : ℕ) (t : RunTarget)
    → starts i t ≡ true
    → is_active_target (started_target at t).status ≡ is_active_target t.status
starts_queued i at t h = ground arith

starts_success :
    (i at : ℕ) (t : RunTarget)
    → starts i t ≡ true
    → is_success (started_target at t).status ≡ is_success t.status
starts_success i at t h = ground arith

started_run-Agrees :
    (k at : ℕ) (r : TaskRun) (ts : List RunTarget)
    → Agrees r ts
    → Agrees (if runs_on k r then started_run at r else r) ts
started_run-Agrees k at r ts a = ground arith

-- The id of a row that an UPDATE may have changed.
kept_id :
    (b : Bool) (f : TaskRun → TaskRun) (r : TaskRun)
    → (f r).id ≡ r.id
    → (if b then f r else r).id ≡ r.id
kept_id true f r h = h
kept_id false f r h = refl

marked-IsConsistent :
    (db : Db) (target_id run_id at : ℕ)
    → IsConsistent db
    → IsConsistent (marked db target_id run_id at)
marked-IsConsistent db i k at v = record {
  run_ids =
      All-update_where _ _ (runs_on k) (started_run at) db.runs (λ r h. ground arith) v.run_ids;
  target_ids =
      All-update_where _ _ (starts i) (started_target at) db.targets (λ t h. ground arith)
        v.target_ids;
  target_runs =
      All-update_where _ _ (starts i) (started_target at) db.targets (λ t h. ground arith)
        v.target_runs;
  run_unique =
      unique-update_where (λ r. r.id) (runs_on k) (started_run at) db.runs (λ r. refl) v.run_unique;
  target_unique =
      unique-update_where (λ t. t.id) (starts i) (started_target at) db.targets (λ t. refl)
        v.target_unique;
  agrees =
      All-update_where (λ r. Agrees r (of_run r.id db.targets)) _ (runs_on k) (started_run at)
        db.runs
        (λ r a. rw (kept_id (runs_on k r) (started_run at) r refl) (
          Agrees-of_run _ r.id (starts i) (started_target at) db.targets (λ t. refl)
            (starts_queued i at) (starts_success i at)
            (started_run-Agrees k at r (of_run r.id db.targets) a)))
        v.agrees;
}

-- What a successful MarkRunTargetRunning did.
pub mark_run_target_running_inv :
    (db db' : Db) (target_id at now : ℕ)
    → mark_run_target_running db target_id at now ≡ ok db'
    → (k : ℕ) × (db' ≡ marked db target_id k (at_or_now at now))
unfolding mark_run_target_running
mark_run_target_running_inv db db' i at now h =
    elim (Option-cases (find_first (λ t. t.id == i) db.targets)) [
      | inl e ↦ absurd (ground (arith, e))
      | inr (row, e) ↦ (row.run_id, ground (arith, e))
    ]

-- A successful MarkRunTargetRunning keeps consistent tables consistent.
pub mark_run_target_running-IsConsistent :
    (db db' : Db) (target_id at now : ℕ)
    → IsConsistent db
    → mark_run_target_running db target_id at now ≡ ok db'
    → IsConsistent db'
mark_run_target_running-IsConsistent db db' i at now v h =
    let (k, e) = mark_run_target_running_inv db db' i at now h in
    rw e (marked-IsConsistent db i k (at_or_now at now) v)

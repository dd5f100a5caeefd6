-- ===== src/TaskStore/History.antt =====
-- The automation tables after any sequence of the transactions of store/tasks.go that create runs
-- and move them on.
use mizu_panel.Prelude.{ℕ, ◌≡◌}
use mizu_panel.Prelude.Result.{ok}
use mizu_panel.TaskStore.Model.{TaskRunDetail, RunTargetResult, Db, at_or_now}
use mizu_panel.TaskStore.Transitions.{
  mark_run_target_running, complete_run_target, aggregate_only, aggregate_run,
}
use mizu_panel.TaskStore.Claims.{claim_due_task, create_manual_task_run}
use mizu_panel.TaskStore.Consistent.{IsConsistent}
use mizu_panel.TaskStore.Marked.{mark_run_target_running_inv, mark_run_target_running-IsConsistent}
use mizu_panel.TaskStore.Preserved.{
  complete_run_target-IsConsistent, aggregate_run-IsConsistent, complete_run_target_tx_inv,
  aggregate_only_inv, commit-keeps, complete_run_target_cases,
}
use mizu_panel.TaskStore.Claimed.{claim_due_task-Claimed, create_manual_task_run-Started}
use mizu_panel.TaskStore.Overlap.{
  IsExclusive, claim_due_task-IsExclusive, create_manual_task_run-IsExclusive, marked-IsExclusive,
  ended-IsExclusive, regrouped-IsExclusive,
}

-- One transaction; those that may fail after their commit step to the database that they leave.
pub data Step (db : Db) : Db → Type 0 where
  claims :
      {db' : Db} (task_id due next at now : ℕ) (d : TaskRunDetail)
      → claim_due_task db task_id due next at now ≡ ok (d, db')
      → Step db db'
  runs_manually :
      {db' : Db} (task_id at now : ℕ) (d : TaskRunDetail)
      → create_manual_task_run db task_id at now ≡ ok (d, db')
      → Step db db'
  marks :
      {db' : Db} (target_id at now : ℕ)
      → mark_run_target_running db target_id at now ≡ ok db'
      → Step db db'
  completes :
      {db' : Db} (target_id now : ℕ) (result : RunTargetResult)
      → db' ≡ (complete_run_target db target_id result now).0
      → Step db db'
  aggregates :
      {db' : Db} (run_id at now : ℕ) → db' ≡ (aggregate_run db run_id at now).0 → Step db db'

pub data Reach (db : Db) : Db → Type 0 where
  here : Reach db db
  next : {e f : Db} → Reach db e → Step e f → Reach db f

pub Step-IsConsistent : {db db' : Db} → Step db db' → IsConsistent db → IsConsistent db'
Step-IsConsistent {db} {db'} (claims i due n at now d h) v =
    (claim_due_task-Claimed db db' i due n at now d h).consistent v
Step-IsConsistent {db} {db'} (runs_manually i at now d h) v =
    (create_manual_task_run-Started db db' i at now d h).consistent v
Step-IsConsistent {db} {db'} (marks i at now h) v =
    mark_run_target_running-IsConsistent db db' i at now v h
Step-IsConsistent {db} (completes i now res e) v =
    rw e (complete_run_target-IsConsistent db i now res v)
Step-IsConsistent {db} (aggregates k at now e) v = rw e (aggregate_run-IsConsistent db k at now v)

Step-IsExclusive : {db db' : Db} → Step db db' → IsConsistent db → IsExclusive db → IsExclusive db'
unfolding aggregate_run
Step-IsExclusive {db} {db'} (claims i due n at now d h) c v =
    claim_due_task-IsExclusive db db' i due n at now d v h
Step-IsExclusive {db} {db'} (runs_manually i at now d h) c v =
    create_manual_task_run-IsExclusive db db' i at now d v h
Step-IsExclusive {db} {db'} (marks i at now h) c v =
    let (k, e) = mark_run_target_running_inv db db' i at now h in
    rw e (marked-IsExclusive db i k (at_or_now at now) v)
Step-IsExclusive {db} (completes i now res e) c v = rw e (
    complete_run_target_cases IsExclusive db i now res v (λ k db' h.
      let (row, _, _, done) = complete_run_target_tx_inv db db' i now k res h in
      rw done (ended-IsExclusive db i row.run_id _ res c v)))
Step-IsExclusive {db} (aggregates k at now e) c v =
    rw (e, aggregate_run)
      (commit-keeps IsExclusive db (aggregate_only db k (at_or_now at now)) _ v (λ db' h.
        rw (aggregate_only_inv db db' k (at_or_now at now) h)
          (regrouped-IsExclusive db k (at_or_now at now) c v)))

-- From tables that are consistent (every run agrees with its targets, identifiers are unique and
-- below the next) and have at most one active run of each task, every finite sequence of successful
-- claims, manual runs and starts of targets, and of completions and aggregations with any outcome,
-- leads to tables that are consistent and have at most one active run of each task.
pub Reach_lem :
    {db db' : Db}
    → Reach db db'
    → IsConsistent db
    → IsExclusive db
    → IsConsistent db' × IsExclusive db'
Reach_lem here c v = (c, v)
Reach_lem (next r s) c v =
    let (c', v') = Reach_lem r c v in (Step-IsConsistent s c', Step-IsExclusive s c' v')

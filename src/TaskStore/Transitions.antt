-- ===== src/TaskStore/Transitions.antt =====
-- The transactions that move a run and its targets on (store/tasks.go): MarkRunTargetRunning,
-- CompleteRunTarget, AggregateRun, UpdateRunNotification, GetRun, RecoverInterruptedRuns and
-- DeleteRunsOlderThan. `now` is what time.Now() would return.
use mizu_panel.Prelude.{
  ℕ, Bool, true, false, not, ◌&&◌, ◌||◌, Option, none, some, List, [], ◌∷◌, ltb, ◌==◌,
  if◌then◌else◌, length, select, count_if,
}
use mizu_panel.Prelude.Int.{ℤ, pos, negsuc}
use mizu_panel.Prelude.Result.{Result, ok, err, ◌>>=◌, ◌>>◌, refuse_if, or_fail}
use mizu_panel.Utf8.{bound_task_text}
use mizu_panel.TaskStore.Model.{
  RunStatus, TargetStatus, StoreError, invalid, not_found, claim_lost, TaskRun, RunTarget,
  TaskRunDetail, RunTargetResult, Db, is_active_run, is_active_target, is_terminal_target_status,
  is_queued, coalesce, at_or_now, max_task_output_bytes, max_task_error_bytes,
}
use mizu_panel.Tables.{find_first, update_where}
use mizu_panel.TaskStore.Runs.{aggregate_run_tx, get_run_summary, commit, of_run, ascii}

-- `SELECT run_id FROM task_run_targets WHERE id = ?`
abbrev run_of_target : Db → ℕ → Result StoreError ℕ
run_of_target db target_id = do
  row ← or_fail (find_first (λ t. t.id == target_id) db.targets) (not_found "run target")
  ok row.run_id

abbrev pub starts : ℕ → RunTarget → Bool
starts target_id t = t.id == target_id && is_queued t.status

abbrev pub started_target : ℕ → RunTarget → RunTarget
started_target at t = record t {
  status = TargetStatus.running;
  started_at = some at;
  updated_at = at;
}

abbrev pub runs_on : ℕ → TaskRun → Bool
runs_on run_id r = r.id == run_id && is_active_run r.status

abbrev pub started_run : ℕ → TaskRun → TaskRun
started_run at r = record r {
  status = RunStatus.running;
  started_at = coalesce r.started_at at;
  updated_at = at;
}

-- The two UPDATE statements of MarkRunTargetRunning.
abbrev pub marked : Db → (target_id run_id at : ℕ) → Db
marked db target_id run_id at = record db {
  targets = update_where (starts target_id) (started_target at) db.targets;
  runs = update_where (runs_on run_id) (started_run at) db.runs;
}

unfoldable pub mark_run_target_running : Db → ℕ → ℕ → ℕ → Result StoreError Db
mark_run_target_running db target_id started_at now = do
  refuse_if (target_id == 0) (invalid "run target id")
  let at = at_or_now started_at now
  run_id ← run_of_target db target_id
  refuse_if (not (count_if (starts target_id) db.targets == 1)) (claim_lost "run target")
  refuse_if (not (count_if (runs_on run_id) db.runs == 1)) (claim_lost "run")
  ok (marked db target_id run_id at)

abbrev is_negative : ℤ → Bool
is_negative (pos n) = false
is_negative (negsuc n) = true

abbrev size_of : ℤ → ℕ
size_of (pos n) = n
size_of (negsuc n) = 0

-- `result.StartedAt != nil && !result.StartedAt.IsZero()`
abbrev non_zero : Option ℕ → Option ℕ
non_zero none = none
non_zero (some n) = if n == 0 then none else some n

-- COALESCE(column, ?) with a parameter that may be NULL
abbrev coalesce_null : Option ℕ → Option ℕ → Option ℕ
coalesce_null none x = x
coalesce_null (some n) x = some n

abbrev pub ends : ℕ → RunTarget → Bool
ends target_id t = t.id == target_id && is_active_target t.status

unfoldable pub ended_target : RunTargetResult → ℕ → RunTarget → RunTarget
ended_target result at t =
    let output = bound_task_text result.output max_task_output_bytes in
    record t {
      status = result.status;
      exit_code = result.exit_code;
      output = output.0;
      output_truncated = result.output_truncated || output.1;
      error = (bound_task_text result.error max_task_error_bytes).0;
      duration_ms = size_of result.duration_ms;
      started_at = coalesce_null t.started_at (non_zero result.started_at);
      completed_at = some at;
      updated_at = at;
    }

-- The first UPDATE of CompleteRunTarget.
abbrev pub completed : Db → ℕ → RunTargetResult → ℕ → Db
completed db target_id result at = record db {
  targets = update_where (ends target_id) (ended_target result at) db.targets;
}

-- The transaction of CompleteRunTarget, with the id of the run that it aggregates.
unfoldable pub complete_run_target_tx : Db → ℕ → RunTargetResult → ℕ → Result StoreError (ℕ × Db)
complete_run_target_tx db target_id result now = do
  refuse_if (target_id == 0) (invalid "run target id")
  refuse_if (not (is_terminal_target_status result.status)) (invalid "run target status")
  refuse_if (is_negative result.duration_ms) (invalid "run target duration")
  let at = at_or_now result.completed_at now
  run_id ← run_of_target db target_id
  refuse_if (not (count_if (ends target_id) db.targets == 1)) (claim_lost "run target")
  after ← aggregate_run_tx (completed db target_id result at) run_id at
  ok (run_id, after.1)

-- The read of the summary after the transaction has committed.
abbrev pub finish : Db → Result StoreError (ℕ × Db) → Db × Result StoreError TaskRun
finish db (ok (run_id, db')) = (db', get_run_summary db' run_id)
finish db (err e) = (db, err e)

unfoldable pub complete_run_target : Db → ℕ → RunTargetResult → ℕ → Db × Result StoreError TaskRun
complete_run_target db target_id result now =
    finish db (complete_run_target_tx db target_id result now)

-- The transaction of AggregateRun.
unfoldable pub aggregate_only : Db → ℕ → ℕ → Result StoreError Db
aggregate_only db run_id at = do
  refuse_if (run_id == 0) (invalid "run id")
  after ← aggregate_run_tx db run_id at
  ok after.1

unfoldable pub aggregate_run : Db → ℕ → ℕ → ℕ → Db × Result StoreError TaskRun
aggregate_run db run_id at now =
    commit db (aggregate_only db run_id (at_or_now at now)) (λ db'. get_run_summary db' run_id)

abbrev notified : Bool → List ℕ → ℕ → TaskRun → TaskRun
notified sent message at r = record r {
  notification_sent = sent;
  notification_error = (bound_task_text message max_task_error_bytes).0;
  notification_attempted_at = some at;
  updated_at = at;
}

unfoldable update_run_notification : Db → ℕ → Bool → List ℕ → ℕ → ℕ → Result StoreError Db
update_run_notification db run_id sent message attempted_at now = do
  refuse_if (run_id == 0) (invalid "run id")
  refuse_if (count_if (λ r. r.id == run_id) db.runs == 0) (not_found "run")
  ok (record db {
    runs =
        update_where (λ r. r.id == run_id) (notified sent message (at_or_now attempted_at now))
          db.runs;
  })

unfoldable get_run : Db → ℕ → Result StoreError TaskRunDetail
get_run db run_id = do
  refuse_if (run_id == 0) (invalid "run id")
  run ← get_run_summary db run_id
  ok (record { run = run; targets = of_run run_id db.targets })

-- `run_id IN (SELECT id FROM task_runs WHERE status IN ('queued', 'running'))`
abbrev in_active_run : List TaskRun → RunTarget → Bool
in_active_run runs t = ltb 0 (count_if (runs_on t.run_id) runs)

abbrev pub interrupts : List TaskRun → RunTarget → Bool
interrupts runs t = is_active_target t.status && in_active_run runs t

abbrev pub interrupted_target : ℕ → RunTarget → RunTarget
interrupted_target at t = record t {
  status = TargetStatus.interrupted;
  error = ascii "server restarted during execution";
  completed_at = some at;
  updated_at = at;
}

abbrev pub interrupted_run : ℕ → TaskRun → TaskRun
interrupted_run at r = record r {
  error = "server restarted during execution";
  status = RunStatus.interrupted;
  completed_at = some at;
  updated_at = at;
}

-- The loop of RecoverInterruptedRuns over the runs that were active.
unfoldable pub interrupt_runs : Db → List TaskRun → ℕ → Result StoreError Db
interrupt_runs db [] at = ok db
interrupt_runs db (r ∷ rs) at = do
  after ← aggregate_run_tx db r.id at
  interrupt_runs
      (record after.1 {
        runs = update_where (λ q. q.id == r.id) (interrupted_run at) (after.1).runs;
      })
      rs at

unfoldable pub recover_interrupted_runs : Db → ℕ → ℕ → Result StoreError (ℕ × Db)
recover_interrupted_runs db interrupted_at now = do
  let at = at_or_now interrupted_at now
  let active = select (λ r. is_active_run r.status) db.runs
  let updated = record db {
    targets = update_where (interrupts db.runs) (interrupted_target at) db.targets;
  }
  after ← interrupt_runs updated active at
  ok (length active, after)

-- DELETE … WHERE created_at < ?, with ON DELETE CASCADE on the targets.
unfoldable delete_runs_older_than : Db → ℕ → Result StoreError (ℕ × Db)
delete_runs_older_than db cutoff = do
  refuse_if (cutoff == 0) (invalid "retention cutoff")
  let old = select (λ r. ltb r.created_at cutoff) db.runs
  ok (
    length old,
    record db {
      runs = select (λ r. not (ltb r.created_at cutoff)) db.runs;
      targets = select (λ t. count_if (λ r. r.id == t.run_id) old == 0) db.targets;
    },
  )

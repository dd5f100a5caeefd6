-- ===== src/TaskStore/Runs.antt =====
-- The life of a run (store/tasks.go): its creation, the start and the end of its targets, the
-- aggregation of their states, and the recovery after a restart.
use Prim.Native.Char.{code}
use text.Mathlib.Text.{◌==◌ as str_eq}
use mizu_panel.Prelude.{
  ℕ, suc, ◌-◌, String, Bool, true, false, not, ◌&&◌, ◌||◌, Option, none, some, List, [], ◌∷◌, ◌++◌,
  ltb, ◌==◌, if◌then◌else◌, length, select, count_if,
}
use mizu_panel.Prelude.Result.{Result, ok, err, ◌>>=◌, ◌>>◌, refuse_if, or_fail}
use mizu_panel.TaskStore.Model.{
  RunStatus, TargetStatus, StoreError, invalid, not_found, duplicate_write, TaskRun, RunTarget,
  TaskRunDetail, RunTargetSnapshot, Db, is_active_target, is_terminal_run_status, is_success,
  is_skipped, is_interrupted, is_running, is_value, coalesce, max_notification_json_bytes,
}
use mizu_panel.Tables.{find_first, update_where}

-- The bytes of an ASCII text.
abbrev pub ascii : String → List ℕ
ascii String.[] = []
ascii (String.◌∷◌ c s) = code c ∷ ascii s

unfoldable pub marshal_task_channels : List ℕ → Result StoreError (List ℕ)
marshal_task_channels value =
    if ltb max_notification_json_bytes (length value)
    then err (invalid "notification channels")
    else ok value

abbrev same_value : Option ℕ → Option ℕ → Bool
same_value none x = false
same_value (some n) x = is_value n x

-- UNIQUE (task_id, scheduled_for): NULL is never a duplicate.
unfoldable pub is_taken : TaskRun → List TaskRun → Bool
is_taken run [] = false
is_taken run (r ∷ rs) =
    (same_value run.task_id r.task_id && same_value run.scheduled_for r.scheduled_for)
    || is_taken run rs

-- UNIQUE (run_id, node_id)
unfoldable pub has_target : ℕ → String → List RunTarget → Bool
has_target run_id node_id [] = false
has_target run_id node_id (t ∷ ts) =
    (t.run_id == run_id && str_eq t.node_id node_id) || has_target run_id node_id ts

abbrev pub new_target :
    (id run_id : ℕ) → RunTargetSnapshot → TargetStatus → List ℕ → Option ℕ → ℕ → RunTarget
new_target id run_id snapshot status error completed_at created_at = record {
  id = id;
  run_id = run_id;
  node_id = snapshot.node_id;
  node_name = snapshot.node_name;
  status = status;
  exit_code = none;
  output = [];
  output_truncated = false;
  error = error;
  duration_ms = 0;
  started_at = none;
  completed_at = completed_at;
  created_at = created_at;
  updated_at = created_at;
}

abbrev pub add_target : RunTarget → Db → Db
add_target row db = record db {
  targets = db.targets ++ row ∷ [];
  next_target_id = suc db.next_target_id;
}

-- The loop of createTaskRunTx over the targets; `done` is `detail.Targets` so far.
unfoldable pub insert_targets :
    Db
    → ℕ
    → List RunTargetSnapshot
    → TargetStatus
    → List ℕ
    → Option ℕ
    → ℕ
    → List RunTarget
    → Result StoreError (List RunTarget × Db)
insert_targets db run_id [] status error completed_at created_at done = ok (done, db)
insert_targets db run_id (s ∷ ss) status error completed_at created_at done =
    let row = new_target db.next_target_id run_id s status error completed_at created_at in
    let rest =
      insert_targets (add_target row db) run_id ss status error completed_at created_at
        (done ++ row ∷ []) in
    if has_target run_id s.node_id db.targets then err duplicate_write else rest

-- The row that createTaskRunTx inserts for `run`.
unfoldable pub run_row : TaskRun → ℕ → ℕ → List ℕ → ℕ → TaskRun
run_row run id total channels created_at =
    let ended = is_terminal_run_status run.status in
    record run {
      id = id;
      notification_channels = channels;
      notification_sent = false;
      notification_error = [];
      notification_attempted_at = none;
      total_targets = total;
      completed_targets = if ended then total else 0;
      success_targets = 0;
      failed_targets = if ended then total else 0;
      started_at = if ended then some created_at else none;
      completed_at = if ended then some created_at else none;
      created_at = created_at;
      updated_at = created_at;
    }

abbrev pub add_run : TaskRun → Db → Db
add_run row db = record db { runs = db.runs ++ row ∷ []; next_run_id = suc db.next_run_id }

unfoldable pub create_task_run_tx :
    Db
    → TaskRun
    → List RunTargetSnapshot
    → TargetStatus
    → List ℕ
    → ℕ
    → Result StoreError (TaskRunDetail × Db)
create_task_run_tx db run targets target_status target_error created_at = do
  channels ← marshal_task_channels run.notification_channels
  refuse_if (is_taken run db.runs) duplicate_write
  let row = run_row run db.next_run_id (length targets) channels created_at
  inserted ←
      insert_targets (add_run row db) row.id targets target_status target_error row.completed_at
        created_at []
  ok (record { run = row; targets = inserted.0 }, inserted.1)

abbrev pub of_run : ℕ → List RunTarget → List RunTarget
of_run run_id = select (λ t. t.run_id == run_id)

-- The decision of aggregateRunTx from its counts.
unfoldable pub aggregate_status :
    (total completed succeeded skipped interrupted running : ℕ) → RunStatus
aggregate_status total completed succeeded skipped interrupted running =
    if ltb completed total
    then (if ltb 0 running || ltb 0 completed then RunStatus.running else RunStatus.queued)
    else if ltb 0 total && succeeded == total
    then RunStatus.success
    else if ltb 0 total && skipped == total
    then RunStatus.skipped
    else if ltb 0 total && interrupted == total
    then RunStatus.interrupted
    else if ltb 0 succeeded
    then RunStatus.partial
    else RunStatus.failed

abbrev pub completed_count : List RunTarget → ℕ
completed_count = count_if (λ t. not (is_active_target t.status))

abbrev pub success_count : List RunTarget → ℕ
success_count = count_if (λ t. is_success t.status)

unfoldable pub status_of : List RunTarget → RunStatus
status_of ts =
    aggregate_status (length ts) (completed_count ts) (success_count ts)
      (count_if (λ t. is_skipped t.status) ts) (count_if (λ t. is_interrupted t.status) ts)
      (count_if (λ t. is_running t.status) ts)

abbrev is_queued_run : RunStatus → Bool
is_queued_run RunStatus.queued = true
is_queued_run _ = false

-- The columns that the UPDATE of aggregateRunTx sets.
unfoldable pub aggregated : List RunTarget → ℕ → TaskRun → TaskRun
aggregated ts at run =
    let status = status_of ts in
    record run {
      status = status;
      total_targets = length ts;
      completed_targets = completed_count ts;
      success_targets = success_count ts;
      failed_targets = completed_count ts - success_count ts;
      started_at = if is_queued_run status then run.started_at else coalesce run.started_at at;
      completed_at = if is_terminal_run_status status then coalesce run.completed_at at else none;
      updated_at = at;
    }

abbrev pub run_exists : ℕ → List TaskRun → Bool
run_exists id runs = ltb 0 (count_if (λ r. r.id == id) runs)

unfoldable pub aggregate_run_tx : Db → ℕ → ℕ → Result StoreError (RunStatus × Db)
aggregate_run_tx db run_id at =
    let ts = of_run run_id db.targets in
    if length ts == 0 && not (run_exists run_id db.runs)
    then err (not_found "run")
    else ok (
      status_of ts,
      record db { runs = update_where (λ r. r.id == run_id) (aggregated ts at) db.runs },
    )

unfoldable pub get_run_summary : Db → ℕ → Result StoreError TaskRun
get_run_summary db run_id = or_fail (find_first (λ r. r.id == run_id) db.runs) (not_found "run")

-- `tx.Commit()` and what is read after it; a failed transaction leaves the database as it was.
abbrev pub commit {ℓ} :
    {A : Type ℓ} → Db → Result StoreError Db → (Db → Result StoreError A) → Db × Result StoreError A
commit db (ok db') f = (db', f db')
commit db (err e) f = (db, err e)

-- ===== src/TaskStore/Claims.antt =====
-- How runs of a scheduled task come about (store/tasks.go): the claim of a due occurrence and a
-- manual run, both refused or skipped while a run of the task is active.
use mizu_panel.Prelude.{
  ℕ, String, Bool, true, false, not, ◌&&◌, ◌||◌, Option, none, some, List, [], map, ltb, ◌==◌,
  if◌then◌else◌, length, select, count_if,
}
use mizu_panel.Prelude.Result.{Result, ok, err, ◌>>=◌, ◌>>◌, refuse_if, or_fail}
use mizu_panel.TaskStore.Model.{
  RunStatus, TargetStatus, Trigger, ScheduleType, StoreError, invalid, not_found, conflict,
  claim_lost, duplicate_write, AutomationScript, ScheduledTask, TaskRun, TaskRunDetail,
  RunTargetSnapshot, Db, is_active_run, is_value, at_or_now,
}
use mizu_panel.Tables.{find_first, update_where}
use mizu_panel.TaskStore.Runs.{create_task_run_tx, ascii}

-- `task_id = ? AND status IN ('queued', 'running')`
abbrev pub active_for : ℕ → TaskRun → Bool
active_for task_id r = is_value task_id r.task_id && is_active_run r.status

abbrev pub active_runs : ℕ → Db → ℕ
active_runs task_id db = count_if (active_for task_id) db.runs

-- hasActiveTaskRunTx
abbrev pub has_active_task_run_tx : Db → ℕ → Bool
has_active_task_run_tx db task_id = ltb 0 (active_runs task_id db)

unfoldable has_active_task_run : Db → ℕ → Result StoreError Bool
has_active_task_run db task_id = do
  refuse_if (task_id == 0) (invalid "task id")
  ok (has_active_task_run_tx db task_id)

-- The join of the task with its script.
abbrev get_automation_script_tx : Db → ℕ → Result StoreError AutomationScript
get_automation_script_tx db id =
    or_fail (find_first (λ s. s.id == id) db.scripts) (not_found "script")

abbrev get_task : Db → ℕ → Result StoreError (ScheduledTask × AutomationScript)
get_task db id = do
  task ← or_fail (find_first (λ t. t.id == id) db.tasks) (not_found "task")
  script ← or_fail (find_first (λ s. s.id == task.script_id) db.scripts) (not_found "task")
  ok (task, script)

abbrev pub load_run_target_snapshots_tx : Db → ℕ → List RunTargetSnapshot
load_run_target_snapshots_tx db task_id =
    map (λ p. p.1) (select (λ p. p.0 == task_id) db.task_nodes)

abbrev is_once : ScheduleType → Bool
is_once ScheduleType.once = true
is_once ScheduleType.cron = false

-- The WHERE clause of the claim: the occurrence is still the next one, and the kind of schedule is
-- the one that the caller computed the next time for.
abbrev pub claims : ℕ → ℕ → Bool → ScheduledTask → Bool
claims task_id expected once t =
    t.id == task_id
    && (t.enabled
        && (is_value expected t.next_run_at
            && ((is_once t.schedule_type && once) || (not (is_once t.schedule_type) && not once))))

abbrev pub claimed_task : ℕ → ℕ → ℕ → ScheduledTask → ScheduledTask
claimed_task expected next claimed_at t = record t {
  next_run_at = if is_once t.schedule_type then none else (if next == 0 then none else some next);
  enabled = if is_once t.schedule_type then false else t.enabled;
  last_scheduled_at = some expected;
  updated_at = claimed_at;
}

-- The run that a claim or a manual run of a task creates; createTaskRunTx fills in the rest.
abbrev pub run_of_task :
    ScheduledTask → AutomationScript → Trigger → Option ℕ → RunStatus → String → TaskRun
run_of_task task script trigger scheduled_for status error = record {
  id = 0;
  task_id = some task.id;
  script_id = some task.script_id;
  task_name = task.name;
  script_name = script.name;
  script_revision = script.revision;
  script_content = script.content;
  timeout_seconds = task.timeout_seconds;
  notification_policy = task.notification_policy;
  notification_channels = task.notification_channels;
  trigger = trigger;
  scheduled_for = scheduled_for;
  status = status;
  total_targets = 0;
  completed_targets = 0;
  success_targets = 0;
  failed_targets = 0;
  error = error;
  notification_sent = false;
  notification_error = [];
  notification_attempted_at = none;
  started_at = none;
  completed_at = none;
  created_at = 0;
  updated_at = 0;
}

-- `if isDuplicateWriteError(err) { return claimLostError(…) }`
abbrev pub duplicate_as_lost {ℓ} : {A : Type ℓ} → Result StoreError A → Result StoreError A
duplicate_as_lost (ok a) = ok a
duplicate_as_lost (err duplicate_write) = err (claim_lost "scheduled occurrence")
duplicate_as_lost (err e) = err e

-- `if err != nil { return claimLostError(…) }`
abbrev error_as_lost {ℓ} : {A : Type ℓ} → Result StoreError A → String → Result StoreError A
error_as_lost (ok a) s = ok a
error_as_lost (err e) s = err (claim_lost s)

-- The checks that ClaimDueTask makes before its transaction; `next` is 0 for a task that runs once.
unfoldable pub check_claim : (task_id expected next claimed_at : ℕ) → Result StoreError (Unit {0})
check_claim task_id expected next claimed_at = do
  refuse_if (task_id == 0 || expected == 0) (invalid "scheduled claim")
  refuse_if (not (next == 0) && (not (ltb claimed_at next) || not (ltb expected next)))
      (invalid "next run time")
  refuse_if (next == 0 && ltb claimed_at expected) (invalid "next run time")

-- The transaction after the UPDATE that takes the occurrence.
unfoldable pub create_claimed_run : Db → ℕ → ℕ → ℕ → Result StoreError (TaskRunDetail × Db)
create_claimed_run db task_id expected claimed_at = do
  found ← error_as_lost (get_task db task_id) "scheduled task"
  let targets = load_run_target_snapshots_tx db task_id
  refuse_if (length targets == 0) (invalid "task targets")
  script ← get_automation_script_tx db (found.0).script_id
  let active = has_active_task_run_tx db task_id
  let run =
      run_of_task found.0 script Trigger.scheduled (some expected)
        (if active then RunStatus.skipped else RunStatus.queued) (if active then "overlap" else "")
  duplicate_as_lost (
      create_task_run_tx db run targets
        (if active then TargetStatus.skipped else TargetStatus.queued)
        (if active then ascii "overlap" else []) claimed_at)

unfoldable pub claim_due_task :
    Db
    → (task_id expected_due_at next_run_at claimed_at now : ℕ)
    → Result StoreError (TaskRunDetail × Db)
claim_due_task db task_id expected next claimed_at now = do
  let at = at_or_now claimed_at now
  check_claim task_id expected next at
  refuse_if (not (count_if (claims task_id expected (next == 0)) db.tasks == 1))
      (claim_lost "scheduled occurrence")
  create_claimed_run
      (record db {
        tasks =
            update_where (claims task_id expected (next == 0)) (claimed_task expected next at)
              db.tasks;
      })
      task_id expected at

unfoldable pub create_manual_task_run : Db → ℕ → ℕ → ℕ → Result StoreError (TaskRunDetail × Db)
create_manual_task_run db task_id created_at now = do
  refuse_if (task_id == 0) (invalid "task id")
  let at = at_or_now created_at now
  refuse_if (count_if (λ t. t.id == task_id) db.tasks == 0) (not_found "task")
  found ← get_task db task_id
  refuse_if (has_active_task_run_tx db task_id) (conflict "task has an active run")
  let targets = load_run_target_snapshots_tx db task_id
  refuse_if (length targets == 0) (invalid "task targets")
  script ← get_automation_script_tx db (found.0).script_id
  create_task_run_tx db (run_of_task found.0 script Trigger.manual none RunStatus.queued "") targets
      TargetStatus.queued [] at

-- Foreign keys: the nodes of the task go with it, and its runs keep a NULL task.
abbrev forget_task : ℕ → TaskRun → TaskRun
forget_task id r = record r { task_id = none }

unfoldable delete_scheduled_task : Db → ℕ → Result StoreError Db
delete_scheduled_task db id = do
  refuse_if (id == 0) (invalid "task id")
  refuse_if (count_if (λ t. t.id == id) db.tasks == 0) (not_found "task")
  refuse_if (has_active_task_run_tx db id) (conflict "task has an active run")
  ok (record db {
    tasks = select (λ t. not (t.id == id)) db.tasks;
    task_nodes = select (λ p. not (p.0 == id)) db.task_nodes;
    runs = update_where (λ r. is_value id r.task_id) (forget_task id) db.runs;
  })

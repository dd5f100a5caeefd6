-- ===== src/TaskStore/Tests.antt =====
-- Runs of the transactions of store/tasks.go on a small database, and the theorems at these inputs.
use mizu_panel.Prelude.{ℕ, ◌≡◌, ◌≢◌, refl, true, false, none, some, [], ◌∷◌, arith, map}
use mizu_panel.Prelude.Int.{pos}
use mizu_panel.Prelude.Result.{Result, ok, err}
use mizu_panel.TaskStore.Model.{
  RunStatus, TargetStatus, ScheduleType, NotificationPolicy, Trigger, AutomationScript,
  ScheduledTask, TaskRun, RunTarget, TaskRunDetail, RunTargetResult, RunTargetSnapshot, Db,
  StoreError, claim_lost,
}
use mizu_panel.TaskStore.Runs.{
  aggregated, create_task_run_tx, insert_targets, run_row, aggregate_run_tx, get_run_summary,
  is_taken, has_target, marshal_task_channels, status_of, aggregate_status,
}
use mizu_panel.TaskStore.Transitions.{
  mark_run_target_running, complete_run_target, complete_run_target_tx, ended_target,
}
use mizu_panel.TaskStore.Claims.{
  claim_due_task, check_claim, create_claimed_run, create_manual_task_run,
}
use mizu_panel.TaskStore.Transitions.{marked}
use mizu_panel.TaskStore.Consistent.{Agrees, IsConsistent, aggregated-Agrees}
use mizu_panel.TaskStore.Preserved.{complete_run_target-IsConsistent}
use mizu_panel.TaskStore.Occurrence.{claim_due_task_once}
use mizu_panel.TaskStore.Overlap.{
  IsExclusive, claim_due_task-IsExclusive, create_manual_task_run-IsExclusive,
}
use mizu_panel.TaskStore.Recovered.{recover_interrupted_runs_lem}
use mizu_panel.TaskStore.Transitions.{recover_interrupted_runs}
use mizu_panel.TaskStore.Model.{is_active_run}
use mizu_panel.Prelude.{length, select, All}
use mizu_panel.TaskStore.History.{
  Reach, here, next, claims, marks, completes, Step-IsConsistent, Reach_lem,
}

abbrev script : AutomationScript
script = record { id = 5; name = "backup"; content = "true"; timeout_seconds = 60; revision = 3 }

abbrev task : ScheduledTask
task = record {
  id = 1;
  name = "nightly";
  script_id = 5;
  schedule_type = ScheduleType.cron;
  enabled = true;
  timeout_seconds = 60;
  notification_policy = NotificationPolicy.never;
  notification_channels = [];
  next_run_at = some 1000;
  last_scheduled_at = none;
  updated_at = 7;
}

abbrev node : RunTargetSnapshot
node = record { node_id = "a"; node_name = "alpha" }

abbrev start : Db
start = record {
  scripts = script ∷ [];
  tasks = task ∷ [];
  task_nodes = (1, node) ∷ [];
  runs = [];
  targets = [];
  next_run_id = 1;
  next_target_id = 1;
}

abbrev claimed_run : Result StoreError (TaskRunDetail × Db)
claimed_run = claim_due_task start 1 1000 2000 1000 1000

abbrev result : RunTargetResult
result = record {
  status = TargetStatus.success;
  exit_code = some (pos 0);
  output = 111 ∷ 107 ∷ [];
  output_truncated = false;
  error = [];
  duration_ms = pos 12;
  started_at = none;
  completed_at = 1500;
}

abbrev run : TaskRun
run = record {
  id = 1;
  task_id = some 1;
  script_id = some 5;
  task_name = "nightly";
  script_name = "backup";
  script_revision = 3;
  script_content = "true";
  timeout_seconds = 60;
  notification_policy = NotificationPolicy.never;
  notification_channels = [];
  trigger = Trigger.scheduled;
  scheduled_for = some 1000;
  status = RunStatus.queued;
  total_targets = 1;
  completed_targets = 0;
  success_targets = 0;
  failed_targets = 0;
  error = "";
  notification_sent = false;
  notification_error = [];
  notification_attempted_at = none;
  started_at = none;
  completed_at = none;
  created_at = 1000;
  updated_at = 1000;
}

abbrev target : RunTarget
target = record {
  id = 1;
  run_id = 1;
  node_id = "a";
  node_name = "alpha";
  status = TargetStatus.queued;
  exit_code = none;
  output = [];
  output_truncated = false;
  error = [];
  duration_ms = 0;
  started_at = none;
  completed_at = none;
  created_at = 1000;
  updated_at = 1000;
}

abbrev detail : TaskRunDetail
detail = record { run = run; targets = target ∷ [] }

-- After the claim of the first occurrence.
abbrev claimed : Db
claimed = record start {
  tasks =
      record task { next_run_at = some 2000; last_scheduled_at = some 1000; updated_at = 1000 }
      ∷ [];
  runs = run ∷ [];
  targets = target ∷ [];
  next_run_id = 2;
  next_target_id = 2;
}

claim_due_task_start : claimed_run ≡ ok (detail, claimed)
unfolding claim_due_task check_claim create_claimed_run create_task_run_tx insert_targets run_row
    get_run_summary is_taken has_target marshal_task_channels
claim_due_task_start = refl

-- A second claim of the same occurrence is lost.
claim_due_task_again :
    claim_due_task claimed 1 1000 3000 2500 1 ≡ err (claim_lost "scheduled occurrence")
unfolding claim_due_task check_claim
claim_due_task_again = refl

claim_due_task_once_example : claim_due_task claimed 1 1000 3000 2500 1 ≢ ok (detail, claimed)
claim_due_task_once_example =
    claim_due_task_once start claimed 1 1000 2000 1000 1000 detail (omega arith)
      claim_due_task_start 3000 2500 1 detail claimed

abbrev manual_run : TaskRun
manual_run = record run { trigger = Trigger.manual; scheduled_for = none }

abbrev manual : Db
manual = record start {
  runs = manual_run ∷ [];
  targets = target ∷ [];
  next_run_id = 2;
  next_target_id = 2;
}

create_manual_task_run-start :
    create_manual_task_run start 1 1000 1000
    ≡ ok (record { run = manual_run; targets = target ∷ [] }, manual)
unfolding create_manual_task_run create_task_run_tx insert_targets run_row get_run_summary is_taken
    has_target marshal_task_channels
create_manual_task_run-start = refl

start-IsExclusive : IsExclusive start
start-IsExclusive t = omega arith

claim_due_task-IsExclusive_example : IsExclusive claimed
claim_due_task-IsExclusive_example =
    claim_due_task-IsExclusive start claimed 1 1000 2000 1000 1000 detail start-IsExclusive
      claim_due_task_start

create_manual_task_run-IsExclusive_example : IsExclusive manual
create_manual_task_run-IsExclusive_example =
    create_manual_task_run-IsExclusive start manual 1 1000 1000
      (record { run = manual_run; targets = target ∷ [] }) start-IsExclusive
      create_manual_task_run-start

start-IsConsistent : IsConsistent start
start-IsConsistent = record {
  run_ids = tt;
  target_ids = tt;
  target_runs = tt;
  run_unique = λ i. omega arith;
  target_unique = λ i. omega arith;
  agrees = tt;
}

-- The claimed run with its target started.
abbrev started : Db
started = marked claimed 1 1 1100

mark_run_target_running-claimed : mark_run_target_running claimed 1 1100 1100 ≡ ok started
unfolding mark_run_target_running
mark_run_target_running-claimed = refl

claimed-IsConsistent : IsConsistent claimed
claimed-IsConsistent =
    Step-IsConsistent (claims 1 1000 2000 1000 1000 detail claim_due_task_start) start-IsConsistent

started-IsConsistent : IsConsistent started
started-IsConsistent =
    Step-IsConsistent (marks 1 1100 1100 mark_run_target_running-claimed) claimed-IsConsistent

complete_run_target-IsConsistent_example :
    IsConsistent (complete_run_target started 1 result 1600).0
complete_run_target-IsConsistent_example =
    complete_run_target-IsConsistent started 1 1600 result started-IsConsistent

aggregated-Agrees_example : Agrees (aggregated (target ∷ []) 1200 run) (target ∷ [])
aggregated-Agrees_example = aggregated-Agrees (target ∷ []) 1200 run

-- A run from its claim to the end of its only target.
abbrev history : Reach start (complete_run_target started 1 result 1600).0
history =
    next
      (next (next here (claims 1 1000 2000 1000 1000 detail claim_due_task_start))
        (marks 1 1100 1100 mark_run_target_running-claimed))
      (completes 1 1600 result refl)

Reach_lem_example :
    IsConsistent (complete_run_target started 1 result 1600).0
    × IsExclusive (complete_run_target started 1 result 1600).0
Reach_lem_example = Reach_lem history start-IsConsistent start-IsExclusive

-- The run ends with its last target, successful as the target is.
complete_run_target-started :
    map {B = RunStatus × ℕ}
      (λ r. (r.status, r.completed_targets))
      (complete_run_target started 1 result 1600).0.runs
    ≡ (RunStatus.success, 1) ∷ []
unfolding complete_run_target complete_run_target_tx ended_target aggregate_run_tx aggregated
    status_of aggregate_status get_run_summary
complete_run_target-started = refl

-- A restart while the run of the claim is running.
recover_interrupted_runs_lem_example :
    (db' : Db) × (recover_interrupted_runs started 1700 1700
      ≡ ok (length (select (λ r. is_active_run r.status) started.runs), db'))
    × All (λ r. is_active_run r.status ≡ false) db'.runs
recover_interrupted_runs_lem_example = recover_interrupted_runs_lem started 1700 1700

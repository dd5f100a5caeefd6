-- ===== src/TaskStore/Model.antt =====
-- The rows of store/tasks.go and the tables that its statements read and write.
--
-- Instants are nanoseconds, 0 being Go's zero time. An id that Go tests by `id <= 0` is a natural
-- number here, so a negative id is given as 0. A nullable column is an Option. A status column holds
-- one of the constants of the source; `other` stands for any other text that a caller may pass.
-- `notification_channels` is the JSON text of that column.
use mizu_panel.Prelude.{ℕ, String, Bool, true, false, Option, none, some, List, ◌==◌, if◌then◌else◌}
use mizu_panel.Prelude.Int.{ℤ}

pub data RunStatus : Type 0 where
  queued running success partial failed skipped interrupted : RunStatus

pub data TargetStatus : Type 0 where
  queued running success failed timed_out busy cancelled offline unsupported skipped interrupted :
      TargetStatus
  other : String → TargetStatus

pub data Trigger : Type 0 where
  manual scheduled : Trigger

pub data ScheduleType : Type 0 where
  cron once : ScheduleType

pub data NotificationPolicy : Type 0 where
  never failure always : NotificationPolicy

-- The four errors of the package, with the text that each is wrapped with, and a unique index's
-- refusal of an insert.
pub data StoreError : Type 0 where
  invalid not_found conflict claim_lost : String → StoreError
  duplicate_write : StoreError

pub record AutomationScript : Type 0 where
  pub id : ℕ
  pub name : String
  pub content : String
  pub timeout_seconds : ℕ
  pub revision : ℕ

pub record ScheduledTask : Type 0 where
  pub id : ℕ
  pub name : String
  pub script_id : ℕ
  pub schedule_type : ScheduleType
  pub enabled : Bool
  pub timeout_seconds : ℕ
  pub notification_policy : NotificationPolicy
  pub notification_channels : List ℕ
  pub next_run_at : Option ℕ
  pub last_scheduled_at : Option ℕ
  pub updated_at : ℕ

pub record TaskRun : Type 0 where
  pub id : ℕ
  pub task_id : Option ℕ
  pub script_id : Option ℕ
  pub task_name : String
  pub script_name : String
  pub script_revision : ℕ
  pub script_content : String
  pub timeout_seconds : ℕ
  pub notification_policy : NotificationPolicy
  pub notification_channels : List ℕ
  pub trigger : Trigger
  pub scheduled_for : Option ℕ
  pub status : RunStatus
  pub total_targets : ℕ
  pub completed_targets : ℕ
  pub success_targets : ℕ
  pub failed_targets : ℕ
  pub error : String
  pub notification_sent : Bool
  pub notification_error : List ℕ
  pub notification_attempted_at : Option ℕ
  pub started_at : Option ℕ
  pub completed_at : Option ℕ
  pub created_at : ℕ
  pub updated_at : ℕ

pub record RunTarget : Type 0 where
  pub id : ℕ
  pub run_id : ℕ
  pub node_id : String
  pub node_name : String
  pub status : TargetStatus
  pub exit_code : Option ℤ
  pub output : List ℕ
  pub output_truncated : Bool
  pub error : List ℕ
  pub duration_ms : ℕ
  pub started_at : Option ℕ
  pub completed_at : Option ℕ
  pub created_at : ℕ
  pub updated_at : ℕ

pub record TaskRunDetail : Type 0 where
  pub run : TaskRun
  pub targets : List RunTarget

pub record RunTargetResult : Type 0 where
  pub status : TargetStatus
  pub exit_code : Option ℤ
  pub output : List ℕ
  pub output_truncated : Bool
  pub error : List ℕ
  pub duration_ms : ℤ
  pub started_at : Option ℕ
  pub completed_at : ℕ

pub record RunTargetSnapshot : Type 0 where
  pub node_id : String
  pub node_name : String

-- The tables, each in the order in which the queries with ORDER BY return it. `task_nodes` is the
-- join of scheduled_task_nodes with the names of the nodes.
pub record Db : Type 0 where
  pub scripts : List AutomationScript
  pub tasks : List ScheduledTask
  pub task_nodes : List (ℕ × RunTargetSnapshot)
  pub runs : List TaskRun
  pub targets : List RunTarget
  pub next_run_id : ℕ
  pub next_target_id : ℕ

-- `status IN ('queued', 'running')`
abbrev pub is_active_run : RunStatus → Bool
is_active_run RunStatus.queued = true
is_active_run RunStatus.running = true
is_active_run _ = false

abbrev pub is_active_target : TargetStatus → Bool
is_active_target TargetStatus.queued = true
is_active_target TargetStatus.running = true
is_active_target _ = false

abbrev pub is_terminal_run_status : RunStatus → Bool
is_terminal_run_status RunStatus.success = true
is_terminal_run_status RunStatus.partial = true
is_terminal_run_status RunStatus.failed = true
is_terminal_run_status RunStatus.skipped = true
is_terminal_run_status RunStatus.interrupted = true
is_terminal_run_status _ = false

abbrev pub is_terminal_target_status : TargetStatus → Bool
is_terminal_target_status TargetStatus.queued = false
is_terminal_target_status TargetStatus.running = false
is_terminal_target_status (TargetStatus.other s) = false
is_terminal_target_status _ = true

abbrev pub is_success : TargetStatus → Bool
is_success TargetStatus.success = true
is_success _ = false

abbrev pub is_skipped : TargetStatus → Bool
is_skipped TargetStatus.skipped = true
is_skipped _ = false

abbrev pub is_interrupted : TargetStatus → Bool
is_interrupted TargetStatus.interrupted = true
is_interrupted _ = false

abbrev pub is_running : TargetStatus → Bool
is_running TargetStatus.running = true
is_running _ = false

abbrev pub is_queued : TargetStatus → Bool
is_queued TargetStatus.queued = true
is_queued _ = false

-- A column that may be NULL compared with a value: NULL equals nothing.
abbrev pub is_value : ℕ → Option ℕ → Bool
is_value n none = false
is_value n (some m) = m == n

-- COALESCE(column, value)
abbrev pub coalesce : Option ℕ → ℕ → Option ℕ
coalesce none n = some n
coalesce (some m) n = some m

-- `if at.IsZero() { at = time.Now() }`
abbrev pub at_or_now : ℕ → ℕ → ℕ
at_or_now at now = if at == 0 then now else at

abbrev pub max_task_output_bytes : ℕ
max_task_output_bytes = 65536

abbrev pub max_task_error_bytes : ℕ
max_task_error_bytes = 1024

abbrev pub max_notification_json_bytes : ℕ
max_notification_json_bytes = 65536

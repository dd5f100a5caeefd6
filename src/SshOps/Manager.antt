-- ===== src/SshOps/Manager.antt =====
-- The jobs of the server (sshops/jobs.go).
--
-- The map of jobs keeps the newest entry of an id first; `job_id` is what randomJobID drew. The operation
-- of a job is a parameter: the events that it emits and its error, none for success.
use text.Mathlib.Text.{◌==◌ as str_eq}
use mizu_panel.Prelude.{String, Bool, true, false, Option, none, some, List, [], ◌∷◌, if◌then◌else◌}
use mizu_panel.Prelude.Result.{Result, ok, ◌>>=◌}
use mizu_panel.SshOps.Jobs.{
  ProgressStatus, ProgressEvent, Panic, Job, add, set_status, clear_secrets, new_job,
  progress_running, progress_success, progress_failed,
}

pub record JobManager : Type 0 where
  pub jobs : List (String × Job)

unfoldable pub find_job : List (String × Job) → String → Option Job
find_job [] id = none
find_job ((key, job) ∷ jobs) id = if str_eq key id then some job else find_job jobs id

abbrev pub event : String → String → ProgressStatus → String → Bool → ProgressEvent
event step label status message is_done = record {
  step = step;
  label = label;
  status = status;
  message = message;
  is_done = is_done;
}

abbrev pub start_event : ProgressEvent
start_event = event "start" "开始" progress_running "任务已开始" false

abbrev pub final_event : Option String → ProgressEvent
final_event none = event "done" "完成" progress_success "任务已完成" true
final_event (some message) = event "failed" "失败" progress_failed message true

abbrev pub final_status : Option String → ProgressStatus
final_status none = progress_success
final_status (some message) = progress_failed

module _ (replace_all : String → String → String → String) where
  -- Start, up to the goroutine.
  unfoldable pub start : JobManager → String → List String → Result Panic JobManager
  start m job_id secrets = add replace_all (new_job secrets) start_event >>= λ job.
      ok (record { jobs = (job_id, job) ∷ m.jobs })

  abbrev pub emit_all : Job → List ProgressEvent → Result Panic Job
  emit_all j [] = ok j
  emit_all j (e ∷ es) = add replace_all j e >>= λ k. emit_all k es

  -- The goroutine of Start, with no subscription in between.
  unfoldable pub run_operation : Job → List ProgressEvent → Option String → Result Panic Job
  run_operation j emitted error = emit_all j emitted >>= λ k.
      add replace_all (set_status k (final_status error)) (final_event error) >>= λ l.
      ok (clear_secrets l)

unfoldable pub events : JobManager → String → List ProgressEvent
events m id = elim (find_job m.jobs id) [ none ↦ [] | some job ↦ job.events ]

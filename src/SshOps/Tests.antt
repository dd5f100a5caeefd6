-- ===== src/SshOps/Tests.antt =====
-- The theorems on a concrete request and a concrete job (sshops/validation.go, sshops/jobs.go).
use mizu_panel.Prelude.{◌≡◌, refl, String, true, [], ◌∷◌, none, map}
use mizu_panel.Prelude.Int.{pos}
use mizu_panel.Prelude.Result.{ok, err, ◌>>=◌}
use mizu_panel.SshOps.Request.{
  SshRequest, IsUsable, validate_ssh_request, validate_ssh_request-IsUsable, port_invalid,
}
use mizu_panel.SshOps.Jobs.{
  clear_secrets, new_job, ProgressStatus, ProgressEvent, Job, add, subscribe, set_status,
}
use mizu_panel.SshOps.Manager.{find_job, start, events, run_operation}
use mizu_panel.SshOps.Streams.{IsStreaming, Reach, here, then_step, subscribes, reach-add}

abbrev request : SshRequest
request = record {
  host = "10.0.0.7";
  port = pos 0;
  username = "root";
  auth_type = "password";
  password = "secret";
  private_key = "";
  passphrase = "";
}

abbrev same_text : String → String
same_text s = s

request_accepted : validate_ssh_request same_text request ≡ ok (record request { port = pos 22 })
unfolding validate_ssh_request
request_accepted = refl

port_refused :
    validate_ssh_request same_text (record request { port = pos 70000 }) ≡ err port_invalid
unfolding validate_ssh_request
port_refused = refl

validate_ssh_request-IsUsable_example : IsUsable same_text (record request { port = pos 22 })
validate_ssh_request-IsUsable_example =
    validate_ssh_request-IsUsable same_text request (record request { port = pos 22 })
      request_accepted

abbrev no_replacement : String → String → String → String
no_replacement message secret replacement = message

abbrev last_event : ProgressEvent
last_event = record {
  step = "done";
  label = "done";
  status = ProgressStatus.progress_success;
  message = "";
  is_done = true;
}

abbrev watched : Job
watched = subscribe (new_job [])

-- A subscriber that comes between the end of the operation and its last event misses that event.
subscribe_late :
    (subscribe (set_status (new_job []) ProgressStatus.progress_success)).left
    ≡ record { history = []; accepted = []; waiting = 0; closed = true } ∷ []
unfolding subscribe set_status
subscribe_late = refl

watched-Reach : Reach no_replacement (new_job []) watched
watched-Reach = then_step (new_job []) watched (here) (subscribes (new_job []))

reach-add_example :
    (j : Job) × (add no_replacement watched last_event ≡ ok j)
    × IsStreaming j
    × (true ≡ true → j.subscribers ≡ [])
reach-add_example = reach-add no_replacement [] watched last_event watched-Reach

-- A job that has run has its first and its last event.
job_messages :
    (start no_replacement (record { jobs = [] }) "ssh-1" [] >>= λ m.
    ok (map (λ e. e.step) (events m "ssh-1")))
    ≡ ok ("start" ∷ [])
unfolding start events find_job add
job_messages = refl

run_operation_steps :
    (run_operation no_replacement (new_job []) [] none >>= λ j. ok (map (λ e. e.step) j.events))
    ≡ ok ("done" ∷ [])
unfolding run_operation add clear_secrets set_status
run_operation_steps = refl

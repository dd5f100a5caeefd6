-- ===== src/SshOps/Jobs.antt =====
-- The log of a job and its subscribers (sshops/jobs.go).
--
-- A channel keeps the history that Subscribe returned with it, every event that was put into it and how
-- many of them wait in its buffer. `subscribers` are the channels of the job, `left` those that it no
-- longer has. A send on a closed channel and a second close are a panic.
use mizu_panel.Prelude.{ℕ, suc, String, Bool, true, false, List, [], ◌∷◌, ◌++◌, ltb, if◌then◌else◌}
use mizu_panel.Prelude.Result.{Result, ok, err, ◌>>=◌}
use mizu_panel.SshOps.Request.{sanitize_progress_message}

pub data ProgressStatus : Type 0 where
  progress_pending progress_running progress_success progress_failed : ProgressStatus

pub data Panic : Type 0 where
  closed_channel : Panic

pub record ProgressEvent : Type 0 where
  pub step : String
  pub label : String
  pub status : ProgressStatus
  pub message : String
  pub is_done : Bool

pub record Channel : Type 0 where
  pub history : List ProgressEvent
  pub accepted : List ProgressEvent
  pub waiting : ℕ
  pub closed : Bool

pub record Job : Type 0 where
  pub status : ProgressStatus
  pub events : List ProgressEvent
  pub secrets : List String
  pub subscribers : List Channel
  pub left : List Channel

-- The job that Start makes.
abbrev pub new_job : List String → Job
new_job secrets = record {
  status = ProgressStatus.progress_running;
  events = [];
  secrets = secrets;
  subscribers = [];
  left = [];
}

-- `make(chan ProgressEvent, 16)`
abbrev pub capacity : ℕ
capacity = 16

-- `select { case subscriber <- event: default: }`
abbrev pub put : ProgressEvent → Channel → Result Panic Channel
put event c =
    if c.closed
    then err closed_channel
    else if ltb c.waiting capacity
    then ok (record c { accepted = c.accepted ++ event ∷ []; waiting = suc c.waiting })
    else ok c

abbrev pub put_all : ProgressEvent → List Channel → Result Panic (List Channel)
put_all event [] = ok []
put_all event (c ∷ cs) = put event c >>= λ d. put_all event cs >>= λ ds. ok (d ∷ ds)

abbrev pub close_channel : Channel → Result Panic Channel
close_channel c = if c.closed then err closed_channel else ok (record c { closed = true })

abbrev pub close_channels : List Channel → Result Panic (List Channel)
close_channels [] = ok []
close_channels (c ∷ cs) = close_channel c >>= λ d. close_channels cs >>= λ ds. ok (d ∷ ds)

-- The channels of a final event are closed.
abbrev pub finish_add : Job → Bool → List Channel → Result Panic Job
finish_add j false subscribers = ok (record j { subscribers = subscribers })
finish_add j true subscribers = close_channels subscribers >>= λ closed.
    ok (record j { subscribers = []; left = j.left ++ closed })

-- The event as it is stored.
abbrev pub sanitized : (String → String → String → String) → Job → ProgressEvent → ProgressEvent
sanitized replace_all j event = record event {
  message = sanitize_progress_message replace_all event.message j.secrets;
}

unfoldable pub add : (String → String → String → String) → Job → ProgressEvent → Result Panic Job
add replace_all j event =
    let stored = sanitized replace_all j event in
    put_all stored j.subscribers
    >>= finish_add (record j { events = j.events ++ stored ∷ [] }) stored.is_done

unfoldable pub set_status : Job → ProgressStatus → Job
set_status j status = record j { status = status }

unfoldable pub clear_secrets : Job → Job
clear_secrets j = record j { secrets = [] }

abbrev pub new_channel : List ProgressEvent → Bool → Channel
new_channel history closed = record {
  history = history;
  accepted = [];
  waiting = 0;
  closed = closed;
}

abbrev pub is_open_status : ProgressStatus → Bool
is_open_status progress_running = true
is_open_status progress_pending = true
is_open_status _ = false

unfoldable pub subscribe : Job → Job
subscribe j =
    if is_open_status j.status
    then record j { subscribers = j.subscribers ++ new_channel j.events false ∷ [] }
    else record j { left = j.left ++ new_channel j.events true ∷ [] }

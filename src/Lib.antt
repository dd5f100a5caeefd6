-- ===== src/Lib.antt =====
-- MizuPanel: a server that manages hosts through agents. These modules model parts of the Go
-- program and prove what makes them correct.
--
-- Parts and files:
--   LogBuffer    internal/server/logbuffer/buffer.go. `Buffer` is the struct, `new`, `write` and
--                `snapshot` are New, Write and Snapshot; `none` is a panic. A call holds the lock,
--                so calls are a sequence. LogBuffer/Bounds, LogBuffer/Content and
--                LogBuffer/History prove its limits and relate a snapshot to all that was written.
--   Utf8         boundTaskText (internal/server/store/tasks.go) and boundValidUTF8
--                (internal/agent/taskrunner/runner.go), on the bytes of a text, with the
--                standard library's validity test and replacement of invalid bytes.
--   TaskStore    internal/server/store/tasks.go. `Db` holds the tables as lists of rows;
--                each transaction is a function from `Db` to a result, and an error leaves the
--                database as it was (the deferred Rollback). TaskStore/Model has the rows,
--                TaskStore/Claims ClaimDueTask, CreateManualTaskRun and DeleteScheduledTask,
--                TaskStore/Runs createTaskRunTx and aggregateRunTx, TaskStore/Transitions
--                the start and end of targets, recovery and retention. The other files are
--                about the consistency of the tables, the overlap of runs and restarts.
--   Alerting     internal/server/alerting/engine.go and the statements on alert_history of
--                internal/server/store/alerts.go. `Engine` is the map of states with the
--                table; `check_rules`, `evaluate_rule`, `handle_alert`, `check_resolution`,
--                `initialize` and `sync_states` are the methods of these names, Alerting/Rules has
--                checkThreshold and nodeInScope. float64 and what the channels of a rule report
--                are parameters. Alerting/Tracked and Alerting/Checked relate the map
--                to the open alerts, Alerting/Reached from a start over any passes, Alerting/Recovery is about a check below the threshold,
--                Alerting/Restart about one after a restart, and Alerting/Delivery models
--                deliverNotifications with its retries.
--   Policy       internal/server/ai/policy.go and the validation of a control policy in
--                internal/server/store/settings.go: which action of the assistant needs no
--                confirmation. The registered tools are a function from names.
--   Uptime       internal/server/store/uptime.go, internal/server/uptime/engine.go and model.go.
--                Uptime/Model has the rows, Uptime/Probes ApplyProbe with its incidents and the
--                pruning of results, Uptime/Monitors the other operations of the store,
--                Uptime/Engine CheckNow and Sweep (the prober and the notifier are parameters),
--                Uptime/Validation ValidateMonitor (the libraries for text and addresses are
--                parameters). Uptime/Incidents, Transitions, Kept, Invariant, Probed, Configured,
--                Operations and Steps prove what the tables keep, Uptime/Alarms what a run of probes does,
--                Uptime/Checks, Exclusive and Delivered how checks end, exclude each other and
--                record their deliveries.
--   Health       internal/server/servicecenter/health.go, with the text `ready/desired` that
--                internal/agent/kubectl/client.go prints. Health/Signals has the health of each kind
--                of resource, Health/Ready that text, Health/Aggregate the health of a service;
--                Health/ReadyText and Health/Reasons prove what is read back and how the
--                health of a service and its reasons follow from those of the resources.
--   Terminal     internal/agent/terminal/manager.go. `Manager` has the sessions and the shells of
--                the operating system, `handle`, `start`, `write`, `resize`, `close`, `close_all` and
--                `emit_exit` are the methods. Terminal/Sessions, Served and Reached relate the
--                sessions to the shells.
--   SshOps       internal/server/sshops/validation.go and jobs.go. SshOps/Request validates a
--                request, SshOps/Jobs is the log of a job with the channels of its subscribers,
--                SshOps/Manager starts and runs jobs, SshOps/Streams and SshOps/Finished prove
--                what the subscribers receive.
--   Tables       the SQL statements that the stores share, over lists of rows.
--   Prelude      names of the libraries, Boolean tests, lists over native numbers, results;
--                Prelude/Time has the durations, whose products wrap around at 64 bits and whose
--                differences stop at the longest duration.
--
-- How the parts meet: an output or an error that TaskStore keeps is bounded by Utf8, and the
-- agent bounds the same text by its own routine before it sends it. A check of Uptime/Engine
-- commits through ApplyProbe of Uptime/Probes, and TaskStore, Alerting and Uptime read and write
-- their rows by Tables.
--
-- Instants are nanoseconds and 0 is Go's zero time. The present is an argument (`now`). An id that
-- the code tests by `id <= 0` is a natural number. Errors of the database itself are left out:
-- a statement succeeds or violates a unique index. Transactions do not interleave, as the
-- databases serialise the writes of one row.
--
-- The map of alert states is a function of a rule and a node, and one pass over the rules reads
-- one time.
--
-- Fuel: the loop that trims a text of `limit` bytes takes fuel `limit`, and each turn takes one byte
-- off a text of that length; the digits of a number are printed with fuel above the number, which each
-- turn divides by ten.
--
-- A sweep of the monitors runs its checks one after the other; the table that keeps two checks of a
-- monitor apart is also modelled for any interleaving. A terminal session stands by its id, which the
-- server draws at random.
--
-- Not modelled: HTTP handlers, agents' connections, calls of Docker, systemd and Kubernetes, and
-- rendering, which are input and output; the other stores' SQL; the web interface.
pub mod Alerting
pub mod Health
pub mod LogBuffer
pub mod Policy
pub mod Prelude
pub mod SshOps
pub mod Tables
pub mod TaskStore
pub mod Terminal
pub mod Uptime
pub mod Utf8

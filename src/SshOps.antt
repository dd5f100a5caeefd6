-- ===== src/SshOps.antt =====
-- Installation over SSH: internal/server/sshops/validation.go and internal/server/sshops/jobs.go.
--
-- `Request` validates the request, `Jobs` is the log of a job with its subscribers, `Manager` starts and
-- runs jobs. The other children prove properties.
pub mod Request
pub mod Jobs
pub mod Manager
pub mod Streams
pub mod Finished
mod Tests

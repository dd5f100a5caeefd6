-- ===== src/TaskStore.antt =====
-- The store of automation tasks and their runs: internal/server/store/tasks.go.
--
-- `Model` has the rows and the database, `Runs` the life of a run and its targets, `Claims` how runs
-- are created. A transaction is a function from the database to a result with the new database;
-- an error leaves the caller with the database that it had (the deferred Rollback). The other
-- children prove properties.
pub mod Model
mod Tests
pub mod Runs
pub mod Transitions
pub mod Claims
pub mod Consistent
pub mod Marked
pub mod Preserved
pub mod Created
pub mod Claimed
pub mod Occurrence
pub mod Overlap
pub mod Inserted
pub mod History
pub mod Recovered

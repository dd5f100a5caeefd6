-- ===== src/Uptime.antt =====
-- Uptime monitoring: internal/server/store/uptime.go and internal/server/uptime/engine.go.
--
-- `Model` has the rows, `Probes` the transaction that applies the result of a probe, `Monitors` the
-- operations on monitors, `Engine` the checks. The other children prove properties.
pub mod Model
pub mod Probes
pub mod Monitors
pub mod Incidents
pub mod Transitions
pub mod Kept
pub mod Invariant
pub mod Probed
pub mod Configured
pub mod Operations
pub mod Steps
pub mod Alarms
pub mod Engine
pub mod Checks
pub mod Delivered
pub mod Exclusive
pub mod Validation
pub mod Validated
mod Tests

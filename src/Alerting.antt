-- ===== src/Alerting.antt =====
-- The alerting engine: internal/server/alerting/engine.go, with the statements on alert_history of
-- internal/server/store/alerts.go that it runs.
pub mod Model
pub mod Rules
pub mod Engine
pub mod Tracked
pub mod Kept
pub mod Synced
pub mod Checked
pub mod Reached
pub mod Restart
pub mod Recovery
pub mod Delivery
mod Tests

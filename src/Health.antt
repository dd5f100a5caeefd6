-- ===== src/Health.antt =====
-- The health of application services: internal/server/servicecenter/health.go.
--
-- `Model` has the projections of resources, `Ready` the counts of replicas as text, `Signals` the
-- health of each kind of resource, `Aggregate` the health of a service. The other children prove
-- properties.
pub mod Model
pub mod Ready
pub mod Signals
pub mod Aggregate
pub mod ReadyText
pub mod Reasons
mod Tests

-- ===== src/Health/Model.antt =====
-- Resources and their projections (servicecenter/model.go, servicecenter/health.go).
--
-- The formatted reasons are kept by the arguments of their formats.
use mizu_panel.Prelude.{ℕ, String}
use mizu_panel.Prelude.Int.{ℤ}

pub data HealthStatus : Type 0 where
  healthy degraded unhealthy unknown : HealthStatus

pub data ResourceState : Type 0 where
  missing available unavailable : ResourceState

pub record Resource : Type 0 where
  pub id : String
  pub resource_type : String
  pub display_name : String

-- `quiet` is the empty reason.
pub data Reason : Type 0 where
  quiet : Reason
  literal : String → Reason
  open_alerts : ℕ → Reason
  last_run : String → Reason
  compose_service : String → Reason
  systemd_changing systemd_state : String → Reason
  no_replicas some_replicas : ℤ → ℤ → Reason

pub record ResourceProjection : Type 0 where
  pub resource : Resource
  pub health : HealthStatus
  pub state : ResourceState
  pub reason : Reason

pub record HealthReason : Type 0 where
  pub status : HealthStatus
  pub resource_id : String
  pub resource_type : String
  pub resource_name : String
  pub message : Reason

abbrev pub projection : Resource → HealthStatus → ResourceState → Reason → ResourceProjection
projection resource health state reason = record {
  resource = resource;
  health = health;
  state = state;
  reason = reason;
}

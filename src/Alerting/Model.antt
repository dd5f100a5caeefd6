-- ===== src/Alerting/Model.antt =====
-- Rules, metrics and alerts (store/alerts.go, store/metrics.go) and the engine's state
-- (alerting/engine.go).
--
-- float64 is a parameter with its operations, `F` and `FloatOps F`. An instant is in nanoseconds. The
-- map of the engine, whose keys are the texts "rule:node", is a function of the two ids. Of a node and
-- of a metric there are the fields that the engine reads; what the channels of a rule are is left to
-- the function that delivers.
use text.Mathlib.Text.{◌==◌ as str_eq}
use mizu_panel.Prelude.{
  ℕ, String, Bool, true, false, ◌&&◌, Option, none, some, List, ◌==◌, if◌then◌else◌,
}
use mizu_panel.Prelude.Int.{ℤ}

pub record FloatOps (F : Type 0) : Type 0 where
  pub zero_float : F
  pub of_int64 : ℤ → F
  pub is_gt : F → F → Bool
  pub is_ge : F → F → Bool
  pub is_lt : F → F → Bool
  pub is_le : F → F → Bool
  pub is_eq : F → F → Bool

pub record AlertRule (F : Type 0) : Type 0 where
  pub id : ℕ
  pub name : String
  pub enabled : Bool
  pub metric_field : String
  pub operator : String
  pub threshold : F
  pub duration_seconds : ℤ
  pub scope_type : String
  pub scope_node_ids : List String

-- The fields that a rule may name.
pub record Metric (F : Type 0) : Type 0 where
  pub node_id : String
  pub cpu_usage : F
  pub memory_usage : F
  pub disk_usage : F
  pub rx_total : ℤ
  pub tx_total : ℤ
  pub load1 : F
  pub load5 : F
  pub load15 : F

pub record Node : Type 0 where
  pub id : String
  pub name : String

pub record AlertHistory (F : Type 0) : Type 0 where
  pub id : ℕ
  pub rule_id : ℕ
  pub rule_name : String
  pub node_id : String
  pub node_name : String
  pub metric_field : String
  pub metric_value : F
  pub threshold : F
  pub triggered_at : ℕ
  pub resolved_at : Option ℕ
  pub notification_sent : Bool
  pub notification_error : String
  pub notification_attempted_at : Option ℕ
  pub recovery_notification_sent : Bool
  pub recovery_notification_error : String
  pub recovery_notification_attempted_at : Option ℕ

pub record AlertState : Type 0 where
  pub rule_id : ℕ
  pub node_id : String
  pub condition_met : Bool
  pub triggered : Bool
  pub history_id : ℕ
  pub first_met_at : ℕ
  pub last_checked : ℕ

pub record NotificationDelivery : Type 0 where
  pub sent : Bool
  pub error : String
  pub attempted_at : ℕ

abbrev pub States : Type 0
States = ℕ → String → Option AlertState

abbrev pub is_key : ℕ → String → ℕ → String → Bool
is_key rule_id node_id r n = r == rule_id && str_eq n node_id

-- An assignment to the map, or a delete.
abbrev pub set_state : States → ℕ → String → Option AlertState → States
set_state states rule_id node_id entry r n =
    if is_key rule_id node_id r n then entry else states r n

-- The engine and the table alert_history.
pub record Engine (F : Type 0) : Type 0 where
  pub states : States
  pub histories : List (AlertHistory F)
  pub next_history_id : ℕ

abbrev is_null : Option ℕ → Bool
is_null none = true
is_null (some n) = false

-- `resolved_at IS NULL`
abbrev pub is_active : {F : Type 0} → AlertHistory F → Bool
is_active h = is_null h.resolved_at

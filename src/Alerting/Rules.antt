-- ===== src/Alerting/Rules.antt =====
-- What a rule asks of a metric, and which nodes it covers (alerting/engine.go: getMetricValue,
-- nodeInScope, checkThreshold).
use text.Mathlib.Text.{◌==◌ as str_eq}
use mizu_panel.Prelude.{
  String, Bool, true, false, ◌||◌, Option, none, some, List, [], ◌∷◌, if◌then◌else◌,
}
use mizu_panel.Prelude.Int.{ℤ}
use mizu_panel.Alerting.Model.{FloatOps, AlertRule, Metric}

pub data MetricValue (F : Type 0) : Type 0 where
  float : F → MetricValue F
  integer : ℤ → MetricValue F

-- The names of the rule's field and, by reflection, the field of the struct; Metric has no field
-- SwapUsage, so that name has no value.
unfoldable pub get_metric_value : {F : Type 0} → Metric F → String → Option (MetricValue F)
get_metric_value metric field =
    if str_eq field "cpu_usage"
    then some (float metric.cpu_usage)
    else if str_eq field "memory_usage"
    then some (float metric.memory_usage)
    else if str_eq field "disk_usage"
    then some (float metric.disk_usage)
    else if str_eq field "swap_usage"
    then none
    else if str_eq field "network_rx_bytes"
    then some (integer metric.rx_total)
    else if str_eq field "network_tx_bytes"
    then some (integer metric.tx_total)
    else if str_eq field "load_1"
    then some (float metric.load1)
    else if str_eq field "load_5"
    then some (float metric.load5)
    else if str_eq field "load_15"
    then some (float metric.load15)
    else none

unfoldable pub node_in_list : List String → String → Bool
node_in_list [] node_id = false
node_in_list (id ∷ ids) node_id = str_eq id node_id || node_in_list ids node_id

unfoldable pub node_in_scope : {F : Type 0} → AlertRule F → String → Bool
node_in_scope rule node_id =
    if str_eq rule.scope_type "all"
    then true
    else if str_eq rule.scope_type "nodes"
    then node_in_list rule.scope_node_ids node_id
    else false

module _ {F : Type 0} (ops : FloatOps F) where
  -- `floatValue`, 0.0 where there is no value
  abbrev pub float_of : Option (MetricValue F) → F
  float_of none = ops.zero_float
  float_of (some (float v)) = v
  float_of (some (integer n)) = ops.of_int64 n

  unfoldable pub compares : String → F → F → Bool
  compares operator value threshold =
      if str_eq operator ">"
      then ops.is_gt value threshold
      else if str_eq operator ">="
      then ops.is_ge value threshold
      else if str_eq operator "<"
      then ops.is_lt value threshold
      else if str_eq operator "<="
      then ops.is_le value threshold
      else if str_eq operator "="
      then ops.is_eq value threshold
      else false

  unfoldable pub check_threshold : AlertRule F → Metric F → Bool
  check_threshold rule metric = elim (get_metric_value metric rule.metric_field) [
    | none ↦ false
    | some v ↦ compares rule.operator (float_of (some v)) rule.threshold
  ]

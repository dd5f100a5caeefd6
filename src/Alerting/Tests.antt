-- ===== src/Alerting/Tests.antt =====
-- The engine's theorems at concrete inputs, with natural numbers for the floats.
use mizu_panel.Prelude.{
  ℕ, ◌≤◌, ◌≡◌, refl, String, true, false, Option, none, some, List, [], ◌∷◌, if◌then◌else◌, arith,
  ltb, leb, ◌==◌, All,
}
use mizu_panel.Prelude.Int.{ℤ, pos, negsuc}
use mizu_panel.Alerting.Model.{
  FloatOps, AlertRule, Metric, Node, AlertHistory, NotificationDelivery, Engine, is_active,
}
use mizu_panel.Alerting.Rules.{check_threshold, compares, get_metric_value, node_in_scope}
use mizu_panel.Alerting.Engine.{has_elapsed, check_metric, active_at, initialize, check_rules}
use mizu_panel.Alerting.Tracked.{IsTracked, open_alerts}
use mizu_panel.Alerting.Reached.{Reach, initialized, checked_once, reach-open_alerts}
use mizu_panel.Prelude.Time.{seconds, sub}
use mizu_panel.Alerting.Checked.{check_rules-IsTracked}
use mizu_panel.Alerting.Synced.{initialize-IsTracked}
use mizu_panel.Alerting.Recovery.{check_metric-closes}
use mizu_panel.Alerting.Delivery.{
  DeliveryError, IsDelivered, deliver_channel_with_retry, deliver_channel_with_retry_lem,
}
use mizu_panel.Alerting.Restart.{check_metric-initialize, check_metric_swap}

abbrev natural : ℤ → ℕ
natural (pos n) = n
natural (negsuc n) = 0

abbrev floats : FloatOps ℕ
floats = record {
  zero_float = 0;
  of_int64 = natural;
  is_gt = λ a b. ltb b a;
  is_ge = λ a b. leb b a;
  is_lt = ltb;
  is_le = leb;
  is_eq = λ a b. a == b;
}

abbrev delivered : AlertRule ℕ → String → NotificationDelivery
delivered rule status = record { sent = true; error = ""; attempted_at = 9 }

abbrev rule : AlertRule ℕ
rule = record {
  id = 1;
  name = "cpu";
  enabled = true;
  metric_field = "cpu_usage";
  operator = ">";
  threshold = 80;
  duration_seconds = pos 60;
  scope_type = "all";
  scope_node_ids = [];
}

abbrev swap_rule : AlertRule ℕ
swap_rule = record rule { metric_field = "swap_usage" }

abbrev metric_of : String → Metric ℕ
metric_of id = record {
  node_id = id;
  cpu_usage = 95;
  memory_usage = 10;
  disk_usage = 10;
  rx_total = pos 0;
  tx_total = pos 0;
  load1 = 0;
  load5 = 0;
  load15 = 0;
}

abbrev node : Node
node = record { id = "a"; name = "alpha" }

abbrev alert : AlertHistory ℕ
alert = record {
  id = 1;
  rule_id = 1;
  rule_name = "cpu";
  node_id = "a";
  node_name = "alpha";
  metric_field = "cpu_usage";
  metric_value = 95;
  threshold = 80;
  triggered_at = 100;
  resolved_at = none;
  notification_sent = true;
  notification_error = "";
  notification_attempted_at = some 100;
  recovery_notification_sent = false;
  recovery_notification_error = "";
  recovery_notification_attempted_at = none;
}

-- A table with one open alert, before the engine has read it.
abbrev fresh : Engine ℕ
fresh = record { states = λ r n. none; histories = alert ∷ []; next_history_id = 2 }

single_open : (r : ℕ) (n : String) → open_alerts fresh r n ≤ 1
single_open r n = ground arith

fresh-IsTracked : IsTracked (initialize fresh 200)
fresh-IsTracked =
    initialize-IsTracked fresh 200 (omega arith, tt) (omega arith, tt) (λ i. ground arith)
      (omega arith) single_open

initialize-IsTracked_example : IsTracked (initialize fresh 200)
initialize-IsTracked_example =
    initialize-IsTracked fresh 200 (omega arith, tt) (omega arith, tt) (λ i. ground arith)
      (omega arith) single_open

latest_metric :
    (id : String) (metric : Metric ℕ) → some (metric_of id) ≡ some metric → metric.node_id ≡ id
latest_metric id metric h = ground arith

check_rules-IsTracked_example :
    IsTracked
      (check_rules floats delivered
        (λ id. some (metric_of id))
        (initialize fresh 200)
        (rule ∷ [])
        (node ∷ [])
        300).0
check_rules-IsTracked_example =
    check_rules-IsTracked floats delivered (λ id. some (metric_of id)) (initialize fresh 200)
      (rule ∷ []) (node ∷ []) 300 latest_metric fresh-IsTracked

abbrev checked : Engine ℕ
checked =
    (check_rules floats delivered (λ id. some (metric_of id)) (initialize fresh 200) (rule ∷ [])
      (node ∷ []) 300).0

checked-Reach : Reach floats fresh checked
checked-Reach =
    checked_once (initialize fresh 200) delivered (λ id. some (metric_of id)) (rule ∷ [])
      (node ∷ []) 300 (initialized 200) latest_metric

reach-open_alerts_example : open_alerts checked 1 "a" ≤ 1
reach-open_alerts_example =
    reach-open_alerts floats fresh checked 1 "a" (omega arith, tt) (omega arith, tt)
      (λ i. ground arith) (omega arith) single_open checked-Reach

-- A duration of 10 ^ 10 seconds does not fit and has elapsed at once.
has_elapsed_wraps : has_elapsed (pos 10000000000) 100 101 ≡ true
unfolding has_elapsed seconds sub
has_elapsed_wraps = refl

threshold_met : check_threshold floats rule (metric_of "a") ≡ true
unfolding check_threshold get_metric_value compares
threshold_met = refl

in_scope : node_in_scope rule "a" ≡ true
unfolding node_in_scope
in_scope = refl

fresh_open : active_at fresh.histories 1 "a" ≡ some alert
unfolding active_at
fresh_open = refl

check_metric-initialize_example :
    All
      (λ k. k.id ≡ 1 → is_active k ≡ false)
      (check_metric floats delivered
        (initialize fresh 200)
        rule
        node
        (metric_of "a")
        300).0.histories
check_metric-initialize_example =
    check_metric-initialize floats delivered fresh rule node (metric_of "a") 200 300 alert alert 60
      fresh_open refl (omega arith) refl in_scope threshold_met refl (omega arith) (omega arith)
      (omega arith)

check_metric_swap_example :
    (check_metric floats delivered fresh swap_rule node (metric_of "a") 300).0.next_history_id ≡ 2
check_metric_swap_example =
    check_metric_swap floats delivered fresh swap_rule node (metric_of "a") 300 refl

-- The load has fallen below the threshold.
abbrev calm : Metric ℕ
calm = record (metric_of "a") { cpu_usage = 10 }

threshold_not_met : check_threshold floats rule calm ≡ false
unfolding check_threshold get_metric_value compares
threshold_not_met = refl

check_metric-closes_example :
    open_alerts (check_metric floats delivered (initialize fresh 200) rule node calm 300).0 1 "a"
    ≡ 0
check_metric-closes_example =
    check_metric-closes floats delivered (initialize fresh 200) rule node calm 300 fresh-IsTracked
      threshold_not_met

-- A channel that answers at the second attempt.
abbrev slow_channel : ℕ → Option DeliveryError
slow_channel attempt =
    if attempt == 0 then some (record { message = "request timed out"; retryable = true }) else none

abbrev delays : List ℕ
delays = 0 ∷ 250 ∷ 750 ∷ []

delivered_at_last :
    deliver_channel_with_retry slow_channel (λ a. false) delays ≡ record { error = none; sends = 2 }
unfolding deliver_channel_with_retry
delivered_at_last = refl

deliver_channel_with_retry_lem_example :
    (let attempts = deliver_channel_with_retry slow_channel (λ a. false) delays in
      (attempts.error ≡ none → IsDelivered slow_channel 0 3) × (attempts.sends ≤ 3))
deliver_channel_with_retry_lem_example =
    deliver_channel_with_retry_lem slow_channel (λ a. false) delays (omega arith)

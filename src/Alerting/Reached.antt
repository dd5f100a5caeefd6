-- ===== src/Alerting/Reached.antt =====
-- The engine from its start over any passes of CheckRules (alerting/engine.go: Initialize, CheckRules).
use mizu_panel.Prelude.{ℕ, ◌≤◌, ◌<◌, ◌≡◌, String, Option, some, List, ◌==◌, count_if, All}
use mizu_panel.Alerting.Model.{FloatOps, AlertRule, Metric, Node, NotificationDelivery, Engine}
use mizu_panel.Alerting.Engine.{check_rules, initialize}
use mizu_panel.Alerting.Tracked.{IsTracked, open_alerts, IsTracked-open_alerts}
use mizu_panel.Alerting.Synced.{initialize-IsTracked}
use mizu_panel.Alerting.Checked.{check_rules-IsTracked}

-- A pass reads the rules, the nodes, the latest metric of each node, and the time; `deliver` is what the
-- notifications of the pass report.
pub data Reach {F : Type 0} (ops : FloatOps F) (start : Engine F) : Engine F → Type 0 where
  initialized : (restart : ℕ) → Reach ops start (initialize start restart)
  checked_once :
      (e : Engine F) (deliver : AlertRule F → String → NotificationDelivery)
      (latest : String → Option (Metric F)) (rules : List (AlertRule F)) (nodes : List Node)
      (now : ℕ)
      → Reach ops start e
      → ((id : String) (metric : Metric F) → latest id ≡ some metric → metric.node_id ≡ id)
      → Reach ops start (check_rules ops deliver latest e rules nodes now).0

module _ {F : Type 0} (ops : FloatOps F) (start : Engine F) where
  reach-IsTracked :
      (e : Engine F)
      → All (λ h. 0 < h.id) start.histories
      → All (λ h. h.id < start.next_history_id) start.histories
      → ((i : ℕ) → count_if (λ h. h.id == i) start.histories ≤ 1)
      → 0 < start.next_history_id
      → ((r : ℕ) (n : String) → open_alerts start r n ≤ 1)
      → Reach ops start e
      → IsTracked e
  reach-IsTracked _ positive below unique next single (initialized restart) =
      initialize-IsTracked start restart positive below unique next single
  reach-IsTracked _ positive below unique next single
        (checked_once e deliver latest rules nodes now r same) =
      check_rules-IsTracked ops deliver latest e rules nodes now same
        (reach-IsTracked e positive below unique next single r)

  -- Where the ids of alerts are positive, unique and below the next, and a rule has at most one
  -- open alert of a node, when the engine starts, and where the query for the latest metric returns
  -- a row of its node: after Initialize and any passes of CheckRules, each with its own rules,
  -- nodes, metrics and time, a rule still has at most one open alert of a node.
  pub reach-open_alerts :
      (e : Engine F) (rule_id : ℕ) (node_id : String)
      → All (λ h. 0 < h.id) start.histories
      → All (λ h. h.id < start.next_history_id) start.histories
      → ((i : ℕ) → count_if (λ h. h.id == i) start.histories ≤ 1)
      → 0 < start.next_history_id
      → ((r : ℕ) (n : String) → open_alerts start r n ≤ 1)
      → Reach ops start e
      → open_alerts e rule_id node_id ≤ 1
  reach-open_alerts e rule_id node_id positive below unique next single r =
      IsTracked-open_alerts e rule_id node_id
        (reach-IsTracked e positive below unique next single r)

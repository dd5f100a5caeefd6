-- ===== src/Alerting/Engine.antt =====
-- The operations of the engine (alerting/engine.go): the evaluation of a rule with its duration, the
-- creation and the resolution of alerts, the pass over rules and nodes, and the state after a restart.
-- `now` is the time that a step reads, `deliver` what the notification
-- channels of the rule report for a payload of the given status.
use mizu_panel.Prelude.{
  ℕ, suc, String, Bool, true, false, not, ◌&&◌, ◌||◌, Option, none, some, List, [], ◌∷◌, ◌++◌, ltb,
  ◌==◌, if◌then◌else◌, select,
}
use mizu_panel.Prelude.Int.{ℤ, pos, negsuc}
use mizu_panel.Prelude.Time.{seconds, sub, le_duration}
use mizu_panel.Tables.{find_first, update_where}
use mizu_panel.Alerting.Model.{
  FloatOps, AlertRule, Metric, Node, AlertHistory, AlertState, NotificationDelivery, is_key,
  set_state, Engine, is_active,
}
use mizu_panel.Alerting.Rules.{get_metric_value, node_in_scope, float_of, check_threshold}

abbrev pub is_immediate : ℤ → Bool
is_immediate (pos n) = n == 0
is_immediate (negsuc n) = false

-- The time since the condition was first met against the duration, both as an int64 of nanoseconds.
unfoldable pub has_elapsed : (duration_seconds : ℤ) → (first_met_at now : ℕ) → Bool
has_elapsed duration_seconds first_met_at now =
    is_immediate duration_seconds || le_duration (seconds duration_seconds) (sub now first_met_at)

abbrev first_state : ℕ → String → ℕ → AlertState
first_state rule_id node_id now = record {
  rule_id = rule_id;
  node_id = node_id;
  condition_met = true;
  triggered = false;
  history_id = 0;
  first_met_at = now;
  last_checked = now;
}

-- What evaluateRule returns and leaves under the key, from the threshold test and what was there.
abbrev pub evaluate_state :
    (rule_id : ℕ) (node_id : String) (duration_seconds : ℤ) (now : ℕ)
    → Bool
    → Option AlertState
    → Bool × Option AlertState
evaluate_state rule_id node_id duration now false none = (false, none)
evaluate_state rule_id node_id duration now false (some s) =
    (false, if s.triggered then some s else none)
evaluate_state rule_id node_id duration now true none =
    (is_immediate duration, some (first_state rule_id node_id now))
evaluate_state rule_id node_id duration now true (some s) =
    (has_elapsed duration s.first_met_at now, some (record s { last_checked = now }))

module _ {F : Type 0} (ops : FloatOps F)
    (deliver : AlertRule F → String → NotificationDelivery) where
  unfoldable pub evaluate_rule : Engine F → AlertRule F → Metric F → ℕ → Bool × Engine F
  evaluate_rule e rule metric now =
      let result =
        evaluate_state rule.id metric.node_id rule.duration_seconds now
          (check_threshold ops rule metric) (e.states rule.id metric.node_id) in
      if node_in_scope rule metric.node_id
      then (result.0, record e { states = set_state e.states rule.id metric.node_id result.1 })
      else (false, e)

  abbrev pub new_history : Engine F → AlertRule F → Node → Metric F → ℕ → AlertHistory F
  new_history e rule node metric now =
      let delivery = deliver rule "triggered" in
      record {
        id = e.next_history_id;
        rule_id = rule.id;
        rule_name = rule.name;
        node_id = node.id;
        node_name = node.name;
        metric_field = rule.metric_field;
        metric_value = float_of ops (get_metric_value metric rule.metric_field);
        threshold = rule.threshold;
        triggered_at = now;
        resolved_at = none;
        notification_sent = delivery.sent;
        notification_error = delivery.error;
        notification_attempted_at = some delivery.attempted_at;
        recovery_notification_sent = false;
        recovery_notification_error = "";
        recovery_notification_attempted_at = none;
      }

  abbrev pub with_value : F → AlertHistory F → AlertHistory F
  with_value v h = record h { metric_value = v }

  abbrev pub mark_triggered : ℕ → Option AlertState → Option AlertState
  mark_triggered history_id none = none
  mark_triggered history_id (some s) = some (record s { triggered = true; history_id = history_id })

  -- handleAlert after it has found that no alert is triggered: INSERT, delivery, UPDATE of the
  -- notification's result, and the mark in the state.
  abbrev pub create_alert : Engine F → AlertRule F → Node → Metric F → ℕ → Engine F
  create_alert e rule node metric now = record {
    states =
        set_state e.states rule.id metric.node_id
          (mark_triggered e.next_history_id (e.states rule.id metric.node_id));
    histories = e.histories ++ new_history e rule node metric now ∷ [];
    next_history_id = suc e.next_history_id;
  }

  abbrev pub update_value : Engine F → ℕ → F → Engine F
  update_value e history_id v = record e {
    histories = update_where (λ h. h.id == history_id) (with_value v) e.histories;
  }

  unfoldable pub handle_alert : Engine F → AlertRule F → Node → Metric F → ℕ → Engine F
  handle_alert e rule node metric now = elim (e.states rule.id metric.node_id) [
    | none ↦ create_alert e rule node metric now
    | some s ↦
        if s.triggered
        then (if ltb 0 s.history_id
            then update_value e s.history_id
                (float_of ops (get_metric_value metric rule.metric_field))
            else e)
        else create_alert e rule node metric now
  ]

  -- The two UPDATE statements of checkResolution.
  abbrev pub resolved_history : AlertRule F → ℕ → AlertHistory F → AlertHistory F
  resolved_history rule now h =
      let delivery = deliver rule "resolved" in
      record h {
        resolved_at = some now;
        recovery_notification_sent = delivery.sent;
        recovery_notification_error = delivery.error;
        recovery_notification_attempted_at = some delivery.attempted_at;
      }

  abbrev pub resolve_alert : Engine F → AlertRule F → String → ℕ → ℕ → Engine F
  resolve_alert e rule node_id history_id now = record e {
    states = set_state e.states rule.id node_id none;
    histories = update_where (λ h. h.id == history_id) (resolved_history rule now) e.histories;
  }

  -- The error is that of an alert which is not in the table.
  unfoldable pub check_resolution : Engine F → AlertRule F → Node → ℕ → Engine F × Option ℕ
  check_resolution e rule node now = elim (e.states rule.id node.id) [
    | none ↦ (e, none)
    | some s ↦
        if s.triggered && ltb 0 s.history_id
        then elim (find_first (λ h. h.id == s.history_id) e.histories) [
          | none ↦ (e, some s.history_id)
          | some h ↦ (resolve_alert e rule node.id s.history_id now, none)
        ]
        else (e, none)
  ]

  -- The body of the loops of CheckRules for a node in scope that has a metric.
  unfoldable pub check_metric : Engine F → AlertRule F → Node → Metric F → ℕ → Engine F × Option ℕ
  check_metric e rule node metric now =
      let evaluated = evaluate_rule e rule metric now in
      if evaluated.0
      then (handle_alert evaluated.1 rule node metric now, none)
      else check_resolution evaluated.1 rule node now

  unfoldable pub check_node :
      (String → Option (Metric F)) → Engine F → AlertRule F → Node → ℕ → Engine F × Option ℕ
  check_node latest e rule node now =
      if node_in_scope rule node.id
      then elim (latest node.id) [
        | none ↦ (e, none)
        | some metric ↦ check_metric e rule node metric now
      ]
      else (e, none)

  -- The loops; the first error ends both.
  unfoldable pub check_nodes :
      (String → Option (Metric F)) → Engine F → AlertRule F → List Node → ℕ → Engine F × Option ℕ
  check_nodes latest e rule [] now = (e, none)
  check_nodes latest e rule (node ∷ nodes) now =
      let checked = check_node latest e rule node now in
      let rest = check_nodes latest checked.0 rule nodes now in
      elim checked.1 [ none ↦ rest | some i ↦ (checked.0, some i) ]

  unfoldable pub check_enabled :
      (String → Option (Metric F))
      → Engine F
      → List (AlertRule F)
      → List Node
      → ℕ
      → Engine F × Option ℕ
  check_enabled latest e [] nodes now = (e, none)
  check_enabled latest e (rule ∷ rules) nodes now =
      let checked = check_nodes latest e rule nodes now in
      let rest = check_enabled latest checked.0 rules nodes now in
      elim checked.1 [ none ↦ rest | some i ↦ (checked.0, some i) ]

-- Whether a rule of the table with this id is disabled.
unfoldable pub is_disabled : {F : Type 0} → List (AlertRule F) → ℕ → Bool
is_disabled [] rule_id = false
is_disabled (rule ∷ rules) rule_id =
    (rule.id == rule_id && not rule.enabled) || is_disabled rules rule_id

abbrev pub resolved_at : {F : Type 0} → ℕ → AlertHistory F → AlertHistory F
resolved_at now h = record h { resolved_at = some now }

-- ResolveActiveAlertHistoryForDisabledRules
abbrev pub resolve_disabled : {F : Type 0} → Engine F → List (AlertRule F) → ℕ → Engine F
resolve_disabled e rules now = record e {
  histories =
      update_where (λ h. is_active h && is_disabled rules h.rule_id) (resolved_at now) e.histories;
}

-- The rows of GetActiveAlertHistory put under their keys: a later row replaces an earlier one. The
-- table is taken in the order of that query.
unfoldable pub active_at :
    {F : Type 0} → List (AlertHistory F) → ℕ → String → Option (AlertHistory F)
active_at [] r n = none
active_at (h ∷ hs) r n =
    let later = active_at hs r n in
    elim later [
      | some k ↦ some k
      | none ↦ if is_active h && is_key r n h.rule_id h.node_id then some h else none
    ]

abbrev pub sync_state :
    {F : Type 0} → Option (AlertHistory F) → Option AlertState → Option AlertState
sync_state row none = none
sync_state none (some s) = if s.triggered then none else some s
sync_state (some h) (some s) = if s.triggered then some (record s { history_id = h.id }) else some s

-- syncStatesWithActiveAlerts
abbrev pub sync_states : {F : Type 0} → Engine F → Engine F
sync_states e = record e { states = λ r n. sync_state (active_at e.histories r n) (e.states r n) }

abbrev pub restored :
    {F : Type 0} → ℕ → Option (AlertHistory F) → Option AlertState → Option AlertState
restored now none old = old
restored now (some h) old = some (record {
  rule_id = h.rule_id;
  node_id = h.node_id;
  condition_met = true;
  triggered = true;
  history_id = h.id;
  first_met_at = h.triggered_at;
  last_checked = now;
})

-- Initialize
abbrev pub initialize : {F : Type 0} → Engine F → ℕ → Engine F
initialize e now = record e {
  states = λ r n. restored now (active_at e.histories r n) (e.states r n);
}

-- CheckRules; `rules` is the table of rules, in the order of their ids.
unfoldable pub check_rules :
    {F : Type 0}
    → FloatOps F
    → (AlertRule F → String → NotificationDelivery)
    → (String → Option (Metric F))
    → Engine F
    → List (AlertRule F)
    → List Node
    → ℕ
    → Engine F × Option ℕ
check_rules ops deliver latest e rules nodes now =
    check_enabled ops deliver latest (sync_states (resolve_disabled e rules now))
      (select (λ rule. rule.enabled) rules) nodes now

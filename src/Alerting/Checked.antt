-- ===== src/Alerting/Checked.antt =====
-- The checks of rules keep the map in step with the open alerts (alerting/engine.go).
use mathlib.Core.Path.{subst}
use mizu_panel.Prelude.{
  ℕ, ◌<◌, ◌≡◌, refl, ap, ◌∙◌, String, Bool, true, false, ◌&&◌, Option, none, some, List, [], ◌∷◌,
  arith, ltb, ◌==◌, ==_iff, if◌then◌else◌, All-append, Bool-cases, Option-cases, inl, inr,
}
use mizu_panel.Tables.{find_first, All-map, count_if-append}
use mizu_panel.Alerting.Model.{
  FloatOps, AlertRule, Metric, Node, AlertState, NotificationDelivery, set_state, Engine, is_active,
}
use mizu_panel.Alerting.Rules.{node_in_scope, float_of, get_metric_value}
use mizu_panel.Alerting.Engine.{
  evaluate_rule, new_history, with_value, mark_triggered, create_alert, update_value, handle_alert,
  resolved_history, resolve_alert, check_resolution, check_metric, check_node, check_nodes,
  check_enabled, is_disabled, resolved_at, resolve_disabled, check_rules,
}
use mizu_panel.Alerting.Tracked.{tracks, IsFollowed, IsTracked, set_state_same}
use mizu_panel.Alerting.Kept.{
  states-IsTracked, evaluate_state-tracks, evaluate_state_there, assigned_tracks, either-IsFollowed,
  left-IsFollowed, fresh_id, update-IsTracked,
}
use mizu_panel.Alerting.Synced.{sync_states-IsTracked}

module _ {F : Type 0} (ops : FloatOps F)
    (deliver : AlertRule F → String → NotificationDelivery) where
  pub evaluate_rule-IsTracked :
      (e : Engine F) (rule : AlertRule F) (metric : Metric F) (now : ℕ)
      → IsTracked e
      → IsTracked (evaluate_rule ops deliver e rule metric now).1
  unfolding evaluate_rule
  evaluate_rule-IsTracked e rule metric now v =
      elim (Bool-cases (node_in_scope rule metric.node_id)) [
        | inl inside ↦
            rw (inside, evaluate_rule)
              (states-IsTracked e _
                (λ q m i.
                  assigned_tracks e.states rule.id q metric.node_id m i _
                    (evaluate_state-tracks rule.id metric.node_id rule.duration_seconds now i _ _))
                v)
        | inr outside ↦ rw (outside, evaluate_rule) v
      ]

  evaluate_rule_there :
      (e : Engine F) (rule : AlertRule F) (metric : Metric F) (now : ℕ)
      → (evaluate_rule ops deliver e rule metric now).0 ≡ true
      → (s : AlertState) × ((evaluate_rule ops deliver e rule metric now).1.states rule.id
            metric.node_id
          ≡ some s)
  unfolding evaluate_rule
  evaluate_rule_there e rule metric now h = elim (Bool-cases (node_in_scope rule metric.node_id)) [
    | inl inside ↦
        let (s, there) =
          evaluate_state_there rule.id metric.node_id rule.duration_seconds now _ _
            (rw (inside, evaluate_rule) at h) in
        (s, rw (inside, evaluate_rule) (set_state_same e.states rule.id metric.node_id _ ∙ there))
    | inr outside ↦ absurd (ground arith)
  ]

  -- The creation of an alert where the state under its key is not triggered.
  create_alert-IsTracked :
      (e : Engine F) (rule : AlertRule F) (node : Node) (metric : Metric F) (now : ℕ)
      (s : AlertState)
      → metric.node_id ≡ node.id
      → e.states rule.id metric.node_id ≡ some s
      → s.triggered ≡ false
      → IsTracked e
      → IsTracked (create_alert ops deliver e rule node metric now)
  create_alert-IsTracked e rule node metric now s same there idle v = record {
    followed =
        All-append _ e.histories _
          (All-map (IsFollowed e.states) _ e.histories
            (λ h f a.
              assigned_tracks e.states rule.id h.rule_id metric.node_id h.node_id h.id _
                (λ t. absurd (ground (arith, there, idle, t))) (f a))
            v.followed)
          ((λ a. marked), tt);
    ids_positive = All-append _ e.histories _ v.ids_positive (v.next_positive, tt);
    ids_below =
        All-append _ e.histories _
          (All-map (λ h. h.id < e.next_history_id) _ e.histories (λ h l. omega arith) v.ids_below)
          (omega arith, tt);
    ids_unique = λ i. ground (
      arith,
      v.ids_unique i,
      count_if-append (λ h. h.id == i) e.histories
          (new_history ops deliver e rule node metric now ∷ []),
      fresh_id e.histories e.next_history_id v.ids_below,
    );
    next_positive = omega arith;
  }
    where
      marked :
          tracks
            (set_state e.states rule.id metric.node_id
              (mark_triggered ops deliver e.next_history_id (e.states rule.id metric.node_id))
              rule.id
              node.id)
            e.next_history_id
          ≡ true
      marked =
          subst
            (λ n.
              tracks
                (set_state e.states rule.id metric.node_id
                  (mark_triggered ops deliver e.next_history_id (e.states rule.id metric.node_id))
                  rule.id n)
                e.next_history_id
              ≡ true)
            same
            (ap (λ x. tracks x e.next_history_id)
                (set_state_same e.states rule.id metric.node_id _
                  ∙ ap (mark_triggered ops deliver e.next_history_id) there)
              ∙ (==_iff e.next_history_id e.next_history_id).1 refl)

  handle_alert-IsTracked :
      (e : Engine F) (rule : AlertRule F) (node : Node) (metric : Metric F) (now : ℕ)
      (s : AlertState)
      → metric.node_id ≡ node.id
      → e.states rule.id metric.node_id ≡ some s
      → IsTracked e
      → IsTracked (handle_alert ops deliver e rule node metric now)
  unfolding handle_alert
  handle_alert-IsTracked e rule node metric now s same there v = elim (Bool-cases s.triggered) [
    | inl fired ↦ rw (there, handle_alert) (rw (fired, handle_alert) (updated (ltb 0 s.history_id)))
    | inr idle ↦
        rw (there, handle_alert)
          (rw (idle, handle_alert)
            (create_alert-IsTracked e rule node metric now s same there idle v))
  ]
    where
      updated :
          (b : Bool)
          → IsTracked (
              if b
              then update_value ops deliver e s.history_id
                  (float_of ops (get_metric_value metric rule.metric_field))
              else e)
      updated false = v
      updated true =
          update-IsTracked e (λ h. h.id == s.history_id) (with_value ops deliver _) (λ h. refl)
            (λ h. refl) (λ h. refl) e.states
            (λ h f. either-IsFollowed e.states (h.id == s.history_id) _ h (λ _. f) (λ _. f)) v

  -- After the two UPDATE statements the alert is closed, and the others of the key are not open.
  pub resolve_alert-IsTracked :
      (e : Engine F) (rule : AlertRule F) (node_id : String) (now : ℕ) (s : AlertState)
      → e.states rule.id node_id ≡ some s
      → IsTracked e
      → IsTracked (resolve_alert ops deliver e rule node_id s.history_id now)
  resolve_alert-IsTracked e rule node_id now s there v =
      update-IsTracked e (λ h. h.id == s.history_id) (resolved_history ops deliver rule now)
        (λ h. refl) (λ h. refl) (λ h. refl) (set_state e.states rule.id node_id none)
        (λ h f.
          either-IsFollowed (set_state e.states rule.id node_id none) (h.id == s.history_id)
            (resolved_history ops deliver rule now h) h (λ _ a. absurd (ground arith))
            (λ other. left-IsFollowed e.states rule.id node_id s h there other f))
        v

  check_resolution-IsTracked :
      (e : Engine F) (rule : AlertRule F) (node : Node) (now : ℕ)
      → IsTracked e
      → IsTracked (check_resolution ops deliver e rule node now).0
  unfolding check_resolution
  check_resolution-IsTracked e rule node now v = elim (Option-cases (e.states rule.id node.id)) [
    | inl gone ↦ rw (gone, check_resolution) v
    | inr (s, there) ↦
        rw (there, check_resolution)
          (elim (Bool-cases (s.triggered && ltb 0 s.history_id)) [
            | inl fired ↦
                rw fired (elim (Option-cases (find_first (λ h. h.id == s.history_id) e.histories)) [
                  | inl lost ↦ rw lost v
                  | inr (h, found) ↦ rw found (resolve_alert-IsTracked e rule node.id now s there v)
                ])
            | inr idle ↦ rw idle v
          ])
  ]

  check_metric-IsTracked :
      (e : Engine F) (rule : AlertRule F) (node : Node) (metric : Metric F) (now : ℕ)
      → metric.node_id ≡ node.id
      → IsTracked e
      → IsTracked (check_metric ops deliver e rule node metric now).0
  unfolding check_metric
  check_metric-IsTracked e rule node metric now same v =
      let w = evaluate_rule-IsTracked e rule metric now v in
      elim (Bool-cases (evaluate_rule ops deliver e rule metric now).0) [
        | inl fires ↦
            let (s, there) = evaluate_rule_there e rule metric now fires in
            rw (fires, check_metric) (handle_alert-IsTracked _ rule node metric now s same there w)
        | inr idle ↦ rw (idle, check_metric) (check_resolution-IsTracked _ rule node now w)
      ]

  -- The query for the latest metric of a node returns a row of that node.
  module _ (latest : String → Option (Metric F))
      (latest_node : (id : String) (metric : Metric F)
        → latest id ≡ some metric
        → metric.node_id ≡ id) where
    check_node-IsTracked :
        (e : Engine F) (rule : AlertRule F) (node : Node) (now : ℕ)
        → IsTracked e
        → IsTracked (check_node ops deliver latest e rule node now).0
    unfolding check_node
    check_node-IsTracked e rule node now v = elim (Bool-cases (node_in_scope rule node.id)) [
      | inr outside ↦ rw (outside, check_node) v
      | inl inside ↦
          rw (inside, check_node)
            (elim (Option-cases (latest node.id)) [
              | inl missing ↦ rw missing v
              | inr (metric, found) ↦ rw found (
                  check_metric-IsTracked e rule node metric now (latest_node node.id metric found)
                    v)
            ])
    ]

    check_nodes-IsTracked :
        (e : Engine F) (rule : AlertRule F) (nodes : List Node) (now : ℕ)
        → IsTracked e
        → IsTracked (check_nodes ops deliver latest e rule nodes now).0
    unfolding check_nodes
    check_nodes-IsTracked e rule [] now v = v
    check_nodes-IsTracked e rule (node ∷ nodes) now v =
        let w = check_node-IsTracked e rule node now v in
        elim (Option-cases (check_node ops deliver latest e rule node now).1) [
          | inl fine ↦
              rw (fine, check_nodes)
                (check_nodes-IsTracked (check_node ops deliver latest e rule node now).0 rule nodes
                  now w)
          | inr (i, failed) ↦ rw (failed, check_nodes) w
        ]

    check_enabled-IsTracked :
        (e : Engine F) (rules : List (AlertRule F)) (nodes : List Node) (now : ℕ)
        → IsTracked e
        → IsTracked (check_enabled ops deliver latest e rules nodes now).0
    unfolding check_enabled
    check_enabled-IsTracked e [] nodes now v = v
    check_enabled-IsTracked e (rule ∷ rules) nodes now v =
        let w = check_nodes-IsTracked e rule nodes now v in
        elim (Option-cases (check_nodes ops deliver latest e rule nodes now).1) [
          | inl fine ↦
              rw (fine, check_enabled)
                (check_enabled-IsTracked (check_nodes ops deliver latest e rule nodes now).0 rules
                  nodes now w)
          | inr (i, failed) ↦ rw (failed, check_enabled) w
        ]

resolve_disabled-IsTracked :
    {F : Type 0} (e : Engine F) (rules : List (AlertRule F)) (now : ℕ)
    → IsTracked e
    → IsTracked (resolve_disabled e rules now)
resolve_disabled-IsTracked e rules now =
    update-IsTracked e (λ h. is_active h && is_disabled rules h.rule_id) (resolved_at now)
      (λ h. refl) (λ h. refl) (λ h. refl) e.states
      (λ h f.
        either-IsFollowed e.states (is_active h && is_disabled rules h.rule_id) (resolved_at now h)
          h (λ _ a. absurd (ground arith)) (λ _. f))

-- Where the query for the latest metric returns a row of its node: if the map has, for every open
-- alert, a triggered entry with its id, and the ids of alerts are positive, unique and below the
-- next, then the same holds after CheckRules, whether or not it ends with an error.
pub check_rules-IsTracked :
    {F : Type 0} (ops : FloatOps F) (deliver : AlertRule F → String → NotificationDelivery)
    (latest : String → Option (Metric F)) (e : Engine F) (rules : List (AlertRule F))
    (nodes : List Node) (now : ℕ)
    → ((id : String) (metric : Metric F) → latest id ≡ some metric → metric.node_id ≡ id)
    → IsTracked e
    → IsTracked (check_rules ops deliver latest e rules nodes now).0
unfolding check_rules
check_rules-IsTracked ops deliver latest e rules nodes now latest_node v =
    check_enabled-IsTracked ops deliver latest latest_node _ _ nodes now (
      sync_states-IsTracked (resolve_disabled e rules now)
        (resolve_disabled-IsTracked e rules now v))

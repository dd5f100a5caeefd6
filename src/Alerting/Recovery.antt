-- ===== src/Alerting/Recovery.antt =====
-- A check below the threshold closes the alert of its rule and node (alerting/engine.go).
use mizu_panel.Prelude.{
  ℕ, ◌≡◌, sym, ap, ◌∙◌, String, Bool, false, ◌&&◌, none, List, [], ◌∷◌, arith, ltb, ◌==◌, All,
  Bool-cases, Option-cases, inl, inr,
}
use mizu_panel.Tables.{find_first, All-map, All-both, All-All}
use mizu_panel.Alerting.Model.{
  FloatOps, AlertRule, Metric, Node, AlertHistory, NotificationDelivery, Engine, is_active, is_key,
}
use mizu_panel.Alerting.Rules.{check_threshold}
use mizu_panel.Alerting.Engine.{evaluate_rule, check_resolution, check_metric, resolve_alert}
use mizu_panel.Alerting.Tracked.{
  tracks, IsFollowed, IsTracked, open_alerts, open_named, count_if_never, set_state_same,
}
use mizu_panel.Alerting.Checked.{evaluate_rule-IsTracked, resolve_alert-IsTracked}
use mizu_panel.Alerting.Restart.{evaluate_rule_below}

-- Where the entry of a key names none of the alerts, none of them is open.
unnamed_closed :
    {F : Type 0} (e : Engine F) (r : ℕ) (n : String)
    → IsTracked e
    → All (λ h. tracks (e.states r n) h.id ≡ false) e.histories
    → open_alerts e r n ≡ 0
unnamed_closed e r n v unnamed =
    count_if_never (λ h. is_active h && is_key r n h.rule_id h.node_id) e.histories
      (All-map _ _ e.histories (λ h (f, u) t. let named = open_named e r n h f t in sym named ∙ u)
        (All-both (IsFollowed e.states) (λ h. tracks (e.states r n) h.id ≡ false) e.histories
          v.followed unnamed))

absent :
    {F : Type 0} (q : AlertHistory F → Bool) (hs : List (AlertHistory F))
    → find_first q hs ≡ none
    → All (λ h. q h ≡ false) hs
absent q [] e = tt
absent q (h ∷ hs) e = elim (Bool-cases (q h)) [
  | inl hit ↦ absurd (ground (arith, hit, e))
  | inr miss ↦ (miss, absent q hs (ground (arith, miss, e)))
]

module _ {F : Type 0} (ops : FloatOps F)
    (deliver : AlertRule F → String → NotificationDelivery) where
  check_resolution-closes :
      (e : Engine F) (rule : AlertRule F) (node : Node) (now : ℕ)
      → IsTracked e
      → open_alerts (check_resolution ops deliver e rule node now).0 rule.id node.id ≡ 0
  unfolding check_resolution
  check_resolution-closes e rule node now v = elim (Option-cases (e.states rule.id node.id)) [
    | inl gone ↦
        rw (gone, check_resolution)
          (unnamed_closed e rule.id node.id v
            (All-All _ e.histories (λ h. ap (λ o. tracks o h.id) gone)))
    | inr (s, there) ↦
        rw (there, check_resolution)
          (elim (Bool-cases (s.triggered && ltb 0 s.history_id)) [
            | inr idle ↦ rw idle (
                unnamed_closed e rule.id node.id v
                  (All-map _ _ e.histories (λ h p. ground (arith, there, idle, p)) v.ids_positive))
            | inl fired ↦
                rw fired (elim (Option-cases (find_first (λ h. h.id == s.history_id) e.histories)) [
                  | inl lost ↦ rw lost (
                      unnamed_closed e rule.id node.id v (
                        All-map _ _ e.histories (λ h other. ground (arith, there, other))
                          (absent _ e.histories lost)))
                  | inr (h, found) ↦ rw found (
                      unnamed_closed (resolve_alert ops deliver e rule node.id s.history_id now)
                        rule.id node.id
                        (resolve_alert-IsTracked ops deliver e rule node.id now s there v)
                        (All-All _ _ (λ k.
                          ap (λ o. tracks o k.id) (set_state_same e.states rule.id node.id none))))
                ])
          ])
  ]

  -- Where the map follows the open alerts, a check whose metric does not meet the threshold leaves
  -- no open alert of the rule and the node.
  pub check_metric-closes :
      (e : Engine F) (rule : AlertRule F) (node : Node) (metric : Metric F) (now : ℕ)
      → IsTracked e
      → check_threshold ops rule metric ≡ false
      → open_alerts (check_metric ops deliver e rule node metric now).0 rule.id node.id ≡ 0
  unfolding check_metric
  check_metric-closes e rule node metric now v below =
      rw (evaluate_rule_below ops deliver e rule metric now below, check_metric)
        (check_resolution-closes (evaluate_rule ops deliver e rule metric now).1 rule node now
          (evaluate_rule-IsTracked ops deliver e rule metric now v))

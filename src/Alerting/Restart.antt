-- ===== src/Alerting/Restart.antt =====
-- What a check does right after a restart, and to rules on the swap (alerting/engine.go).
use mathlib.Core.Path.{subst}
use mizu_panel.Prelude.{
  ℕ, ◌+◌, ◌*◌, ◌^◌, ◌<◌, ◌≡◌, refl, ◌∙◌, String, true, false, ◌&&◌, Option, none, some, List, arith,
  ltb, ◌==◌, if◌then◌else◌, All, Bool-cases, Option-cases, inl, inr, ◌⊎◌,
}
use mizu_panel.Prelude.Int.{ℤ, pos}
use mizu_panel.Prelude.Time.{nanoseconds, seconds, sub}
use mizu_panel.Tables.{find_first, update_where, All-update_where, All-All}
use mizu_panel.Alerting.Model.{
  FloatOps, AlertRule, Metric, Node, AlertHistory, AlertState, NotificationDelivery, set_state,
  Engine, is_active,
}
use mizu_panel.Alerting.Rules.{check_threshold, node_in_scope, get_metric_value}
use mizu_panel.Alerting.Engine.{
  evaluate_state, evaluate_rule, check_resolution, check_metric, resolve_alert, resolved_history,
  active_at, initialize, has_elapsed,
}
use mizu_panel.Alerting.Tracked.{set_state_same}

-- A duration that fits has not elapsed before its end.
not_elapsed :
    (duration first_met_at now : ℕ)
    → 0 < duration
    → duration * nanoseconds < 2 ^ 63
    → now < first_met_at + duration * nanoseconds
    → has_elapsed (pos duration) first_met_at now ≡ false
unfolding has_elapsed seconds sub
not_elapsed duration first_met_at now long fits early = ground (arith, long, fits, early)

module _ {F : Type 0} (ops : FloatOps F)
    (deliver : AlertRule F → String → NotificationDelivery) where
  -- A rule whose time has not elapsed does not fire, and its entry stays.
  evaluate_waits :
      (e : Engine F) (rule : AlertRule F) (metric : Metric F) (now : ℕ) (s : AlertState)
      → node_in_scope rule metric.node_id ≡ true
      → check_threshold ops rule metric ≡ true
      → e.states rule.id metric.node_id ≡ some s
      → has_elapsed rule.duration_seconds s.first_met_at now ≡ false
      → evaluate_rule ops deliver e rule metric now ≡ (
        false,
        record e {
          states =
              set_state e.states rule.id metric.node_id (some (record s { last_checked = now }));
        },
      )
  unfolding evaluate_rule
  evaluate_waits e rule metric now s inside met there waits =
      rw (inside, met, there, waits, evaluate_rule) refl

  resolution_resolves :
      (e : Engine F) (rule : AlertRule F) (node : Node) (now : ℕ) (s : AlertState)
      (g : AlertHistory F)
      → e.states rule.id node.id ≡ some s
      → (s.triggered && ltb 0 s.history_id) ≡ true
      → find_first (λ k. k.id == s.history_id) e.histories ≡ some g
      → check_resolution ops deliver e rule node now
        ≡ (resolve_alert ops deliver e rule node.id s.history_id now, none)
  unfolding check_resolution
  resolution_resolves e rule node now s g there fired found =
      rw (there, fired, found, check_resolution) refl

  resolved-closed :
      (rule : AlertRule F) (now i : ℕ) (hs : List (AlertHistory F))
      → All
          (λ k. k.id ≡ i → is_active k ≡ false)
          (update_where (λ k. k.id == i) (resolved_history ops deliver rule now) hs)
  resolved-closed rule now i hs =
      All-update_where (λ k. k.id ≡ k.id) _ (λ k. k.id == i) _ hs
        (λ k _. closed k (Bool-cases (k.id == i))) (All-All _ hs (λ _. refl))
    where
      closed :
          (k : AlertHistory F)
          → ((k.id == i) ≡ true) ⊎ ((k.id == i) ≡ false)
          → (λ (q : AlertHistory F). q.id ≡ i → is_active q ≡ false)
              (if k.id == i then resolved_history ops deliver rule now k else k)
      closed k (inl hit) = rw hit (λ _. refl)
      closed k (inr miss) = rw miss (λ same. absurd (ground (arith, miss, same)))

  -- Where an alert of a rule whose duration is positive and below 2^63 nanoseconds is open at a
  -- restart, its row is found by its id, which is positive, the metric is one of its node, the rule
  -- covers the node and the threshold is met: the first check that is made before the duration has
  -- passed since the alert was triggered closes the alert.
  pub check_metric-initialize :
      (e : Engine F) (rule : AlertRule F) (node : Node) (metric : Metric F) (restart now : ℕ)
      (h g : AlertHistory F) (duration : ℕ)
      → active_at e.histories rule.id node.id ≡ some h
      → find_first (λ k. k.id == h.id) e.histories ≡ some g
      → 0 < h.id
      → metric.node_id ≡ node.id
      → node_in_scope rule metric.node_id ≡ true
      → check_threshold ops rule metric ≡ true
      → rule.duration_seconds ≡ pos duration
      → 0 < duration
      → duration * nanoseconds < 2 ^ 63
      → now < h.triggered_at + duration * nanoseconds
      → All
          (λ k. k.id ≡ h.id → is_active k ≡ false)
          (check_metric ops deliver (initialize e restart) rule node metric now).0.histories
  unfolding check_metric
  check_metric-initialize e rule node metric restart now h g duration there found positive same
        inside met lasts long fits early =
      rw (waits, check_metric) (rw resolves (resolved-closed rule now h.id e.histories))
    where
      s : AlertState
      s = record {
        rule_id = h.rule_id;
        node_id = h.node_id;
        condition_met = true;
        triggered = true;
        history_id = h.id;
        first_met_at = h.triggered_at;
        last_checked = restart;
      }

      after : Engine F
      after = record (initialize e restart) {
        states =
            set_state (initialize e restart).states rule.id metric.node_id
              (some (record s { last_checked = now }));
      }

      entry : (initialize e restart).states rule.id metric.node_id ≡ some s
      entry = rw (same, there) refl

      waits : evaluate_rule ops deliver (initialize e restart) rule metric now ≡ (false, after)
      waits =
          evaluate_waits (initialize e restart) rule metric now s inside met entry
            (rw lasts (not_elapsed duration h.triggered_at now long fits early))

      resolves :
          check_resolution ops deliver after rule node now
          ≡ (resolve_alert ops deliver after rule node.id h.id now, none)
      resolves =
          resolution_resolves after rule node now (record s { last_checked = now }) g
            (subst
              (λ n.
                set_state (initialize e restart).states rule.id metric.node_id
                  (some (record s { last_checked = now })) rule.id n
                ≡ some (record s { last_checked = now }))
              same (set_state_same (initialize e restart).states rule.id metric.node_id _))
            (ground (arith, positive)) found

  threshold_swap :
      (rule : AlertRule F) (metric : Metric F)
      → rule.metric_field ≡ "swap_usage"
      → check_threshold ops rule metric ≡ false
  unfolding check_threshold get_metric_value
  threshold_swap rule metric swap = rw swap refl

  evaluate_below :
      (r : ℕ) (n : String) (d : ℤ) (now : ℕ) (entry : Option AlertState)
      → (evaluate_state r n d now false entry).0 ≡ false
  evaluate_below r n d now none = refl
  evaluate_below r n d now (some s) = refl

  pub evaluate_rule_below :
      (e : Engine F) (rule : AlertRule F) (metric : Metric F) (now : ℕ)
      → check_threshold ops rule metric ≡ false
      → (evaluate_rule ops deliver e rule metric now).0 ≡ false
  unfolding evaluate_rule
  evaluate_rule_below e rule metric now below =
      elim (Bool-cases (node_in_scope rule metric.node_id)) [
        | inl inside ↦
            rw (inside, below, evaluate_rule)
              (evaluate_below rule.id metric.node_id rule.duration_seconds now
                (e.states rule.id metric.node_id))
        | inr outside ↦ rw (outside, evaluate_rule) refl
      ]

  evaluate_rule_next :
      (e : Engine F) (rule : AlertRule F) (metric : Metric F) (now : ℕ)
      → (evaluate_rule ops deliver e rule metric now).1.next_history_id ≡ e.next_history_id
  unfolding evaluate_rule
  evaluate_rule_next e rule metric now = elim (Bool-cases (node_in_scope rule metric.node_id)) [
    | inl inside ↦ rw (inside, evaluate_rule) refl
    | inr outside ↦ rw (outside, evaluate_rule) refl
  ]

  check_resolution_next :
      (e : Engine F) (rule : AlertRule F) (node : Node) (now : ℕ)
      → (check_resolution ops deliver e rule node now).0.next_history_id ≡ e.next_history_id
  unfolding check_resolution
  check_resolution_next e rule node now = elim (Option-cases (e.states rule.id node.id)) [
    | inl gone ↦ rw (gone, check_resolution) refl
    | inr (s, there) ↦
        rw (there, check_resolution)
          (elim (Bool-cases (s.triggered && ltb 0 s.history_id)) [
            | inr idle ↦ rw idle refl
            | inl fired ↦
                rw fired (elim (Option-cases (find_first (λ h. h.id == s.history_id) e.histories)) [
                  | inl lost ↦ rw lost refl
                  | inr (h, found) ↦ rw found refl
                ])
          ])
  ]

  -- The check of a rule on swap_usage creates no alert, whatever the metric, the operator and the
  -- threshold are.
  pub check_metric_swap :
      (e : Engine F) (rule : AlertRule F) (node : Node) (metric : Metric F) (now : ℕ)
      → rule.metric_field ≡ "swap_usage"
      → (check_metric ops deliver e rule node metric now).0.next_history_id ≡ e.next_history_id
  unfolding check_metric
  check_metric_swap e rule node metric now swap =
      rw (evaluate_rule_below e rule metric now (threshold_swap rule metric swap), check_metric)
        (check_resolution_next _ rule node now ∙ evaluate_rule_next e rule metric now)

-- ===== src/Policy/Allowed.antt =====
-- When the policy lets the assistant act alone (ai/policy.go).
use text.Mathlib.Text.{◌==◌ as str_eq}
use text.Mathlib.TextEquality.{eq_iff}
use mathlib.Core.Path.{subst}
use mizu_panel.Prelude.{
  ◌≡◌, refl, sym, ap, ◌∙◌, String, Bool, true, false, not, ◌&&◌, Option, List, [], ◌∷◌, arith,
  Bool-cases, inl, inr,
}
use mizu_panel.Prelude.Result.{Result, ok}
use mizu_panel.Policy.{
  default_ai_control_policy, PolicyDecision, AiControlMode, AiControlPolicy, PolicyResult,
  ValidatedToolCall, Tool, contains, is_read, is_paused, is_auto, evaluate_policy, control_policy,
  lacks_verifier, checked_result, policy, valid_ai_control_action, validate_actions,
  validate_ai_control_policy,
}

-- All that an action without confirmation takes.
abbrev pub is_allowed : AiControlPolicy → ValidatedToolCall → Option Tool → Bool
is_allowed p call tool =
    not (is_read call.risk)
    && (is_auto p.mode
        && (call.is_autonomous
            && (not (str_eq call.verifier "")
                && (not (lacks_verifier tool)
                    && (not (str_eq call.node_id "")
                        && (contains p.node_scope call.node_id
                            && contains p.allowed_actions call.action_key))))))

abbrev pub is_autonomous_decision : PolicyDecision → Bool
is_autonomous_decision PolicyDecision.autonomous = true
is_autonomous_decision _ = false

auto_not_paused : (m : AiControlMode) → is_auto m ≡ true → is_paused m ≡ false
auto_not_paused AiControlMode.confirm_all h = refl
auto_not_paused AiControlMode.low_risk_auto h = refl
auto_not_paused AiControlMode.paused h = sym h
auto_not_paused (AiControlMode.other s) h = refl

checked_lem :
    (r : PolicyResult) (tool : Option Tool)
    → is_autonomous_decision (checked_result r tool).decision
      ≡ (is_autonomous_decision r.decision && not (lacks_verifier tool))
checked_lem r tool = ground arith

evaluate_lem :
    (p : AiControlPolicy) (call : ValidatedToolCall)
    → is_autonomous_decision (evaluate_policy p call).decision ≡ (
        not (is_read call.risk)
        && (is_auto p.mode
            && (call.is_autonomous
                && (not (str_eq call.verifier "")
                    && (not (str_eq call.node_id "")
                        && (contains p.node_scope call.node_id
                            && contains p.allowed_actions call.action_key))))))
unfolding evaluate_policy
evaluate_lem p call = ground (arith, auto_not_paused p.mode)

-- Where the control policy can be read, Registry.Policy gives the autonomous decision exactly if
-- the call does more than read, the mode is low_risk_auto, the call is classified as autonomous
-- with a verifier, the registered tool has a verifier of that call, and the node, which is named,
-- and the action are within the policy.
pub policy-autonomous {ℓ} :
    {E : Type ℓ} (tools : String → Option Tool) (settings : Option (Result E AiControlPolicy))
    (call : ValidatedToolCall) {p : AiControlPolicy} {result : PolicyResult}
    → control_policy settings ≡ ok p
    → policy tools settings call ≡ ok result
    → is_autonomous_decision result.decision ≡ is_allowed p call (tools call.tool_name)
unfolding policy
policy-autonomous tools settings call {p} {result} loaded h =
    elim (Bool-cases (is_read call.risk)) [
      | inl reads ↦
          let same : evaluate_policy default_ai_control_policy call ≡ result =
            ground (arith, reads, h) in
          ap (λ r. is_autonomous_decision r.decision) (sym same)
          ∙ evaluate_lem default_ai_control_policy call
          ∙ ground (arith, reads)
      | inr acts ↦
          let same : checked_result (evaluate_policy p call) (tools call.tool_name) ≡ result =
            ground (arith, acts, h, loaded) in
          ap (λ r. is_autonomous_decision r.decision) (sym same)
          ∙ checked_lem (evaluate_policy p call) (tools call.tool_name)
          ∙ ap (λ b. b && not (lacks_verifier (tools call.tool_name))) (evaluate_lem p call)
          ∙ ground arith
    ]

valid_member :
    (seen actions : List String) (key : String)
    → validate_actions seen actions ≡ ok tt
    → contains actions key ≡ true
    → valid_ai_control_action key ≡ true
unfolding validate_actions contains
valid_member seen [] key v c = cc
valid_member seen (a ∷ as') key v c = elim (Bool-cases (str_eq a key)) [
  | inl same ↦
      subst (λ k. valid_ai_control_action k ≡ true) ((eq_iff a key).0 same) (ground (arith))
  | inr other ↦ valid_member (a ∷ seen) as' key (ground arith) (ground arith)
]

validated_actions :
    (p : AiControlPolicy)
    → validate_ai_control_policy p ≡ ok tt
    → validate_actions [] p.allowed_actions ≡ ok tt
unfolding validate_ai_control_policy
validated_actions p v = ground arith

-- Where the control policy has passed its validation, a call with the autonomous decision is one of
-- the six recovery actions.
pub policy-autonomous_action {ℓ} :
    {E : Type ℓ} (tools : String → Option Tool) (settings : Option (Result E AiControlPolicy))
    (call : ValidatedToolCall) {p : AiControlPolicy} {result : PolicyResult}
    → control_policy settings ≡ ok p
    → validate_ai_control_policy p ≡ ok tt
    → policy tools settings call ≡ ok result
    → is_autonomous_decision result.decision ≡ true
    → valid_ai_control_action call.action_key ≡ true
policy-autonomous_action tools settings call {p} loaded v h auto =
    let allowed = sym (policy-autonomous tools settings call loaded h) ∙ auto in
    valid_member [] p.allowed_actions call.action_key (validated_actions p v)
      (ground (arith, allowed))

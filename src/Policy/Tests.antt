-- ===== src/Policy/Tests.antt =====
-- The policy at concrete inputs.
use mizu_panel.Prelude.{ℕ, ◌≡◌, refl, String, true, Option, some, [], ◌∷◌}
use mizu_panel.Prelude.Result.{Result, ok}
use mizu_panel.Policy.{
  PolicyDecision, Risk, AiControlMode, AiControlPolicy, PolicyResult, ValidatedToolCall, Tool,
  contains, evaluate_policy, policy, validate_actions, validate_scope, validate_ai_control_policy,
  valid_ai_control_action,
}
use mizu_panel.Policy.Allowed.{
  is_allowed, is_autonomous_decision, policy-autonomous, policy-autonomous_action,
}

abbrev settings : AiControlPolicy
settings = record {
  mode = AiControlMode.low_risk_auto;
  allowed_actions = "systemd.service.restart" ∷ [];
  node_scope = "a" ∷ [];
  revision = 4;
}

abbrev loaded : Option (Result ℕ AiControlPolicy)
loaded = some (ok settings)

abbrev tools : String → Option Tool
tools name = some (record { has_verify = true; verifier = "unit_active" })

abbrev call : ValidatedToolCall
call = record {
  tool_name = "systemd_service_action";
  risk = Risk.confirm;
  action_key = "systemd.service.restart";
  node_id = "a";
  is_autonomous = true;
  verifier = "unit_active";
}

abbrev result : PolicyResult
result = record {
  decision = PolicyDecision.autonomous;
  reason = "low_risk_policy";
  revision = 4;
  action = "systemd.service.restart";
}

policy-call : policy tools loaded call ≡ ok result
unfolding policy evaluate_policy contains
policy-call = refl

settings_valid : validate_ai_control_policy settings ≡ ok tt
unfolding validate_ai_control_policy validate_actions validate_scope contains
    valid_ai_control_action
settings_valid = refl

policy-autonomous_example :
    is_autonomous_decision result.decision ≡ is_allowed settings call (tools call.tool_name)
policy-autonomous_example = policy-autonomous tools loaded call refl policy-call

policy-autonomous_action_example : valid_ai_control_action "systemd.service.restart" ≡ true
policy-autonomous_action_example =
    policy-autonomous_action tools loaded call refl settings_valid policy-call refl

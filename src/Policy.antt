-- ===== src/Policy.antt =====
-- The control policy of the AI assistant: internal/server/ai/policy.go, and the policy's validation
-- in internal/server/store/settings.go.
--
-- The tools of the registry are a function from names, the settings' store gives a policy or an
-- error.
pub mod Allowed
mod Tests
use Prim.Native.Char.{code}
use Prim.Native.String.{len}
use text.Mathlib.Text.{◌==◌ as str_eq}
use mizu_panel.Prelude.{
  ℕ, String, Bool, true, false, not, ◌&&◌, ◌||◌, Option, none, some, List, [], ◌∷◌, ltb, leb, ◌==◌,
  if◌then◌else◌, length,
}
use mizu_panel.Prelude.Result.{Result, ok, err, ◌>>=◌, ◌>>◌, refuse_if}

pub data PolicyDecision : Type 0 where
  read manual autonomous blocked_paused blocked_scope blocked_action blocked_capability
        blocked_verifier blocked_policy :
      PolicyDecision

pub data Risk : Type 0 where
  read confirm : Risk

pub data AiControlMode : Type 0 where
  confirm_all low_risk_auto paused : AiControlMode
  other : String → AiControlMode

pub record AiControlPolicy : Type 0 where
  pub mode : AiControlMode
  pub allowed_actions : List String
  pub node_scope : List String
  pub revision : ℕ

pub record PolicyResult : Type 0 where
  pub decision : PolicyDecision
  pub reason : String
  pub revision : ℕ
  pub action : String

-- Of a validated call there are the fields that the policy reads.
pub record ValidatedToolCall : Type 0 where
  pub tool_name : String
  pub risk : Risk
  pub action_key : String
  pub node_id : String
  pub is_autonomous : Bool
  pub verifier : String

pub record Tool : Type 0 where
  pub has_verify : Bool
  pub verifier : String

abbrev pub default_ai_control_policy : AiControlPolicy
default_ai_control_policy = record {
  mode = AiControlMode.confirm_all;
  allowed_actions = [];
  node_scope = [];
  revision = 1;
}

unfoldable pub contains : List String → String → Bool
contains [] value = false
contains (item ∷ values) value = str_eq item value || contains values value

abbrev pub is_read : Risk → Bool
is_read Risk.read = true
is_read Risk.confirm = false

abbrev pub is_paused : AiControlMode → Bool
is_paused AiControlMode.paused = true
is_paused _ = false

abbrev pub is_auto : AiControlMode → Bool
is_auto AiControlMode.low_risk_auto = true
is_auto _ = false

abbrev result_of : AiControlPolicy → ValidatedToolCall → PolicyDecision → String → PolicyResult
result_of policy call decision reason = record {
  decision = decision;
  reason = reason;
  revision = policy.revision;
  action = call.action_key;
}

unfoldable pub evaluate_policy : AiControlPolicy → ValidatedToolCall → PolicyResult
evaluate_policy policy call =
    let result = result_of policy call in
    if is_read call.risk
    then result PolicyDecision.read "read_only"
    else if is_paused policy.mode
    then result PolicyDecision.blocked_paused "paused"
    else if not (is_auto policy.mode) || not call.is_autonomous
    then result PolicyDecision.manual "confirmation_required"
    else if str_eq call.verifier ""
    then result PolicyDecision.blocked_verifier "verifier_unavailable"
    else if str_eq call.node_id "" || not (contains policy.node_scope call.node_id)
    then result PolicyDecision.blocked_scope "node_outside_scope"
    else if not (contains policy.allowed_actions call.action_key)
    then result PolicyDecision.blocked_action "action_not_allowed"
    else result PolicyDecision.autonomous "low_risk_policy"

-- Registry.ControlPolicy; `none` is a registry without settings.
abbrev pub control_policy {ℓ} :
    {E : Type ℓ} → Option (Result E AiControlPolicy) → Result E AiControlPolicy
control_policy none = ok default_ai_control_policy
control_policy (some loaded) = loaded

-- `!ok || tool.verify == nil || tool.metadata.Verifier == ""`
abbrev pub lacks_verifier : Option Tool → Bool
lacks_verifier none = true
lacks_verifier (some tool) = not tool.has_verify || str_eq tool.verifier ""

-- The check of the tool that Registry.Policy makes of an autonomous decision.
abbrev pub checked_result : PolicyResult → Option Tool → PolicyResult
checked_result result tool = elim result.decision [
  | PolicyDecision.autonomous ↦
      if lacks_verifier tool
      then record result {
        decision = PolicyDecision.blocked_verifier;
        reason = "verifier_unavailable";
      }
      else result
  | _ ↦ result
]

-- Registry.Policy for a call that does more than read.
abbrev decide {ℓ} :
    {E : Type ℓ}
    → (String → Option Tool)
    → Result E AiControlPolicy
    → ValidatedToolCall
    → Result E PolicyResult
decide tools (ok loaded) call =
    ok (checked_result (evaluate_policy loaded call) (tools call.tool_name))
decide tools (err e) call = err e

-- Registry.Policy
unfoldable pub policy {ℓ} :
    {E : Type ℓ}
    → (String → Option Tool)
    → Option (Result E AiControlPolicy)
    → ValidatedToolCall
    → Result E PolicyResult
policy tools settings call =
    if is_read call.risk
    then ok (evaluate_policy default_ai_control_policy call)
    else decide tools (control_policy settings) call

-- The errors of policyError.
data PolicyError : Type 0 where
  control_paused outside_scope not_allowed verification_unavailable capability_unavailable
        policy_unavailable :
      PolicyError

abbrev policy_error : PolicyResult → Option PolicyError
policy_error result = elim result.decision [
  | PolicyDecision.blocked_paused ↦ some control_paused
  | PolicyDecision.blocked_scope ↦ some outside_scope
  | PolicyDecision.blocked_action ↦ some not_allowed
  | PolicyDecision.blocked_verifier ↦ some verification_unavailable
  | PolicyDecision.blocked_capability ↦ some capability_unavailable
  | PolicyDecision.blocked_policy ↦ some policy_unavailable
  | _ ↦ none
]

-- validAIControlAction, and isAutonomousRecoveryAction of policy.go.
unfoldable pub valid_ai_control_action : String → Bool
valid_ai_control_action action =
    str_eq action "docker.container.start"
    || (str_eq action "docker.container.restart"
        || (str_eq action "compose.service.start"
            || (str_eq action "compose.service.restart"
                || (str_eq action "systemd.service.start"
                    || str_eq action "systemd.service.restart"))))

pub data InvalidPolicy : Type 0 where
  bad_mode scope_too_large bad_action duplicate_action bad_node_scope duplicate_node_scope
        bad_revision :
      InvalidPolicy

abbrev is_known : AiControlMode → Bool
is_known (AiControlMode.other s) = false
is_known _ = true

-- unicode.IsSpace
abbrev is_space : ℕ → Bool
is_space c =
    (leb 9 c && leb c 13)
    || (c == 32
        || (c == 0x85
            || (c == 0xa0
                || (c == 0x1680
                    || ((leb 0x2000 c && leb c 0x200a)
                        || (c == 0x2028
                            || (c == 0x2029 || (c == 0x202f || (c == 0x205f || c == 0x3000)))))))))

abbrev ends_in_space : ℕ → String → Bool
ends_in_space c String.[] = is_space c
ends_in_space c (String.◌∷◌ d s) = ends_in_space (code d) s

-- `strings.TrimSpace(s) == s`: the text has a space at neither end.
abbrev is_trimmed : String → Bool
is_trimmed String.[] = true
is_trimmed (String.◌∷◌ c s) = not (is_space (code c)) && not (ends_in_space (code c) s)

-- The loop over the actions; `seen` holds those before.
unfoldable pub validate_actions : List String → List String → Result InvalidPolicy (Unit {0})
validate_actions seen [] = ok tt
validate_actions seen (action ∷ actions) =
    let rest = validate_actions (action ∷ seen) actions in
    if str_eq action ""
      || (ltb 96 (len action) || (not (is_trimmed action) || not (valid_ai_control_action action)))
    then err bad_action
    else if contains seen action
    then err duplicate_action
    else rest

unfoldable pub validate_scope : List String → List String → Result InvalidPolicy (Unit {0})
validate_scope seen [] = ok tt
validate_scope seen (node_id ∷ node_ids) =
    let rest = validate_scope (node_id ∷ seen) node_ids in
    if str_eq node_id "" || (ltb 191 (len node_id) || not (is_trimmed node_id))
    then err bad_node_scope
    else if contains seen node_id
    then err duplicate_node_scope
    else rest

unfoldable pub validate_ai_control_policy : AiControlPolicy → Result InvalidPolicy (Unit {0})
validate_ai_control_policy p = do
  refuse_if (not (is_known p.mode)) bad_mode
  refuse_if (ltb 32 (length p.allowed_actions) || ltb 100 (length p.node_scope)) scope_too_large
  validate_actions [] p.allowed_actions
  validate_scope [] p.node_scope
  refuse_if (p.revision == 0) bad_revision

-- ===== src/Guardrails/Tools.antt =====
-- app/guardrails/tool_guard.py. The registry is an association list for the dict; a call's
-- parameters are the names that the dict has as keys. Decoding a registry row is not modelled.
pub mod Order
use newchanges.Base.{
  ℕ, ◌==◌, Bool, true, false, not, ◌&&◌, ◌||◌, if◌then◌else◌, Option, none, some, String, str_eq,
  List, [], ◌∷◌, any, keep, is_empty,
}
use newchanges.Base.Audit.{Trail, SecurityEvent, tool_denied, high_risk_approval_required}
use newchanges.Security.Permission.{Role}
use newchanges.Security.Principal.{Principal, has_role}

pub data ToolRisk : Type 0 where
  low medium high critical : ToolRisk

pub record ToolCallRequest : Type 0 where
  pub name : String
  pub parameters : List String

pub record RegisteredTool : Type 0 where
  pub id : String
  pub name : String
  pub allowed_roles : List Role
  pub allowed_workloads : Option (List String)
  pub risk_level : ToolRisk
  pub enabled : Bool
  pub parameter_names : Option (List String)

pub record ToolAuthorization : Type 0 where
  pub tool : RegisteredTool
  pub requires_approval : Bool

pub data ToolError : Type 0 where
  not_registered not_authorized parameters_invalid needs_approval : ToolError

pub data Verdict : Type 0 where
  granted : ToolAuthorization → Verdict
  rejected_for : ToolError → Verdict

-- `_REQUIRES_APPROVAL`
abbrev pub requires_approval_at : ToolRisk → Bool
requires_approval_at ToolRisk.low = false
requires_approval_at ToolRisk.medium = false
requires_approval_at ToolRisk.high = true
requires_approval_at ToolRisk.critical = true

-- `x in xs`
abbrev pub has_text : List String → String → Bool
has_text xs x = any (str_eq x) xs

unfoldable pub find_tool : String → List (String × RegisteredTool) → Option RegisteredTool
find_tool name [] = none
find_tool name ((k, tool) ∷ rest) =
    let later = find_tool name rest in if str_eq k name then some tool else later

abbrev pub workload_allowed : RegisteredTool → Option String → Bool
workload_allowed tool workload = elim tool.allowed_workloads [
  | none ↦ true
  | some allowed ↦ elim workload [ none ↦ true | some w ↦ has_text allowed w ]
]

abbrev pub declared : RegisteredTool → List String
declared tool = elim tool.parameter_names [ none ↦ [] | some names ↦ names ]

-- `unexpected`, which `_validate_parameters` wants to be empty
unfoldable pub unexpected : RegisteredTool → ToolCallRequest → List String
unexpected tool call = keep (λ x. not (has_text (declared tool) x)) call.parameters

-- `_deny` followed by a raise
abbrev pub deny_tool : String → ToolError → Trail → Verdict × Trail
deny_tool reason e trail = (rejected_for e, record { name = tool_denied; reason = reason } ∷ trail)

module _ (registry : List (String × RegisteredTool)) (call : ToolCallRequest) (p : Principal)
    (workload : Option String) (approved_tool_ids : List String) where
  -- the parameters and the approval, once the tool is authorized
  abbrev check_call : RegisteredTool → Trail → Verdict × Trail
  check_call tool trail =
      if not (is_empty (unexpected tool call))
      then (rejected_for parameters_invalid, trail)
      else if requires_approval_at tool.risk_level && not (has_text approved_tool_ids tool.id)
      then (
        rejected_for needs_approval,
        record { name = high_risk_approval_required; reason = "high_risk_tool" } ∷ trail,
      )
      else (
        granted (record { tool = tool; requires_approval = requires_approval_at tool.risk_level }),
        trail,
      )

  -- `ToolGuard.authorize`
  unfoldable pub authorize : Trail → Verdict × Trail
  unfolding find_tool unexpected
  authorize trail = elim (find_tool call.name registry) [
    | none ↦ deny_tool "not_registered" not_registered trail
    | some tool ↦
        if not tool.enabled
        then deny_tool "disabled" not_registered trail
        else if not (has_role p tool.allowed_roles)
        then deny_tool "role_not_permitted" not_authorized trail
        else if not (workload_allowed tool workload)
        then deny_tool "workload_not_permitted" not_authorized trail
        else check_call tool trail
  ]

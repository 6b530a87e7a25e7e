-- ===== src/Guardrails/Tools/Order.antt =====
-- When a tool call goes through, and what the refusals give away.
use newchanges.Base.{
  Bool, true, false, not, ◌&&◌, ◌||◌, if◌then◌else◌, Option, none, some, String, List, any,
  is_empty-keep, ◌≡◌, ◌↔◌, refl, sym, arith, Option-cases, inl, inr,
}
use mathlib.Core.Path.{subst}
use newchanges.Base.Audit.{Trail}
use newchanges.Security.Principal.{Principal, has_role}
use newchanges.Guardrails.Tools.{
  ToolCallRequest, RegisteredTool, Verdict, granted, requires_approval_at, has_text, find_tool,
  workload_allowed, authorize, declared,
}

module _ (registry : List (String × RegisteredTool)) (p : Principal) (workload : Option String)
    (approved : List String) where
  -- the caller and the workload may reach the tool
  abbrev pub is_reachable : RegisteredTool → Bool
  is_reachable tool =
      tool.enabled && (has_role p tool.allowed_roles && workload_allowed tool workload)

  abbrev pub is_reachable_by : Option RegisteredTool → Bool
  is_reachable_by none = false
  is_reachable_by (some tool) = is_reachable tool

  abbrev pub is_reachable_at : String → Bool
  is_reachable_at name = is_reachable_by (find_tool name registry)

  -- every parameter is declared, and a tool of high risk has an approval
  abbrev pub is_acceptable : List String → RegisteredTool → Bool
  is_acceptable parameters tool =
      not (any (λ x. not (has_text (declared tool) x)) parameters)
      && (not (requires_approval_at tool.risk_level) || has_text approved tool.id)

  gated :
      (a b c : Bool) (x y z u v : Verdict × Trail)
      → (a && (b && c)) ≡ false
      → (if not a then x else if not b then y else if not c then z else u)
        ≡ (if not a then x else if not b then y else if not c then z else v)
  gated a b c x y z u v h = ground (arith, h)

  -- A tool call is granted exactly for the registered tool of its name, when the tool is enabled,
  -- the caller's role and the workload may use it, every parameter is declared, and a tool of high
  -- or critical risk has been approved.
  pub authorize-granted_iff :
      (call : ToolCallRequest) (trail : Trail) (tool : RegisteredTool)
      → ((authorize registry call p workload approved trail).0
          ≡ granted
              (record { tool = tool; requires_approval = requires_approval_at tool.risk_level }))
        ↔ ((find_tool call.name registry ≡ some tool)
            × (is_reachable tool ≡ true)
            × (is_acceptable call.parameters tool ≡ true))
  unfolding authorize
  authorize-granted_iff call trail tool = (
    λ h. elim (Option-cases (find_tool call.name registry)) [
      | inl missing ↦ ground (arith, h, missing)
      | inr (t, found) ↦
          ground
            (arith, h, found, is_empty-keep (λ x. not (has_text (declared t) x)) call.parameters)
    ],
    λ h. ground (
      arith,
      h.0,
      h.1,
      h.2,
      is_empty-keep (λ x. not (has_text (declared tool) x)) call.parameters,
    ),
  )

  -- Where the caller may not reach the tool of a name, what the guard answers and records does not
  -- depend on the parameters, nor on what has been approved.
  pub authorize-hides :
      (call call' : ToolCallRequest) (approved' : List String) (trail : Trail)
      → call.name ≡ call'.name
      → is_reachable_at call.name ≡ false
      → authorize registry call p workload approved trail
        ≡ authorize registry call' p workload approved' trail
  unfolding authorize
  authorize-hides call call' approved' trail e h =
      elim (Option-cases (find_tool call.name registry)) [
        | inl missing ↦ rw (sym e) (rw (missing, authorize) refl)
        | inr (tool, found) ↦ rw (sym e) (
            rw (found, authorize)
              (gated tool.enabled (has_role p tool.allowed_roles) (workload_allowed tool workload) _
                _ _ _ _ (subst (λ o. is_reachable_by o ≡ false) found h)))
      ]

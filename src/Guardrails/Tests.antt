-- ===== src/Guardrails/Tests.antt =====
-- Runs of the guardrails over whole numbers, and their theorems at concrete inputs.
use newchanges.Base.{ℕ, ◌≡◌, ◌↔◌, refl, true, List, [], ◌∷◌, Option, none, some, String, arith, All}
use newchanges.Base.Sample.{nat_float, ℕ-IsOrdered}
use newchanges.Security.Permission.{Role}
use newchanges.Security.Principal.{Principal, ScopeType}
use newchanges.Security.Scope.{AuthorizedScope}
use newchanges.Guardrails.Context.{
  DataClassification, ContextFragment, ContextGuard, filter, within_scope, filter_from,
  reject_reason,
}
use newchanges.Guardrails.Context.Selection.{IsSelection, filter-IsSelection}
use newchanges.Guardrails.Limits.{make_budget, ExecutionBudget, LimitError, fresh_budget}
use newchanges.Guardrails.Limits.Accounts.{
  Spend, make_budget-IsWithin, iterate, call_tools, use_tokens, IsWithin, IsAccount, spend_all,
  spend_all-IsAccount, refusals, refusals-late,
}
use newchanges.Guardrails.Tools.{
  ToolRisk, ToolCallRequest, RegisteredTool, granted, find_tool, authorize,
}
use newchanges.Guardrails.Tools.Order.{is_reachable, is_acceptable, authorize-granted_iff}

abbrev analyst : Principal
analyst = record {
  subject = "ben";
  tenant_id = "acme";
  assignments =
      record { role = Role.analyst; scope_type = ScopeType.plant; scope_id = "plant-1" } ∷ [];
}

abbrev plant_scope : AuthorizedScope
plant_scope = record {
  tenant_id = "acme";
  branches = record { tenant_id = "acme"; plant_id = some "plant-1"; department_id = none } ∷ [];
}

abbrev fragment : String → Option ℕ → ContextFragment ℕ
fragment tenant tokens = record {
  text = "downtime report";
  scope = some (record { tenant_id = tenant; plant_id = some "plant-1"; department_id = none });
  classification = DataClassification.internal;
  relevance = 70;
  estimated_tokens = tokens;
}

abbrev guard : ContextGuard ℕ
guard = record {
  max_context_tokens = some 100;
  minimum_relevance = 50;
  sendable = DataClassification.public ∷ DataClassification.internal ∷ [];
}

abbrev fragments : List (ContextFragment ℕ)
fragments =
    fragment "acme" (some 60)
    ∷ fragment "rival" (some 10)
    ∷ fragment "acme" (some 50)
    ∷ fragment "acme" none
    ∷ []

filter-total : (filter guard analyst (some plant_scope) fragments).total_tokens ≡ 60
unfolding filter filter_from reject_reason within_scope
filter-total = refl

filter-IsSelection_example :
    IsSelection guard analyst
      (some plant_scope)
      (filter guard analyst (some plant_scope) fragments)
      fragments
filter-IsSelection_example = filter-IsSelection guard analyst (some plant_scope) fragments

abbrev small_budget : ExecutionBudget ℕ
small_budget = fresh_budget 2 3 (some 500) 60 100

small_budget-IsWithin : IsWithin small_budget
unfolding make_budget
small_budget-IsWithin = make_budget-IsWithin 2 3 (some 500) 60 100 small_budget refl

abbrev calls : List (Spend ℕ)
calls =
    iterate 110
    ∷ call_tools (some 2)
    ∷ call_tools (some 2)
    ∷ use_tokens (some 700)
    ∷ iterate 120
    ∷ iterate 130
    ∷ []

spend_all-IsAccount_example : IsAccount calls small_budget (spend_all calls small_budget)
spend_all-IsAccount_example = spend_all-IsAccount calls small_budget small_budget-IsWithin

refusals-late_example :
    All (λ e. e ≡ some LimitError.duration_exceeded) (refusals (170 ∷ 180 ∷ []) small_budget)
refusals-late_example =
    refusals-late ℕ-IsOrdered (λ a b c h. ground arith) 160 (170 ∷ 180 ∷ []) small_budget refl
      (refl, (refl, tt))

abbrev lookup_tool : RegisteredTool
lookup_tool = record {
  id = "tool-1";
  name = "stock_lookup";
  allowed_roles = Role.analyst ∷ [];
  allowed_workloads = some ("supply_chain" ∷ []);
  risk_level = ToolRisk.high;
  enabled = true;
  parameter_names = some ("part" ∷ []);
}

abbrev registry : List (String × RegisteredTool)
registry = ("stock_lookup", lookup_tool) ∷ []

abbrev lookup_call : ToolCallRequest
lookup_call = record { name = "stock_lookup"; parameters = "part" ∷ [] }

authorize-granted_iff_example :
    ((authorize registry lookup_call analyst (some "supply_chain") ("tool-1" ∷ []) []).0
      ≡ granted (record { tool = lookup_tool; requires_approval = true }))
    ↔ ((find_tool "stock_lookup" registry ≡ some lookup_tool)
        × (is_reachable registry analyst (some "supply_chain") ("tool-1" ∷ []) lookup_tool ≡ true)
        × (is_acceptable registry analyst
              (some "supply_chain")
              ("tool-1" ∷ [])
              ("part" ∷ [])
              lookup_tool
            ≡ true))
authorize-granted_iff_example =
    authorize-granted_iff registry analyst (some "supply_chain") ("tool-1" ∷ []) lookup_call []
      lookup_tool

-- ===== src/Budget/Gate.antt =====
-- app/orchestrator/budget_gate.py: which limits apply to a request.
pub mod Coverage
use newchanges.Base.{
  ℕ, Bool, true, false, List, [], ◌∷◌, ◌++◌, if◌then◌else◌, Option, none, some, String, str_eq,
}
use newchanges.Base.Float.{Float}
use newchanges.Budget.{BudgetScope, PolicyOutcome, BudgetPolicy, default_budget_policy}
use newchanges.Budget.Limit.{Decimal, BudgetLimit}
use newchanges.Budget.Decide.{BudgetDecision, decide}

-- `if plant_id:`
abbrev pub given : Option String → List String
given none = []
given (some x) = if str_eq x "" then [] else x ∷ []

abbrev pub at_scope : BudgetScope → List String → List (BudgetScope × String)
at_scope s [] = []
at_scope s (x ∷ xs) = (s, x) ∷ []

unfoldable pub request_scopes :
    String → Option String → Option String → Option String → List (BudgetScope × String)
request_scopes tenant_id plant_id department_id workload_id =
    (BudgetScope.tenant, tenant_id)
    ∷ (at_scope BudgetScope.plant (given plant_id)
        ++ (at_scope BudgetScope.department (given department_id)
            ++ at_scope BudgetScope.workload (given workload_id)))

-- The repository's `limits_for_scope`, which is a parameter: `none` is an exception. A repository
-- with no such method returns no limits.
abbrev pub Loader {ℓ} : Type ℓ → Type ℓ
Loader F = String → BudgetScope → String → Option (List (BudgetLimit F))

module _ {ℓ} {F : Type ℓ} ⦃f : Float F⦄ where
  -- The limit that stands for a lookup that failed, with `BudgetLimit`'s defaults.
  abbrev pub failed_lookup : F → F → BudgetScope → String → BudgetLimit F
  failed_lookup warning_default critical_default scope scope_id = record {
    scope = scope;
    scope_id = scope_id;
    amount = f.nought;
    currency = "";
    consumed_actual_cost = f.nought;
    consumed_estimated_cost = f.nought;
    warning_threshold_percent = warning_default;
    critical_threshold_percent = critical_default;
    budget_id = none;
    unevaluable_reason = some "lookup_failed";
  }

  -- The loop over the scopes, with the thresholds that a limit has by default, 80.0 and 95.0.
  module _ (warning_default critical_default : F) (load : Loader F) (tenant_id : String) where
    -- what one scope contributes: the `try` and its `except`
    abbrev pub scope_limits : BudgetScope → String → List (BudgetLimit F)
    scope_limits scope scope_id = elim (load tenant_id scope scope_id) [
      | none ↦ failed_lookup warning_default critical_default scope scope_id ∷ []
      | some limits ↦ limits
    ]

    unfoldable pub collect_limits : List (BudgetScope × String) → List (BudgetLimit F)
    collect_limits [] = []
    collect_limits ((scope, scope_id) ∷ rest) = scope_limits scope scope_id ++ collect_limits rest

module _ {ℓ} {F : Type ℓ} ⦃f : Float F⦄ ⦃d : Decimal F⦄ where
  -- `RepositoryBudgetEvaluator.evaluate`
  unfoldable pub evaluate :
      F
      → F
      → Loader F
      → String
      → Option String
      → Option String
      → Option String
      → F
      → BudgetDecision F
  unfolding collect_limits request_scopes
  evaluate warning_default critical_default load tenant_id plant_id department_id workload_id cost =
      decide default_budget_policy cost (
        collect_limits warning_default critical_default load tenant_id
          (request_scopes tenant_id plant_id department_id workload_id))

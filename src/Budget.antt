-- ===== src/Budget.antt =====
-- app/policies/budget_policy.py: budget states, outcomes, the evaluation of one limit and the
-- decision over all of them. Money and percentages are floats, by the operations of `Float`; the
-- decimal quotient of `_percent` is a field of `Decimal`.
pub mod Limit
pub mod Decide
pub mod Gate
pub mod Periods
pub mod Service
mod Tests
use newchanges.Base.{ℕ, ◌==◌, Bool, true, false, List, [], ◌∷◌, if◌then◌else◌, Option, none, some}

pub data BudgetState : Type 0 where
  normal warning critical exceeded : BudgetState

pub data PolicyOutcome : Type 0 where
  allow downgrade require_approval block : PolicyOutcome

-- `_OUTCOME_SEVERITY`
abbrev pub outcome_severity : PolicyOutcome → ℕ
outcome_severity PolicyOutcome.allow = 0
outcome_severity PolicyOutcome.downgrade = 1
outcome_severity PolicyOutcome.require_approval = 2
outcome_severity PolicyOutcome.block = 3

pub data BudgetScope : Type 0 where
  request model agent workload department plant tenant enterprise : BudgetScope

-- `_SCOPE_RANK`; the tuple `_SCOPE_PRECEDENCE` lists every scope
abbrev pub scope_rank : BudgetScope → ℕ
scope_rank BudgetScope.request = 0
scope_rank BudgetScope.model = 1
scope_rank BudgetScope.agent = 2
scope_rank BudgetScope.workload = 3
scope_rank BudgetScope.department = 4
scope_rank BudgetScope.plant = 5
scope_rank BudgetScope.tenant = 6
scope_rank BudgetScope.enterprise = 7

abbrev state_code : BudgetState → ℕ
state_code BudgetState.normal = 0
state_code BudgetState.warning = 1
state_code BudgetState.critical = 2
state_code BudgetState.exceeded = 3

abbrev pub state_eq : BudgetState → BudgetState → Bool
state_eq a b = state_code a == state_code b

-- `outcome_by_state` is a dict with the states as keys, which may lack some.
pub record BudgetPolicy : Type 0 where
  pub outcome_by_state : List (BudgetState × PolicyOutcome)
  pub require_approval_on_projected_breach : Bool

abbrev pub outcome_of : BudgetState → List (BudgetState × PolicyOutcome) → PolicyOutcome
outcome_of s [] = PolicyOutcome.block
outcome_of s ((k, o) ∷ rest) = if state_eq k s then o else outcome_of s rest

unfoldable pub outcome_for : BudgetPolicy → BudgetState → PolicyOutcome
outcome_for policy s = outcome_of s policy.outcome_by_state

abbrev pub default_budget_policy : BudgetPolicy
default_budget_policy = record {
  outcome_by_state =
      (BudgetState.normal, PolicyOutcome.allow)
      ∷ (BudgetState.warning, PolicyOutcome.allow)
      ∷ (BudgetState.critical, PolicyOutcome.downgrade)
      ∷ (BudgetState.exceeded, PolicyOutcome.block)
      ∷ [];
  require_approval_on_projected_breach = true;
}

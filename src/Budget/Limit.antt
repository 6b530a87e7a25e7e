-- ===== src/Budget/Limit.antt =====
-- The evaluation of one limit: `classify_state` and `evaluate_limit` of
-- app/policies/budget_policy.py.
pub mod Bounds
use newchanges.Base.{
  ℕ, ◌==◌, Bool, true, false, not, ◌&&◌, List, [], ◌∷◌, if◌then◌else◌, Option, none, some, String,
}
use newchanges.Base.Float.{Float}
use newchanges.Budget.{BudgetState, PolicyOutcome, BudgetScope, BudgetPolicy, state_eq, outcome_for}

-- `float((Decimal(str(consumed)) / Decimal(str(amount))) * Decimal(100))`
pub record Decimal {ℓ} (F : Type ℓ) : Type ℓ where
  pub percent_of : F → F → F

module _ {ℓ} (F : Type ℓ) where
  pub record BudgetLimit : Type ℓ where
    pub scope : BudgetScope
    pub scope_id : String
    pub amount : F
    pub currency : String
    pub consumed_actual_cost : F
    pub consumed_estimated_cost : F
    pub warning_threshold_percent : F
    pub critical_threshold_percent : F
    pub budget_id : Option String
    pub unevaluable_reason : Option String

  pub record BudgetEvaluation : Type ℓ where
    pub scope : BudgetScope
    pub scope_id : String
    pub budget_id : Option String
    pub amount : F
    pub currency : String
    pub consumed_actual_cost : F
    pub consumed_estimated_cost : F
    pub consumed_percent : F
    pub projected_percent : F
    pub state : Option BudgetState
    pub outcome : PolicyOutcome
    pub reason : String

-- `f"budget_{state.lower()}"`
abbrev pub state_reason : BudgetState → String
state_reason BudgetState.normal = "budget_normal"
state_reason BudgetState.warning = "budget_warning"
state_reason BudgetState.critical = "budget_critical"
state_reason BudgetState.exceeded = "budget_exceeded"

module _ {ℓ} {F : Type ℓ} ⦃f : Float F⦄ where
  abbrev pub consumed_total : BudgetLimit F → F
  consumed_total l = f.add l.consumed_actual_cost l.consumed_estimated_cost

  unfoldable pub classify_state : F → F → F → BudgetState
  classify_state consumed warning_threshold critical_threshold =
      if f.le f.hundred consumed
      then BudgetState.exceeded
      else if f.le critical_threshold consumed
      then BudgetState.critical
      else if f.le warning_threshold consumed
      then BudgetState.warning
      else BudgetState.normal

module _ {ℓ} {F : Type ℓ} ⦃f : Float F⦄ ⦃d : Decimal F⦄ where
  -- `_percent`
  unfoldable pub percent : F → F → F
  percent consumed amount = if f.le amount f.nought then f.hundred else d.percent_of consumed amount

  abbrev pub limit_state : BudgetLimit F → BudgetState
  limit_state l =
      classify_state (percent (consumed_total l) l.amount) l.warning_threshold_percent
        l.critical_threshold_percent

  -- `projected_breach`
  abbrev pub projected_breach : BudgetPolicy → BudgetLimit F → F → Bool
  projected_breach policy l request_cost =
      policy.require_approval_on_projected_breach
      && (not (state_eq (limit_state l) BudgetState.exceeded)
          && f.le f.hundred (percent (f.add (consumed_total l) request_cost) l.amount))

  abbrev limit_outcome : BudgetPolicy → BudgetLimit F → F → PolicyOutcome
  limit_outcome policy l request_cost =
      if projected_breach policy l request_cost
      then PolicyOutcome.require_approval
      else outcome_for policy (limit_state l)

  -- The fields that both returns of `evaluate_limit` copy or compute alike.
  abbrev verdict :
      BudgetLimit F → F → Option BudgetState → PolicyOutcome → String → BudgetEvaluation F
  verdict l request_cost state outcome reason = record {
    scope = l.scope;
    scope_id = l.scope_id;
    budget_id = l.budget_id;
    amount = l.amount;
    currency = l.currency;
    consumed_actual_cost = l.consumed_actual_cost;
    consumed_estimated_cost = l.consumed_estimated_cost;
    consumed_percent = percent (consumed_total l) l.amount;
    projected_percent = percent (f.add (consumed_total l) request_cost) l.amount;
    state = state;
    outcome = outcome;
    reason = reason;
  }

  unfoldable pub evaluate_limit : BudgetPolicy → F → BudgetLimit F → BudgetEvaluation F
  unfolding percent classify_state outcome_for
  evaluate_limit policy request_cost l = elim l.unevaluable_reason [
    | some why ↦ verdict l request_cost none PolicyOutcome.require_approval why
    | none ↦ verdict l request_cost (some (limit_state l)) (limit_outcome policy l request_cost) (
        if projected_breach policy l request_cost
        then "budget_projected_breach"
        else state_reason (limit_state l))
  ]

-- ===== src/Budget/Decide.antt =====
-- The composition of the verdicts: `_decision_sort_key` and `decide` of
-- app/policies/budget_policy.py.
pub mod Sorted
pub mod Strictest
use newchanges.Base.{
  ℕ, ◌==◌, ◌-◌, ltb, leb, Bool, true, false, not, ◌&&◌, List, [], ◌∷◌, if◌then◌else◌, Option, none,
  some, String, map, str_eq,
}
use newchanges.Base.Float.{Float}
use newchanges.Base.Sort.{text_le, sort_by}
use newchanges.Budget.{
  BudgetState, PolicyOutcome, BudgetScope, BudgetPolicy, outcome_severity, scope_rank,
}
use newchanges.Budget.Limit.{Decimal, BudgetLimit, BudgetEvaluation, evaluate_limit}

pub record BudgetDecision {ℓ} (F : Type ℓ) : Type ℓ where
  pub outcome : PolicyOutcome
  pub deciding : Option (BudgetEvaluation F)
  pub evaluations : List (BudgetEvaluation F)

module _ {ℓ} {F : Type ℓ} where
  -- `evaluation.budget_id or evaluation.scope_id`
  abbrev pub sort_id : BudgetEvaluation F → String
  sort_id e = elim e.budget_id [
    | none ↦ e.scope_id
    | some k ↦ if str_eq k "" then e.scope_id else k
  ]

  -- `_decision_sort_key(a) <= _decision_sort_key(b)`: the tuples' order, the negated severity
  -- first
  unfoldable pub key_le : BudgetEvaluation F → BudgetEvaluation F → Bool
  unfolding text_le
  key_le a b =
      if ltb (outcome_severity b.outcome) (outcome_severity a.outcome)
      then true
      else if ltb (outcome_severity a.outcome) (outcome_severity b.outcome)
      then false
      else if ltb (scope_rank a.scope) (scope_rank b.scope)
      then true
      else if ltb (scope_rank b.scope) (scope_rank a.scope)
      then false
      else text_le (sort_id a) (sort_id b)

  -- `sorted(evaluations, key=_decision_sort_key)`: stable, ascending by key
  unfoldable pub sorted : List (BudgetEvaluation F) → List (BudgetEvaluation F)
  unfolding sort_by
  sorted = sort_by key_le

  abbrev pub compose : List (BudgetEvaluation F) → BudgetDecision F
  compose [] = record { outcome = PolicyOutcome.allow; deciding = none; evaluations = [] }
  compose (e ∷ es) = record { outcome = e.outcome; deciding = some e; evaluations = e ∷ es }

module _ {ℓ} {F : Type ℓ} ⦃f : Float F⦄ ⦃d : Decimal F⦄ where
  unfoldable pub decide : BudgetPolicy → F → List (BudgetLimit F) → BudgetDecision F
  unfolding sorted
  decide policy request_cost limits =
      compose (sorted (map (evaluate_limit policy request_cost) limits))

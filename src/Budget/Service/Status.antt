-- ===== src/Budget/Service/Status.antt =====
-- `BudgetService.status_for_budgets`.
use newchanges.Base.{
  ◌≡◌, refl, arith, List, [], ◌∷◌, if◌then◌else◌, Option, none, some, String, is_none, map,
  Option-cases, inl, inr,
}
use newchanges.Base.Float.{Float}
use newchanges.Budget.{BudgetState}
use newchanges.Budget.Limit.{Decimal, BudgetEvaluation, evaluate_limit}
use newchanges.Budget.Periods.{Moment}
use newchanges.Budget.Service.{BudgetRow, BudgetServices, to_limit}

pub record BudgetStatusResult {ℓ} (F : Type ℓ) : Type ℓ where
  pub budget : BudgetRow F
  pub consumed_actual_cost : F
  pub consumed_estimated_cost : F
  pub consumed_percent : F
  pub state : Option BudgetState
  pub unevaluable_reason : Option String

module _ {ℓ} {F : Type ℓ} ⦃f : Float F⦄ ⦃d : Decimal F⦄ (s : BudgetServices F) (now : Moment) where
  abbrev status_from : BudgetRow F → BudgetEvaluation F → BudgetStatusResult F
  status_from b e = record {
    budget = b;
    consumed_actual_cost = e.consumed_actual_cost;
    consumed_estimated_cost = e.consumed_estimated_cost;
    consumed_percent = e.consumed_percent;
    state = e.state;
    unevaluable_reason = if is_none e.state then some e.reason else none;
  }

  -- `none` is the `ValueError` of a period
  unfoldable status_for_budgets : List (BudgetRow F) → Option (List (BudgetStatusResult F))
  unfolding to_limit evaluate_limit
  status_for_budgets [] = some []
  status_for_budgets (b ∷ budgets) = elim (to_limit s now b) [
    | none ↦ none
    | some l ↦ elim (status_for_budgets budgets) [
      | none ↦ none
      | some rest ↦ some (status_from b (evaluate_limit s.policy f.nought l) ∷ rest)
    ]
  ]

  -- The results stand in the order of the budgets.
  status_for_budgets-map :
      (budgets : List (BudgetRow F)) (rs : List (BudgetStatusResult F))
      → status_for_budgets budgets ≡ some rs
      → map (λ (r : BudgetStatusResult F). r.budget) rs ≡ budgets
  unfolding status_for_budgets
  status_for_budgets-map [] [] h = refl
  status_for_budgets-map [] (r ∷ rs) h = absurd (ground arith)
  status_for_budgets-map (b ∷ budgets) rs h = elim (Option-cases (to_limit s now b)) [
    | inl q ↦ absurd (ground arith)
    | inr (l, q) ↦ elim (Option-cases (status_for_budgets budgets)) [
      | inl e ↦ absurd (ground arith)
      | inr (rest, e) ↦ ground (arith, status_for_budgets-map budgets rest e)
    ]
  ]

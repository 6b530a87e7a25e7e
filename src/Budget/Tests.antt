-- ===== src/Budget/Tests.antt =====
-- Runs of the budget policy over whole units, and its theorems at concrete inputs.
use Prim.Native.Nat.{◌/◌}
use mathlib.Core.List.{Perm}
use native.Mathlib.Nat.{le-div_iff_mul-le, div-mul-le_self}
use newchanges.Base.{ℕ, ◌*◌, ◌≤◌, ◌<◌, leb, ◌≡◌, refl, true, [], ◌∷◌, none, some, arith, map, All}
use newchanges.Base.Sample.{nat_float}
use newchanges.Budget.{
  BudgetScope, BudgetState, PolicyOutcome, BudgetPolicy, default_budget_policy, outcome_severity,
}
use newchanges.Budget.Limit.{Decimal, BudgetLimit, evaluate_limit}
use newchanges.Budget.Limit.Bounds.{IsMonotone}
use newchanges.Budget.Decide.{decide, sorted, key_le}
use newchanges.Budget.Decide.Strictest.{IsDecided, decide-strictest}
use newchanges.Budget.Gate.{Loader}

instance abbrev pub nat_decimal : Decimal ℕ
nat_decimal = record { percent_of = λ c a. c * 100 / a }

div_mono : (a b m : ℕ) → 0 < m → a ≤ b → leb (a * 100 / m) (b * 100 / m) ≡ true
div_mono a b m p h = ground (arith, at_most)
  where
    at_most : a * 100 / m ≤ b * 100 / m
    at_most = (le-div_iff_mul-le p).1 (omega (arith, div-mul-le_self (a * 100) m))

ℕ-IsMonotone : IsMonotone ℕ
ℕ-IsMonotone = record {
  add_mono = λ a b c h. ground arith;
  percent_of_mono = λ a b amount p h. div_mono a b amount (ground arith) (ground arith);
}

abbrev plant_limit : BudgetLimit ℕ
plant_limit = record {
  scope = BudgetScope.plant;
  scope_id = "plant-1";
  amount = 200;
  currency = "USD";
  consumed_actual_cost = 150;
  consumed_estimated_cost = 20;
  warning_threshold_percent = 80;
  critical_threshold_percent = 95;
  budget_id = some "b-7";
  unevaluable_reason = none;
}

abbrev tenant_limit : BudgetLimit ℕ
tenant_limit = record plant_limit {
  scope = BudgetScope.tenant;
  scope_id = "acme";
  amount = 180;
  budget_id = some "b-1";
}

abbrev strict_policy : BudgetPolicy
strict_policy = record {
  outcome_by_state = (BudgetState.normal, PolicyOutcome.allow) ∷ [];
  require_approval_on_projected_breach = true;
}

-- The repository fails for plants and knows one limit of the tenant.
abbrev plants_fail : Loader ℕ
plants_fail t BudgetScope.plant i = none
plants_fail t _ i = some (tenant_limit ∷ [])

decide-two :
    (decide default_budget_policy 10 (plant_limit ∷ tenant_limit ∷ [])).outcome
    ≡ PolicyOutcome.require_approval
unfolding decide evaluate_limit sorted key_le
decide-two = refl

decide-strictest_example :
    All
      (λ l.
        outcome_severity (evaluate_limit default_budget_policy 10 l).outcome
        ≤ outcome_severity (decide default_budget_policy 10 (plant_limit ∷ [])).outcome)
      (plant_limit ∷ [])
    × IsDecided (decide default_budget_policy 10 (plant_limit ∷ []))
    × Perm
        (decide default_budget_policy 10 (plant_limit ∷ [])).evaluations
        (map (evaluate_limit default_budget_policy 10) (plant_limit ∷ []))
decide-strictest_example = decide-strictest default_budget_policy 10 (plant_limit ∷ [])

-- ===== src/Budget/Service/Tests.antt =====
-- A run of the budget service over a small table, and its theorems at concrete inputs.
use mathlib.Core.List.{mem-cons_self, mem-cons_of_mem}
use newchanges.Base.{ℕ, ◌*◌, ◌≤◌, ◌≡◌, refl, [], ◌∷◌, none, some, String, arith}
use newchanges.Base.Sample.{nat_float}
use newchanges.Base.Text.{upper}
use newchanges.Budget.{BudgetScope, default_budget_policy, outcome_severity}
use newchanges.Cost.Currency.{can_convert, to_base}
use newchanges.Budget.Limit.{BudgetLimit, evaluate_limit}
use newchanges.Budget.Decide.{BudgetDecision}
use newchanges.Budget.Periods.{
  Moment, PeriodWindow, Period, period_of, period_window, window_of, days_in_month,
}
use newchanges.Budget.Periods.Windows.{IsInstant, within, same_period, period_window-same_period}
use newchanges.Budget.Service.{
  BudgetRow, BudgetServices, UsageEvent, CostEvent, RequestContext, scope_pairs, to_limit,
  evaluate_request, joined, sum_where,
}
use newchanges.Budget.Service.Coverage.{evaluate_request-covers}
use newchanges.Budget.Service.Spend.{counts, to_limit-counts}
use newchanges.Budget.Tests.{nat_decimal}

abbrev today : Moment
today = record { year = 2026; month = 11; day = 26; micros = 5 }

abbrev last_month : Moment
last_month = record { year = 2026; month = 10; day = 31; micros = 86399999999 }

abbrev use_at : String → Moment → UsageEvent
use_at key t = record {
  id = key;
  tenant_id = some "acme";
  plant_id = some "p-1";
  department_id = none;
  workload_id = none;
  agent_id = none;
  model_id = none;
  timestamp = t;
}

abbrev cost_of : String → ℕ → CostEvent ℕ
cost_of key cost = record {
  usage_event_id = key;
  provenance = "ACTUAL";
  actual_cost = some cost;
  estimated_cost = none;
}

abbrev plant_budget : BudgetRow ℕ
plant_budget = record {
  id = "b-1";
  tenant_id = "acme";
  scope_type = BudgetScope.plant;
  scope_id = "p-1";
  amount = 100;
  currency = some "USD";
  period = "monthly";
  warning_threshold_percent = 80;
  critical_threshold_percent = 95;
  status = "ACTIVE";
}

abbrev services : BudgetServices ℕ
services = record {
  budgets = plant_budget ∷ [];
  usage = use_at "u-1" today ∷ use_at "u-2" last_month ∷ [];
  costs = cost_of "u-1" 30 ∷ cost_of "u-2" 400 ∷ [];
  converter = record { base_currency = "USD"; rates = none };
  times = λ a b. a * b;
  policy = default_budget_policy;
  warning_default = 80;
  critical_default = 95;
}

abbrev context : RequestContext
context = record {
  tenant_id = "acme";
  plant_id = some "p-1";
  department_id = none;
  workload_id = none;
  agent_id = none;
  model_id = none;
}

abbrev november : PeriodWindow
november = record {
  start = record { year = 2026; month = 11; day = 1; micros = 0 };
  end = record { year = 2026; month = 11; day = 30; micros = 86399999999 };
}

november-window : period_window "monthly" today ≡ some november
unfolding period_window window_of days_in_month upper
november-window = refl

today-IsInstant : IsInstant today
unfolding days_in_month
today-IsInstant = record {
  month_from = ground arith;
  month_to = ground arith;
  day_from = ground arith;
  day_to = ground arith;
  micros_to = ground arith;
}

last_month-IsInstant : IsInstant last_month
unfolding days_in_month
last_month-IsInstant = record {
  month_from = ground arith;
  month_to = ground arith;
  day_from = ground arith;
  day_to = ground arith;
  micros_to = ground arith;
}

period_window-same_period_example :
    (p : Period) × (period_of (upper "monthly") ≡ some p)
    × (within november last_month ≡ same_period p today last_month)
period_window-same_period_example =
    period_window-same_period "monthly" today last_month november today-IsInstant
      last_month-IsInstant november-window

evaluate_request-covers_example :
    (r : BudgetDecision ℕ) × (evaluate_request services context 75 none today ≡ some r)
    × (l : BudgetLimit ℕ) × (to_limit services today plant_budget ≡ some l)
    × (outcome_severity (evaluate_limit default_budget_policy 75 l).outcome
        ≤ outcome_severity r.outcome)
unfolding scope_pairs upper
evaluate_request-covers_example =
    evaluate_request-covers services today context 75 none (refl, tt) plant_budget mem-cons_self
      refl refl (mem-cons_of_mem _ (mem-cons_of_mem _ mem-cons_self))

-- The use of October is not counted.
abbrev measured : BudgetLimit ℕ
measured = record {
  scope = BudgetScope.plant;
  scope_id = "p-1";
  amount = 100;
  currency = "USD";
  consumed_actual_cost = 30;
  consumed_estimated_cost = 0;
  warning_threshold_percent = 80;
  critical_threshold_percent = 95;
  budget_id = some "b-1";
  unevaluable_reason = none;
}

to_limit-measured : to_limit services today plant_budget ≡ some measured
unfolding to_limit period_window window_of days_in_month upper can_convert to_base
to_limit-measured = refl

to_limit-counts_example :
    (p : Period) × (period_of (upper "monthly") ≡ some p)
    × (30
        ≡ sum_where
            (λ (c : CostEvent ℕ). c.actual_cost)
            "ACTUAL"
            (joined (counts plant_budget p today) services.usage services.costs))
    × (0
        ≡ sum_where
            (λ (c : CostEvent ℕ). c.estimated_cost)
            "ESTIMATED"
            (joined (counts plant_budget p today) services.usage services.costs))
to_limit-counts_example =
    to_limit-counts services today plant_budget today-IsInstant
      (today-IsInstant, (last_month-IsInstant, tt)) measured to_limit-measured

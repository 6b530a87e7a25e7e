-- ===== src/Budget/Service.antt =====
-- `BudgetService.evaluate` of app/services/budget_service.py, on the tables that it reads through
-- app/repositories/budget_repository.py and app/repositories/cost_repository.py. The decimal
-- product of the converter is an argument.
pub mod Coverage
pub mod Spend
pub mod Status
mod Tests
use newchanges.Base.{
  ℕ, ltb, leb, ◌==◌, Bool, true, false, not, ◌&&◌, ◌||◌, List, [], ◌∷◌, ◌++◌, if◌then◌else◌, Option,
  none, some, String, str_eq, holds_text, any, keep, map,
}
use newchanges.Base.Float.{Float}
use newchanges.Base.Sort.{text_le, sort_by}
use newchanges.Budget.{BudgetScope, BudgetPolicy, scope_rank}
use newchanges.Budget.Limit.{Decimal, BudgetLimit}
use newchanges.Budget.Decide.{BudgetDecision, decide}
use newchanges.Budget.Gate.{given, at_scope}
use newchanges.Budget.Periods.{Moment, PeriodWindow, moment_le, period_window}
use newchanges.Cost.Currency.{
  CurrencyConverter, Converted, converted, conversion_unavailable, can_convert, to_base,
}

-- A row of `budgets`. The column of the scope type admits these values alone.
pub record BudgetRow {ℓ} (F : Type ℓ) : Type ℓ where
  pub id : String
  pub tenant_id : String
  pub scope_type : BudgetScope
  pub scope_id : String
  pub amount : F
  pub currency : Option String
  pub period : String
  pub warning_threshold_percent : F
  pub critical_threshold_percent : F
  pub status : String

-- A row of `usage_events`, by the columns that the query reads.
pub record UsageEvent : Type 0 where
  pub id : String
  pub tenant_id : Option String
  pub plant_id : Option String
  pub department_id : Option String
  pub workload_id : Option String
  pub agent_id : Option String
  pub model_id : Option String
  pub timestamp : Moment

-- A row of `cost_events`.
pub record CostEvent {ℓ} (F : Type ℓ) : Type ℓ where
  pub usage_event_id : String
  pub provenance : String
  pub actual_cost : Option F
  pub estimated_cost : Option F

pub record RequestContext : Type 0 where
  pub tenant_id : String
  pub plant_id : Option String
  pub department_id : Option String
  pub workload_id : Option String
  pub agent_id : Option String
  pub model_id : Option String

-- `scope_pairs`
unfoldable pub scope_pairs : RequestContext → List (BudgetScope × String)
scope_pairs c =
    (BudgetScope.enterprise, c.tenant_id)
    ∷ (BudgetScope.tenant, c.tenant_id)
    ∷ (at_scope BudgetScope.plant (given c.plant_id)
        ++ (at_scope BudgetScope.department (given c.department_id)
            ++ (at_scope BudgetScope.workload (given c.workload_id)
                ++ (at_scope BudgetScope.agent (given c.agent_id)
                    ++ at_scope BudgetScope.model (given c.model_id)))))

-- `str(scope)`, as the column stores it
abbrev pub scope_value : BudgetScope → String
scope_value BudgetScope.request = "REQUEST"
scope_value BudgetScope.model = "MODEL"
scope_value BudgetScope.agent = "AGENT"
scope_value BudgetScope.workload = "WORKLOAD"
scope_value BudgetScope.department = "DEPARTMENT"
scope_value BudgetScope.plant = "PLANT"
scope_value BudgetScope.tenant = "TENANT"
scope_value BudgetScope.enterprise = "ENTERPRISE"

abbrev pub scope_eq : BudgetScope → BudgetScope → Bool
scope_eq a b = scope_rank a == scope_rank b

module _ {ℓ} {F : Type ℓ} where
  -- the `WHERE` of `list_for_scopes`
  abbrev pub applies : String → List (BudgetScope × String) → BudgetRow F → Bool
  applies tenant pairs b =
      str_eq b.tenant_id tenant
      && (str_eq b.status "ACTIVE"
          && any (λ (p : BudgetScope × String). scope_eq b.scope_type p.0 && str_eq b.scope_id p.1)
              pairs)

  -- its `ORDER BY`
  abbrev pub row_order : BudgetRow F → BudgetRow F → Bool
  row_order a b =
      if not (text_le (scope_value b.scope_type) (scope_value a.scope_type))
      then true
      else if not (text_le (scope_value a.scope_type) (scope_value b.scope_type))
      then false
      else if not (text_le b.scope_id a.scope_id)
      then true
      else if not (text_le a.scope_id b.scope_id)
      then false
      else text_le a.id b.id

  unfoldable pub list_for_scopes :
      String → List (BudgetScope × String) → List (BudgetRow F) → List (BudgetRow F)
  unfolding sort_by
  list_for_scopes tenant [] rows = []
  list_for_scopes tenant (p ∷ pairs) rows =
      sort_by row_order (keep (applies tenant (p ∷ pairs)) rows)

-- the condition on the column of a scope; ENTERPRISE has none
abbrev pub scope_matches : BudgetScope → String → UsageEvent → Bool
scope_matches BudgetScope.tenant id u = holds_text u.tenant_id id
scope_matches BudgetScope.plant id u = holds_text u.plant_id id
scope_matches BudgetScope.department id u = holds_text u.department_id id
scope_matches BudgetScope.workload id u = holds_text u.workload_id id
scope_matches BudgetScope.agent id u = holds_text u.agent_id id
scope_matches BudgetScope.model id u = holds_text u.model_id id
scope_matches BudgetScope.enterprise id u = true
scope_matches BudgetScope.request id u = true

-- the `WHERE` of `spend_for_scope`
abbrev pub spent_in : String → BudgetScope → String → PeriodWindow → UsageEvent → Bool
spent_in tenant scope id w u =
    holds_text u.tenant_id tenant
    && (scope_matches scope id u && (moment_le w.start u.timestamp && moment_le u.timestamp w.end))

module _ {ℓ} {F : Type ℓ} ⦃f : Float F⦄ where
  -- `SUM`, over the rows' values that are not NULL, or 0.0 where there are none
  abbrev pub sum_known : List (Option F) → F
  sum_known [] = f.nought
  sum_known (none ∷ xs) = sum_known xs
  sum_known (some x ∷ xs) = f.add x (sum_known xs)

  -- `_sum_where`
  abbrev pub sum_where : (CostEvent F → Option F) → String → List (CostEvent F) → F
  sum_where column provenance costs =
      sum_known (map column (keep (λ (c : CostEvent F). str_eq c.provenance provenance) costs))

  -- the cost events whose usage event meets a condition
  abbrev pub joined :
      (UsageEvent → Bool) → List UsageEvent → List (CostEvent F) → List (CostEvent F)
  joined condition usage costs =
      keep
        (λ (c : CostEvent F).
          any (λ (u : UsageEvent). str_eq c.usage_event_id u.id && condition u) usage)
        costs

-- What the service is built with, and the tables.
pub record BudgetServices {ℓ} (F : Type ℓ) : Type ℓ where
  pub budgets : List (BudgetRow F)
  pub usage : List UsageEvent
  pub costs : List (CostEvent F)
  pub converter : CurrencyConverter F
  pub times : F → F → F
  pub policy : BudgetPolicy
  pub warning_default : F
  pub critical_default : F

pub record RequestLimit {ℓ} (F : Type ℓ) : Type ℓ where
  pub max_cost : F
  pub currency : Option String
  pub source : String

module _ {ℓ} {F : Type ℓ} ⦃f : Float F⦄ (s : BudgetServices F) where
  -- the amount in the base currency and the reason why there is none, as `_to_limit` finds them;
  -- what `can_convert` admits, `to_base` converts, so the last case of either is not reached
  abbrev pub in_base : F → Option String → F × Option String
  in_base amount currency =
      if can_convert s.converter currency
      then elim (to_base s.times s.converter amount currency) [
        | converted a ↦ (a, none)
        | conversion_unavailable a b ↦ (amount, some "currency_not_convertible")
      ]
      else (amount, some "currency_not_convertible")

  abbrev pub spend_of : (CostEvent F → Option F) → String → BudgetRow F → PeriodWindow → F
  spend_of column provenance b w =
      sum_where column provenance
        (joined (spent_in b.tenant_id b.scope_type b.scope_id w) s.usage s.costs)

  -- what `_to_limit` builds once it has the window
  abbrev pub limit_over : BudgetRow F → PeriodWindow → BudgetLimit F
  limit_over b w = record {
    scope = b.scope_type;
    scope_id = b.scope_id;
    amount = (in_base b.amount b.currency).0;
    currency = s.converter.base_currency;
    consumed_actual_cost = spend_of (λ (c : CostEvent F). c.actual_cost) "ACTUAL" b w;
    consumed_estimated_cost = spend_of (λ (c : CostEvent F). c.estimated_cost) "ESTIMATED" b w;
    warning_threshold_percent = b.warning_threshold_percent;
    critical_threshold_percent = b.critical_threshold_percent;
    budget_id = some b.id;
    unevaluable_reason = (in_base b.amount b.currency).1;
  }

  -- `_to_limit`, where `none` is the `ValueError` of the period
  unfoldable pub to_limit : Moment → BudgetRow F → Option (BudgetLimit F)
  unfolding period_window can_convert to_base
  to_limit now b = elim (period_window b.period now) [
    | none ↦ none
    | some w ↦ some (limit_over b w)
  ]

  -- `_request_limit_to_budget_limit`
  unfoldable pub request_limit_to_budget_limit : RequestLimit F → BudgetLimit F
  unfolding can_convert to_base
  request_limit_to_budget_limit l = record {
    scope = BudgetScope.request;
    scope_id = l.source;
    amount = (in_base l.max_cost l.currency).0;
    currency = s.converter.base_currency;
    consumed_actual_cost = f.nought;
    consumed_estimated_cost = f.nought;
    warning_threshold_percent = s.warning_default;
    critical_threshold_percent = s.critical_default;
    budget_id = none;
    unevaluable_reason = (in_base l.max_cost l.currency).1;
  }

  -- the loop of `_load_limits`
  unfoldable pub limits_of : Moment → List (BudgetRow F) → Option (List (BudgetLimit F))
  unfolding to_limit
  limits_of now [] = some []
  limits_of now (b ∷ rows) = elim (to_limit now b) [
    | none ↦ none
    | some l ↦ elim (limits_of now rows) [ none ↦ none | some ls ↦ some (l ∷ ls) ]
  ]

  abbrev pub request_limits : Option (RequestLimit F) → List (BudgetLimit F)
  request_limits none = []
  request_limits (some l) = request_limit_to_budget_limit l ∷ []

  -- `evaluate`
  unfoldable pub evaluate_request :
      ⦃d : Decimal F⦄
      → RequestContext
      → F
      → Option (RequestLimit F)
      → Moment
      → Option (BudgetDecision F)
  unfolding limits_of list_for_scopes scope_pairs request_limit_to_budget_limit
  evaluate_request c cost limit now =
      elim (limits_of now (list_for_scopes c.tenant_id (scope_pairs c) s.budgets)) [
        | none ↦ none
        | some limits ↦ some (decide s.policy cost (limits ++ request_limits limit))
      ]

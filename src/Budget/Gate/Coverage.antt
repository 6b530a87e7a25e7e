-- ===== src/Budget/Gate/Coverage.antt =====
-- Every scope of a request takes part in the decision, also where its lookup fails.
use mathlib.Core.List.{
  Mem, mem-cons, mem-cons_self, not-mem-nil, mem-append_left, mem-append_right, Mem-prop,
}
use mathlib.Core.Path.{subst}
use mathlib.Core.Logic.Or
use newchanges.Base.{◌≤◌, ◌≡◌, List, [], ◌∷◌, Option, none, String}
use newchanges.Base.Float.{Float}
use newchanges.Budget.{PolicyOutcome, BudgetScope, default_budget_policy, outcome_severity}
use newchanges.Budget.Limit.{Decimal, BudgetLimit, evaluate_limit}
use newchanges.Budget.Decide.Strictest.{decide-above}
use newchanges.Budget.Gate.{
  Loader, request_scopes, collect_limits, failed_lookup, scope_limits, evaluate,
}

module _ {ℓ} {F : Type ℓ} ⦃f : Float F⦄ (warn crit : F) (load : Loader F) (t : String) where
  collect_limits-mem :
      (scopes : List (BudgetScope × String)) (s : BudgetScope) (i : String) (l : BudgetLimit F)
      → Mem {A = BudgetScope × String} (s, i) scopes
      → Mem l (scope_limits warn crit load t s i)
      → Mem l (collect_limits warn crit load t scopes)
  unfolding collect_limits
  collect_limits-mem [] s i l m k = absurd (not-mem-nil m)
  collect_limits-mem ((s', i') ∷ rest) s i l m k =
      Or.elim Mem-prop (mem-cons.0 m)
        (λ e.
          mem-append_left (collect_limits warn crit load t rest) (
            subst (λ (x : BudgetScope × String). Mem l (scope_limits warn crit load t x.0 x.1)) e
              k))
        (λ n.
          mem-append_right (scope_limits warn crit load t s' i')
            (collect_limits-mem rest s i l n k))

module _ {ℓ} {F : Type ℓ} ⦃f : Float F⦄ ⦃d : Decimal F⦄ (warn crit : F) (load : Loader F)
    (t : String) (plant department workload : Option String) (cost : F) where
  -- No limit that the repository reports for a scope of the request is stricter than the decision.
  pub evaluate-covers :
      (s : BudgetScope) (i : String) (l : BudgetLimit F)
      → Mem {A = BudgetScope × String} (s, i) (request_scopes t plant department workload)
      → Mem l (scope_limits warn crit load t s i)
      → outcome_severity (evaluate_limit default_budget_policy cost l).outcome
        ≤ outcome_severity (evaluate warn crit load t plant department workload cost).outcome
  unfolding evaluate
  evaluate-covers s i l m k =
      decide-above default_budget_policy cost
        (collect_limits warn crit load t (request_scopes t plant department workload)) l
        (collect_limits-mem warn crit load t (request_scopes t plant department workload) s i l m k)

  -- Where the lookup of one scope of the request fails, the decision is REQUIRE_APPROVAL or BLOCK,
  -- whatever the other scopes report.
  pub evaluate-failed_lookup :
      (s : BudgetScope) (i : String)
      → Mem {A = BudgetScope × String} (s, i) (request_scopes t plant department workload)
      → load t s i ≡ none
      → outcome_severity PolicyOutcome.require_approval
        ≤ outcome_severity (evaluate warn crit load t plant department workload cost).outcome
  unfolding evaluate_limit
  evaluate-failed_lookup s i m e =
      evaluate-covers s i (failed_lookup warn crit s i) m (rw (e, scope_limits) mem-cons_self)

-- ===== src/Budget/Limit/Bounds.antt =====
-- What the verdict on one limit promises.
use newchanges.Base.{◌≤◌, ◌≡◌, ◌≢◌, ◌↔◌, inl, inr, arith, true, false, none, Option-cases}
use newchanges.Base.Float.{Float, IsOrdered, ◌≼◌}
use newchanges.Budget.{
  BudgetState, PolicyOutcome, BudgetPolicy, outcome_for, outcome_severity, default_budget_policy,
}
use newchanges.Budget.Limit.{
  Decimal, BudgetLimit, evaluate_limit, consumed_total, percent, limit_state,
}

-- Rounded addition and rounded division are monotone in the numerator.
pub record IsMonotone {ℓ} (F : Type ℓ) ⦃f : Float F⦄ ⦃d : Decimal F⦄ : Type ℓ where
  pub add_mono : (a b c : F) → b ≼ c → f.add a b ≼ f.add a c
  pub percent_of_mono :
      (a b amount : F)
      → f.le amount f.nought ≡ false
      → a ≼ b
      → d.percent_of a amount ≼ d.percent_of b amount

module _ {ℓ} {F : Type ℓ} ⦃f : Float F⦄ ⦃d : Decimal F⦄ where
  -- A limit allows a request, under the default policy, exactly when it can be evaluated, the spend
  -- so far is under both the limit and the critical threshold, and the spend with the request is
  -- under the limit.
  pub evaluate_limit-allow_iff :
      (cost : F) (l : BudgetLimit F)
      → ((evaluate_limit default_budget_policy cost l).outcome ≡ PolicyOutcome.allow) ↔ (
          (l.unevaluable_reason ≡ none)
          × (f.le f.hundred (percent (consumed_total l) l.amount) ≡ false)
          × (f.le l.critical_threshold_percent (percent (consumed_total l) l.amount) ≡ false)
          × (f.le f.hundred (percent (f.add (consumed_total l) cost) l.amount) ≡ false))
  unfolding evaluate_limit
  evaluate_limit-allow_iff cost l = (λ h. ground arith, λ h. ground arith)

  percent-mono :
      (m : IsMonotone F) (o : IsOrdered F) (a b amount : F)
      → a ≼ b
      → percent a amount ≼ percent b amount
  unfolding percent
  percent-mono m o a b amount h = ground (arith, m.percent_of_mono a b amount, o.le_refl f.hundred)

  -- Under the default policy a dearer request is never judged more leniently by a limit.
  pub evaluate_limit-mono_cost :
      (o : IsOrdered F) (m : IsMonotone F) (cost cost' : F) (l : BudgetLimit F)
      → cost ≼ cost'
      → outcome_severity (evaluate_limit default_budget_policy cost l).outcome
        ≤ outcome_severity (evaluate_limit default_budget_policy cost' l).outcome
  unfolding evaluate_limit
  evaluate_limit-mono_cost o m cost cost' l h = elim (Option-cases l.unevaluable_reason) [
    | inl e ↦ ground (
      arith,
      o.le_trans f.hundred (percent (f.add (consumed_total l) cost) l.amount)
          (percent (f.add (consumed_total l) cost') l.amount),
      percent-mono m o (f.add (consumed_total l) cost) (f.add (consumed_total l) cost') l.amount
          (m.add_mono (consumed_total l) cost cost' h),
    )
    | inr (why, e) ↦ ground arith
  ]

  -- A policy with the rule on projected breaches that blocks in a state short of EXCEEDED, and a
  -- limit in that state that can be evaluated: a request that stays within the limit is blocked,
  -- and one that goes over it is only sent for approval.
  pub projected_breach_loosens :
      (policy : BudgetPolicy) (cost cost' : F) (l : BudgetLimit F)
      → policy.require_approval_on_projected_breach ≡ true
      → l.unevaluable_reason ≡ none
      → limit_state l ≢ BudgetState.exceeded
      → outcome_for policy (limit_state l) ≡ PolicyOutcome.block
      → f.le f.hundred (percent (f.add (consumed_total l) cost) l.amount) ≡ false
      → f.le f.hundred (percent (f.add (consumed_total l) cost') l.amount) ≡ true
      → ((evaluate_limit policy cost l).outcome ≡ PolicyOutcome.block)
        × ((evaluate_limit policy cost' l).outcome ≡ PolicyOutcome.require_approval)
  unfolding evaluate_limit
  projected_breach_loosens policy cost cost' l h e s b under over = ground arith

-- ===== src/Budget/Service/Spend.antt =====
-- The spend that `_to_limit` measures a budget against.
use newchanges.Base.{
  ◌≡◌, refl, sym, ap, ◌∙◌, arith, Bool, ◌&&◌, List, [], ◌∷◌, some, str_eq, holds_text, any, All,
  All-map, Option-cases, inl, inr,
}
use newchanges.Base.Float.{Float}
use newchanges.Base.Text.{upper}
use newchanges.Budget.Limit.{BudgetLimit}
use newchanges.Budget.Periods.{Moment, PeriodWindow, Period, period_of, period_window, window_of}
use newchanges.Budget.Periods.Windows.{
  IsInstant, same_period, within, window-same_period, period_window-window_of,
}
use newchanges.Budget.Service.{
  BudgetRow, BudgetServices, UsageEvent, CostEvent, scope_matches, spent_in, joined, sum_where,
  to_limit, limit_over, spent_in,
}

-- A use of the tenant and of the scope in the period of an instant.
abbrev pub counts {ℓ} : {F : Type ℓ} → BudgetRow F → Period → Moment → UsageEvent → Bool
counts b p now u =
    holds_text u.tenant_id b.tenant_id
    && (scope_matches b.scope_type b.scope_id u && same_period p now u.timestamp)

module _ (p q : UsageEvent → Bool) where
  any_congr : (us : List UsageEvent) → All (λ u. p u ≡ q u) us → any p us ≡ any q us
  any_congr [] h = refl
  any_congr (u ∷ us) h = ground (arith, h.0, any_congr us h.1)

module _ {ℓ} {F : Type ℓ} ⦃f : Float F⦄ where
  joined_congr :
      (p q : UsageEvent → Bool) (us : List UsageEvent)
      → All (λ u. p u ≡ q u) us
      → (cs : List (CostEvent F)) → joined p us cs ≡ joined q us cs
  joined_congr p q us h [] = refl
  joined_congr p q us h (c ∷ cs) = ground (
    arith,
    any_congr (λ u. str_eq c.usage_event_id u.id && p u) (λ u. str_eq c.usage_event_id u.id && q u)
        us
        (All-map (λ u. p u ≡ q u)
          (λ u. (str_eq c.usage_event_id u.id && p u) ≡ (str_eq c.usage_event_id u.id && q u)) us
          (λ u e. ap (λ v. str_eq c.usage_event_id u.id && v) e) h),
    joined_congr p q us h cs,
  )

  module _ (s : BudgetServices F) (now : Moment) (b : BudgetRow F) (valid : IsInstant now)
      (instants : All (λ u. IsInstant u.timestamp) s.usage) where
    spent_in-counts :
        (p : Period) (w : PeriodWindow)
        → window_of p now ≡ w
        → joined (spent_in b.tenant_id b.scope_type b.scope_id w) s.usage s.costs
          ≡ joined (counts b p now) s.usage s.costs
    spent_in-counts p w k =
        joined_congr (spent_in b.tenant_id b.scope_type b.scope_id w) (counts b p now) s.usage
          (All-map (λ u. IsInstant u.timestamp)
            (λ u. spent_in b.tenant_id b.scope_type b.scope_id w u ≡ counts b p now u) s.usage
            (λ u i.
              ap
                (λ v.
                  holds_text u.tenant_id b.tenant_id
                  && (scope_matches b.scope_type b.scope_id u && v))
                (ap (λ x. within x u.timestamp) (sym k)
                  ∙ window-same_period p now u.timestamp valid i))
            instants)
          s.costs

    -- For instants of the calendar, the limit that is measured for a budget has as its consumption
    -- the actual and the estimated costs of the uses by the budget's tenant, in its scope, and in
    -- the same calendar period as the time.
    pub to_limit-counts :
        (l : BudgetLimit F)
        → to_limit s now b ≡ some l
        → (p : Period) × (period_of (upper b.period) ≡ some p)
          × (l.consumed_actual_cost
              ≡ sum_where
                  (λ (c : CostEvent F). c.actual_cost)
                  "ACTUAL"
                  (joined (counts b p now) s.usage s.costs))
          × (l.consumed_estimated_cost
              ≡ sum_where
                  (λ (c : CostEvent F). c.estimated_cost)
                  "ESTIMATED"
                  (joined (counts b p now) s.usage s.costs))
    unfolding to_limit
    to_limit-counts l h = elim (Option-cases (period_window b.period now)) [
      | inl q ↦ absurd (ground arith)
      | inr (w, q) ↦ measured w (ground arith) (period_window-window_of b.period now w q)
    ]
      where
        measured :
            (w : PeriodWindow)
            → limit_over s b w ≡ l
            → ((p : Period) × (period_of (upper b.period) ≡ some p) × (window_of p now ≡ w))
            → (p : Period) × (period_of (upper b.period) ≡ some p)
              × (l.consumed_actual_cost
                  ≡ sum_where
                      (λ (c : CostEvent F). c.actual_cost)
                      "ACTUAL"
                      (joined (counts b p now) s.usage s.costs))
              × (l.consumed_estimated_cost
                  ≡ sum_where
                      (λ (c : CostEvent F). c.estimated_cost)
                      "ESTIMATED"
                      (joined (counts b p now) s.usage s.costs))
        measured w m (p, e, k) = (
          p,
          e,
          sym (ap (λ (x : BudgetLimit F). x.consumed_actual_cost) m)
              ∙ ap (sum_where (λ (c : CostEvent F). c.actual_cost) "ACTUAL")
                  (spent_in-counts p w k),
          sym (ap (λ (x : BudgetLimit F). x.consumed_estimated_cost) m)
              ∙ ap (sum_where (λ (c : CostEvent F). c.estimated_cost) "ESTIMATED")
                  (spent_in-counts p w k),
        )

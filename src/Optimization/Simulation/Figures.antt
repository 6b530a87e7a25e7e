-- ===== src/Optimization/Simulation/Figures.antt =====
-- What a simulation reports where something is not known.
use newchanges.Base.{
  ℕ, ◌==◌, ◌≡◌, refl, ◌∙◌, ◌⊎◌, inl, inr, false, not, ◌&&◌, ◌||◌, Option, none, some, String,
  is_none, Bool-cases,
}
use newchanges.Base.Float.{Float, ◌≼◌}
use newchanges.Registry.{ModelRegistryEntry}
use newchanges.Optimization.Simulation.{
  Rates, FigureProvenance, Figure, SimulationInput, Baseline, SimulationResult, current_of,
  cost_per_request, figure_at, saving_of, within_of, blended_rate, simulate,
}
use newchanges.Optimization.Simulation.Mix.{
  unpriced_ids, uncosted, unscored, blended_rate-unpriced_ids, blended_rate-uncosted,
  quality_impact-unscored,
}

module _ {ℓ} {F : Type ℓ} where
  -- A figure is an amount in the currency with its label, or nothing.
  abbrev pub IsLabelled : FigureProvenance → Baseline F → Figure F → Type ℓ
  IsLabelled label b g =
      ((g.amount ≡ none) × (g.currency ≡ none) × (g.provenance ≡ FigureProvenance.unavailable))
      ⊎ ((x : F) × (g.amount ≡ some x) × (g.currency ≡ some b.currency) × (g.provenance ≡ label))

module _ {ℓ} {F : Type ℓ} ⦃f : Float F⦄ where
  -- ACTUAL where nothing of the spend is estimated, else ESTIMATED.
  abbrev pub IsMeasured : Baseline F → Figure F → Type 0
  IsMeasured b g =
      ((b.estimated_cost ≼ f.nought)
        × (f.nought ≼ b.estimated_cost)
        × (g.provenance ≡ FigureProvenance.actual))
      ⊎ (((f.le b.estimated_cost f.nought ≡ false) ⊎ (f.le f.nought b.estimated_cost ≡ false))
          × (g.provenance ≡ FigureProvenance.estimated))

-- The figures and the budget's answer of a result agree with each other.
pub record IsConsistent {ℓ} {F : Type ℓ} ⦃f : Float F⦄ (i : SimulationInput F) (b : Baseline F)
    (s : SimulationResult F) : Type ℓ where
  pub current_known : s.current_cost.amount ≡ some (f.add b.actual_cost b.estimated_cost)
  pub current_currency : s.current_cost.currency ≡ some b.currency
  pub current_labelled : IsMeasured b s.current_cost
  pub forecast_labelled : IsLabelled FigureProvenance.forecast b s.forecast_cost
  pub optimized_labelled : IsLabelled FigureProvenance.simulated b s.optimized_cost
  pub saving_labelled : IsLabelled FigureProvenance.simulated b s.estimated_saving
  pub forecast_missing : is_none s.forecast_cost.amount ≡ (b.total_requests == 0)
  pub saving_missing :
      is_none s.estimated_saving.amount
      ≡ (is_none s.forecast_cost.amount || is_none s.optimized_cost.amount)
  pub percent_missing :
      (is_none s.estimated_saving.amount && not (is_none s.estimated_saving_percent)) ≡ false
  pub budget_missing :
      is_none s.within_budget ≡ (is_none i.budget_amount || is_none s.optimized_cost.amount)

module _ {ℓ} {F : Type ℓ} ⦃f : Float F⦄ ⦃r : Rates F⦄ (b : Baseline F) where
  current_of-IsMeasured : IsMeasured b (current_of b)
  current_of-IsMeasured = elim (Bool-cases (f.le b.estimated_cost f.nought)) [
    | inl p ↦ elim (Bool-cases (f.le f.nought b.estimated_cost)) [
      | inl q ↦ inl (p, q, rw (p, q) refl)
      | inr q ↦ inr (inr q, rw (p, q) refl)
    ]
    | inr p ↦ inr (inl p, rw p refl)
  ]

  figure_at-IsLabelled :
      (label : FigureProvenance) (volume : ℕ) (rate : Option F)
      → IsLabelled label b (figure_at b label volume rate)
  figure_at-IsLabelled label volume none = inl (refl, refl, refl)
  figure_at-IsLabelled label volume (some x) = inr (f.scale x volume, refl, refl, refl)

  is_none-figure_at :
      (label : FigureProvenance) (volume : ℕ) (rate : Option F)
      → is_none (figure_at b label volume rate).amount ≡ is_none rate
  is_none-figure_at label volume none = refl
  is_none-figure_at label volume (some x) = refl

  saving_of-IsLabelled :
      (x y : Option F) → IsLabelled FigureProvenance.simulated b (saving_of b x y).0
  saving_of-IsLabelled none y = inl (refl, refl, refl)
  saving_of-IsLabelled (some x) none = inl (refl, refl, refl)
  saving_of-IsLabelled (some x) (some y) = inr (f.sub x y, refl, refl, refl)

  saving_of-missing :
      (x y : Option F) → is_none (saving_of b x y).0.amount ≡ (is_none x || is_none y)
  saving_of-missing none y = refl
  saving_of-missing (some x) none = refl
  saving_of-missing (some x) (some y) = refl

  saving_of-percent :
      (x y : Option F)
      → (is_none (saving_of b x y).0.amount && not (is_none (saving_of b x y).1)) ≡ false
  saving_of-percent none y = refl
  saving_of-percent (some x) none = refl
  saving_of-percent (some x) (some y) = refl

  within_of-missing : (x y : Option F) → is_none (within_of x y) ≡ (is_none x || is_none y)
  within_of-missing none y = refl
  within_of-missing (some x) none = refl
  within_of-missing (some x) (some y) = refl

  rate_missing : is_none (cost_per_request b) ≡ (b.total_requests == 0)
  rate_missing = elim (Bool-cases (b.total_requests == 0)) [ inl q ↦ rw q refl | inr q ↦ rw q refl ]

module _ {ℓ} {F : Type ℓ} ⦃f : Float F⦄ ⦃r : Rates F⦄ (i : SimulationInput F) (b : Baseline F)
    (registry : String → Option (ModelRegistryEntry F)) (quality : Option F) where
  predicted : Option F
  predicted = (figure_at b FigureProvenance.forecast i.request_volume (cost_per_request b)).amount

  optimized : Option F
  optimized =
      (figure_at b FigureProvenance.simulated i.request_volume
        (blended_rate registry i.model_mix).0).amount

  -- The current cost of a simulation is the sum of the actual and the estimated cost, in the
  -- baseline's currency, labelled ACTUAL where the estimated cost is equal to 0.0 and else
  -- ESTIMATED. Each other figure has an amount in that currency and its own label, or neither and
  -- UNAVAILABLE. The forecast is missing exactly without traffic; the saving exactly where the
  -- forecast or the optimized cost is, and then its percentage is too; the budget's answer exactly
  -- where the budget or the optimized cost is.
  pub simulate-IsConsistent : IsConsistent i b (simulate i b registry quality)
  unfolding simulate predicted optimized
  simulate-IsConsistent = record {
    current_known = refl;
    current_currency = refl;
    current_labelled = current_of-IsMeasured b;
    forecast_labelled =
        figure_at-IsLabelled b FigureProvenance.forecast i.request_volume (cost_per_request b);
    optimized_labelled =
        figure_at-IsLabelled b FigureProvenance.simulated i.request_volume
          (blended_rate registry i.model_mix).0;
    saving_labelled = saving_of-IsLabelled b predicted optimized;
    forecast_missing =
        is_none-figure_at b FigureProvenance.forecast i.request_volume (cost_per_request b)
        ∙ rate_missing b;
    saving_missing = saving_of-missing b predicted optimized;
    percent_missing = saving_of-percent b predicted optimized;
    budget_missing = within_of-missing b i.budget_amount optimized;
  }

  -- The simulation reports as unpriced exactly the ids of the mix, in its order, whose model is
  -- unknown or lacks pricing. It has no optimized cost exactly where the mix is empty, has an
  -- unpriced model or a total share that is not above zero, and no quality impact exactly where
  -- there is no positive baseline, the mix is empty or has a model without a score, or that total
  -- share.
  pub simulate-unpriced_ids :
      ((simulate i b registry quality).unpriced_model_ids ≡ unpriced_ids registry i.model_mix)
      × (is_none (simulate i b registry quality).optimized_cost.amount
          ≡ uncosted registry i.model_mix)
      × (is_none (simulate i b registry quality).quality_impact_percent
          ≡ unscored registry i.model_mix quality)
  unfolding simulate
  simulate-unpriced_ids = (
    blended_rate-unpriced_ids registry i.model_mix,
    is_none-figure_at b FigureProvenance.simulated i.request_volume
          (blended_rate registry i.model_mix).0
        ∙ blended_rate-uncosted registry i.model_mix,
    quality_impact-unscored registry i.model_mix quality,
  )

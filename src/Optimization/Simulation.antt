-- ===== src/Optimization/Simulation.antt =====
-- app/optimization/simulation.py. The enumeration of the risk levels is the one of
-- app/orchestrator/classification.py, member by member. An assumption is a constructor in place of
-- its sentence.
pub mod Mix
pub mod Risk
pub mod Figures
use newchanges.Base.{
  ℕ, zero, suc, ◌==◌, ltb, Bool, true, false, not, ◌&&◌, ◌||◌, List, [], ◌∷◌, ◌++◌, if◌then◌else◌,
  Option, none, some, String, is_none, is_empty, length,
}
use newchanges.Base.Float.{Float}
use newchanges.Base.Text.{upper, strip}
use newchanges.Registry.{ModelRegistryEntry, has_known_pricing, is_given}
use newchanges.Orchestrator.Classification.{RiskLevel, risk_of}

pub data FigureProvenance : Type 0 where
  actual estimated forecast simulated unavailable : FigureProvenance

-- `_RISK_ORDER.index(level)`
abbrev pub risk_index : RiskLevel → ℕ
risk_index RiskLevel.low = 0
risk_index RiskLevel.medium = 1
risk_index RiskLevel.high = 2
risk_index RiskLevel.critical = 3

-- `x * y`, `x / y` and `x / n` for an int `n`
pub record Rates {ℓ} (F : Type ℓ) : Type ℓ where
  pub times : F → F → F
  pub over : F → F → F
  pub per : F → ℕ → F

module _ {ℓ} (F : Type ℓ) where
  pub record Figure : Type ℓ where
    pub amount : Option F
    pub currency : Option String
    pub provenance : FigureProvenance

  pub record ModelMixEntry : Type ℓ where
    pub model_id : String
    pub share_percent : F

  pub record SimulationInput : Type ℓ where
    pub request_volume : ℕ
    pub production_volume : Option ℕ
    pub image_volume : Option ℕ
    pub budget_amount : Option F
    pub model_mix : List (ModelMixEntry)
    pub horizon_days : ℕ
    pub workload_id : Option String

  pub record Baseline : Type ℓ where
    pub actual_cost : F
    pub estimated_cost : F
    pub total_requests : ℕ
    pub currency : String

  -- the sentences, by what they are formatted with
  pub data Assumption : Type ℓ where
    no_traffic : Assumption
    rate_projected : F → String → ℕ → Assumption
    unpriced_models : ℕ → Assumption
    no_model_mix : Assumption
    blended_rate_applied : F → String → String → Assumption
    savings_unknown : Assumption
    images_assumed : ℕ → Assumption
    production_assumed : ℕ → Assumption
    not_a_commitment : Assumption

  pub record SimulationResult : Type ℓ where
    pub horizon_days : ℕ
    pub current_cost : Figure
    pub forecast_cost : Figure
    pub optimized_cost : Figure
    pub estimated_saving : Figure
    pub estimated_saving_percent : Option F
    pub quality_impact_percent : Option F
    pub risk_level : RiskLevel
    pub within_budget : Option Bool
    pub unpriced_model_ids : List String
    pub assumptions : List Assumption
    pub provenance : FigureProvenance

  -- the locals of the loop of `_blended_rate`
  pub record Blend : Type ℓ where
    pub unpriced : List String
    pub weighted : F
    pub total_share : F
    pub cost_unit : Option String

-- `a or b` for an optional text
abbrev pub text_or_else : Option String → Option String → Option String
text_or_else a b = if is_given a then a else b

module _ {ℓ} {F : Type ℓ} where
  -- `Figure.unavailable`
  abbrev pub no_figure : Figure F
  no_figure = record { amount = none; currency = none; provenance = FigureProvenance.unavailable }

  -- the model of an entry, where it is known with its pricing
  abbrev pub if_priced : Option (ModelRegistryEntry F) → Option (ModelRegistryEntry F)
  if_priced none = none
  if_priced (some m) = if has_known_pricing m then some m else none

  abbrev pub score_of : Option (ModelRegistryEntry F) → Option F
  score_of none = none
  score_of (some m) = m.quality_score

  abbrev pub level_of : ModelRegistryEntry F → RiskLevel
  level_of m = elim m.risk_level [
    | none ↦ RiskLevel.medium
    | some s ↦ elim (risk_of (upper (strip s))) [ none ↦ RiskLevel.medium | some r ↦ r ]
  ]

  abbrev pub raise_to : RiskLevel → Option (ModelRegistryEntry F) → RiskLevel
  raise_to highest none = highest
  raise_to highest (some m) =
      if ltb (risk_index highest) (risk_index (level_of m)) then level_of m else highest

  unfoldable pub highest_risk :
      (String → Option (ModelRegistryEntry F)) → RiskLevel → List (ModelMixEntry F) → RiskLevel
  unfolding upper strip
  highest_risk registry highest [] = highest
  highest_risk registry highest (e ∷ mix) =
      highest_risk registry (raise_to highest (registry e.model_id)) mix

  -- `_mix_risk`
  abbrev pub mix_risk :
      (String → Option (ModelRegistryEntry F)) → List (ModelMixEntry F) → RiskLevel
  mix_risk registry mix = highest_risk registry RiskLevel.low mix

module _ {ℓ} {F : Type ℓ} ⦃f : Float F⦄ ⦃r : Rates F⦄ where
  abbrev pub known_spend : Baseline F → F
  known_spend b = f.add b.actual_cost b.estimated_cost

  abbrev pub cost_per_request : Baseline F → Option F
  cost_per_request b =
      if b.total_requests == 0 then none else some (r.per (known_spend b) b.total_requests)

  -- `x or 0.0`
  abbrev pub or_nought : Option F → F
  or_nought none = f.nought
  or_nought (some x) = x

  -- one round of the loop of `_blended_rate`
  abbrev pub blend_step : Blend F → ModelMixEntry F → Option (ModelRegistryEntry F) → Blend F
  blend_step a e none = record a { unpriced = a.unpriced ++ (e.model_id ∷ []) }
  blend_step a e (some m) = record a {
    weighted = f.add a.weighted (
        r.times (f.add (or_nought m.input_cost) (or_nought m.output_cost))
          (r.over e.share_percent f.hundred));
    total_share = f.add a.total_share e.share_percent;
    cost_unit = text_or_else a.cost_unit m.cost_unit;
  }

  unfoldable pub blend :
      (String → Option (ModelRegistryEntry F)) → Blend F → List (ModelMixEntry F) → Blend F
  unfolding has_known_pricing
  blend registry a [] = a
  blend registry a (e ∷ mix) = blend registry (blend_step a e (if_priced (registry e.model_id))) mix

  abbrev pub no_blend : Blend F
  no_blend = record { unpriced = []; weighted = f.nought; total_share = f.nought; cost_unit = none }

  abbrev pub blend_result : Blend F → Option F × List String × Option String
  blend_result a =
      if not (is_empty a.unpriced) || f.le a.total_share f.nought
      then (none, a.unpriced, a.cost_unit)
      else (some a.weighted, [], a.cost_unit)

  -- `_blended_rate`
  unfoldable pub blended_rate :
      (String → Option (ModelRegistryEntry F))
      → List (ModelMixEntry F)
      → Option F × List String × Option String
  unfolding blend
  blended_rate registry [] = (none, [], none)
  blended_rate registry (e ∷ mix) = blend_result (blend registry no_blend (e ∷ mix))

  -- the loop of `_quality_impact`, which ends at a model without a score
  unfoldable pub weigh :
      (String → Option (ModelRegistryEntry F)) → F × F → List (ModelMixEntry F) → Option (F × F)
  weigh registry a [] = some a
  weigh registry (weighted, total) (e ∷ mix) = elim (score_of (registry e.model_id)) [
    | none ↦ none
    | some q ↦
        weigh registry
          (
            f.add weighted (r.times q (r.over e.share_percent f.hundred)),
            f.add total e.share_percent,
          )
          mix
  ]

  abbrev pub impact_on : F → Option (F × F) → Option F
  impact_on base none = none
  impact_on base (some (weighted, total)) =
      if f.le total f.nought
      then none
      else some (r.times (r.over (f.sub weighted base) base) f.hundred)

  -- `_quality_impact`
  unfoldable pub quality_impact :
      (String → Option (ModelRegistryEntry F)) → List (ModelMixEntry F) → Option F → Option F
  unfolding weigh
  quality_impact registry mix none = none
  quality_impact registry mix (some base) =
      if is_empty mix || f.le base f.nought
      then none
      else impact_on base (weigh registry (f.nought, f.nought) mix)

  -- `x == 0`
  abbrev pub is_nought : F → Bool
  is_nought x = f.le x f.nought && f.le f.nought x

  abbrev pub current_of : Baseline F → Figure F
  current_of b = record {
    amount = some (known_spend b);
    currency = some b.currency;
    provenance =
        if is_nought b.estimated_cost then FigureProvenance.actual else FigureProvenance.estimated;
  }

  -- a rate applied to the volume, or no figure
  abbrev pub figure_at : Baseline F → FigureProvenance → ℕ → Option F → Figure F
  figure_at b label volume none = no_figure
  figure_at b label volume (some rate) = record {
    amount = some (f.scale rate volume);
    currency = some b.currency;
    provenance = label;
  }

  abbrev pub saving_of : Baseline F → Option F → Option F → Figure F × Option F
  saving_of b (some before) (some optimized) = (
    record {
      amount = some (f.sub before optimized);
      currency = some b.currency;
      provenance = FigureProvenance.simulated;
    },
    (if is_nought before
        then none
        else some (r.times (r.over (f.sub before optimized) before) f.hundred)),
  )
  saving_of b _ _ = (no_figure, none)

  abbrev pub within_of : Option F → Option F → Option Bool
  within_of (some budget) (some optimized) = some (f.le optimized budget)
  within_of _ _ = none

  abbrev pub note_forecast : SimulationInput F → Baseline F → Option F → Assumption F
  note_forecast i b none = Assumption.no_traffic
  note_forecast i b (some rate) = Assumption.rate_projected rate b.currency i.request_volume

  abbrev pub note_optimized :
      SimulationInput F → Baseline F → Option F × List String × Option String → List (Assumption F)
  note_optimized i b (some rate, unpriced, unit) =
      Assumption.blended_rate_applied rate b.currency
        (elim (text_or_else unit (some "unit")) [ none ↦ "unit" | some u ↦ u ])
      ∷ []
  note_optimized i b (none, unpriced, unit) =
      if not (is_empty unpriced)
      then Assumption.unpriced_models (length unpriced) ∷ []
      else if is_empty i.model_mix
      then Assumption.no_model_mix ∷ []
      else []

  abbrev pub note_saving : Option F → List (Assumption F)
  note_saving none = Assumption.savings_unknown ∷ []
  note_saving (some _) = []

  abbrev pub note_volume : (ℕ → Assumption F) → Option ℕ → List (Assumption F)
  note_volume note none = []
  note_volume note (some zero) = []
  note_volume note (some (suc n)) = note (suc n) ∷ []

  unfoldable pub simulate :
      SimulationInput F
      → Baseline F
      → (String → Option (ModelRegistryEntry F))
      → Option F
      → SimulationResult F
  unfolding blended_rate quality_impact highest_risk
  simulate i b registry baseline_quality =
      let blended = blended_rate registry i.model_mix in
      let predicted = figure_at b FigureProvenance.forecast i.request_volume (cost_per_request b) in
      let optimized = figure_at b FigureProvenance.simulated i.request_volume blended.0 in
      let saving = saving_of b predicted.amount optimized.amount in
      record {
        horizon_days = i.horizon_days;
        current_cost = current_of b;
        forecast_cost = predicted;
        optimized_cost = optimized;
        estimated_saving = saving.0;
        estimated_saving_percent = saving.1;
        quality_impact_percent = quality_impact registry i.model_mix baseline_quality;
        risk_level = mix_risk registry i.model_mix;
        within_budget = within_of i.budget_amount optimized.amount;
        unpriced_model_ids = blended.1;
        assumptions =
            note_forecast i b (cost_per_request b)
            ∷ (note_optimized i b blended
                ++ (note_saving saving.0.amount
                    ++ (note_volume Assumption.images_assumed i.image_volume
                        ++ (note_volume Assumption.production_assumed i.production_volume
                            ++ (Assumption.not_a_commitment ∷ [])))));
        provenance = FigureProvenance.simulated;
      }

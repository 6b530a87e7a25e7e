-- ===== src/Optimization/Tests.antt =====
-- A simulation and an analysis over whole numbers, and the theorems at concrete inputs.
use newchanges.Base.{
  ℕ, ◌*◌, ◌≡◌, refl, true, List, [], ◌∷◌, Option, none, some, String, str_eq, is_none,
  if◌then◌else◌,
}
use Prim.Native.Nat.{◌/◌}
use newchanges.Base.Sample.{nat_float, ℕ-IsOrdered}
use newchanges.Optimization.Engine.{Scoring, OptimizationAnalysisResult, analyze}
use newchanges.Optimization.Engine.Proposals.{IsProposal, analyze-IsProposal}
use newchanges.Registry.{ModelRegistryEntry, has_known_pricing}
use newchanges.Optimization.Simulation.{
  Rates, ModelMixEntry, SimulationInput, Baseline, simulate, blended_rate, blend, mix_risk,
  risk_index,
}
use newchanges.Optimization.Simulation.Mix.{unpriced_ids, uncosted, unscored}
use newchanges.Optimization.Simulation.Risk.{largest, ranks, mix_risk-eq-largest}
use newchanges.Optimization.Simulation.Figures.{
  IsConsistent, simulate-IsConsistent, simulate-unpriced_ids,
}

instance abbrev nat_rates : Rates ℕ
nat_rates = record { times = λ a b. a * b; over = λ a b. a / b; per = λ a n. a / n }

abbrev entry : ModelRegistryEntry ℕ
entry = record {
  id = "m-1";
  model_name = "mini";
  provider = none;
  capability = "text";
  modality = none;
  input_cost = some 2;
  output_cost = some 3;
  cost_unit = some "request";
  max_context_tokens = none;
  supports_vision = none;
  supports_tools = none;
  supports_structured_output = none;
  supports_embeddings = none;
  quality_score = some 90;
  latency_score = none;
  risk_level = some " high ";
  enabled = true;
}

-- The second model has no price for its output.
abbrev registry : String → Option (ModelRegistryEntry ℕ)
registry id =
    if str_eq id "m-1"
    then some entry
    else if str_eq id "m-2"
    then some (record entry { id = "m-2"; output_cost = none })
    else none

abbrev baseline : Baseline ℕ
baseline = record {
  actual_cost = 800;
  estimated_cost = 200;
  total_requests = 100;
  currency = "USD";
}

abbrev with_mix : List (ModelMixEntry ℕ) → SimulationInput ℕ
with_mix mix = record {
  request_volume = 50;
  production_volume = none;
  image_volume = some 4;
  budget_amount = some 300;
  model_mix = mix;
  horizon_days = 30;
  workload_id = none;
}

abbrev only_one : List (ModelMixEntry ℕ)
only_one = record { model_id = "m-1"; share_percent = 100 } ∷ []

abbrev with_unpriced : List (ModelMixEntry ℕ)
with_unpriced = record { model_id = "m-2"; share_percent = 50 } ∷ only_one

simulate-only_one :
    ((simulate (with_mix only_one) baseline registry none).optimized_cost.amount ≡ some 250)
    × ((simulate (with_mix only_one) baseline registry none).estimated_saving.amount ≡ some 250)
    × ((simulate (with_mix only_one) baseline registry none).within_budget ≡ some true)
unfolding simulate blended_rate blend has_known_pricing
simulate-only_one = (refl, refl, refl)

simulate-with_unpriced :
    (simulate (with_mix with_unpriced) baseline registry none).unpriced_model_ids ≡ ("m-2" ∷ [])
unfolding simulate blended_rate blend has_known_pricing
simulate-with_unpriced = refl

simulate-IsConsistent_example :
    IsConsistent
      (with_mix with_unpriced)
      baseline
      (simulate (with_mix with_unpriced) baseline registry (some 80))
simulate-IsConsistent_example =
    simulate-IsConsistent (with_mix with_unpriced) baseline registry (some 80)

simulate-unpriced_ids_example :
    ((simulate (with_mix with_unpriced) baseline registry none).unpriced_model_ids
      ≡ unpriced_ids registry with_unpriced)
    × (is_none (simulate (with_mix with_unpriced) baseline registry none).optimized_cost.amount
        ≡ uncosted registry with_unpriced)
    × (is_none (simulate (with_mix with_unpriced) baseline registry none).quality_impact_percent
        ≡ unscored registry with_unpriced none)
simulate-unpriced_ids_example =
    simulate-unpriced_ids (with_mix with_unpriced) baseline registry none

mix_risk-eq-largest_example :
    risk_index (mix_risk registry with_unpriced) ≡ largest (ranks registry with_unpriced)
mix_risk-eq-largest_example = mix_risk-eq-largest registry with_unpriced

-- Hundredths of whole numbers.
abbrev scoring : Scoring ℕ
scoring = record {
  hundredths = λ n. n;
  times = λ a b. a * b / 100;
  over = λ a b. a / b;
  negate = λ a. 0;
  round = λ a. a;
}

analyze-IsProposal_example :
    (r : OptimizationAnalysisResult ℕ) × (analyze scoring
        (λ n. "pol-1")
        "quality_check"
        100000
        "HIGH"
        "STATIC"
      ≡ some r)
    × IsProposal r
analyze-IsProposal_example =
    analyze-IsProposal ℕ-IsOrdered scoring (λ n. "pol-1") "quality_check" 100000 "HIGH" "STATIC"

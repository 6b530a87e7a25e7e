-- ===== src/Cost/Tests.antt =====
-- Runs of the cost engine and of the converter over whole numbers, and their theorems at concrete
-- inputs.
use Prim.Native.Nat.{◌/◌}
use newchanges.Base.{ℕ, ◌+◌, ◌*◌, ◌≡◌, refl, none, some, [], ◌∷◌}
use newchanges.Cost.Engine.{
  Arithmetic, CostUnit, UsageSource, TokenUsage, ModelPricing, ToolUsage, parse_cost_unit,
  compute_cost,
}
use newchanges.Cost.Engine.Labels.{
  label, compute_cost-label, IsConsistent, compute_cost-IsConsistent,
}
use newchanges.Cost.Currency.{CurrencyConverter, converted, to_base}

instance abbrev nat_arithmetic : Arithmetic ℕ ℕ
nat_arithmetic = record {
  to_decimal = λ x. x;
  quantize = λ x. x;
  from_int = λ n. n;
  add = λ a b. a + b;
  mul = λ a b. a * b;
  div = λ a b. a / b;
}

abbrev reported : TokenUsage
reported = record {
  input_tokens = some 3000;
  output_tokens = some 1000;
  source = UsageSource.provider_reported;
}

abbrev pricing : ModelPricing ℕ
pricing = record {
  input_cost = some 2;
  output_cost = some 5;
  cost_unit = some " Per-1K tokens";
  currency = "USD";
}

abbrev no_tools : ToolUsage ℕ
no_tools = record { calls = 0; estimated_cost_per_call = none }

unit-free_text : parse_cost_unit (some " Per-1K tokens") ≡ some CostUnit.per_1k_tokens
unfolding parse_cost_unit
unit-free_text = refl

total-reported : (compute_cost ℕ reported pricing no_tools none).total_cost ≡ some 11
unfolding compute_cost
total-reported = refl

compute_cost-label_example :
    (compute_cost ℕ reported pricing no_tools (some 4)).provenance
    ≡ label reported pricing no_tools (some 4)
compute_cost-label_example = compute_cost-label ℕ reported pricing no_tools (some 4)

compute_cost-IsConsistent_example :
    IsConsistent ℕ reported pricing no_tools none (compute_cost ℕ reported pricing no_tools none)
compute_cost-IsConsistent_example = compute_cost-IsConsistent ℕ reported pricing no_tools none

abbrev converter : CurrencyConverter ℕ
converter = record { base_currency = "USD"; rates = some (("EUR", 2) ∷ []) }

to_base-eur : to_base (λ a b. a * b) converter 50 (some " eur") ≡ converted 100
unfolding to_base
to_base-eur = refl

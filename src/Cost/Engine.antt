-- ===== src/Cost/Engine.antt =====
-- app/services/cost_engine.py. The decimals that it computes in are a type with the operations that
-- it uses; a float always has one, as the program stores finite floats only.
pub mod Labels
use Prim.Native.String.{char_at}
use newchanges.Base.{
  ℕ, leb, ltb, Bool, true, false, not, ◌&&◌, if◌then◌else◌, Option, none, some, String, str_eq,
  List, [], ◌∷◌, is_none,
}
use newchanges.Base.Text.{lower, strip, replace_char}

pub record Arithmetic {ℓ} (F D : Type ℓ) : Type ℓ where
  -- `Decimal(str(value))`, and `float(value.quantize(COST_QUANTUM))`
  pub to_decimal : F → D
  pub quantize : D → F
  pub from_int : ℕ → D
  pub add : D → D → D
  pub mul : D → D → D
  pub div : D → D → D

pub data Provenance : Type 0 where
  actual estimated unavailable : Provenance

-- `_PROVENANCE_RANK`
abbrev pub provenance_rank : Provenance → ℕ
provenance_rank Provenance.actual = 2
provenance_rank Provenance.estimated = 1
provenance_rank Provenance.unavailable = 0

-- `min(values, key=...)` of the values after a first one: the first of the least
abbrev pub least_of : Provenance → List Provenance → Provenance
least_of p [] = p
least_of p (q ∷ qs) =
    if ltb (provenance_rank q) (provenance_rank p) then least_of q qs else least_of p qs

unfoldable pub weakest : List Provenance → Provenance
weakest [] = Provenance.unavailable
weakest (p ∷ ps) = least_of p ps

pub data UsageSource : Type 0 where
  provider_reported estimated : UsageSource

pub data CostUnit : Type 0 where
  per_token per_1k_tokens per_1m_tokens : CostUnit

-- `_TOKENS_PER_UNIT`
abbrev pub tokens_per_unit : CostUnit → ℕ
tokens_per_unit CostUnit.per_token = 1
tokens_per_unit CostUnit.per_1k_tokens = 1000
tokens_per_unit CostUnit.per_1m_tokens = 1000000

-- `CostUnit(normalised)`; `none` is the `ValueError`
abbrev cost_unit_of : String → Option CostUnit
cost_unit_of s =
    if str_eq s "per_token"
    then some CostUnit.per_token
    else if str_eq s "per_1k_tokens"
    then some CostUnit.per_1k_tokens
    else if str_eq s "per_1m_tokens"
    then some CostUnit.per_1m_tokens
    else none

-- the hyphen and the space become an underscore
abbrev normalised_unit : String → String
normalised_unit s =
    replace_char 32 (char_at "_" 0) (replace_char 45 (char_at "_" 0) (lower (strip s)))

unfoldable pub parse_cost_unit : Option String → Option CostUnit
unfolding lower strip replace_char
parse_cost_unit none = none
parse_cost_unit (some s) = if str_eq s "" then none else cost_unit_of (normalised_unit s)

pub record TokenUsage : Type 0 where
  pub input_tokens : Option ℕ
  pub output_tokens : Option ℕ
  pub source : UsageSource

module _ {ℓ} (F : Type ℓ) where
  pub record ModelPricing : Type ℓ where
    pub input_cost : Option F
    pub output_cost : Option F
    pub cost_unit : Option String
    pub currency : String

  pub record ToolUsage : Type ℓ where
    pub calls : ℕ
    pub estimated_cost_per_call : Option F

  pub record CostComputation : Type ℓ where
    pub input_cost : Option F
    pub output_cost : Option F
    pub tool_cost : Option F
    pub infrastructure_cost : Option F
    pub total_cost : Option F
    pub currency : String
    pub provenance : Provenance
    pub unavailable_reason : Option String

module _ {ℓ} {F : Type ℓ} where
  abbrev pub is_usable : ModelPricing F → Bool
  is_usable p =
      not (is_none p.input_cost)
      && (not (is_none p.output_cost) && not (is_none (parse_cost_unit p.cost_unit)))

  abbrev pub is_priced : ToolUsage F → Bool
  is_priced t = leb 1 t.calls && not (is_none t.estimated_cost_per_call)

  -- what is stored in the two columns of a cost event
  abbrev pub actual_cost : CostComputation F → Option F
  actual_cost c = elim c.provenance [
    | Provenance.actual ↦ c.total_cost
    | Provenance.estimated ↦ none
    | Provenance.unavailable ↦ none
  ]

  abbrev pub estimated_cost : CostComputation F → Option F
  estimated_cost c = elim c.provenance [
    | Provenance.actual ↦ none
    | Provenance.estimated ↦ c.total_cost
    | Provenance.unavailable ↦ none
  ]

  -- `_pricing_gap`
  abbrev pub pricing_gap : ModelPricing F → String
  pricing_gap p = elim p.input_cost [
    | none ↦ "pricing_not_configured"
    | some _ ↦ elim p.output_cost [
      | none ↦ "pricing_not_configured"
      | some _ ↦ "cost_unit_unrecognised"
    ]
  ]

abbrev pub token_provenance : UsageSource → Provenance
token_provenance UsageSource.provider_reported = Provenance.actual
token_provenance UsageSource.estimated = Provenance.estimated

-- the component that is appended when there is such a cost
abbrev pub estimate_if : Bool → List Provenance → List Provenance
estimate_if true rest = Provenance.estimated ∷ rest
estimate_if false rest = rest

unfoldable pub resolve_provenance : UsageSource → Bool → Bool → Provenance
unfolding weakest
resolve_provenance source has_tool_cost has_infrastructure =
    weakest
      (token_provenance source ∷ estimate_if has_tool_cost (estimate_if has_infrastructure []))

-- a known part is added to a total
abbrev pub plus_known {ℓ} : {D : Type ℓ} → (D → D → D) → D → Option D → D
plus_known add total none = total
plus_known add total (some d) = add total d

module _ {ℓ} {F D : Type ℓ} ⦃k : Arithmetic F D⦄ where
  abbrev pub quantized : Option D → Option F
  quantized none = none
  quantized (some d) = some (k.quantize d)

  -- `_token_cost`
  abbrev pub token_cost : Option ℕ → Option F → CostUnit → Option D
  token_cost none rate unit = none
  token_cost (some n) none unit = none
  token_cost (some n) (some rate) unit =
      some (k.mul (k.div (k.from_int n) (k.from_int (tokens_per_unit unit))) (k.to_decimal rate))

  -- `_tool_cost`
  unfoldable pub tool_cost : ToolUsage F → Option D
  tool_cost t = elim t.estimated_cost_per_call [
    | none ↦ none
    | some rate ↦
        if leb 1 t.calls then some (k.mul (k.from_int t.calls) (k.to_decimal rate)) else none
  ]

  -- `_to_decimal`
  abbrev pub known : Option F → Option D
  known none = none
  known (some x) = some (k.to_decimal x)

module _ {ℓ} {F : Type ℓ} (D : Type ℓ) ⦃k : Arithmetic F D⦄ (u : TokenUsage) (p : ModelPricing F)
    (tools : ToolUsage F) (infrastructure : Option F) where
  -- the two results that have no total
  abbrev without_total : Option D → Option D → String → CostComputation F
  without_total input output reason = record {
    input_cost = quantized input;
    output_cost = quantized output;
    tool_cost = quantized {D = D} (tool_cost tools);
    infrastructure_cost = quantized {D = D} (known infrastructure);
    total_cost = none;
    currency = p.currency;
    provenance = Provenance.unavailable;
    unavailable_reason = some reason;
  }

  abbrev pub total_of : D → D → D
  total_of input output =
      plus_known k.add (plus_known k.add (k.add input output) (tool_cost tools))
        (known infrastructure)

  abbrev with_total : D → D → CostComputation F
  with_total input output = record {
    input_cost = some (k.quantize input);
    output_cost = some (k.quantize output);
    tool_cost = quantized {D = D} (tool_cost tools);
    infrastructure_cost = quantized {D = D} (known infrastructure);
    total_cost = some (k.quantize (total_of input output));
    currency = p.currency;
    provenance =
        resolve_provenance u.source (not (is_none (tool_cost {D = D} tools)))
          (not (is_none (known {D = D} infrastructure)));
    unavailable_reason = none;
  }

  -- with usable pricing in a unit
  abbrev price_in : CostUnit → CostComputation F
  price_in unit = elim (token_cost u.input_tokens p.input_cost unit) [
    | none ↦
        without_total none (token_cost u.output_tokens p.output_cost unit) "incomplete_token_usage"
    | some input ↦ elim (token_cost u.output_tokens p.output_cost unit) [
      | none ↦ without_total (some input) none "incomplete_token_usage"
      | some output ↦ with_total input output
    ]
  ]

  unfoldable pub compute_cost : CostComputation F
  unfolding parse_cost_unit resolve_provenance tool_cost
  compute_cost =
      if is_usable p
      then elim (parse_cost_unit p.cost_unit) [
        | none ↦ without_total none none (pricing_gap p)
        | some unit ↦ price_in unit
      ]
      else without_total none none (pricing_gap p)

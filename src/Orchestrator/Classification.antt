-- ===== src/Orchestrator/Classification.antt =====
-- app/orchestrator/classification.py: complexity and risk by rules over the request.
pub mod Size
pub mod Rules
use Prim.Native.String
use Prim.Native.Nat.{max}
use newchanges.Base.{
  ℕ, zero, suc, ◌+◌, ltb, leb, ◌==◌, Bool, true, false, ◌||◌, List, [], ◌∷◌, if◌then◌else◌, Option,
  none, some, String, str_eq,
}
use newchanges.Base.Float.{Float}
use newchanges.Base.Text.{upper, strip}

pub data Complexity : Type 0 where
  simple medium complex : Complexity

pub data BusinessPriority : Type 0 where
  low normal high critical : BusinessPriority

pub data RiskLevel : Type 0 where
  low medium high critical : RiskLevel

-- the position in `list(BusinessPriority)`
abbrev pub priority_index : BusinessPriority → ℕ
priority_index BusinessPriority.low = 0
priority_index BusinessPriority.normal = 1
priority_index BusinessPriority.high = 2
priority_index BusinessPriority.critical = 3

-- `BusinessPriority(value)`; `none` is the `ValueError`
abbrev pub priority_of : String → Option BusinessPriority
priority_of s =
    if str_eq s "LOW"
    then some BusinessPriority.low
    else if str_eq s "NORMAL"
    then some BusinessPriority.normal
    else if str_eq s "HIGH"
    then some BusinessPriority.high
    else if str_eq s "CRITICAL"
    then some BusinessPriority.critical
    else none

-- `RiskLevel(value)`
abbrev pub risk_of : String → Option RiskLevel
risk_of s =
    if str_eq s "LOW"
    then some RiskLevel.low
    else if str_eq s "MEDIUM"
    then some RiskLevel.medium
    else if str_eq s "HIGH"
    then some RiskLevel.high
    else if str_eq s "CRITICAL"
    then some RiskLevel.critical
    else none

-- A value of the payload. A number or a Boolean stands by the text that `str` gives for it, a list
-- and a tuple alike by their items, and a dict by its entries, whose keys are texts.
mutual
  pub data Value : Type 0 where
    null : Value
    scalar : String → Value
    text : String → Value
    dict : Fields → Value
    sequence : Items → Value

  pub data Items : Type 0 where
    nil : Items
    cons : Value → Items → Items

  pub data Fields : Type 0 where
    end : Fields
    field : String → Value → Fields → Fields

-- `len` of a text
abbrev pub text_length : String → ℕ
text_length String.[] = 0
text_length (String.◌∷◌ c s) = suc (text_length s)

-- `stack.extend(…)`: the stack stands with its top first, so the last item comes to the front.
abbrev pub extend_items : Items → List Value → List Value
extend_items Items.nil stack = stack
extend_items (Items.cons v vs) stack = extend_items vs (v ∷ stack)

abbrev pub extend_keys : Fields → List Value → List Value
extend_keys Fields.end stack = stack
extend_keys (Fields.field k v rest) stack = extend_keys rest (Value.text k ∷ stack)

abbrev pub extend_values : Fields → List Value → List Value
extend_values Fields.end stack = stack
extend_values (Fields.field k v rest) stack = extend_values rest (v ∷ stack)

-- One round of the loop on the item that is popped: the stack and the total after it.
abbrev pub size_step : Value → List Value → ℕ → List Value × ℕ
size_step Value.null stack total = (stack, total)
size_step (Value.scalar s) stack total = (stack, total + text_length s)
size_step (Value.text s) stack total = (stack, total + text_length s)
size_step (Value.dict fields) stack total = (extend_values fields (extend_keys fields stack), total)
size_step (Value.sequence items) stack total = (extend_items items stack, total)

-- `while stack:`, on fuel; `none` means that the fuel ran out.
unfoldable pub size_loop : ℕ → List Value → ℕ → Option ℕ
size_loop zero stack total = none
size_loop (suc fuel) [] total = some total
size_loop (suc fuel) (item ∷ stack) total =
    let (stack', total') = size_step item stack total in size_loop fuel stack' total'

-- The rounds that a value takes: one for itself, and one for each key and each value inside.
unfoldable mutual
  pub rounds : Value → ℕ
  rounds Value.null = 1
  rounds (Value.scalar s) = 1
  rounds (Value.text s) = 1
  rounds (Value.dict fields) = suc (rounds_fields fields)
  rounds (Value.sequence items) = suc (rounds_items items)

  pub rounds_items : Items → ℕ
  rounds_items Items.nil = 0
  rounds_items (Items.cons v vs) = rounds v + rounds_items vs

  pub rounds_fields : Fields → ℕ
  rounds_fields Fields.end = 0
  rounds_fields (Fields.field k v rest) = suc (rounds v + rounds_fields rest)

abbrev pub or_else : ℕ → Option ℕ → ℕ
or_else n none = n
or_else n (some m) = m

-- `_payload_size`, with a round of fuel for each value and key and one for the last test
unfoldable pub payload_size : Fields → ℕ
unfolding size_loop rounds
payload_size payload =
    or_else 0 (size_loop (suc (rounds (Value.dict payload))) (Value.dict payload ∷ []) 0)

module _ {ℓ} (F : Type ℓ) where
  pub record ComplexityThresholds : Type ℓ where
    pub medium_chars : ℕ
    pub complex_chars : ℕ
    pub complex_image_count : ℕ
    pub high_quality_requirement : F

  pub record ClassificationInput : Type ℓ where
    pub workload_type : String
    pub business_priority : BusinessPriority
    pub payload : Fields
    pub image_count : ℕ
    pub quality_requirement : Option F
    pub workload_risk_level : Option String

-- `DEFAULT_THRESHOLDS`, with 0.9 as an argument
abbrev pub default_thresholds {ℓ} : {F : Type ℓ} → F → ComplexityThresholds F
default_thresholds quality = record {
  medium_chars = 2000;
  complex_chars = 12000;
  complex_image_count = 2;
  high_quality_requirement = quality;
}

module _ {ℓ} {F : Type ℓ} ⦃f : Float F⦄ where
  -- `quality_requirement is not None and quality_requirement >= …`
  abbrev pub demands : Option F → F → Bool
  demands none q = false
  demands (some r) q = f.le q r

  unfoldable pub classify_complexity : ComplexityThresholds F → ClassificationInput F → Complexity
  unfolding payload_size
  classify_complexity t request =
      let size = payload_size request.payload in
      if leb t.complex_image_count request.image_count
      then Complexity.complex
      else if leb t.complex_chars size
      then Complexity.complex
      else if demands request.quality_requirement t.high_quality_requirement
      then Complexity.complex
      else if leb t.medium_chars size || request.image_count == 1
      then Complexity.medium
      else Complexity.simple

-- the dict at the end of `determine_risk`
abbrev pub risk_of_priority : BusinessPriority → RiskLevel
risk_of_priority BusinessPriority.low = RiskLevel.low
risk_of_priority BusinessPriority.normal = RiskLevel.low
risk_of_priority BusinessPriority.high = RiskLevel.medium
risk_of_priority BusinessPriority.critical = RiskLevel.high

-- the level that the workload declares, if it is one: an empty text is not looked at
abbrev pub declared_risk : Option String → Option RiskLevel
declared_risk none = none
declared_risk (some s) = if str_eq s "" then none else risk_of (upper (strip s))

unfoldable pub determine_risk {ℓ} : {F : Type ℓ} → ClassificationInput F → RiskLevel
determine_risk request = elim (declared_risk request.workload_risk_level) [
  | none ↦ risk_of_priority request.business_priority
  | some level ↦ level
]

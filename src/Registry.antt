-- ===== src/Registry.antt =====
-- The `models` table of app/db/models/registry.py and the queries on it of
-- app/repositories/model_repository.py. The table is the list of its rows.
pub mod Workload
pub mod Seed
mod Tests
use newchanges.Base.{
  ℕ, ◌+◌, zero, suc, ltb, leb, Bool, true, false, not, ◌&&◌, ◌||◌, List, [], ◌∷◌, if◌then◌else◌,
  Option, none, some, String, str_eq, holds_text, is_none, any, keep, length, take, drop,
}
use newchanges.Base.Float.{Float}
use newchanges.Base.Sort.{text_le, sort_by}

pub data Capability : Type 0 where
  text vision multimodal embedding speech coding reasoning : Capability

-- `str(capability)`
abbrev pub capability_value : Capability → String
capability_value Capability.text = "text"
capability_value Capability.vision = "vision"
capability_value Capability.multimodal = "multimodal"
capability_value Capability.embedding = "embedding"
capability_value Capability.speech = "speech"
capability_value Capability.coding = "coding"
capability_value Capability.reasoning = "reasoning"

pub data Modality : Type 0 where
  text image multimodal structured : Modality

abbrev pub modality_value : Modality → String
modality_value Modality.text = "text"
modality_value Modality.image = "image"
modality_value Modality.multimodal = "multimodal"
modality_value Modality.structured = "structured"

-- `ModelRegistryEntry`, without its two timestamps
pub record ModelRegistryEntry {ℓ} (F : Type ℓ) : Type ℓ where
  pub id : String
  pub model_name : String
  pub provider : Option String
  pub capability : String
  pub modality : Option String
  pub input_cost : Option F
  pub output_cost : Option F
  pub cost_unit : Option String
  pub max_context_tokens : Option ℕ
  pub supports_vision : Option Bool
  pub supports_tools : Option Bool
  pub supports_structured_output : Option Bool
  pub supports_embeddings : Option Bool
  pub quality_score : Option F
  pub latency_score : Option F
  pub risk_level : Option String
  pub enabled : Bool

-- `bool(text)` for an optional text
abbrev pub is_given : Option String → Bool
is_given none = false
is_given (some s) = not (str_eq s "")

abbrev pub is_some {ℓ} : {A : Type ℓ} → Option A → Bool
is_some o = not (is_none o)

unfoldable pub has_known_pricing {ℓ} : {F : Type ℓ} → ModelRegistryEntry F → Bool
has_known_pricing e = is_some e.input_cost && (is_some e.output_cost && is_given e.cost_unit)

pub record ModelQuery {ℓ} (F : Type ℓ) : Type ℓ where
  pub capability : Option Capability
  pub modality : Option Modality
  pub enabled : Option Bool
  pub requires_vision : Bool
  pub requires_tools : Bool
  pub requires_structured_output : Bool
  pub requires_embeddings : Bool
  pub min_context_tokens : Option ℕ
  pub min_quality_score : Option F
  pub require_known_pricing : Bool
  pub limit : ℕ
  pub offset : ℕ

-- `column.is_(True)`, which NULL does not meet
abbrev pub is_true : Option Bool → Bool
is_true none = false
is_true (some b) = b

abbrev pub same : Bool → Bool → Bool
same true b = b
same false b = not b

-- a condition that is set only where the flag is
abbrev pub when : Bool → Bool → Bool
when flag condition = not flag || condition

-- a condition that is set only where the criterion is not `None`
abbrev pub where_given {ℓ} : {A : Type ℓ} → (A → Bool) → Option A → Bool
where_given condition none = true
where_given condition (some a) = condition a

-- `column IS NOT NULL AND column >= least`
abbrev pub is_at_least {ℓ} : {A : Type ℓ} → (A → A → Bool) → Option A → A → Bool
is_at_least le none least = false
is_at_least le (some a) least = le least a

module _ {ℓ} {F : Type ℓ} ⦃f : Float F⦄ where
  -- the conjunction of the `where`s that `_apply_filters` adds
  unfoldable pub apply_filters : ModelQuery F → ModelRegistryEntry F → Bool
  apply_filters q e =
      where_given (λ c. str_eq e.capability (capability_value c)) q.capability
      && (where_given (λ m. holds_text e.modality (modality_value m)) q.modality
          && (where_given (λ b. same e.enabled b) q.enabled
              && (when q.requires_vision (is_true e.supports_vision)
                  && (when q.requires_tools (is_true e.supports_tools)
                      && (when q.requires_structured_output (is_true e.supports_structured_output)
                          && (when q.requires_embeddings (is_true e.supports_embeddings)
                              && (where_given (is_at_least leb e.max_context_tokens)
                                    q.min_context_tokens
                                  && (where_given (is_at_least f.le e.quality_score)
                                        q.min_quality_score
                                      && when q.require_known_pricing (
                                          is_some e.input_cost
                                          && (is_some e.output_cost && is_some e.cost_unit))))))))))

  -- `order_by(model_name)`
  abbrev pub name_le : ModelRegistryEntry F → ModelRegistryEntry F → Bool
  name_le a b = text_le a.model_name b.model_name

  -- `ModelRepository.list`: the page and the total
  unfoldable pub select_page :
      List (ModelRegistryEntry F) → ModelQuery F → List (ModelRegistryEntry F) × ℕ
  unfolding apply_filters sort_by
  select_page rows q = (
    take q.limit (drop q.offset (sort_by name_le (keep (apply_filters q) rows))),
    length (keep (apply_filters q) rows),
  )

module _ {ℓ} {F : Type ℓ} where
  -- `ModelRepository.get_by_name`: the name is unique
  unfoldable pub get_by_name : String → List (ModelRegistryEntry F) → Option (ModelRegistryEntry F)
  get_by_name name [] = none
  get_by_name name (e ∷ rows) = if str_eq e.model_name name then some e else get_by_name name rows

  -- `ModelRepository.get_by_id`
  unfoldable pub get_by_id : String → List (ModelRegistryEntry F) → Option (ModelRegistryEntry F)
  get_by_id key [] = none
  get_by_id key (e ∷ rows) = if str_eq e.id key then some e else get_by_id key rows

  -- `ModelRepository.exists`
  abbrev pub exists : String → List (ModelRegistryEntry F) → Bool
  exists name rows = any (λ e. str_eq e.model_name name) rows

-- ===== src/Registry/Seed.antt =====
-- `register_from_seed` of app/services/model_registry.py on the table with its constraints. The
-- file's JSON is read already; the ids of `uuid4` are an argument.
pub mod Growth
use newchanges.Base.{
  ℕ, zero, suc, ◌+◌, ltb, leb, ◌≡◌, refl, arith, Bool, true, false, not, ◌&&◌, ◌||◌, List, [], ◌∷◌,
  ◌++◌, if◌then◌else◌, Option, none, some, String, str_eq, any, length, Bool-cases, Option-cases,
  inl, inr, any-append, length-append,
}
use newchanges.Base.Float.{Float}
use newchanges.Registry.{ModelRegistryEntry, exists, where_given}

-- A record of the file. A key that is absent and one that is null are alike, but for `enabled`,
-- which is `none` where it is absent.
pub record SeedItem {ℓ} (F : Type ℓ) : Type ℓ where
  pub id : Option String
  pub model_name : Option String
  pub provider : Option String
  pub capability : Option String
  pub modality : Option String
  pub input_cost : Option F
  pub output_cost : Option F
  pub cost_unit : Option String
  pub max_context_tokens : Option ℕ
  pub supports_vision : Option Bool
  pub supports_tools : Option Bool
  pub supports_structured_output : Option Bool
  pub supports_embeddings : Option Bool
  pub quality_score : Option F
  pub latency_score : Option F
  pub risk_level : Option String
  pub enabled : Option Bool

-- `value or default` for a text
abbrev pub text_or : Option String → String → String
text_or none d = d
text_or (some s) d = if str_eq s "" then d else s

abbrev pub one_of : List String → String → Bool
one_of names s = any (λ n. str_eq s n) names

abbrev levels : List String
levels = "LOW" ∷ "MEDIUM" ∷ "HIGH" ∷ "CRITICAL" ∷ []

abbrev capabilities : List String
capabilities =
    "text" ∷ "vision" ∷ "multimodal" ∷ "embedding" ∷ "speech" ∷ "coding" ∷ "reasoning" ∷ []

abbrev modalities : List String
modalities = "text" ∷ "image" ∷ "multimodal" ∷ "structured" ∷ []

module _ {ℓ} {F : Type ℓ} where
  -- `_entry_from_seed`; `none` is the `KeyError` of a record without a capability
  unfoldable pub entry_from_seed : String → String → SeedItem F → Option (ModelRegistryEntry F)
  entry_from_seed uuid name item = elim item.capability [
    | none ↦ none
    | some capability ↦ some (record {
      id = text_or item.id uuid;
      model_name = name;
      provider = item.provider;
      capability = capability;
      modality = item.modality;
      input_cost = item.input_cost;
      output_cost = item.output_cost;
      cost_unit = item.cost_unit;
      max_context_tokens = item.max_context_tokens;
      supports_vision = item.supports_vision;
      supports_tools = item.supports_tools;
      supports_structured_output = item.supports_structured_output;
      supports_embeddings = item.supports_embeddings;
      quality_score = item.quality_score;
      latency_score = item.latency_score;
      risk_level = item.risk_level;
      enabled = elim item.enabled [ none ↦ true | some b ↦ b ];
    })
  ]

module _ {ℓ} {F : Type ℓ} ⦃f : Float F⦄ where
  -- the check constraints of the table
  unfoldable pub satisfies_checks : ModelRegistryEntry F → Bool
  satisfies_checks e =
      one_of capabilities e.capability
      && (where_given (one_of modalities) e.modality
          && (where_given (one_of levels) e.risk_level
              && (where_given (f.le f.nought) e.input_cost
                  && (where_given (f.le f.nought) e.output_cost
                      && where_given (λ n. ltb 0 n) e.max_context_tokens))))

  -- `ModelRepository.add`, with the flush: `none` is the database's refusal
  unfoldable pub add :
      ModelRegistryEntry F → List (ModelRegistryEntry F) → Option (List (ModelRegistryEntry F))
  unfolding satisfies_checks
  add e rows =
      if any (λ x. str_eq x.id e.id || str_eq x.model_name e.model_name) rows
      then none
      else if satisfies_checks e
      then some (rows ++ e ∷ [])
      else none

  -- One round of the loop: the rows after it and whether it inserted, or `none` for an exception.
  unfoldable pub register_item :
      String → SeedItem F → List (ModelRegistryEntry F) → Option (List (ModelRegistryEntry F) × ℕ)
  unfolding entry_from_seed add
  register_item uuid item rows =
      let name = text_or item.model_name "" in
      if str_eq name ""
      then some (rows, 0)
      else if exists name rows
      then some (rows, 0)
      else elim (entry_from_seed uuid name item) [
        | none ↦ none
        | some e ↦ elim (add e rows) [ none ↦ none | some rows' ↦ some (rows', 1) ]
      ]

  -- The loop, with the id that `uuid4` draws when the table has some rows.
  unfoldable pub register_from_seed :
      (List (ModelRegistryEntry F) → String)
      → List (SeedItem F)
      → List (ModelRegistryEntry F)
      → Option (List (ModelRegistryEntry F) × ℕ)
  unfolding register_item
  register_from_seed uuid [] rows = some (rows, 0)
  register_from_seed uuid (item ∷ items) rows = elim (register_item (uuid rows) item rows) [
    | none ↦ none
    | some (rows', n) ↦ elim (register_from_seed uuid items rows') [
      | none ↦ none
      | some (rows'', m) ↦ some (rows'', n + m)
    ]
  ]

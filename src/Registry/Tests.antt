-- ===== src/Registry/Tests.antt =====
-- Runs of the registry at concrete rows, and its theorems there.
use mathlib.Core.List.{Mem}
use newchanges.Base.{
  ℕ, ◌≡◌, ◌↔◌, refl, arith, true, false, ◌&&◌, List, [], ◌∷◌, ◌++◌, none, some, length,
}
use newchanges.Base.Sample.{nat_float}
use newchanges.Registry.{ModelRegistryEntry, apply_filters, select_page}
use newchanges.Registry.Workload.{no_requirements, find_for_workload, is_compatible}
use newchanges.Registry.Workload.Candidates.{meets}
use newchanges.Registry.Workload.Compatible.{find_for_workload-is_compatible}
use newchanges.Registry.Seed.{SeedItem, register_from_seed}
use newchanges.Registry.Seed.Growth.{register_from_seed_again}
use newchanges.Base.Sort.{text_le}

abbrev alpha : ModelRegistryEntry ℕ
alpha = record {
  id = "m-1";
  model_name = "alpha";
  provider = none;
  capability = "reasoning";
  modality = some "text";
  input_cost = some 4;
  output_cost = none;
  cost_unit = none;
  max_context_tokens = some 8000;
  supports_vision = none;
  supports_tools = none;
  supports_structured_output = none;
  supports_embeddings = none;
  quality_score = some 90;
  latency_score = none;
  risk_level = none;
  enabled = true;
}

abbrev beta : ModelRegistryEntry ℕ
beta = record alpha { id = "m-2"; model_name = "beta"; capability = "text"; quality_score = none }

abbrev gamma : ModelRegistryEntry ℕ
gamma = record alpha { id = "m-3"; model_name = "gamma"; enabled = false }

abbrev table : List (ModelRegistryEntry ℕ)
table = gamma ∷ beta ∷ alpha ∷ []

-- Both capabilities are found, by name; the disabled model is not.
found : find_for_workload table "supply_chain" no_requirements ≡ alpha ∷ beta ∷ []
unfolding find_for_workload apply_filters select_page text_le
found = refl

-- An unknown quality never meets a minimum.
good :
    find_for_workload table "supply_chain" (record no_requirements { min_quality_score = some 80 })
    ≡ alpha ∷ []
unfolding find_for_workload apply_filters select_page text_le
good = refl

-- A type that is not known finds nothing.
typo : find_for_workload table "supply-chain" no_requirements ≡ []
unfolding find_for_workload
typo = refl

find_for_workload-is_compatible_example :
    Mem alpha (find_for_workload (beta ∷ alpha ∷ []) "supply_chain" no_requirements) ↔ (
      Mem alpha (beta ∷ alpha ∷ [])
      × (is_compatible alpha "supply_chain" none && meets no_requirements alpha ≡ true))
find_for_workload-is_compatible_example =
    find_for_workload-is_compatible (beta ∷ alpha ∷ []) no_requirements ((refl, tt), (tt, tt))
      (omega arith) "supply_chain" alpha

abbrev seed : SeedItem ℕ
seed = record {
  id = none;
  model_name = some "delta";
  provider = none;
  capability = some "text";
  modality = none;
  input_cost = none;
  output_cost = none;
  cost_unit = none;
  max_context_tokens = none;
  supports_vision = none;
  supports_tools = none;
  supports_structured_output = none;
  supports_embeddings = none;
  quality_score = none;
  latency_score = none;
  risk_level = none;
  enabled = none;
}

abbrev delta : ModelRegistryEntry ℕ
delta = record alpha {
  id = "u-1";
  model_name = "delta";
  capability = "text";
  modality = none;
  input_cost = none;
  max_context_tokens = none;
  quality_score = none;
}

-- The record that the table knows by name is passed over, and the new one inserted.
seeded :
    register_from_seed (λ rows. "u-1") (record seed { model_name = some "alpha" } ∷ seed ∷ []) table
    ≡ some (table ++ delta ∷ [], 1)
unfolding register_from_seed
seeded = refl

register_from_seed_again_example :
    ((new : List (ModelRegistryEntry ℕ)) × (table ++ delta ∷ [] ≡ table ++ new) × (length new ≡ 1))
    × (register_from_seed
          (λ rows. "u-2")
          (record seed { model_name = some "alpha" } ∷ seed ∷ [])
          (table ++ delta ∷ [])
        ≡ some (table ++ delta ∷ [], 0))
register_from_seed_again_example =
    register_from_seed_again (λ rows. "u-1") (λ rows. "u-2")
      (record seed { model_name = some "alpha" } ∷ seed ∷ []) table (table ++ delta ∷ []) 1 seeded

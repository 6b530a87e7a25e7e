-- ===== src/Registry/Workload.antt =====
-- `ModelRegistryService` of app/services/model_registry.py: the models that can serve a workload.
pub mod Candidates
pub mod Compatible
use newchanges.Base.{
  ℕ, Bool, true, false, not, ◌&&◌, ◌||◌, List, [], ◌∷◌, if◌then◌else◌, Option, none, some, String,
  str_eq, holds_text, any, take,
}
use newchanges.Base.Float.{Float}
use newchanges.Base.Sort.{sort_by}
use newchanges.Registry.{
  Capability, capability_value, Modality, modality_value, ModelRegistryEntry, ModelQuery,
  select_page, name_le, is_true, when, where_given,
}

pub record WorkloadCapabilityProfile : Type 0 where
  pub capabilities : List Capability
  pub requires_vision : Bool

abbrev pub reasoning_profile : WorkloadCapabilityProfile
reasoning_profile = record {
  capabilities = Capability.reasoning ∷ Capability.text ∷ [];
  requires_vision = false;
}

abbrev pub vision_profile : WorkloadCapabilityProfile
vision_profile = record {
  capabilities = Capability.vision ∷ Capability.multimodal ∷ [];
  requires_vision = true;
}

-- `WORKLOAD_PROFILES.get`
abbrev pub workload_profile : String → Option WorkloadCapabilityProfile
workload_profile workload_type =
    if str_eq workload_type "quality_check"
    then some vision_profile
    else if str_eq workload_type "predictive_maintenance"
    then some reasoning_profile
    else if str_eq workload_type "supply_chain"
    then some reasoning_profile
    else none

-- What a caller of `find_for_workload` may ask for besides the type.
pub record Requirements {ℓ} (F : Type ℓ) : Type ℓ where
  pub modality : Option Modality
  pub min_context_tokens : Option ℕ
  pub min_quality_score : Option F
  pub require_known_pricing : Bool
  pub limit : ℕ

-- the defaults of `find_for_workload`
abbrev pub no_requirements {ℓ} : {F : Type ℓ} → Requirements F
no_requirements = record {
  modality = none;
  min_context_tokens = none;
  min_quality_score = none;
  require_known_pricing = false;
  limit = 50;
}

module _ {ℓ} {F : Type ℓ} where
  -- `seen[entry.id] = entry`: a key that is there keeps its place
  abbrev pub store :
      ModelRegistryEntry F → List (ModelRegistryEntry F) → List (ModelRegistryEntry F)
  store e [] = e ∷ []
  store e (x ∷ seen) = if str_eq x.id e.id then e ∷ seen else x ∷ store e seen

  abbrev pub store_all :
      List (ModelRegistryEntry F) → List (ModelRegistryEntry F) → List (ModelRegistryEntry F)
  store_all [] seen = seen
  store_all (e ∷ es) seen = store_all es (store e seen)

module _ {ℓ} {F : Type ℓ} ⦃f : Float F⦄ where
  -- the query that `find_candidates` makes for `find_for_workload`
  abbrev pub candidate_query : Requirements F → Bool → Capability → ModelQuery F
  candidate_query r vision capability = record {
    capability = some capability;
    modality = r.modality;
    enabled = some true;
    requires_vision = vision;
    requires_tools = false;
    requires_structured_output = false;
    requires_embeddings = false;
    min_context_tokens = r.min_context_tokens;
    min_quality_score = r.min_quality_score;
    require_known_pricing = r.require_known_pricing;
    limit = r.limit;
    offset = 0;
  }

  unfoldable pub find_candidates :
      List (ModelRegistryEntry F) → Requirements F → Bool → Capability → List (ModelRegistryEntry F)
  unfolding select_page
  find_candidates rows r vision capability =
      (select_page rows (candidate_query r vision capability)).0

  -- the two loops over the capabilities and their candidates
  unfoldable pub gather :
      List (ModelRegistryEntry F)
      → Requirements F
      → Bool
      → List Capability
      → List (ModelRegistryEntry F)
      → List (ModelRegistryEntry F)
  unfolding find_candidates
  gather rows r vision [] seen = seen
  gather rows r vision (c ∷ cs) seen =
      gather rows r vision cs (store_all (find_candidates rows r vision c) seen)

  abbrev pub find_by_profile :
      List (ModelRegistryEntry F)
      → Requirements F
      → Option WorkloadCapabilityProfile
      → List (ModelRegistryEntry F)
  find_by_profile rows r none = []
  find_by_profile rows r (some p) =
      take r.limit (sort_by name_le (gather rows r p.requires_vision p.capabilities []))

  unfoldable pub find_for_workload :
      List (ModelRegistryEntry F) → String → Requirements F → List (ModelRegistryEntry F)
  unfolding gather sort_by
  find_for_workload rows workload_type r = find_by_profile rows r (workload_profile workload_type)

  abbrev pub matches_profile :
      ModelRegistryEntry F → Option Modality → Option WorkloadCapabilityProfile → Bool
  matches_profile e modality none = false
  matches_profile e modality (some p) =
      if not e.enabled
      then false
      else if not (any (λ c. str_eq e.capability (capability_value c)) p.capabilities)
      then false
      else if p.requires_vision && not (is_true e.supports_vision)
      then false
      else where_given (λ m. holds_text e.modality (modality_value m)) modality

  unfoldable pub is_compatible : ModelRegistryEntry F → String → Option Modality → Bool
  is_compatible e workload_type modality =
      matches_profile e modality (workload_profile workload_type)

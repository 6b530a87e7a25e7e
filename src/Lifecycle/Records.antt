-- ===== src/Lifecycle/Records.antt =====
-- The rows of app/db/models/intelligence.py and app/db/models/governance.py that the lifecycle
-- reads and writes, and the queries of app/repositories/routing_policy_repository.py. A database
-- is the list of the rows of each table, in order of insertion. A status and a risk level are
-- enumerations, as the tables' constraints and the enumerations of app/db/models make them.
pub mod Lookup
use newchanges.Base.{
  ℕ, leb, ◌==◌, Bool, true, false, ◌&&◌, ◌||◌, if◌then◌else◌, Option, none, some, String, str_eq,
  List, [], ◌∷◌, ◌++◌, map, keep,
}
use newchanges.Base.Audit.{Trail}

pub data OptimizationStatus : Type 0 where
  draft pending_approval approved rejected applied rolled_back : OptimizationStatus

pub data OptimizationRiskLevel : Type 0 where
  low medium high critical : OptimizationRiskLevel

pub data PolicyStatus : Type 0 where
  draft pending_approval canary active superseded rolled_back : PolicyStatus

abbrev pub policy_status_code : PolicyStatus → ℕ
policy_status_code PolicyStatus.draft = 0
policy_status_code PolicyStatus.pending_approval = 1
policy_status_code PolicyStatus.canary = 2
policy_status_code PolicyStatus.active = 3
policy_status_code PolicyStatus.superseded = 4
policy_status_code PolicyStatus.rolled_back = 5

abbrev pub policy_status_eq : PolicyStatus → PolicyStatus → Bool
policy_status_eq a b = policy_status_code a == policy_status_code b

abbrev pub status_code : OptimizationStatus → ℕ
status_code OptimizationStatus.draft = 0
status_code OptimizationStatus.pending_approval = 1
status_code OptimizationStatus.approved = 2
status_code OptimizationStatus.rejected = 3
status_code OptimizationStatus.applied = 4
status_code OptimizationStatus.rolled_back = 5

abbrev pub status_eq : OptimizationStatus → OptimizationStatus → Bool
status_eq a b = status_code a == status_code b

module _ {ℓ} (F : Type ℓ) where
  pub record Recommendation : Type ℓ where
    pub id : String
    pub tenant_id : String
    pub workload_id : Option String
    pub recommended_strategy : Option String
    pub estimated_saving : Option F
    pub risk_level : Option OptimizationRiskLevel
    pub recommendation_reason : Option String
    pub status : OptimizationStatus
    pub applied_policy_id : Option String
    pub superseded_policy_id : Option String
    pub approved_at : Option F
    pub applied_at : Option F
    pub rolled_back_at : Option F
    pub approved_by : Option String

  pub record RoutingPolicy : Type ℓ where
    pub id : String
    pub tenant_id : String
    pub workload_type : String
    pub complexity : String
    pub business_priority : Option String
    pub selected_model_id : Option String
    pub selected_agent_id : Option String
    pub max_context_tokens : Option ℕ
    pub max_tool_calls : Option ℕ
    pub minimum_quality_score : Option F
    pub version : ℕ
    pub status : PolicyStatus
    pub canary_traffic_percent : Option F
    pub reason : Option String
    pub created_by : Option String
    pub approved_by : Option String
    pub activated_at : Option F

-- What `_audit_decision` records, by the fields that depend on the decision.
pub record AuditRecord : Type 0 where
  pub is_approval : Bool
  pub tenant_id : String
  pub resource_id : String
  pub user_id : String
  pub status : OptimizationStatus
  pub risk_level : Option OptimizationRiskLevel
  pub reason : Option String

pub record Database {ℓ} (F : Type ℓ) : Type ℓ where
  pub recommendations : List (Recommendation F)
  pub policies : List (RoutingPolicy F)
  pub audits : List AuditRecord
  pub events : Trail

module _ {ℓ} {F : Type ℓ} where
  -- `OptimizationRecommendationRepository.get_by_id`
  unfoldable pub find_recommendation : String → List (Recommendation F) → Option (Recommendation F)
  find_recommendation id [] = none
  find_recommendation id (r ∷ rs) =
      let rest = find_recommendation id rs in if str_eq r.id id then some r else rest

  -- `RoutingPolicyRepository.get_by_id`
  unfoldable pub find_policy : String → List (RoutingPolicy F) → Option (RoutingPolicy F)
  find_policy id [] = none
  find_policy id (p ∷ ps) = let rest = find_policy id ps in if str_eq p.id id then some p else rest

  -- The assignments to a row that `get_by_id` returned, by its primary key.
  unfoldable pub write_recommendation :
      String
      → (Recommendation F → Recommendation F)
      → List (Recommendation F)
      → List (Recommendation F)
  write_recommendation id change [] = []
  write_recommendation id change (r ∷ rs) =
      (if str_eq r.id id then change r else r) ∷ write_recommendation id change rs

  abbrev pub with_status : PolicyStatus → RoutingPolicy F → RoutingPolicy F
  with_status s p = record p { status = s }

  unfoldable pub write_status :
      String → PolicyStatus → List (RoutingPolicy F) → List (RoutingPolicy F)
  write_status id s [] = []
  write_status id s (p ∷ ps) =
      (if str_eq p.id id then with_status s p else p) ∷ write_status id s ps

  abbrev pub is_live : RoutingPolicy F → Bool
  is_live p =
      policy_status_eq p.status PolicyStatus.active || policy_status_eq p.status PolicyStatus.canary

  -- of one tenant's workload type
  abbrev pub of_line : String → String → RoutingPolicy F → Bool
  of_line tenant workload_type p = str_eq p.tenant_id tenant && str_eq p.workload_type workload_type

  -- of one routing key; the complexity is given as the column stores it, in lower case
  abbrev pub of_key : String → String → String → RoutingPolicy F → Bool
  of_key tenant workload_type complexity p =
      of_line tenant workload_type p && str_eq p.complexity complexity

  -- `ORDER BY version DESC LIMIT 1`; among equal versions the first inserted
  abbrev pub latest : List (RoutingPolicy F) → Option (RoutingPolicy F)
  latest [] = none
  latest (p ∷ ps) = elim (latest ps) [
    | none ↦ some p
    | some q ↦ if leb q.version p.version then some p else some q
  ]

  unfoldable pub get_active_policy :
      String → String → String → List (RoutingPolicy F) → Option (RoutingPolicy F)
  get_active_policy tenant workload_type complexity policies =
      latest (keep (λ p. of_key tenant workload_type complexity p && is_live p) policies)

  -- `get_active`, which the orchestrator calls: the rows that `scalar_one_or_none` reads, of which
  -- two are an error
  unfoldable pub active_rows :
      String → String → String → List (RoutingPolicy F) → List (RoutingPolicy F)
  active_rows tenant workload_type complexity policies =
      keep
        (λ p.
          of_key tenant workload_type complexity p && policy_status_eq p.status PolicyStatus.active)
        policies

  -- `get_latest_version_number`
  unfoldable pub get_latest_version_number : String → String → List (RoutingPolicy F) → ℕ
  get_latest_version_number tenant workload_type [] = 0
  get_latest_version_number tenant workload_type (p ∷ ps) =
      let rest = get_latest_version_number tenant workload_type ps in
      if of_line tenant workload_type p
      then (if leb rest p.version then p.version else rest)
      else rest

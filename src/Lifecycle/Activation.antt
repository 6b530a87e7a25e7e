-- ===== src/Lifecycle/Activation.antt =====
-- `validate_policy`, `apply_policy` and `rollback_policy` of app/services/policy_lifecycle.py.
pub mod Versions
pub mod Superseded
pub mod Live
pub mod Rollback
use newchanges.Base.{
  ℕ, ◌+◌, Bool, true, false, ◌&&◌, if◌then◌else◌, Option, none, some, String, str_eq, List, [], ◌∷◌,
  ◌++◌,
}
use newchanges.Base.Float.{Float}
use newchanges.Security.Principal.{Principal}
use newchanges.Lifecycle.Records.{
  OptimizationStatus, PolicyStatus, Recommendation, RoutingPolicy, Database, find_recommendation,
  find_policy, write_recommendation, write_status, get_active_policy, get_latest_version_number,
  status_eq,
}
use newchanges.Lifecycle.Approval.{PolicyError, Answer, done, refused}

-- The workload repository: from an id to the type of the workload, if there is a repository and
-- the workload is known.
abbrev pub WorkloadTypes : Type 0
WorkloadTypes = Option (String → Option String)

-- The arguments of an activation: `is_canary` is the test that `activation_mode.upper()` is
-- "CANARY", `at` the time, and `new_id` the id that the row gets.
pub record Activate {ℓ} (F : Type ℓ) : Type ℓ where
  pub principal : Option Principal
  pub is_canary : Bool
  pub canary_traffic_percent : Option F
  pub reason : String
  pub at : F
  pub new_id : String

-- `x or None`: an empty text counts as none
abbrev pub non_empty : Option String → Option String
non_empty none = none
non_empty (some x) = if str_eq x "" then none else some x

unfoldable pub resolve_workload_type : WorkloadTypes → Option String → String
resolve_workload_type repository none = ""
resolve_workload_type none (some id) = id
resolve_workload_type (some types) (some id) =
    if str_eq id "" then "" else elim (types id) [ none ↦ id | some kind ↦ kind ]

abbrev pub target_complexity : String
target_complexity = "medium"

module _ {ℓ} {F : Type ℓ} where
  abbrev pub created_by : Activate F → String
  created_by a = elim a.principal [ none ↦ "system" | some p ↦ p.subject ]

  abbrev pub new_policy : Activate F → Recommendation F → String → ℕ → RoutingPolicy F
  new_policy a rec workload_type version = record {
    id = a.new_id;
    tenant_id = rec.tenant_id;
    workload_type = workload_type;
    complexity = target_complexity;
    business_priority = some "NORMAL";
    selected_model_id = none;
    selected_agent_id = none;
    max_context_tokens = none;
    max_tool_calls = none;
    minimum_quality_score = none;
    version = version;
    status = if a.is_canary then PolicyStatus.canary else PolicyStatus.active;
    canary_traffic_percent = if a.is_canary then a.canary_traffic_percent else none;
    reason = if str_eq a.reason "" then rec.recommendation_reason else some a.reason;
    created_by = some (created_by a);
    approved_by = rec.approved_by;
    activated_at = some a.at;
  }

  abbrev pub supersede : Option (RoutingPolicy F) → List (RoutingPolicy F) → List (RoutingPolicy F)
  supersede none policies = policies
  supersede (some p) policies = write_status p.id PolicyStatus.superseded policies

  abbrev pub id_of : Option (RoutingPolicy F) → Option String
  id_of none = none
  id_of (some p) = some p.id

  abbrev pub applied : Activate F → Option String → Recommendation F → Recommendation F
  applied a superseded_id rec = record rec {
    status = OptimizationStatus.applied;
    applied_policy_id = some a.new_id;
    superseded_policy_id = superseded_id;
    applied_at = some a.at;
  }

module _ {ℓ} {F : Type ℓ} ⦃f : Float F⦄ where
  unfoldable pub validate_policy : Recommendation F → Bool
  validate_policy rec = elim (non_empty rec.recommended_strategy) [
    | none ↦ false
    | some _ ↦ elim rec.estimated_saving [
      | none ↦ false
      | some saving ↦ if f.lt saving f.nought then false else true
    ]
  ]

  -- `apply_policy` below its preconditions
  abbrev pub activate :
      Activate F
      → Recommendation F
      → String
      → Database F
      → Answer (Recommendation F × RoutingPolicy F) × Database F
  activate a rec workload_type db =
      let current = get_active_policy rec.tenant_id workload_type target_complexity db.policies in
      let version =
        get_latest_version_number rec.tenant_id workload_type (supersede current db.policies) + 1 in
      let policy = new_policy a rec workload_type version in
      (
        done (applied a (id_of current) rec, policy),
        record db {
          recommendations =
              write_recommendation rec.id (applied a (id_of current)) db.recommendations;
          policies = supersede current db.policies ++ policy ∷ [];
        },
      )

  unfoldable pub apply_policy :
      WorkloadTypes
      → String
      → Activate F
      → Database F
      → Answer (Recommendation F × RoutingPolicy F) × Database F
  unfolding find_recommendation write_recommendation validate_policy resolve_workload_type
      get_active_policy get_latest_version_number write_status
  apply_policy types id a db = elim (find_recommendation id db.recommendations) [
    | none ↦ (refused PolicyError.not_found, db)
    | some rec ↦
        if status_eq rec.status OptimizationStatus.approved
        then (if validate_policy rec
            then activate a rec (resolve_workload_type types rec.workload_id) db
            else (refused PolicyError.conflict, db))
        else (refused PolicyError.conflict, db)
  ]

module _ {ℓ} {F : Type ℓ} where
  -- A status written to the policy of an id, where the id is given and known.
  abbrev pub mark : Option String → PolicyStatus → List (RoutingPolicy F) → List (RoutingPolicy F)
  mark none s policies = policies
  mark (some id) s policies = if str_eq id "" then policies else write_status id s policies

  -- the policy that a rollback returns
  abbrev pub reactivated : Option String → List (RoutingPolicy F) → Option (RoutingPolicy F)
  reactivated none policies = none
  reactivated (some id) policies = if str_eq id "" then none else find_policy id policies

  abbrev pub undone : F → Recommendation F → Recommendation F
  undone now rec = record rec { status = OptimizationStatus.rolled_back; rolled_back_at = some now }

  abbrev pub undo :
      F
      → Recommendation F
      → Database F
      → Answer (Recommendation F × Option (RoutingPolicy F)) × Database F
  undo now rec db =
      let policies =
        mark rec.superseded_policy_id PolicyStatus.active
          (mark rec.applied_policy_id PolicyStatus.rolled_back db.policies) in
      (
        done (undone now rec, reactivated rec.superseded_policy_id policies),
        record db {
          recommendations = write_recommendation rec.id (undone now) db.recommendations;
          policies = policies;
        },
      )

  unfoldable pub rollback_policy :
      String → F → Database F → Answer (Recommendation F × Option (RoutingPolicy F)) × Database F
  unfolding find_recommendation write_recommendation write_status find_policy
  rollback_policy id now db = elim (find_recommendation id db.recommendations) [
    | none ↦ (refused PolicyError.not_found, db)
    | some rec ↦
        if status_eq rec.status OptimizationStatus.applied
        then undo now rec db
        else (refused PolicyError.conflict, db)
  ]

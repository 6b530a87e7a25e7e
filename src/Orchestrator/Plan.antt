-- ===== src/Orchestrator/Plan.antt =====
-- `ExecutionPlan` of app/orchestrator/plan.py, and `plan` of app/orchestrator/orchestrator.py with
-- the collaborators that it asks. What a request has done stands as a list of actions, oldest
-- first.
use newchanges.Base.{
  ℕ, Bool, true, false, not, ◌&&◌, List, [], ◌∷◌, ◌++◌, if◌then◌else◌, Option, none, some, String,
  str_eq, is_none, length,
}
use newchanges.Base.Float.{Float}
use newchanges.Base.Text.{lower}
use newchanges.Budget.{PolicyOutcome}
use newchanges.Budget.Limit.{Decimal}
use newchanges.Budget.Gate.{Loader, evaluate}
use newchanges.Lifecycle.Records.{RoutingPolicy, active_rows}
use newchanges.Registry.{ModelRegistryEntry}
use newchanges.Orchestrator.Classification.{
  BusinessPriority, Complexity, RiskLevel, Fields, ComplexityThresholds, ClassificationInput,
  classify_complexity, determine_risk,
}
use newchanges.Orchestrator.Selection.{
  effective_priority, select_model, model_candidates, context_limit, estimate_unit,
}

-- `OrchestrationRequest`, by the fields that the code reads. An image is its bytes and its media
-- type, both as texts.
pub record OrchestrationRequest {ℓ} (F : Type ℓ) : Type ℓ where
  pub workload_type : String
  pub business_priority : BusinessPriority
  pub payload : Fields
  pub workload_id : Option String
  pub plant_id : Option String
  pub department_id : Option String
  pub quality_requirement : Option F
  pub image_count : ℕ
  pub image_bytes : List (String × String)

-- the workload's row, by the fields that the code reads
pub record Workload : Type 0 where
  pub id : String
  pub risk_level : Option String
  pub business_priority : Option String

-- An entry of `decisions`, by the value that it shows.
pub data PlanDecision : Type 0 where
  tenant_from_principal : String → PlanDecision
  priority : BusinessPriority → PlanDecision
  risk : RiskLevel → PlanDecision
  budget : PolicyOutcome → PlanDecision
  complexity : Complexity → PlanDecision
  policy_version : ℕ → PlanDecision
  deterministic_fallback : PlanDecision
  candidates : ℕ → PlanDecision
  prefer_lowest_cost : PlanDecision
  selected_model : String → PlanDecision
  fallback_model : String → PlanDecision

pub record ExecutionPlan {ℓ} (F : Type ℓ) : Type ℓ where
  pub request_id : String
  pub workload_type : String
  pub complexity : Complexity
  pub business_priority : BusinessPriority
  pub risk_level : RiskLevel
  pub budget_status : PolicyOutcome
  pub selected_model_id : Option String
  pub selected_model_name : Option String
  pub selected_agent_id : Option String
  pub estimated_cost : Option F
  pub estimated_cost_currency : Option String
  pub max_context_tokens : Option ℕ
  pub max_tool_calls : Option ℕ
  pub routing_policy_version : Option ℕ
  pub tenant_id : String
  pub user_id : String
  pub plant_id : Option String
  pub department_id : Option String
  pub workload_id : Option String
  pub trace_id : String
  pub decisions : List PlanDecision

abbrev pub refuses : PolicyOutcome → Bool
refuses PolicyOutcome.block = true
refuses PolicyOutcome.require_approval = true
refuses PolicyOutcome.allow = false
refuses PolicyOutcome.downgrade = false

abbrev pub is_block : PolicyOutcome → Bool
is_block PolicyOutcome.block = true
is_block PolicyOutcome.require_approval = false
is_block PolicyOutcome.allow = false
is_block PolicyOutcome.downgrade = false

abbrev pub is_downgrade : PolicyOutcome → Bool
is_downgrade PolicyOutcome.downgrade = true
is_downgrade PolicyOutcome.require_approval = false
is_downgrade PolicyOutcome.allow = false
is_downgrade PolicyOutcome.block = false

-- `ExecutionPlan.is_executable`
unfoldable pub is_executable {ℓ} : {F : Type ℓ} → ExecutionPlan F → Bool
is_executable p = not (refuses p.budget_status) && not (is_none p.selected_model_name)

-- The model request that goes to the gateway. A prompt is told by what it is rendered from:
-- `build_quality_prompt(payload)` or `_render_payload(payload)`.
pub data Prompt : Type 0 where
  quality_prompt : Fields → Prompt
  rendered : Fields → Prompt

pub record ModelRequest : Type 0 where
  pub model : String
  pub prompt : Prompt
  pub images : List (String × String)
  pub is_multimodal : Bool
  pub json_object : Bool

-- The outcomes that `_record` is given, with the error code.
pub data Recorded : Type 0 where
  blocked no_model success : Recorded
  error : String → Recorded

pub data Action {ℓ} (F : Type ℓ) : Type ℓ where
  workload_lookup budget_evaluated policy_lookup registry_query : Action F
  invoked : ModelRequest → Action F
  recorded : Recorded → Option String → ExecutionPlan F → Action F

-- the caller and the ids that `execute` takes from the context
pub record Caller : Type 0 where
  pub tenant_id : String
  pub subject : String
  pub request_id : String
  pub trace_id : String

-- What the orchestrator is built with, for planning: the tables that the repositories read, and the
-- thresholds that are constants in the source. `none` stands for a collaborator that is not given.
pub record Collaborators {ℓ} (F : Type ℓ) : Type ℓ where
  pub registry : List (ModelRegistryEntry F)
  pub policies : Option (List (RoutingPolicy F))
  -- `get_by_id`, which may raise: the outer `none`
  pub workloads : Option (String → Option (Option Workload))
  pub limits_for_scope : Loader F
  pub warning_default : F
  pub critical_default : F
  pub thresholds : ComplexityThresholds F

-- `str(complexity).lower()`, as the column stores it
abbrev pub complexity_value : Complexity → String
complexity_value Complexity.simple = "SIMPLE"
complexity_value Complexity.medium = "MEDIUM"
complexity_value Complexity.complex = "COMPLEX"

abbrev pub and_then {ℓ κ} : {A : Type ℓ} {B : Type κ} → Option A → (A → Option B) → Option B
and_then none g = none
and_then (some a) g = g a

-- `getattr(workload, "id", None) or request.workload_id`
abbrev pub workload_id_of : Option Workload → Option String → Option String
workload_id_of none id = id
workload_id_of (some w) id = if str_eq w.id "" then id else some w.id

module _ {ℓ} {F : Type ℓ} where
  -- `_load_workload`: an exception is as good as no workload
  unfoldable pub load_workload :
      Option (String → Option (Option Workload)) → Option String → Option Workload × List (Action F)
  load_workload none id = (none, [])
  load_workload (some get) none = (none, [])
  load_workload (some get) (some id) =
      if str_eq id ""
      then (none, [])
      else (elim (get id) [ none ↦ none | some w ↦ w ], workload_lookup ∷ [])

  -- `scalar_one_or_none`, where two rows raise, which `_load_policy` takes for none
  abbrev pub only : List (RoutingPolicy F) → Option (RoutingPolicy F)
  only [] = none
  only (p ∷ []) = some p
  only (p ∷ q ∷ ps) = none

  -- `_load_policy`, on `get_active`
  unfoldable pub load_policy :
      Option (List (RoutingPolicy F))
      → String
      → String
      → Complexity
      → Option (RoutingPolicy F) × List (Action F)
  unfolding active_rows lower
  load_policy none tenant workload_type c = (none, [])
  load_policy (some rows) tenant workload_type c = (
    only (active_rows tenant workload_type (lower (complexity_value c)) rows),
    policy_lookup ∷ [],
  )

  abbrev pub policy_decision : Option (RoutingPolicy F) → PlanDecision
  policy_decision none = deterministic_fallback
  policy_decision (some p) = policy_version p.version

  abbrev pub selection_decision : Option (ModelRegistryEntry F) → List PlanDecision
  selection_decision none = []
  selection_decision (some e) = selected_model e.model_name ∷ []

module _ {ℓ} {F : Type ℓ} ⦃f : Float F⦄ where
  -- the plan at the budget check: what the early return gives, with nothing selected
  abbrev pub blank_plan :
      OrchestrationRequest F
      → Caller
      → Option Workload
      → ComplexityThresholds F
      → PolicyOutcome
      → ExecutionPlan F
  blank_plan r c w t outcome =
      let p =
        effective_priority r.business_priority
          (and_then w (λ (x : Workload). x.business_priority)) in
      let input : ClassificationInput F = record {
        workload_type = r.workload_type;
        business_priority = p;
        payload = r.payload;
        image_count = r.image_count;
        quality_requirement = r.quality_requirement;
        workload_risk_level = and_then w (λ (x : Workload). x.risk_level);
      } in
      record {
        request_id = c.request_id;
        workload_type = r.workload_type;
        complexity = classify_complexity t input;
        business_priority = p;
        risk_level = determine_risk input;
        budget_status = outcome;
        selected_model_id = none;
        selected_model_name = none;
        selected_agent_id = none;
        estimated_cost = none;
        estimated_cost_currency = none;
        max_context_tokens = none;
        max_tool_calls = none;
        routing_policy_version = none;
        tenant_id = c.tenant_id;
        user_id = c.subject;
        plant_id = r.plant_id;
        department_id = r.department_id;
        workload_id = workload_id_of w r.workload_id;
        trace_id = c.trace_id;
        decisions =
            tenant_from_principal c.tenant_id
            ∷ priority p
            ∷ risk (determine_risk input)
            ∷ budget outcome
            ∷ complexity (classify_complexity t input)
            ∷ [];
      }

  -- The steps after the budget check, 10 to 18, on the policy and the candidates.
  abbrev pub routed_plan :
      ExecutionPlan F
      → Option (RoutingPolicy F)
      → List (ModelRegistryEntry F)
      → Option (ModelRegistryEntry F)
      → ExecutionPlan F
  routed_plan p policy found selected = record p {
    selected_model_id = and_then selected (λ (e : ModelRegistryEntry F). some e.id);
    selected_model_name = and_then selected (λ (e : ModelRegistryEntry F). some e.model_name);
    selected_agent_id = and_then policy (λ (q : RoutingPolicy F). q.selected_agent_id);
    estimated_cost_currency = estimate_unit selected;
    max_context_tokens =
        context_limit (and_then policy (λ (q : RoutingPolicy F). q.max_context_tokens))
          (and_then selected (λ (e : ModelRegistryEntry F). e.max_context_tokens));
    max_tool_calls = and_then policy (λ (q : RoutingPolicy F). q.max_tool_calls);
    routing_policy_version = and_then policy (λ (q : RoutingPolicy F). some q.version);
    decisions =
        p.decisions
        ++ (policy_decision policy
            ∷ candidates (length found)
            ∷ ((if is_downgrade p.budget_status then prefer_lowest_cost ∷ [] else [])
                ++ selection_decision selected));
  }

module _ {ℓ} {F : Type ℓ} ⦃f : Float F⦄ ⦃d : Decimal F⦄ (k : Collaborators F) where
  -- `_evaluate_budget`, with an estimated cost of 0.0
  unfoldable pub budget_outcome : OrchestrationRequest F → Caller → Option Workload → PolicyOutcome
  unfolding evaluate
  budget_outcome r c w =
      (evaluate k.warning_default k.critical_default k.limits_for_scope c.tenant_id r.plant_id
        r.department_id (workload_id_of w r.workload_id) f.nought).outcome

  -- What is routed, for a plan that the budget does not block.
  unfoldable pub route :
      OrchestrationRequest F → ExecutionPlan F → ExecutionPlan F × List (Action F)
  unfolding load_policy model_candidates select_model
  route r p =
      let (policy, asked) = load_policy k.policies p.tenant_id r.workload_type p.complexity in
      let found =
        model_candidates k.registry r.workload_type
          (and_then policy (λ (q : RoutingPolicy F). q.minimum_quality_score))
          (and_then policy (λ (q : RoutingPolicy F). q.selected_model_id)) in
      (
        routed_plan p policy found (select_model (is_downgrade p.budget_status) found),
        asked ++ registry_query ∷ [],
      )

  unfoldable pub plan : OrchestrationRequest F → Caller → ExecutionPlan F × List (Action F)
  unfolding load_workload budget_outcome route
  plan r c =
      let (w, asked) = load_workload {F = F} k.workloads r.workload_id in
      let outcome = budget_outcome r c w in
      let start = blank_plan r c w k.thresholds outcome in
      let (routed, actions) = route r start in
      if is_block outcome
      then (start, asked ++ budget_evaluated ∷ [])
      else (routed, asked ++ (budget_evaluated ∷ actions))

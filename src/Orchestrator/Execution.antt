-- ===== src/Orchestrator/Execution.antt =====
-- `execute`, `_execute_plan`, `_normalize` and `_record` of app/orchestrator/orchestrator.py.
pub mod Log
pub mod Refusals
pub mod Invocations
pub mod Records
pub mod Lost
use newchanges.Base.{
  ℕ, zero, suc, ◌-◌, Bool, true, false, not, ◌&&◌, ◌||◌, List, [], ◌∷◌, ◌++◌, if◌then◌else◌, Option,
  none, some, String, str_eq, is_empty,
}
use newchanges.Base.Float.{Float}
use newchanges.Budget.{PolicyOutcome}
use newchanges.Budget.Limit.{Decimal}
use newchanges.Gateway.Retry.{GatewayError, error_code, Outcome, returned, raised}
use newchanges.Registry.{ModelRegistryEntry}
use newchanges.Orchestrator.Selection.{fallback_model}
use newchanges.Orchestrator.Plan.{
  OrchestrationRequest, ExecutionPlan, PlanDecision, Prompt, ModelRequest, Recorded, Action, Caller,
  Collaborators, registry_query, invoked, recorded, is_block, is_downgrade, plan,
}
use newchanges.Orchestrator.Classification.{Fields}
use newchanges.Workloads.Quality.{QualityResult, Reader, parse_quality_response}

-- What a guardrail raises, by what the orchestrator reads of it.
pub record Violation : Type 0 where
  pub code : String
  pub decision : String

pub record Guardrails : Type 0 where
  pub check_input : Fields → Option Violation
  pub check_output : String → Option Violation

-- `TextGenerationResponse`, with its usage; `actual` is whether the provenance is ACTUAL.
pub record Response {ℓ} (F : Type ℓ) : Type ℓ where
  pub content : String
  pub finish_reason : Option String
  pub input_tokens : Option ℕ
  pub output_tokens : Option ℕ
  pub total_tokens : Option ℕ
  pub actual : Bool
  pub attempts : ℕ
  pub latency_ms : F

-- The collaborators of an execution. The gateway answers by the number of its call and the request.
pub record Services {ℓ} (F : Type ℓ) : Type ℓ where
  pub planning : Collaborators F
  pub generate : ℕ → ModelRequest → Outcome F (Response F)
  pub guardrails : Option Guardrails
  pub has_telemetry : Bool
  pub reader : Reader F

pub data CostProvenance : Type 0 where
  estimated unavailable : CostProvenance

-- `ExecutionResult`; the verdict stands for the fields that a quality check adds to `result`.
pub record ExecutionResult {ℓ} (F : Type ℓ) : Type ℓ where
  pub plan_used : ExecutionPlan F
  pub content : String
  pub finish_reason : Option String
  pub quality : Option (QualityResult F)
  pub input_tokens : Option ℕ
  pub output_tokens : Option ℕ
  pub total_tokens : Option ℕ
  pub usage_actual : Bool
  pub cost_amount : Option F
  pub cost_currency : Option String
  pub cost_provenance : CostProvenance
  pub quality_score : Option F
  pub fallback_used : Bool
  pub attempts : ℕ
  pub image_count : ℕ
  pub tool_calls : ℕ
  pub context_tokens : Option ℕ
  pub model_latency_ms : F
  pub retry_count : ℕ
  pub guardrail_decision : Option String

pub data Executed {ℓ} (F : Type ℓ) : Type ℓ where
  completed : ExecutionResult F → Executed F
  budget_blocked no_compatible_model : Executed F
  guarded : Violation → Executed F
  failed : GatewayError F → Executed F

abbrev pub is_quality_check : String → Bool
is_quality_check workload_type = str_eq workload_type "quality_check"

module _ {ℓ} {F : Type ℓ} where
  abbrev pub model_request : OrchestrationRequest F → ExecutionPlan F → String → ModelRequest
  model_request r p name = record {
    model = name;
    prompt =
        if is_quality_check p.workload_type
        then Prompt.quality_prompt r.payload
        else Prompt.rendered r.payload;
    images = r.image_bytes;
    is_multimodal = not (is_empty r.image_bytes);
    json_object = is_quality_check p.workload_type;
  }

  -- `_record`: what the recorder raises is swallowed
  abbrev pub record_outcome : Bool → Recorded → Option String → ExecutionPlan F → List (Action F)
  record_outcome has_telemetry outcome decision p =
      if has_telemetry then recorded outcome decision p ∷ [] else []

  -- an action, and what comes after it
  abbrev pub preceded : Action F → Executed F × List (Action F) → Executed F × List (Action F)
  preceded action (result, actions) = (result, action ∷ actions)

  -- `_with_model`
  abbrev pub with_model : ExecutionPlan F → ModelRegistryEntry F → ExecutionPlan F
  with_model p e = record p {
    selected_model_id = some e.id;
    selected_model_name = some e.model_name;
    decisions = p.decisions ++ PlanDecision.fallback_model e.model_name ∷ [];
  }

  abbrev provenance_of : Option F → CostProvenance
  provenance_of none = unavailable
  provenance_of (some c) = estimated

module _ {ℓ} {F : Type ℓ} ⦃f : Float F⦄ where
  abbrev quality_of_content : Reader F → String → String → Option (QualityResult F)
  quality_of_content reader workload_type content =
      if is_quality_check workload_type then some (parse_quality_response reader content) else none

  abbrev confidence_of : Option (QualityResult F) → Option F
  confidence_of none = none
  confidence_of (some q) = q.confidence

  unfoldable pub normalize :
      Reader F → ExecutionPlan F → Response F → Bool → ℕ → Option String → ExecutionResult F
  unfolding parse_quality_response
  normalize reader p response fallback_used image_count decision =
      let quality = quality_of_content reader p.workload_type response.content in
      record {
        plan_used = p;
        content = response.content;
        finish_reason = response.finish_reason;
        quality = quality;
        input_tokens = response.input_tokens;
        output_tokens = response.output_tokens;
        total_tokens = response.total_tokens;
        usage_actual = response.actual;
        cost_amount = p.estimated_cost;
        cost_currency = p.estimated_cost_currency;
        cost_provenance = provenance_of p.estimated_cost;
        quality_score = confidence_of quality;
        fallback_used = fallback_used;
        attempts = response.attempts;
        image_count = image_count;
        tool_calls = 0;
        context_tokens = none;
        model_latency_ms = response.latency_ms;
        retry_count = response.attempts - 1;
        guardrail_decision = decision;
      }

abbrev pub violation_of : Option Guardrails → (Guardrails → Option Violation) → Option Violation
violation_of none check = none
violation_of (some g) check = check g

abbrev pub decision_of : Option Guardrails → Option String
decision_of none = none
decision_of (some g) = some "ALLOW"

module _ {ℓ} {F : Type ℓ} ⦃f : Float F⦄ (s : Services F) (r : OrchestrationRequest F) where
  -- Steps 19b to 23 on a response, by what the output guardrail finds.
  unfoldable pub after_output :
      ExecutionPlan F → Bool → Response F → Option Violation → Executed F × List (Action F)
  unfolding normalize
  after_output p fallback_used response (some v) = (guarded v, [])
  after_output p fallback_used response none = (
    completed
        (normalize s.reader p response fallback_used r.image_count (decision_of s.guardrails)),
    record_outcome s.has_telemetry Recorded.success none p,
  )

  abbrev pub finish : ExecutionPlan F → Bool → Response F → Executed F × List (Action F)
  finish p fallback_used response =
      after_output p fallback_used response
        (violation_of s.guardrails (λ g. g.check_output response.content))

  -- What the second call gives, on the fallback's model; what it raises propagates as it is.
  unfoldable pub after_fallback :
      ExecutionPlan F → ModelRegistryEntry F → Outcome F (Response F) → Executed F × List (Action F)
  unfolding after_output
  after_fallback p e (returned response) = finish (with_model p e) true response
  after_fallback p e (raised error) = (failed error, [])

  -- The `except ModelGatewayError` around the first call, by the fallback that is found.
  unfoldable pub handle_failure :
      ExecutionPlan F
      → GatewayError F
      → Option (ModelRegistryEntry F)
      → Executed F × List (Action F)
  unfolding after_fallback
  handle_failure p error none =
      (failed error, record_outcome s.has_telemetry (Recorded.error (error_code error)) none p)
  handle_failure p error (some e) =
      preceded (invoked (model_request r p e.model_name))
        (after_fallback p e (s.generate 1 (model_request r p e.model_name)))

  -- `_fallback_model`, on the plan
  abbrev pub fallback_for : ExecutionPlan F → Option (ModelRegistryEntry F)
  fallback_for p =
      fallback_model s.planning.registry r.workload_type p.selected_model_id
        (is_downgrade p.budget_status)

  -- What the first call gives.
  unfoldable pub after_first :
      ExecutionPlan F → Outcome F (Response F) → Executed F × List (Action F)
  unfolding after_output handle_failure fallback_model
  after_first p (returned response) = finish p false response
  after_first p (raised error) = preceded registry_query (handle_failure p error (fallback_for p))

  -- `_execute_plan` with the name of the selected model, by what the input guardrail finds
  unfoldable pub execute_plan :
      ExecutionPlan F → String → Option Violation → Executed F × List (Action F)
  unfolding after_first
  execute_plan p name (some v) =
      (guarded v, record_outcome s.has_telemetry (Recorded.error v.code) (some v.decision) p)
  execute_plan p name none =
      preceded (invoked (model_request r p name))
        (after_first p (s.generate 0 (model_request r p name)))

  -- `execute`, after the plan is made, on a plan that is not blocked
  unfoldable pub run_open : ExecutionPlan F → Option String → Executed F × List (Action F)
  unfolding execute_plan
  run_open p none = (no_compatible_model, record_outcome s.has_telemetry Recorded.no_model none p)
  run_open p (some name) =
      execute_plan p name (violation_of s.guardrails (λ g. g.check_input r.payload))

  unfoldable pub run_plan : ExecutionPlan F → Executed F × List (Action F)
  unfolding run_open
  run_plan p =
      if is_block p.budget_status
      then (budget_blocked, record_outcome s.has_telemetry Recorded.blocked none p)
      else run_open p p.selected_model_name

  unfoldable pub execute : ⦃d : Decimal F⦄ → Caller → Executed F × List (Action F)
  unfolding run_plan plan
  execute c =
      let (p, asked) = plan s.planning r c in
      let (result, actions) = run_plan p in (result, asked ++ actions)

-- ===== src/Orchestrator/Tests.antt =====
-- Runs of classification, selection and execution, and their theorems at concrete inputs.
use mathlib.Core.List.{Mem, mem-cons_self, mem-cons_of_mem}
use mathlib.Core.List.Perm
use Prim.Native.Nat.{max, ◌/◌}
use newchanges.Base.{
  ℕ, ◌==◌, ◌*◌, ◌≤◌, ◌<◌, ◌≡◌, refl, arith, true, false, List, [], ◌∷◌, none, some, String, length,
  All, if◌then◌else◌, is_empty,
}
use newchanges.Base.Sample.{nat_float, ℕ-IsOrdered}
use newchanges.Base.Text.{upper, strip}
use newchanges.Budget.{PolicyOutcome, BudgetScope, default_budget_policy}
use newchanges.Budget.Limit.{Decimal, BudgetLimit, evaluate_limit}
use newchanges.Budget.Decide.{decide, key_le}
use newchanges.Budget.Gate.{request_scopes}
use newchanges.Gateway.Retry.{returned, raised, timeout, unavailable}
use newchanges.Registry.{ModelRegistryEntry}
use newchanges.Workloads.Quality.{Reader}
use newchanges.Orchestrator.Classification.{
  Complexity, BusinessPriority, RiskLevel, Value, Fields, Items, ClassificationInput,
  default_thresholds, size_loop, rounds, payload_size, classify_complexity, determine_risk,
  priority_index,
}
use newchanges.Orchestrator.Classification.Size.{characters_fields, size_loop-payload_size}
use newchanges.Orchestrator.Classification.Rules.{complexity_rank, classify_complexity_mono}
use newchanges.Orchestrator.Selection.{declared_floor, effective_priority, select_model}
use newchanges.Orchestrator.Selection.Best.{IsBest, select_model-IsBest}
use newchanges.Orchestrator.Selection.Choice.{name_of, effective_priority-max, select_model-perm}
use newchanges.Orchestrator.Plan.{
  OrchestrationRequest, ModelRequest, Recorded, Caller, is_executable, budget_outcome,
  load_workload, workload_id_of, plan,
}
use newchanges.Orchestrator.Execution.{Services, Response, budget_blocked, model_request, execute}
use newchanges.Orchestrator.Execution.Log.{invocations, records, asks_tables, outcome, workload}
use newchanges.Orchestrator.Execution.Refusals.{execute-blocked, execute-require_approval}
use newchanges.Orchestrator.Execution.Invocations.{IsOnAllowed, execute-invocations}
use newchanges.Orchestrator.Execution.Lost.{is_lost, execute-is_lost}
use newchanges.Orchestrator.Execution.Records.{IsReported, execute-IsReported}

instance abbrev nat_decimal : Decimal ℕ
nat_decimal = record { percent_of = λ c a. c * 100 / a }

-- {"id": "A7", "log": ["hot", 12, null]}
abbrev payload : Fields
payload = Fields.field "id" (Value.text "A7") (
    Fields.field "log"
      (Value.sequence (
        Items.cons (Value.text "hot")
          (Items.cons (Value.scalar "12") (Items.cons Value.null Items.nil))))
      Fields.end)

payload_characters : payload_size payload ≡ 12
unfolding payload_size
payload_characters = refl

enough : rounds (Value.dict payload) < 20
unfolding rounds
enough = omega arith

size_loop-payload_size_example :
    (size_loop 20 (Value.dict payload ∷ []) 0 ≡ some (characters_fields payload))
    × (payload_size payload ≡ characters_fields payload)
size_loop-payload_size_example = size_loop-payload_size payload 20 enough

abbrev input : ClassificationInput ℕ
input = record {
  workload_type = "supply_chain";
  business_priority = BusinessPriority.normal;
  payload = payload;
  image_count = 1;
  quality_requirement = none;
  workload_risk_level = some " high ";
}

one_image : classify_complexity (default_thresholds 90) input ≡ Complexity.medium
unfolding classify_complexity
one_image = refl

declared : determine_risk input ≡ RiskLevel.high
unfolding determine_risk upper strip
declared = refl

unrecognised : determine_risk (record input { workload_risk_level = some "severe" }) ≡ RiskLevel.low
unfolding determine_risk upper strip
unrecognised = refl

classify_complexity_mono_example :
    complexity_rank (classify_complexity (default_thresholds 90) input)
    ≤ complexity_rank (
        classify_complexity
          (default_thresholds 90)
          (record input { quality_requirement = some 95 }))
classify_complexity_mono_example =
    classify_complexity_mono ℕ-IsOrdered (default_thresholds 90) input
      (record input { quality_requirement = some 95 }) (omega arith) (omega arith) (omega arith) tt

high_floor : declared_floor (some "high") ≡ some BusinessPriority.high
unfolding upper strip
high_floor = refl

effective_priority-max_example :
    (priority_index (effective_priority BusinessPriority.low (some "high"))
      ≡ max (priority_index BusinessPriority.low) (priority_index BusinessPriority.high))
    × ((stricter : BusinessPriority)
        → priority_index BusinessPriority.low ≤ priority_index stricter
        → priority_index (effective_priority BusinessPriority.low (some "high"))
          ≤ priority_index (effective_priority stricter (some "high")))
effective_priority-max_example =
    effective_priority-max BusinessPriority.low BusinessPriority.high (some "high") high_floor

abbrev alpha : ModelRegistryEntry ℕ
alpha = record {
  id = "m-1";
  model_name = "alpha";
  provider = none;
  capability = "reasoning";
  modality = some "text";
  input_cost = some 4;
  output_cost = none;
  cost_unit = none;
  max_context_tokens = some 8000;
  supports_vision = none;
  supports_tools = none;
  supports_structured_output = none;
  supports_embeddings = none;
  quality_score = some 90;
  latency_score = none;
  risk_level = none;
  enabled = true;
}

-- cheaper, and of unknown quality
abbrev beta : ModelRegistryEntry ℕ
beta = record alpha { id = "m-2"; model_name = "beta"; input_cost = some 1; quality_score = none }

best : select_model false (beta ∷ alpha ∷ []) ≡ some alpha
unfolding select_model
best = refl

cheapest : select_model true (beta ∷ alpha ∷ []) ≡ some beta
unfolding select_model
cheapest = refl

-- an unknown quality and a measured quality of 0.0 compare as equal, so the cost decides
tie : select_model false (record alpha { quality_score = some 0 } ∷ beta ∷ []) ≡ some beta
unfolding select_model
tie = refl

select_model-IsBest_example :
    IsBest false (beta ∷ alpha ∷ []) (select_model false (beta ∷ alpha ∷ []))
select_model-IsBest_example = select_model-IsBest ℕ-IsOrdered false beta (alpha ∷ [])

select_model-perm_example :
    name_of (select_model false (beta ∷ alpha ∷ []))
    ≡ name_of (select_model false (alpha ∷ beta ∷ []))
select_model-perm_example =
    select_model-perm ℕ-IsOrdered false (beta ∷ alpha ∷ []) (alpha ∷ beta ∷ [])
      (Perm.swap alpha beta [])

abbrev request : OrchestrationRequest ℕ
request = record {
  workload_type = "supply_chain";
  business_priority = BusinessPriority.normal;
  payload = payload;
  workload_id = none;
  plant_id = some "plant-1";
  department_id = none;
  quality_requirement = none;
  image_count = 0;
  image_bytes = [];
}

abbrev caller : Caller
caller = record { tenant_id = "acme"; subject = "ann"; request_id = "r-1"; trace_id = "t-1" }

-- a limit on the plant, spent in full
abbrev spent : BudgetLimit ℕ
spent = record {
  scope = BudgetScope.plant;
  scope_id = "plant-1";
  amount = 100;
  currency = "USD";
  consumed_actual_cost = 120;
  consumed_estimated_cost = 0;
  warning_threshold_percent = 80;
  critical_threshold_percent = 95;
  budget_id = none;
  unevaluable_reason = none;
}

abbrev reader : Reader ℕ
reader = record { loads = λ s. none; show = λ v. ""; to_float = λ v. none; unit = 100 }

abbrev response : Response ℕ
response = record {
  content = "ok";
  finish_reason = none;
  input_tokens = some 10;
  output_tokens = some 2;
  total_tokens = some 12;
  actual = true;
  attempts = 1;
  latency_ms = 40;
}

-- Two models, no policies and no guardrails; the gateway answers every call.
abbrev services : Services ℕ
services = record {
  planning = record {
    registry = beta ∷ alpha ∷ [];
    policies = none;
    workloads = none;
    limits_for_scope = λ tenant scope id. some [];
    warning_default = 80;
    critical_default = 95;
    thresholds = default_thresholds 90;
  };
  generate = λ n q. returned response;
  guardrails = none;
  has_telemetry = true;
  reader = reader;
}

abbrev over_budget : Services ℕ
over_budget = record services {
  planning = record (services.planning) {
    limits_for_scope =
        λ tenant scope id. elim scope [ BudgetScope.plant ↦ some (spent ∷ []) | _ ↦ some [] ];
  };
}

-- the lookups of limits fail
abbrev unsure : Services ℕ
unsure = record services {
  planning = record (services.planning) { limits_for_scope = λ tenant scope id. none };
}

-- the gateway fails at every call
abbrev failing : Services ℕ
failing = record services { generate = λ n q. raised (if n == 0 then timeout else unavailable) }

blocks : (evaluate_limit default_budget_policy 0 spent).outcome ≡ PolicyOutcome.block
unfolding evaluate_limit
blocks = refl

scope_in :
    Mem {A = BudgetScope × String}
      (BudgetScope.plant, "plant-1")
      (request_scopes "acme"
        (some "plant-1")
        none
        (workload_id_of (workload (over_budget.planning) request caller) none))
unfolding request_scopes
scope_in = mem-cons_of_mem _ mem-cons_self

execute-blocked_example :
    ((execute over_budget request caller).0 ≡ budget_blocked)
    × (invocations (execute over_budget request caller).1 ≡ [])
    × (asks_tables (execute over_budget request caller).1 ≡ false)
    × (records (execute over_budget request caller).1 ≡ Recorded.blocked ∷ [])
execute-blocked_example =
    execute-blocked over_budget request caller BudgetScope.plant "plant-1" spent scope_in
      mem-cons_self blocks

pending : outcome (unsure.planning) request caller ≡ PolicyOutcome.require_approval
unfolding budget_outcome decide load_workload key_le evaluate_limit
pending = refl

named : (plan (unsure.planning) request caller).0.selected_model_name ≡ some "alpha"
unfolding plan decide key_le evaluate_limit
named = refl

execute-require_approval_example :
    (is_executable (plan (unsure.planning) request caller).0 ≡ false)
    × ((rest : List ModelRequest) × (invocations (execute unsure request caller).1
          ≡ model_request request (plan (unsure.planning) request caller).0 "alpha" ∷ rest))
execute-require_approval_example =
    execute-require_approval unsure request caller "alpha" pending named refl

execute-invocations_example :
    All
      (IsOnAllowed (services.planning.registry) "supply_chain")
      (invocations (execute failing request caller).1)
    × (length (invocations (execute failing request caller).1) ≤ 2)
execute-invocations_example = execute-invocations failing request caller

execute-IsReported_example : IsReported (execute services request caller)
execute-IsReported_example = execute-IsReported services request refl caller

execute-is_lost_example :
    is_empty (records (execute failing request caller).1)
    ≡ is_lost
        (execute failing request caller).0
        (length (invocations (execute failing request caller).1))
execute-is_lost_example = execute-is_lost failing request refl caller

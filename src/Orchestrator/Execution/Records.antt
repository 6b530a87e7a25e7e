-- ===== src/Orchestrator/Execution/Records.antt =====
-- What an execution records, and the cost that it reports.
use newchanges.Base.{
  ◌≤◌, ◌≡◌, refl, sym, ap, ◌∙◌, arith, Bool, true, false, List, [], ◌∷◌, Option, none, some, String,
  Bool-cases, inl, inr, length,
}
use newchanges.Base.Float.{Float}
use newchanges.Budget.Limit.{Decimal}
use newchanges.Gateway.Retry.{Outcome, returned, raised, GatewayError}
use newchanges.Registry.{ModelRegistryEntry}
use newchanges.Orchestrator.Plan.{
  OrchestrationRequest, ExecutionPlan, ModelRequest, Recorded, Action, Caller, invoked,
  registry_query, is_block, plan, route,
}
use newchanges.Orchestrator.Execution.{
  Services, Executed, Response, Violation, completed, budget_blocked, no_compatible_model, guarded,
  failed, unavailable, model_request, with_model, record_outcome, preceded, normalize, after_output,
  after_fallback, handle_failure, fallback_for, after_first, execute_plan, run_open, run_plan,
  execute,
}
use newchanges.Orchestrator.Execution.Log.{invocations, records, outcome}
use newchanges.Orchestrator.Execution.Refusals.{execute_log}

module _ {ℓ} {F : Type ℓ} where
  abbrev pub is_completed : Executed F → Bool
  is_completed (completed e) = true
  is_completed budget_blocked = false
  is_completed no_compatible_model = false
  is_completed (guarded v) = false
  is_completed (failed e) = false

  -- At most one record, and a success where the execution completes.
  pub record IsAccounted (t : Executed F × List (Action F)) : Type 0 where
    pub at_most_one : length (records t.1) ≤ 1
    pub completed_once : is_completed t.0 ≡ true → records t.1 ≡ Recorded.success ∷ []

  pub record IsReported (t : Executed F × List (Action F)) : Type 0 where
    pub accounted : IsAccounted t
    pub unspent_once : invocations t.1 ≡ [] → length (records t.1) ≡ 1

  -- What every completed execution reports of its cost.
  abbrev pub HasNoCost : Executed F → Type ℓ
  HasNoCost (completed e) = (e.cost_amount ≡ none) × (e.cost_provenance ≡ unavailable)
  HasNoCost budget_blocked = Unit
  HasNoCost no_compatible_model = Unit
  HasNoCost (guarded v) = Unit
  HasNoCost (failed e) = Unit

module _ {ℓ} {F : Type ℓ} ⦃f : Float F⦄ (s : Services F) (r : OrchestrationRequest F)
    (on : s.has_telemetry ≡ true) where
  -- A refusal that is recorded.
  refusal-IsReported :
      (e : Executed F) (o : Recorded) (w : Option String) (p : ExecutionPlan F)
      → is_completed e ≡ false
      → IsReported (e, record_outcome s.has_telemetry o w p)
  refusal-IsReported e o w p h = rw on (ground arith)

  output-IsAccounted :
      (p : ExecutionPlan F) (b : Bool) (a : Response F) (v : Option Violation)
      → IsAccounted (after_output s r p b a v)
  unfolding after_output
  output-IsAccounted p b a none = rw on (ground arith)
  output-IsAccounted p b a (some v) = ground arith

  fallback-IsAccounted :
      (p : ExecutionPlan F) (e : ModelRegistryEntry F) (o : Outcome F (Response F))
      → IsAccounted (after_fallback s r p e o)
  unfolding after_fallback
  fallback-IsAccounted p e (returned a) = output-IsAccounted _ true a _
  fallback-IsAccounted p e (raised x) = ground arith

  -- An action that is no record changes nothing.
  called-IsAccounted :
      (q : ModelRequest) (t : Executed F × List (Action F))
      → IsAccounted t
      → IsAccounted (preceded (invoked q) t)
  called-IsAccounted q t h = record {
    at_most_one = h.at_most_one;
    completed_once = h.completed_once;
  }

  failure-IsAccounted :
      (p : ExecutionPlan F) (x : GatewayError F) (o : Option (ModelRegistryEntry F))
      → IsAccounted (preceded registry_query (handle_failure s r p x o))
  unfolding handle_failure
  failure-IsAccounted p x none = rw on (ground arith)
  failure-IsAccounted p x (some e) = record {
    at_most_one = h.at_most_one;
    completed_once = h.completed_once;
  }
    where
      h : IsAccounted (after_fallback s r p e (s.generate 1 (model_request r p e.model_name)))
      h = fallback-IsAccounted p e (s.generate 1 (model_request r p e.model_name))

  first-IsAccounted :
      (p : ExecutionPlan F) (o : Outcome F (Response F)) → IsAccounted (after_first s r p o)
  unfolding after_first
  first-IsAccounted p (returned a) = output-IsAccounted p false a _
  first-IsAccounted p (raised x) = failure-IsAccounted p x (fallback_for s r p)

  plan-IsReported :
      (p : ExecutionPlan F) (name : String) (v : Option Violation)
      → IsReported (execute_plan s r p name v)
  unfolding execute_plan
  plan-IsReported p name (some v) =
      refusal-IsReported (guarded v) (Recorded.error v.code) (some v.decision) p refl
  plan-IsReported p name none = record {
    accounted =
        called-IsAccounted (model_request r p name)
          (after_first s r p (s.generate 0 (model_request r p name)))
          (first-IsAccounted p (s.generate 0 (model_request r p name)));
    unspent_once = λ h. absurd (ground arith);
  }

  open-IsReported : (p : ExecutionPlan F) (o : Option String) → IsReported (run_open s r p o)
  unfolding run_open
  open-IsReported p none = refusal-IsReported no_compatible_model Recorded.no_model none p refl
  open-IsReported p (some name) = plan-IsReported p name _

  run-IsReported : (p : ExecutionPlan F) → IsReported (run_plan s r p)
  unfolding run_plan
  run-IsReported p = elim (Bool-cases (is_block p.budget_status)) [
    | inl e ↦ rw e (refusal-IsReported budget_blocked Recorded.blocked none p refl)
    | inr e ↦ rw e (open-IsReported p p.selected_model_name)
  ]

  module _ ⦃d : Decimal F⦄ (c : Caller) where
    -- With a recorder, an execution makes one record at most. It makes exactly one, of success,
    -- when it completes, and exactly one when it never invoked the gateway.
    pub execute-IsReported : IsReported (execute s r c)
    unfolding execute
    execute-IsReported = record {
      accounted = record {
        at_most_one = omega (arith, ap length (execute_log s r c).1, h.accounted.at_most_one);
        completed_once = λ k. (execute_log s r c).1 ∙ h.accounted.completed_once k;
      };
      unspent_once =
          λ k. ap length (execute_log s r c).1 ∙ h.unspent_once (sym (execute_log s r c).0 ∙ k);
    }
      where
        h : IsReported (run_plan s r (plan s.planning r c).0)
        h = run-IsReported (plan s.planning r c).0

module _ {ℓ} {F : Type ℓ} ⦃f : Float F⦄ (s : Services F) (r : OrchestrationRequest F) where
  output_costless :
      (p : ExecutionPlan F) (b : Bool) (a : Response F) (v : Option Violation)
      → p.estimated_cost ≡ none
      → HasNoCost (after_output s r p b a v).0
  unfolding after_output normalize
  output_costless p b a none h = rw h (refl, refl)
  output_costless p b a (some v) h = tt

  fallback_costless :
      (p : ExecutionPlan F) (x : GatewayError F) (o : Option (ModelRegistryEntry F))
      → p.estimated_cost ≡ none
      → HasNoCost (handle_failure s r p x o).0
  unfolding handle_failure
  fallback_costless p x none h = tt
  fallback_costless p x (some e) h = second (s.generate 1 (model_request r p e.model_name))
    where
      second : (o : Outcome F (Response F)) → HasNoCost (after_fallback s r p e o).0
      second (returned a) = output_costless (with_model p e) true a _ h
      second (raised y) = tt

  plan_costless :
      (p : ExecutionPlan F) (name : String) (v : Option Violation)
      → p.estimated_cost ≡ none
      → HasNoCost (execute_plan s r p name v).0
  unfolding execute_plan
  plan_costless p name (some v) h = tt
  plan_costless p name none h = first (s.generate 0 (model_request r p name))
    where
      first : (o : Outcome F (Response F)) → HasNoCost (after_first s r p o).0
      first (returned a) = output_costless p false a _ h
      first (raised x) = fallback_costless p x (fallback_for s r p) h

  run_costless : (p : ExecutionPlan F) → p.estimated_cost ≡ none → HasNoCost (run_plan s r p).0
  unfolding run_plan
  run_costless p h = elim (Bool-cases (is_block p.budget_status)) [
    | inl e ↦ rw e tt
    | inr e ↦ rw e (named p.selected_model_name)
  ]
    where
      named : (o : Option String) → HasNoCost (run_open s r p o).0
      named none = tt
      named (some name) = plan_costless p name _ h

  module _ ⦃d : Decimal F⦄ (c : Caller) where
    plan_estimate : (plan s.planning r c).0.estimated_cost ≡ none
    unfolding plan route
    plan_estimate = elim (Bool-cases (is_block (outcome s.planning r c))) [
      | inl e ↦ rw e refl
      | inr e ↦ rw e refl
    ]

    -- Every execution that completes reports no cost, labelled UNAVAILABLE, whatever the pricing in
    -- the registry and the usage that the gateway reports.
    pub execute-HasNoCost : HasNoCost (execute s r c).0
    unfolding execute
    execute-HasNoCost = run_costless (plan s.planning r c).0 plan_estimate

-- ===== src/Orchestrator/Execution/Lost.antt =====
-- Which executions leave no record.
use newchanges.Base.{
  ℕ, ◌+◌, leb, ◌≡◌, refl, ap, ◌∙◌, arith, Bool, true, false, List, Option, none, some, String,
  Bool-cases, inl, inr, length, is_empty,
}
use newchanges.Base.Float.{Float}
use newchanges.Budget.Limit.{Decimal}
use newchanges.Gateway.Retry.{Outcome, returned, raised, GatewayError}
use newchanges.Registry.{ModelRegistryEntry}
use newchanges.Orchestrator.Plan.{
  OrchestrationRequest, ExecutionPlan, ModelRequest, Action, Caller, invoked, is_block, plan,
}
use newchanges.Orchestrator.Execution.{
  Services, Executed, Response, Violation, completed, budget_blocked, no_compatible_model, guarded,
  failed, model_request, with_model, preceded, after_output, after_fallback, handle_failure,
  fallback_for, after_first, execute_plan, run_open, run_plan, execute,
}
use newchanges.Orchestrator.Execution.Log.{invocations, records}
use newchanges.Orchestrator.Execution.Refusals.{execute_log}

module _ {ℓ} {F : Type ℓ} where
  -- A result that is not accounted for, by the number of calls of the gateway: what a guardrail
  -- refuses after a call, and what is raised by a second call.
  abbrev pub is_lost : Executed F → ℕ → Bool
  is_lost (completed e) calls = false
  is_lost budget_blocked calls = false
  is_lost no_compatible_model calls = false
  is_lost (guarded v) calls = leb 1 calls
  is_lost (failed e) calls = leb 2 calls

  -- After some calls, a run makes no record exactly where its result is lost.
  abbrev IsCounted : ℕ → Executed F × List (Action F) → Type 0
  IsCounted before t = is_empty (records t.1) ≡ is_lost t.0 (before + length (invocations t.1))

  called-IsCounted :
      (before : ℕ) (q : ModelRequest) (t : Executed F × List (Action F))
      → IsCounted (before + 1) t
      → IsCounted before (preceded (invoked q) t)
  called-IsCounted before q t h = h ∙ ap (is_lost t.0) (omega arith)

module _ {ℓ} {F : Type ℓ} ⦃f : Float F⦄ (s : Services F) (r : OrchestrationRequest F)
    (on : s.has_telemetry ≡ true) where
  output-IsCounted :
      (before : ℕ) (p : ExecutionPlan F) (b : Bool) (a : Response F) (v : Option Violation)
      → IsCounted (before + 1) (after_output s r p b a v)
  unfolding after_output
  output-IsCounted before p b a none = rw on refl
  output-IsCounted before p b a (some v) = ground arith

  fallback-IsCounted :
      (p : ExecutionPlan F) (e : ModelRegistryEntry F) (o : Outcome F (Response F))
      → IsCounted 2 (after_fallback s r p e o)
  unfolding after_fallback
  fallback-IsCounted p e (returned a) = output-IsCounted 1 (with_model p e) true a _
  fallback-IsCounted p e (raised x) = refl

  failure-IsCounted :
      (p : ExecutionPlan F) (x : GatewayError F) (o : Option (ModelRegistryEntry F))
      → IsCounted 1 (handle_failure s r p x o)
  unfolding handle_failure
  failure-IsCounted p x none = rw on refl
  failure-IsCounted p x (some e) =
      called-IsCounted 1 (model_request r p e.model_name)
        (after_fallback s r p e (s.generate 1 (model_request r p e.model_name)))
        (fallback-IsCounted p e (s.generate 1 (model_request r p e.model_name)))

  first-IsCounted :
      (p : ExecutionPlan F) (o : Outcome F (Response F)) → IsCounted 1 (after_first s r p o)
  unfolding after_first
  first-IsCounted p (returned a) = output-IsCounted 0 p false a _
  first-IsCounted p (raised x) = failure-IsCounted p x (fallback_for s r p)

  plan-IsCounted :
      (p : ExecutionPlan F) (name : String) (v : Option Violation)
      → IsCounted 0 (execute_plan s r p name v)
  unfolding execute_plan
  plan-IsCounted p name (some v) = rw on refl
  plan-IsCounted p name none =
      called-IsCounted 0 (model_request r p name)
        (after_first s r p (s.generate 0 (model_request r p name)))
        (first-IsCounted p (s.generate 0 (model_request r p name)))

  open-IsCounted : (p : ExecutionPlan F) (o : Option String) → IsCounted 0 (run_open s r p o)
  unfolding run_open
  open-IsCounted p none = rw on refl
  open-IsCounted p (some name) = plan-IsCounted p name _

  run-IsCounted : (p : ExecutionPlan F) → IsCounted 0 (run_plan s r p)
  unfolding run_plan
  run-IsCounted p = elim (Bool-cases (is_block p.budget_status)) [
    | inl e ↦ rw e (rw on refl)
    | inr e ↦ rw e (open-IsCounted p p.selected_model_name)
  ]

  module _ ⦃d : Decimal F⦄ (c : Caller) where
    -- With a recorder, whatever the services answer, an execution makes no record exactly where a
    -- guardrail refuses it after a call of the gateway, or it ends with a gateway's error after two
    -- calls.
    pub execute-is_lost :
        is_empty (records (execute s r c).1)
        ≡ is_lost (execute s r c).0 (length (invocations (execute s r c).1))
    unfolding execute
    execute-is_lost =
        ap is_empty (execute_log s r c).1
        ∙ run-IsCounted (plan s.planning r c).0
        ∙ ap (is_lost (run_plan s r (plan s.planning r c).0).0)
            (omega (arith, ap length (execute_log s r c).0))

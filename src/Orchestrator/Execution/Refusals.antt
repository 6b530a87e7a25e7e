-- ===== src/Orchestrator/Execution/Refusals.antt =====
-- What a refusal by the budget stops, and what it does not.
use mathlib.Core.List.{Mem}
use newchanges.Base.{
  ◌≡◌, refl, ap, ◌∙◌, arith, true, false, List, [], ◌∷◌, none, some, String, if◌then◌else◌,
  Bool-cases, inl, inr,
}
use newchanges.Base.Float.{Float}
use newchanges.Budget.{PolicyOutcome, BudgetScope, default_budget_policy}
use newchanges.Budget.Limit.{Decimal, BudgetLimit, evaluate_limit}
use newchanges.Budget.Gate.{request_scopes, scope_limits}
use newchanges.Budget.Gate.Coverage.{evaluate-covers}
use newchanges.Orchestrator.Plan.{
  OrchestrationRequest, ExecutionPlan, ModelRequest, Recorded, Action, invoked, Caller,
  workload_id_of, is_block, is_executable, budget_outcome, route, plan,
}
use newchanges.Orchestrator.Execution.{
  Services, Executed, record_outcome, run_open, preceded, after_first, budget_blocked, violation_of,
  model_request, run_plan, execute_plan, execute,
}
use newchanges.Orchestrator.Execution.Log.{
  invocations, records, asks_tables, asks_tables-append, quiet-append, workload, outcome, start,
  plan-IsQuiet, plan_blocked,
}

module _ {ℓ} {F : Type ℓ} ⦃f : Float F⦄ ⦃d : Decimal F⦄ (s : Services F)
    (r : OrchestrationRequest F) (c : Caller) where
  -- the parts of the log
  pub execute_log :
      (invocations (execute s r c).1 ≡ invocations (run_plan s r (plan s.planning r c).0).1)
      × (records (execute s r c).1 ≡ records (run_plan s r (plan s.planning r c).0).1)
  unfolding execute
  execute_log =
      quiet-append (plan s.planning r c).1 (run_plan s r (plan s.planning r c).0).1
        (plan-IsQuiet s.planning r c)

  -- A limit of one of the request's scopes that blocks, as the repository reports it.
  pub blocks_outcome :
      (scope : BudgetScope) (id : String) (l : BudgetLimit F)
      → Mem {A = BudgetScope × String}
          (scope, id)
          (request_scopes c.tenant_id r.plant_id r.department_id
            (workload_id_of (workload s.planning r c) r.workload_id))
      → Mem l (
          scope_limits s.planning.warning_default s.planning.critical_default
            s.planning.limits_for_scope c.tenant_id scope id)
      → (evaluate_limit default_budget_policy f.nought l).outcome ≡ PolicyOutcome.block
      → is_block (outcome s.planning r c) ≡ true
  unfolding budget_outcome
  blocks_outcome scope id l m k e = ground (
    arith,
    evaluate-covers s.planning.warning_default s.planning.critical_default
        s.planning.limits_for_scope c.tenant_id r.plant_id r.department_id
        (workload_id_of (workload s.planning r c) r.workload_id) f.nought scope id l m k,
  )

  -- What is left to do for a plan that the budget blocks.
  refusal : Executed F × List (Action F)
  refusal =
      (budget_blocked, record_outcome s.has_telemetry Recorded.blocked none (start s.planning r c))

  run_refusal :
      is_block (outcome s.planning r c) ≡ true → run_plan s r (plan s.planning r c).0 ≡ refusal
  unfolding refusal run_plan
  run_refusal h = ap (run_plan s r) (plan_blocked s.planning r c h).0 ∙ only_record
    where
      only_record : run_plan s r (start s.planning r c) ≡ refusal
      only_record = rw h refl

  refusal_log :
      (invocations refusal.1 ≡ [])
      × (asks_tables refusal.1 ≡ false)
      × (records refusal.1 ≡ (if s.has_telemetry then Recorded.blocked ∷ [] else []))
  unfolding refusal
  refusal_log = elim (Bool-cases s.has_telemetry) [ inl e ↦ ground arith | inr e ↦ ground arith ]

  -- Where the repository reports, for a scope of the request, a limit whose verdict is BLOCK, the
  -- execution is refused: the gateway is not invoked, neither the policies nor the registry are
  -- asked, and one record, of the refusal, is made where there is a recorder.
  pub execute-blocked :
      (scope : BudgetScope) (id : String) (l : BudgetLimit F)
      → Mem {A = BudgetScope × String}
          (scope, id)
          (request_scopes c.tenant_id r.plant_id r.department_id
            (workload_id_of (workload s.planning r c) r.workload_id))
      → Mem l (
          scope_limits s.planning.warning_default s.planning.critical_default
            s.planning.limits_for_scope c.tenant_id scope id)
      → (evaluate_limit default_budget_policy f.nought l).outcome ≡ PolicyOutcome.block
      → ((execute s r c).0 ≡ budget_blocked)
        × (invocations (execute s r c).1 ≡ [])
        × (asks_tables (execute s r c).1 ≡ false)
        × (records (execute s r c).1 ≡ (if s.has_telemetry then Recorded.blocked ∷ [] else []))
  unfolding execute refusal
  execute-blocked scope id l m k e = (
    ap (λ t. t.0) run,
    execute_log.0 ∙ ap (λ t. invocations t.1) run ∙ refusal_log.0,
    asks_tables-append (plan s.planning r c).1 (run_plan s r (plan s.planning r c).0).1
          (plan_blocked s.planning r c blocks).1
        ∙ ap (λ t. asks_tables t.1) run
        ∙ refusal_log.1,
    execute_log.1 ∙ ap (λ t. records t.1) run ∙ refusal_log.2,
  )
    where
      blocks : is_block (outcome s.planning r c) ≡ true
      blocks = blocks_outcome scope id l m k e

      run : run_plan s r (plan s.planning r c).0 ≡ refusal
      run = run_refusal blocks

  -- A plan that is to be approved first, and that names a model: the call is made.
  approval_run :
      (p : ExecutionPlan F) (name : String)
      → p.budget_status ≡ PolicyOutcome.require_approval
      → p.selected_model_name ≡ some name
      → violation_of s.guardrails (λ g. g.check_input r.payload) ≡ none
      → run_plan s r p
        ≡ preceded
            (invoked (model_request r p name))
            (after_first s r p (s.generate 0 (model_request r p name)))
  unfolding run_plan run_open execute_plan
  approval_run p name h n v =
      ap
        (λ o.
          if is_block o
          then (budget_blocked, record_outcome s.has_telemetry Recorded.blocked none p)
          else run_open s r p p.selected_model_name)
        h
      ∙ ap (run_open s r p) n
      ∙ ap (execute_plan s r p name) v

  pub plan_status : (plan s.planning r c).0.budget_status ≡ outcome s.planning r c
  unfolding plan route
  plan_status = elim (Bool-cases (is_block (outcome s.planning r c))) [
    | inl e ↦ rw e refl
    | inr e ↦ rw e refl
  ]

  -- Where the budget decides REQUIRE_APPROVAL, a model is selected and the input guardrail finds
  -- nothing, the plan is not executable by its own test, and the gateway is invoked with its model
  -- all the same.
  pub execute-require_approval :
      (name : String)
      → outcome s.planning r c ≡ PolicyOutcome.require_approval
      → (plan s.planning r c).0.selected_model_name ≡ some name
      → violation_of s.guardrails (λ g. g.check_input r.payload) ≡ none
      → (is_executable (plan s.planning r c).0 ≡ false)
        × ((rest : List ModelRequest) × (invocations (execute s r c).1
              ≡ model_request r (plan s.planning r c).0 name ∷ rest))
  unfolding is_executable
  execute-require_approval name h n v = (
    ground (arith, plan_status),
    (
      _,
      execute_log.0
          ∙ ap (λ t. invocations t.1)
              (approval_run (plan s.planning r c).0 name (plan_status ∙ h) n v),
    ),
  )

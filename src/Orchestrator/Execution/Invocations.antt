-- ===== src/Orchestrator/Execution/Invocations.antt =====
-- Which models an execution calls, and how often.
use newchanges.Base.{
  ℕ, ◌≤◌, ◌≡◌, refl, sym, ap, ◌∙◌, arith, Bool, true, false, List, Option, none, some, String,
  Bool-cases, inl, inr, length, All,
}
use mathlib.Core.Path.{subst}
use newchanges.Base.Float.{Float}
use newchanges.Budget.Limit.{Decimal}
use newchanges.Gateway.Retry.{Outcome, returned, raised, GatewayError, error_code}
use newchanges.Lifecycle.Records.{RoutingPolicy}
use newchanges.Registry.{ModelRegistryEntry}
use newchanges.Orchestrator.Selection.{model_candidates, select_model}
use newchanges.Orchestrator.Selection.Choice.{
  IsAllowed, select_model_mem, model_candidates_sound, fallback_model_sound,
}
use newchanges.Orchestrator.Plan.{
  OrchestrationRequest, ExecutionPlan, ModelRequest, Recorded, Caller, and_then, load_policy,
  is_block, is_downgrade, route, plan,
}
use newchanges.Orchestrator.Execution.{
  Services, Response, Violation, model_request, record_outcome, after_output, finish,
  after_fallback, handle_failure, fallback_for, after_first, execute_plan, run_open, run_plan,
  execute,
}
use newchanges.Orchestrator.Execution.Log.{invocations, start, plan_open}
use newchanges.Orchestrator.Execution.Refusals.{execute_log, plan_status}

module _ {ℓ} {F : Type ℓ} ⦃f : Float F⦄ where
  -- A call of a registered, enabled model that is compatible with the workload.
  abbrev pub IsOnAllowed : List (ModelRegistryEntry F) → String → ModelRequest → Type ℓ
  IsOnAllowed rows workload_type q =
      (e : ModelRegistryEntry F) × IsAllowed rows workload_type e × (q.model ≡ e.model_name)

  -- A number of calls at most, each of an allowed model.
  abbrev pub AreAllowed : List (ModelRegistryEntry F) → String → ℕ → List ModelRequest → Type ℓ
  AreAllowed rows workload_type n qs = All (IsOnAllowed rows workload_type) qs × (length qs ≤ n)

  named_lem :
      (P : ModelRegistryEntry F → Type ℓ) (o : Option (ModelRegistryEntry F)) (name : String)
      → ((e : ModelRegistryEntry F) → o ≡ some e → P e)
      → and_then o (λ (e : ModelRegistryEntry F). some e.model_name) ≡ some name
      → (e : ModelRegistryEntry F) × P e × (name ≡ e.model_name)
  named_lem P none name h n = absurd (ground arith)
  named_lem P (some e) name h n = (e, h e refl, ground arith)

module _ {ℓ} {F : Type ℓ} ⦃f : Float F⦄ (s : Services F) (r : OrchestrationRequest F) where
  abbrev rows : List (ModelRegistryEntry F)
  rows = s.planning.registry

  record_quiet :
      (n : ℕ) (b : Bool) (o : Recorded) (w : Option String) (p : ExecutionPlan F)
      → AreAllowed rows r.workload_type n (invocations (record_outcome b o w p))
  record_quiet n true o w p = (tt, omega arith)
  record_quiet n false o w p = (tt, omega arith)

  output_quiet :
      (p : ExecutionPlan F) (b : Bool) (a : Response F) (v : Option Violation)
      → AreAllowed rows r.workload_type 0 (invocations (after_output s r p b a v).1)
  unfolding after_output
  output_quiet p b a none = record_quiet 0 s.has_telemetry Recorded.success none p
  output_quiet p b a (some v) = (tt, omega arith)

  fallback_quiet :
      (p : ExecutionPlan F) (e : ModelRegistryEntry F) (o : Outcome F (Response F))
      → AreAllowed rows r.workload_type 0 (invocations (after_fallback s r p e o).1)
  unfolding after_fallback
  fallback_quiet p e (returned a) = output_quiet _ true a _
  fallback_quiet p e (raised x) = (tt, omega arith)

  failure_calls :
      (p : ExecutionPlan F) (x : GatewayError F) (o : Option (ModelRegistryEntry F))
      → fallback_for s r p ≡ o
      → AreAllowed rows r.workload_type 1 (invocations (handle_failure s r p x o).1)
  unfolding handle_failure
  failure_calls p x none h = record_quiet 1 s.has_telemetry (Recorded.error (error_code x)) none p
  failure_calls p x (some e) h = ((allowed, q.0), omega (arith, q.1))
    where
      allowed : IsOnAllowed rows r.workload_type (model_request r p e.model_name)
      allowed = (
        e,
        (fallback_model_sound rows r.workload_type p.selected_model_id
            (is_downgrade p.budget_status) e h).0,
        refl,
      )

      q :
          AreAllowed rows r.workload_type 0
            (invocations (after_fallback s r p e (s.generate 1 (model_request r p e.model_name))).1)
      q = fallback_quiet p e (s.generate 1 (model_request r p e.model_name))

  first_calls :
      (p : ExecutionPlan F) (o : Outcome F (Response F))
      → AreAllowed rows r.workload_type 1 (invocations (after_first s r p o).1)
  unfolding after_first
  first_calls p (returned a) = (quiet.0, omega (arith, quiet.1))
    where
      quiet : AreAllowed rows r.workload_type 0 (invocations (finish s r p false a).1)
      quiet = output_quiet p false a _
  first_calls p (raised x) = failure_calls p x (fallback_for s r p) refl

  plan_calls :
      (p : ExecutionPlan F) (name : String) (v : Option Violation)
      → (e : ModelRegistryEntry F) × IsAllowed rows r.workload_type e × (name ≡ e.model_name)
      → AreAllowed rows r.workload_type 2 (invocations (execute_plan s r p name v).1)
  unfolding execute_plan
  plan_calls p name (some v) h =
      record_quiet 2 s.has_telemetry (Recorded.error v.code) (some v.decision) p
  plan_calls p name none h = ((h, q.0), omega (arith, q.1))
    where
      q :
          AreAllowed rows r.workload_type 1
            (invocations (after_first s r p (s.generate 0 (model_request r p name))).1)
      q = first_calls p (s.generate 0 (model_request r p name))

  open_calls :
      (p : ExecutionPlan F) (o : Option String)
      → ((name : String)
          → o ≡ some name
          → (e : ModelRegistryEntry F) × IsAllowed rows r.workload_type e × (name ≡ e.model_name))
      → AreAllowed rows r.workload_type 2 (invocations (run_open s r p o).1)
  unfolding run_open
  open_calls p none h = record_quiet 2 s.has_telemetry Recorded.no_model none p
  open_calls p (some name) h = plan_calls p name _ (h name refl)

module _ {ℓ} {F : Type ℓ} ⦃f : Float F⦄ ⦃d : Decimal F⦄ (s : Services F)
    (r : OrchestrationRequest F) (c : Caller) where
  -- the model that a plan names
  route_names :
      (p : ExecutionPlan F) (name : String)
      → (route s.planning r p).0.selected_model_name ≡ some name
      → (e : ModelRegistryEntry F) × IsAllowed s.planning.registry r.workload_type e
        × (name ≡ e.model_name)
  unfolding route
  route_names p name h =
      named_lem (IsAllowed s.planning.registry r.workload_type)
        (select_model (is_downgrade p.budget_status) found) name
        (λ e q.
          (model_candidates_sound s.planning.registry r.workload_type minimum pinned e
            (select_model_mem (is_downgrade p.budget_status) found e q)).0)
        h
    where
      policy : Option (RoutingPolicy F)
      policy = (load_policy s.planning.policies p.tenant_id r.workload_type p.complexity).0

      minimum : Option F
      minimum = and_then policy (λ (q : RoutingPolicy F). q.minimum_quality_score)

      pinned : Option String
      pinned = and_then policy (λ (q : RoutingPolicy F). q.selected_model_id)

      found : List (ModelRegistryEntry F)
      found = model_candidates s.planning.registry r.workload_type minimum pinned

  run_calls :
      (p : ExecutionPlan F)
      → (is_block p.budget_status ≡ false
          → (name : String) → p.selected_model_name ≡ some name
          → (e : ModelRegistryEntry F) × IsAllowed s.planning.registry r.workload_type e
            × (name ≡ e.model_name))
      → AreAllowed s.planning.registry r.workload_type 2 (invocations (run_plan s r p).1)
  unfolding run_plan
  run_calls p h = elim (Bool-cases (is_block p.budget_status)) [
    | inl e ↦ rw e (record_quiet s r 2 s.has_telemetry Recorded.blocked none p)
    | inr e ↦ rw e (open_calls s r p p.selected_model_name (h e))
  ]

  -- An execution invokes the gateway twice at most, and each time on a registered, enabled model
  -- that is compatible with the request's workload type.
  pub execute-invocations :
      All (IsOnAllowed s.planning.registry r.workload_type) (invocations (execute s r c).1)
      × (length (invocations (execute s r c).1) ≤ 2)
  execute-invocations =
      subst (AreAllowed s.planning.registry r.workload_type 2) (sym (execute_log s r c).0)
        (run_calls (plan s.planning r c).0 names)
    where
      names :
          is_block (plan s.planning r c).0.budget_status ≡ false
          → (name : String) → (plan s.planning r c).0.selected_model_name ≡ some name
          → (e : ModelRegistryEntry F) × IsAllowed s.planning.registry r.workload_type e
            × (name ≡ e.model_name)
      names b name h = route_names (start s.planning r c) name (
          ap (λ (q : ExecutionPlan F). q.selected_model_name)
            (sym (plan_open s.planning r c (ap is_block (sym (plan_status s r c)) ∙ b)))
          ∙ h)

-- ===== src/Orchestrator/Execution/Log.antt =====
-- What a list of actions says of the gateway, the recorder and the tables.
use newchanges.Base.{
  ◌≡◌, refl, arith, Bool, true, false, List, [], ◌∷◌, ◌++◌, Option, none, some, String, str_eq,
  Bool-cases, inl, inr, ◌⊎◌,
}
use newchanges.Base.Float.{Float}
use newchanges.Budget.{PolicyOutcome}
use newchanges.Budget.Limit.{Decimal}
use newchanges.Lifecycle.Records.{RoutingPolicy}
use newchanges.Orchestrator.Classification.{Complexity}
use newchanges.Orchestrator.Plan.{
  OrchestrationRequest, ExecutionPlan, ModelRequest, Recorded, Action, Caller, Collaborators,
  Workload, workload_lookup, budget_evaluated, policy_lookup, registry_query, invoked, recorded,
  load_workload, load_policy, budget_outcome, blank_plan, is_block, route, plan,
}

module _ {ℓ} {F : Type ℓ} where
  -- the model requests that went to the gateway
  abbrev pub invocations : List (Action F) → List ModelRequest
  invocations [] = []
  invocations (invoked q ∷ log) = q ∷ invocations log
  invocations (workload_lookup ∷ log) = invocations log
  invocations (budget_evaluated ∷ log) = invocations log
  invocations (policy_lookup ∷ log) = invocations log
  invocations (registry_query ∷ log) = invocations log
  invocations (recorded o d p ∷ log) = invocations log

  -- the outcomes that went to the recorder
  abbrev pub records : List (Action F) → List Recorded
  records [] = []
  records (recorded o d p ∷ log) = o ∷ records log
  records (invoked q ∷ log) = records log
  records (workload_lookup ∷ log) = records log
  records (budget_evaluated ∷ log) = records log
  records (policy_lookup ∷ log) = records log
  records (registry_query ∷ log) = records log

  -- whether the policies or the registry were asked
  abbrev pub asks_tables : List (Action F) → Bool
  asks_tables [] = false
  asks_tables (policy_lookup ∷ log) = true
  asks_tables (registry_query ∷ log) = true
  asks_tables (recorded o d p ∷ log) = asks_tables log
  asks_tables (invoked q ∷ log) = asks_tables log
  asks_tables (workload_lookup ∷ log) = asks_tables log
  asks_tables (budget_evaluated ∷ log) = asks_tables log

  pub asks_tables-append :
      (log rest : List (Action F))
      → asks_tables log ≡ false
      → asks_tables (log ++ rest) ≡ asks_tables rest
  asks_tables-append [] rest h = refl
  asks_tables-append (policy_lookup ∷ log) rest h = absurd (ground arith)
  asks_tables-append (registry_query ∷ log) rest h = absurd (ground arith)
  asks_tables-append (recorded o d p ∷ log) rest h = asks_tables-append log rest h
  asks_tables-append (invoked q ∷ log) rest h = asks_tables-append log rest h
  asks_tables-append (workload_lookup ∷ log) rest h = asks_tables-append log rest h
  asks_tables-append (budget_evaluated ∷ log) rest h = asks_tables-append log rest h

  -- A log with no call of the gateway and no record.
  pub record IsQuiet (log : List (Action F)) : Type 0 where
    pub no_invocations : invocations log ≡ []
    pub no_records : records log ≡ []

  -- What comes after a quiet log.
  pub quiet-append :
      (log rest : List (Action F))
      → IsQuiet log
      → (invocations (log ++ rest) ≡ invocations rest) × (records (log ++ rest) ≡ records rest)
  quiet-append [] rest q = (refl, refl)
  quiet-append (workload_lookup ∷ log) rest q =
      quiet-append log rest
        (record { no_invocations = q.no_invocations; no_records = q.no_records })
  quiet-append (budget_evaluated ∷ log) rest q =
      quiet-append log rest
        (record { no_invocations = q.no_invocations; no_records = q.no_records })
  quiet-append (policy_lookup ∷ log) rest q =
      quiet-append log rest
        (record { no_invocations = q.no_invocations; no_records = q.no_records })
  quiet-append (registry_query ∷ log) rest q =
      quiet-append log rest
        (record { no_invocations = q.no_invocations; no_records = q.no_records })
  quiet-append (invoked r ∷ log) rest q = absurd (ground (arith, q.no_invocations))
  quiet-append (recorded o d p ∷ log) rest q = absurd (ground (arith, q.no_records))

  -- The lookups of a workload: one or none.
  pub load_workload_log :
      (get : Option (String → Option (Option Workload))) (id : Option String)
      → ((load_workload {F = F} get id).1 ≡ [])
        ⊎ ((load_workload {F = F} get id).1 ≡ workload_lookup ∷ [])
  unfolding load_workload
  load_workload_log none id = inl refl
  load_workload_log (some get) none = inl refl
  load_workload_log (some get) (some id) = elim (Bool-cases (str_eq id "")) [
    | inl e ↦ inl (rw e refl)
    | inr e ↦ inr (rw e refl)
  ]

  pub load_policy_log :
      (rows : Option (List (RoutingPolicy F))) (tenant workload_type : String) (c : Complexity)
      → ((load_policy rows tenant workload_type c).1 ≡ [])
        ⊎ ((load_policy rows tenant workload_type c).1 ≡ policy_lookup ∷ [])
  unfolding load_policy
  load_policy_log none tenant workload_type c = inl refl
  load_policy_log (some rows) tenant workload_type c = inr refl

module _ {ℓ} {F : Type ℓ} ⦃f : Float F⦄ ⦃d : Decimal F⦄ (k : Collaborators F)
    (r : OrchestrationRequest F) (c : Caller) where
  abbrev pub workload : Option Workload
  workload = (load_workload {F = F} k.workloads r.workload_id).0

  abbrev pub outcome : PolicyOutcome
  outcome = budget_outcome k r c workload

  -- the plan at the budget check
  abbrev pub start : ExecutionPlan F
  start = blank_plan r c workload k.thresholds outcome

  pub plan-IsQuiet : IsQuiet (plan k r c).1
  unfolding plan route
  plan-IsQuiet = elim (load_workload_log {F = F} k.workloads r.workload_id) [
    | inl e ↦ elim (load_policy_log k.policies c.tenant_id r.workload_type start.complexity) [
      | inl z ↦ elim (Bool-cases (is_block outcome)) [ inl b ↦ ground arith | inr b ↦ ground arith ]
      | inr z ↦ elim (Bool-cases (is_block outcome)) [ inl b ↦ ground arith | inr b ↦ ground arith ]
    ]
    | inr e ↦ elim (load_policy_log k.policies c.tenant_id r.workload_type start.complexity) [
      | inl z ↦ elim (Bool-cases (is_block outcome)) [ inl b ↦ ground arith | inr b ↦ ground arith ]
      | inr z ↦ elim (Bool-cases (is_block outcome)) [ inl b ↦ ground arith | inr b ↦ ground arith ]
    ]
  ]

  pub plan_blocked :
      is_block outcome ≡ true → ((plan k r c).0 ≡ start) × (asks_tables (plan k r c).1 ≡ false)
  unfolding plan
  plan_blocked h = elim (load_workload_log {F = F} k.workloads r.workload_id) [
    | inl e ↦ ground arith
    | inr e ↦ ground arith
  ]

  pub plan_open : is_block outcome ≡ false → (plan k r c).0 ≡ (route k r start).0
  unfolding plan
  plan_open h = ground arith

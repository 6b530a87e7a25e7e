-- ===== src/Lifecycle/Tests.antt =====
-- Runs of the policy lifecycle over whole numbers, and its theorems at concrete inputs.
use newchanges.Base.{
  ℕ, ◌≡◌, refl, true, false, if◌then◌else◌, [], ◌∷◌, ◌++◌, none, some, str_eq, arith,
}
use newchanges.Base.Sample.{nat_float}
use newchanges.Security.Permission.{Role}
use newchanges.Security.Principal.{Principal, ScopeType}
use newchanges.Lifecycle.Records.{
  OptimizationStatus, OptimizationRiskLevel, PolicyStatus, Recommendation, RoutingPolicy, Database,
  get_active_policy, with_status,
}
use newchanges.Lifecycle.Approval.{done, Settings, Decision, approve_recommendation, decided}
use newchanges.Lifecycle.Approval.Gating.{IsDecision, approve_recommendation-IsDecision}
use newchanges.Lifecycle.Activation.{WorkloadTypes, Activate, apply_policy, rollback_policy}
use newchanges.Lifecycle.Activation.Versions.{IsActivation, apply_policy-IsActivation}
use newchanges.Lifecycle.Activation.Superseded.{OneLive}
use newchanges.Lifecycle.Activation.Live.{apply_policy-OneLive}
use newchanges.Lifecycle.Activation.Rollback.{revive, rollback_policy-apply_policy}

abbrev approver : Principal
approver = record {
  subject = "fay";
  tenant_id = "acme";
  assignments =
      record { role = Role.finops_manager; scope_type = ScopeType.tenant; scope_id = "acme" } ∷ [];
}

abbrev proposal : Recommendation ℕ
proposal = record {
  id = "rec-1";
  tenant_id = "acme";
  workload_id = some "wl-1";
  recommended_strategy = some "use the smaller model";
  estimated_saving = some 40;
  risk_level = some OptimizationRiskLevel.medium;
  recommendation_reason = some "most inputs are short";
  status = OptimizationStatus.pending_approval;
  applied_policy_id = none;
  superseded_policy_id = none;
  approved_at = none;
  applied_at = none;
  rolled_back_at = none;
  approved_by = none;
}

abbrev first_policy : RoutingPolicy ℕ
first_policy = record {
  id = "pol-1";
  tenant_id = "acme";
  workload_type = "quality_check";
  complexity = "medium";
  business_priority = some "NORMAL";
  selected_model_id = some "model-a";
  selected_agent_id = none;
  max_context_tokens = none;
  max_tool_calls = none;
  minimum_quality_score = none;
  version = 3;
  status = PolicyStatus.active;
  canary_traffic_percent = none;
  reason = none;
  created_by = some "ann";
  approved_by = none;
  activated_at = none;
}

abbrev before : Database ℕ
before = record {
  recommendations = proposal ∷ [];
  policies = first_policy ∷ [];
  audits = [];
  events = [];
}

abbrev settings : Settings
settings = record { auto_approve_low_risk = true; has_audit = true }

abbrev consent : Decision ℕ
consent = record {
  principal = some approver;
  approved = true;
  reason = "";
  auto_approve_override = false;
  at = 100;
}

abbrev nobody : Decision ℕ
nobody = record consent { principal = none }

abbrev approved_row : Recommendation ℕ
approved_row = decided consent proposal

abbrev ready : Database ℕ
ready = record before { recommendations = approved_row ∷ [] }

abbrev workload_types : WorkloadTypes
workload_types = some λ id. if str_eq id "wl-1" then some "quality_check" else none

abbrev activation : Activate ℕ
activation = record {
  principal = some approver;
  is_canary = false;
  canary_traffic_percent = none;
  reason = "";
  at = 110;
  new_id = "pol-2";
}

abbrev canary_activation : Activate ℕ
canary_activation = record activation { is_canary = true; canary_traffic_percent = some 10 }

abbrev second_policy : RoutingPolicy ℕ
second_policy = record first_policy {
  id = "pol-2";
  selected_model_id = none;
  version = 4;
  reason = some "most inputs are short";
  created_by = some "fay";
  approved_by = some "fay";
  activated_at = some 110;
}

abbrev applied_row : Recommendation ℕ
applied_row = record approved_row {
  status = OptimizationStatus.applied;
  applied_policy_id = some "pol-2";
  superseded_policy_id = some "pol-1";
  applied_at = some 110;
}

apply-answer :
    (apply_policy workload_types "rec-1" activation ready).0 ≡ done (applied_row, second_policy)
unfolding apply_policy
apply-answer = refl

approve-answer : (approve_recommendation settings "rec-1" consent before).0 ≡ done approved_row
unfolding approve_recommendation
approve-answer = refl

one_live : OneLive ready.policies
one_live tenant kind complexity = ground arith

approve_recommendation-IsDecision_example :
    (rec : Recommendation ℕ) × IsDecision settings "rec-1" consent before rec approved_row
      (approve_recommendation settings "rec-1" consent before).1
approve_recommendation-IsDecision_example =
    approve_recommendation-IsDecision settings "rec-1" consent before approved_row approve-answer

apply_policy-IsActivation_example :
    (rec : Recommendation ℕ) × IsActivation workload_types "rec-1" activation ready rec applied_row
      second_policy
      (apply_policy workload_types "rec-1" activation ready).1
apply_policy-IsActivation_example =
    apply_policy-IsActivation workload_types "rec-1" activation ready applied_row second_policy
      apply-answer

apply_policy-OneLive_example :
    OneLive (apply_policy workload_types "rec-1" activation ready).1.policies
apply_policy-OneLive_example = apply_policy-OneLive workload_types "rec-1" activation ready one_live

rollback_policy-apply_policy_example :
    (rollback_policy "rec-1" 120
      (apply_policy workload_types "rec-1" activation ready).1).1.policies
    ≡ revive (get_active_policy "acme" "quality_check" "medium" ready.policies) ready.policies
      ++ with_status PolicyStatus.rolled_back second_policy ∷ []
rollback_policy-apply_policy_example =
    rollback_policy-apply_policy workload_types "rec-1" activation ready applied_row second_policy
      120 apply-answer refl (refl, tt)

-- ===== src/Lifecycle/Approval.antt =====
-- `approve_recommendation` of app/services/policy_lifecycle.py.
pub mod Gating
use Prim.Native.String.{◌++◌ as append}
use newchanges.Base.{
  ℕ, Bool, true, false, ◌&&◌, ◌||◌, if◌then◌else◌, Option, none, some, String, str_eq, List, [],
  ◌∷◌, ◌++◌, any,
}
use newchanges.Base.Audit.{Trail, authorization_denied}
use newchanges.Security.Permission.{Role}
use newchanges.Security.Principal.{Principal, holds_one_of}
use newchanges.Lifecycle.Records.{
  OptimizationStatus, OptimizationRiskLevel, Recommendation, AuditRecord, Database,
  find_recommendation, write_recommendation,
}

-- `ValueError`, `PolicyConflictError` and `PolicyAuthorizationError`
pub data PolicyError : Type 0 where
  not_found conflict not_authorized : PolicyError

pub data Answer {ℓ} (A : Type ℓ) : Type ℓ where
  done : A → Answer A
  refused : PolicyError → Answer A

-- The service's settings: `auto_approve_low_risk`, and whether it has an audit service.
pub record Settings : Type 0 where
  pub auto_approve_low_risk : Bool
  pub has_audit : Bool

-- The arguments of a decision; `at` is the time that it reads.
pub record Decision {ℓ} (F : Type ℓ) : Type ℓ where
  pub principal : Option Principal
  pub approved : Bool
  pub reason : String
  pub auto_approve_override : Bool
  pub at : F

abbrev pub is_low : Option OptimizationRiskLevel → Bool
is_low (some OptimizationRiskLevel.low) = true
is_low _ = false

-- `any(assignment.role in (Role.FINOPS_MANAGER, Role.ADMIN) for ...)`
unfoldable pub has_approval_role : Principal → Bool
has_approval_role p = any (holds_one_of (Role.finops_manager ∷ Role.admin ∷ [])) p.assignments

abbrev pub text_of : Option String → String
text_of none = "None"
text_of (some x) = x

module _ {ℓ} {F : Type ℓ} where
  abbrev pub can_auto_approve : Settings → Decision F → Recommendation F → Bool
  can_auto_approve s d rec =
      (s.auto_approve_low_risk || d.auto_approve_override) && is_low rec.risk_level

  abbrev pub approver : Decision F → String
  approver d = elim d.principal [ none ↦ "system_auto_approver" | some p ↦ p.subject ]

  -- the assignments to the row
  abbrev pub decided : Decision F → Recommendation F → Recommendation F
  decided d rec =
      if d.approved
      then record rec {
        status = OptimizationStatus.approved;
        approved_at = some d.at;
        approved_by = some (approver d);
      }
      else record rec {
        status = OptimizationStatus.rejected;
        recommendation_reason = some (
            append (text_of rec.recommendation_reason)
              (append " [REJECTED: " (append d.reason "]")));
      }

  -- `_audit_decision`
  abbrev pub audited :
      Settings → Decision F → Recommendation F → List AuditRecord → List AuditRecord
  audited s d rec audits =
      if s.has_audit
      then audits
        ++ record {
          is_approval = d.approved;
          tenant_id = rec.tenant_id;
          resource_id = rec.id;
          user_id = approver d;
          status = (decided d rec).status;
          risk_level = rec.risk_level;
          reason = if str_eq d.reason "" then none else some d.reason;
        }
          ∷ []
      else audits

  abbrev pub decide_on :
      Settings → Decision F → Recommendation F → Database F → Answer (Recommendation F) × Database F
  decide_on s d rec db = (
    done (decided d rec),
    record db {
      recommendations = write_recommendation rec.id (decided d) db.recommendations;
      audits = audited s d rec db.audits;
    },
  )

  abbrev denied : Database F → Answer (Recommendation F) × Database F
  denied db = (
    refused PolicyError.not_authorized,
    record db {
      events =
          record { name = authorization_denied; reason = "approval_role_required" } ∷ db.events;
    },
  )

  unfoldable pub approve_recommendation :
      Settings → String → Decision F → Database F → Answer (Recommendation F) × Database F
  unfolding find_recommendation write_recommendation has_approval_role
  approve_recommendation s id d db = elim (find_recommendation id db.recommendations) [
    | none ↦ (refused PolicyError.not_found, db)
    | some rec ↦ if can_auto_approve s d rec then decide_on s d rec db else elim d.principal [
      | none ↦ (refused PolicyError.not_authorized, db)
      | some p ↦ if has_approval_role p then decide_on s d rec db else denied db
    ]
  ]

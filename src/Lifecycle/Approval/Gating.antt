-- ===== src/Lifecycle/Approval/Gating.antt =====
-- Who may decide on a recommendation, and what a decision leaves.
use newchanges.Base.{
  List, [], ◌∷◌, Bool, Option, none, any, ◌||◌, ◌+◌, true, if◌then◌else◌, some, String, length,
  length-append, ◌≡◌, ◌⊎◌, inl, inr, refl, sym, ap, ◌∙◌, arith, Bool-cases, Option-cases,
}
use mathlib.Core.Path.{subst}
use newchanges.Security.Permission.{Role, role_eq}
use newchanges.Security.Principal.{Principal, RoleAssignment, holds_one_of}
use newchanges.Lifecycle.Records.{
  Recommendation, Database, OptimizationRiskLevel, OptimizationStatus, find_recommendation,
  write_recommendation,
}
use newchanges.Lifecycle.Records.Lookup.{find_recommendation-id, find-write_recommendation}
use newchanges.Lifecycle.Approval.{
  PolicyError, done, refused, Settings, Decision, approve_recommendation, has_approval_role,
  can_auto_approve, decided, decide_on, is_low,
}

-- the assignment is of the role FINOPS_MANAGER or ADMIN
abbrev pub holds_approval_role : RoleAssignment → Bool
holds_approval_role a = role_eq a.role Role.finops_manager || role_eq a.role Role.admin

has_approval_role-any :
    (p : Principal) → has_approval_role p ≡ any holds_approval_role p.assignments
unfolding has_approval_role
has_approval_role-any p = over p.assignments
  where
    over :
        (l : List RoleAssignment)
        → any (holds_one_of (Role.finops_manager ∷ Role.admin ∷ [])) l ≡ any holds_approval_role l
    over [] = refl
    over (a ∷ l) = ground (arith, over l)

is_low-eq :
    (risk : Option OptimizationRiskLevel)
    → is_low risk ≡ true
    → risk ≡ some OptimizationRiskLevel.low
is_low-eq none h = cc
is_low-eq (some OptimizationRiskLevel.low) h = refl
is_low-eq (some OptimizationRiskLevel.medium) h = cc
is_low-eq (some OptimizationRiskLevel.high) h = cc
is_low-eq (some OptimizationRiskLevel.critical) h = cc

module _ {ℓ} {F : Type ℓ} (s : Settings) (id : String) (d : Decision F) (db : Database F) where
  -- somebody who may decide, or a LOW risk that the settings or the caller let through
  abbrev pub MayDecide : Recommendation F → Type 0
  MayDecide rec =
      (((s.auto_approve_low_risk || d.auto_approve_override) ≡ true)
        × (rec.risk_level ≡ some OptimizationRiskLevel.low))
      ⊎ ((p : Principal) × (d.principal ≡ some p) × (any holds_approval_role p.assignments ≡ true))

  -- The decision on the row `rec`, and what it changed: that row, and one audit record where
  -- there is an audit service.
  pub record IsDecision (rec r : Recommendation F) (db' : Database F) : Type ℓ where
    pub found : find_recommendation id db.recommendations ≡ some rec
    pub allowed : MayDecide rec
    pub answer : r ≡ decided d rec
    pub decision :
        r.status ≡ (if d.approved then OptimizationStatus.approved else OptimizationStatus.rejected)
    pub kept : (r.risk_level ≡ rec.risk_level) × (r.applied_policy_id ≡ rec.applied_policy_id)
    pub stored : find_recommendation id db'.recommendations ≡ some r
    pub audits : length db'.audits ≡ length db.audits + (if s.has_audit then 1 else 0)
    pub policies : db'.policies ≡ db.policies

  decided-id : (x : Recommendation F) → (decided d x).id ≡ x.id
  decided-id x = ground arith

  done_inj : (a b : Recommendation F) → done a ≡ done b → a ≡ b
  done_inj a b e = cc

  decides :
      (rec : Recommendation F)
      → find_recommendation id db.recommendations ≡ some rec
      → MayDecide rec
      → approve_recommendation s id d db ≡ decide_on s d rec db
  unfolding approve_recommendation
  decides rec found (inl (auto, low)) = ground arith
  decides rec found (inr (p, e, k)) = ground (arith, has_approval_role-any p)

  decides_only :
      (rec r : Recommendation F)
      → find_recommendation id db.recommendations ≡ some rec
      → (approve_recommendation s id d db).0 ≡ done r
      → MayDecide rec
  unfolding approve_recommendation
  decides_only rec r found e = elim (Bool-cases (can_auto_approve s d rec)) [
    | inl auto ↦ inl (ground (arith, auto), is_low-eq rec.risk_level (ground (arith, auto)))
    | inr manual ↦ elim (Option-cases d.principal) [
      | inl anonymous ↦ ground arith
      | inr (p, k) ↦ elim (Bool-cases (has_approval_role p)) [
        | inl role ↦ inr (p, k, sym (has_approval_role-any p) ∙ role)
        | inr none_held ↦ ground arith
      ]
    ]
  ]

  decide_on-IsDecision :
      (rec : Recommendation F)
      → find_recommendation id db.recommendations ≡ some rec
      → MayDecide rec
      → IsDecision rec (decided d rec) (decide_on s d rec db).1
  decide_on-IsDecision rec found may = record {
    found = found;
    allowed = may;
    answer = refl;
    decision = ground arith;
    kept = (ground arith, ground arith);
    stored =
        subst
          (λ k.
            find_recommendation id (write_recommendation k (decided d) db.recommendations)
            ≡ some (decided d rec))
          (sym (find_recommendation-id id db.recommendations rec found))
          (find-write_recommendation id (decided d) db.recommendations rec decided-id found);
    audits = elim (Bool-cases s.has_audit) [
      | inl on ↦ rw on (length-append db.audits _)
      | inr off ↦ rw off (omega arith)
    ];
    policies = refl;
  }

  -- A decision that goes through was on an existing recommendation, taken by a caller with the role
  -- FINOPS_MANAGER or ADMIN unless the risk is LOW and automatic approval is on; it changes the
  -- recommendation as asked and adds one audit record where there is an audit service.
  pub approve_recommendation-IsDecision :
      (r : Recommendation F)
      → (approve_recommendation s id d db).0 ≡ done r
      → (rec : Recommendation F) × IsDecision rec r (approve_recommendation s id d db).1
  unfolding approve_recommendation
  approve_recommendation-IsDecision r e =
      elim (Option-cases (find_recommendation id db.recommendations)) [
        | inl missing ↦ ground (arith, missing)
        | inr (rec, found) ↦ (rec, of_row rec found (decides_only rec r found e))
      ]
    where
      of_row :
          (rec : Recommendation F)
          → find_recommendation id db.recommendations ≡ some rec
          → MayDecide rec
          → IsDecision rec r (approve_recommendation s id d db).1
      of_row rec found may = rw (decides rec found may) (
          subst (λ x. IsDecision rec x (decide_on s d rec db).1) same
            (decide_on-IsDecision rec found may))
        where
          same : decided d rec ≡ r
          same = done_inj (decided d rec) r (sym (ap (λ x. x.0) (decides rec found may)) ∙ e)

  -- A refusal changes no row and no audit record.
  pub approve_recommendation-refused :
      (e : PolicyError)
      → (approve_recommendation s id d db).0 ≡ refused e
      → ((approve_recommendation s id d db).1.recommendations ≡ db.recommendations)
        × ((approve_recommendation s id d db).1.policies ≡ db.policies)
        × ((approve_recommendation s id d db).1.audits ≡ db.audits)
  unfolding approve_recommendation
  approve_recommendation-refused e h = ground arith

  -- Where the recommendation exists and the caller holds an approval role, the decision goes
  -- through whatever the recommendation's status is.
  pub approve_recommendation-any_status :
      (rec : Recommendation F) (p : Principal)
      → find_recommendation id db.recommendations ≡ some rec
      → d.principal ≡ some p
      → has_approval_role p ≡ true
      → (approve_recommendation s id d db).0 ≡ done (decided d rec)
  unfolding approve_recommendation
  approve_recommendation-any_status rec p f k a = ground arith

-- ===== src/Security/Scope/Filter.antt =====
-- The shape of a resolved scope, and the SQL predicate of app/repositories/scope_filter.py.
use newchanges.Base.{
  ◌≡◌, refl, false, List, [], ◌∷◌, any, is_empty, arith, inl, inr, ◌&&◌, str_eq, eq_iff, Bool-cases,
  String, Option, none, some,
}
use mathlib.Core.Path.{subst}
use newchanges.Base.Audit.{Audited, Trail, Result, ok, err, ◌>>=◌}
use newchanges.Security.Permission.{Permission}
use newchanges.Security.Principal.{Principal, ResourceScope, assignments_granting}
use newchanges.Security.Scope.{
  ScopeConstraint, AuthorizedScope, branch_covers, covers, plant_branches, department_branches,
  narrowed_to_plant, narrowed_to_department, granted_scope, resolve_authorized_scope, when_given,
  tenant_filter, scope_filter, branch_predicates, make_scope, client_filters, distinct, collapse,
  scope_branches,
}
use newchanges.Security.Scope.Agreement.{
  OfTenant, OfTenant-scope_branches, OfTenant-collapse, OfTenant-distinct_from,
}

-- The branches are of the scope's own tenant, which is `t`, and there is at least one.
pub record IsScopeOf (t : String) (s : AuthorizedScope) : Type 0 where
  pub tenant : s.tenant_id ≡ t
  pub branches_of : OfTenant t s.branches
  pub non_empty : is_empty s.branches ≡ false

abbrev pub Resolves : String → Result AuthorizedScope → Type 0
Resolves t (ok s) = IsScopeOf t s
Resolves t (err e) = Unit

Resolves-make_scope :
    (t : String) (bs : List ScopeConstraint) (trail : Trail)
    → OfTenant t bs
    → Resolves t (make_scope t bs trail).0
Resolves-make_scope t [] trail h = tt
Resolves-make_scope t (b ∷ bs) trail h = record { tenant = refl; branches_of = h; non_empty = refl }

OfTenant-plant_branches :
    (t k : String) (bs : List ScopeConstraint) → OfTenant t bs → OfTenant t (plant_branches k bs)
unfolding plant_branches
OfTenant-plant_branches t k [] h = tt
OfTenant-plant_branches t k (b ∷ bs) h = ground (arith, OfTenant-plant_branches t k bs h.1)

OfTenant-department_branches :
    (t k : String) (bs : List ScopeConstraint)
    → OfTenant t bs
    → OfTenant t (department_branches k bs)
unfolding department_branches
OfTenant-department_branches t k [] h = tt
OfTenant-department_branches t k (b ∷ bs) h =
    ground (arith, OfTenant-department_branches t k bs h.1)

Resolves-narrowed_to_plant :
    (t k : String) (s : AuthorizedScope) (trail : Trail)
    → IsScopeOf t s
    → Resolves t (narrowed_to_plant s k trail).0
unfolding narrowed_to_plant
Resolves-narrowed_to_plant t k s trail h =
    elim (Bool-cases (is_empty (plant_branches k s.branches))) [
      | inl e ↦ rw e tt
      | inr e ↦
          rw (e, h.tenant)
            (Resolves-make_scope t (plant_branches k s.branches) trail
              (OfTenant-plant_branches t k s.branches h.branches_of))
    ]

Resolves-narrowed_to_department :
    (t k : String) (s : AuthorizedScope) (trail : Trail)
    → IsScopeOf t s
    → Resolves t (narrowed_to_department s k trail).0
unfolding narrowed_to_department
Resolves-narrowed_to_department t k s trail h =
    elim (Bool-cases (is_empty (department_branches k s.branches))) [
      | inl e ↦ rw e tt
      | inr e ↦
          rw (e, h.tenant)
            (Resolves-make_scope t (department_branches k s.branches) trail
              (OfTenant-department_branches t k s.branches h.branches_of))
    ]

Resolves-granted_scope :
    (p : Principal) (permission : Permission) (trail : Trail)
    → Resolves p.tenant_id (granted_scope p permission trail).0
unfolding granted_scope distinct
Resolves-granted_scope p permission trail = ground (
  arith,
  Resolves-make_scope p.tenant_id (distinct (collapse p.tenant_id branches)) trail (
      OfTenant-distinct_from p.tenant_id [] (collapse p.tenant_id branches) (
        OfTenant-collapse p.tenant_id branches
          (OfTenant-scope_branches p.tenant_id (assignments_granting p permission)))),
)
  where
    branches : List ScopeConstraint
    branches = scope_branches p.tenant_id (assignments_granting p permission)

Resolves-bind {ℓ} :
    {A : Type ℓ} (P : Result A → Type 0) (t : String) (m : Result A × Trail)
    (f : A → Audited AuthorizedScope)
    → P m.0
    → ((a : A) (trail : Trail) → P (ok a) → Resolves t (f a trail).0)
    → Resolves t (((λ trail. m) >>= f) []).0
Resolves-bind P t (ok a, trail) f h k = k a trail h
Resolves-bind P t (err e, trail) f h k = tt

Resolves-filter :
    (t : String) (filter : Option String)
    (narrow : AuthorizedScope → String → Audited AuthorizedScope)
    → ((k : String) (s : AuthorizedScope) (trail : Trail)
        → IsScopeOf t s
        → Resolves t (narrow s k trail).0)
    → (s : AuthorizedScope) (trail : Trail) → IsScopeOf t s
    → Resolves t (when_given filter narrow s trail).0
Resolves-filter t none narrow keep s trail h = h
Resolves-filter t (some k) narrow keep s trail h = keep k s trail h

module _ (p : Principal) (permission : Permission) (tenant plant department : Option String)
    (t : Trail) where
  -- Whatever the request asks for, a resolved scope has at least one branch, and the scope and
  -- every branch of it are of the authenticated tenant.
  pub resolve_authorized_scope-IsScopeOf :
      Resolves p.tenant_id (resolve_authorized_scope p permission tenant plant department t).0
  unfolding resolve_authorized_scope
  resolve_authorized_scope-IsScopeOf =
      Resolves-bind (λ x. Unit {0}) p.tenant_id (tenant_filter p tenant t)
        (λ _. granted_scope p permission >>= client_filters plant department) tt
        λ _ trail _.
          Resolves-bind (Resolves p.tenant_id) p.tenant_id (granted_scope p permission trail)
            (client_filters plant department) (Resolves-granted_scope p permission trail)
            λ s trail' h.
              Resolves-bind (Resolves p.tenant_id) p.tenant_id
                (when_given plant narrowed_to_plant s trail')
                (when_given department narrowed_to_department)
                (Resolves-filter p.tenant_id plant narrowed_to_plant
                  (Resolves-narrowed_to_plant p.tenant_id) s trail' h)
                (Resolves-filter p.tenant_id department narrowed_to_department
                  (Resolves-narrowed_to_department p.tenant_id))

branch_predicates-covers :
    (t : String) (r : ResourceScope) (bs : List ScopeConstraint)
    → OfTenant t bs
    → (str_eq r.tenant_id t && branch_predicates r bs) ≡ any (branch_covers r) bs
unfolding branch_predicates
branch_predicates-covers t r [] h = ground arith
branch_predicates-covers t r (b ∷ bs) h = ground (
  arith,
  branch_predicates-covers t r bs h.1,
  eq_iff r.tenant_id t,
  eq_iff r.tenant_id b.tenant_id,
)

scope_filter-covers :
    (t : String) (s : AuthorizedScope) (r : ResourceScope)
    → IsScopeOf t s
    → scope_filter s r ≡ covers s r
unfolding scope_filter covers
scope_filter-covers t s r h = rw h.tenant (branch_predicates-covers t r s.branches h.branches_of)

-- The rows that the SQL predicate of a resolved scope lets through are those that the scope covers.
pub scope_filter-eq-covers :
    (p : Principal) (permission : Permission) (tenant plant department : Option String) (t : Trail)
    (s : AuthorizedScope) (r : ResourceScope)
    → (resolve_authorized_scope p permission tenant plant department t).0 ≡ ok s
    → scope_filter s r ≡ covers s r
scope_filter-eq-covers p permission tenant plant department t s r e =
    scope_filter-covers p.tenant_id s r (
      subst (Resolves p.tenant_id) e
        (resolve_authorized_scope-IsScopeOf p permission tenant plant department t))
